-- ===== src/Embedder.antt =====
-- `Embedder::Encode` of engine/src/embedder.cc: what it does with the output of the model. The run of
-- the ONNX session is a parameter.
pub mod Pooling
pub mod Instance
pub mod WarmUp
use semantic_sentinel.Base.{
  ℕ, zero, suc, ◌+◌, ◌*◌, Bool, not, ltb, leb, ◌==◌, if◌then◌else◌, List, [], ◌∷◌,
}
use semantic_sentinel.Constant.{vector_dim}
use semantic_sentinel.Float.{Floats}
use semantic_sentinel.Result.{
  Result, ok, thrown, chain, bad_alloc, batching_unsupported, empty_sequence,
  unexpected_vector_length, degenerate_vector,
}

-- The output tensor: its shape and its data, row by row.
pub record Output (F : Type 0) : Type 0 where
  pub batch : ℕ
  pub seq_length : ℕ
  pub vec_dimension : ℕ
  pub float_array : ℕ → F

-- The bytes that a reader of `prompt.c_str()` sees: it stops at the first zero.
unfoldable pub c_str : List ℕ → List ℕ
c_str [] = []
c_str (byte ∷ rest) = let seen = c_str rest in if byte == 0 then [] else byte ∷ seen

-- `NewAlignedVector` of engine/include/raii_vector.hh, for `dim` floats of four bytes.
-- `aligned_alloc` says whether it finds memory of that alignment and size, whose content is not
-- looked at: the caller clears it.
unfoldable pub new_aligned_vector : (ℕ → ℕ → Bool) → ℕ → Result (Unit {0})
new_aligned_vector aligned_alloc dim =
    if aligned_alloc 32 (dim * 4) then ok tt else thrown bad_alloc

module _ {F : Type 0} ⦃fl : Floats F⦄ where
  -- What one element of the buffer holds after the outer loop has added `count` rows from row `i` to
  -- it: the two loops touch each element once for each row, in the order of the rows.
  unfoldable pub add_rows : Output F → ℕ → ℕ → ℕ → F → F
  add_rows output zero i j sum = sum
  add_rows output (suc count) i j sum =
      add_rows output count (i + 1) j
        (fl.add sum (output.float_array (i * output.vec_dimension + j)))

  -- Mean pooling.
  unfoldable pub mean_pooling : Output F → ℕ → F
  mean_pooling output j =
      fl.div (add_rows output output.seq_length 0 j fl.zero_float) (fl.of_size output.seq_length)

  -- The loop that adds up the squares of `count` elements from element `i`.
  unfoldable pub add_squares : (ℕ → F) → ℕ → ℕ → F → F
  add_squares v zero i sum_sq = sum_sq
  add_squares v (suc count) i sum_sq =
      add_squares v count (i + 1) (fl.add sum_sq (fl.mul (v i) (v i)))

  -- L2 normalization.
  unfoldable pub normalize : ℕ → (ℕ → F) → Result (ℕ → F)
  normalize vec_dimension v =
      let sum_sq = add_squares v vec_dimension 0 fl.zero_float in
      let inv_magnitude = fl.div fl.one_float (fl.sqrt sum_sq) in
      if fl.lt sum_sq fl.tiny then thrown degenerate_vector else ok λ i. fl.mul (v i) inv_magnitude

  -- What follows the run of the session.
  unfoldable pub pool : (ℕ → ℕ → Bool) → Output F → Result (ℕ → F)
  unfolding new_aligned_vector
  pool aligned_alloc output =
      if not (output.batch == 1)
      then thrown batching_unsupported
      else if output.seq_length == 0
      then thrown empty_sequence
      else if not (output.vec_dimension == vector_dim)
      then thrown unexpected_vector_length
      else chain (new_aligned_vector aligned_alloc output.vec_dimension)
          λ cleared. normalize output.vec_dimension (mean_pooling output)

  -- The whole function: an exception of the run passes through. The session is given the prompt as a C string.
  unfoldable pub encode : (List ℕ → Result (Output F)) → (ℕ → ℕ → Bool) → List ℕ → Result (ℕ → F)
  encode session_run aligned_alloc prompt = chain (session_run (c_str prompt)) (pool aligned_alloc)
