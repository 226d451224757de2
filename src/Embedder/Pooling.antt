-- ===== src/Embedder/Pooling.antt =====
-- The errors of `Embedder::Encode` in engine/src/embedder.cc, what it reads of the prompt, and the
-- length of its vector with exact arithmetic.
use semantic_sentinel.Base.{
  ℕ, zero, suc, ◌+◌, ◌≡◌, ◌≢◌, ◌⊎◌, inl, inr, refl, sym, ◌∙◌, ap, ap₂, arith, Bool, true, false,
  Bool-cases, List, [], ◌∷◌, ◌++◌, ◌==◌, if◌then◌else◌,
}
use semantic_sentinel.Constant.{vector_dim}
use semantic_sentinel.Float.{Floats, IsExact}
use semantic_sentinel.Result.{
  Result, ok, thrown, fault, chain, batching_unsupported, empty_sequence, unexpected_vector_length,
  degenerate_vector,
}
use semantic_sentinel.Similarity.{dot_loop, scalar_cosine_similarity, cosine_similarity}
use semantic_sentinel.Similarity.Exact.{cosine_similarity-scalar}
use semantic_sentinel.Embedder.{
  new_aligned_vector, Output, add_squares, mean_pooling, normalize, pool, c_str, encode,
}

-- The laws of a field with square roots, beside those of exact sums: they hold of exact numbers.
pub record IsField {F : Type 0} (fl : Floats F) : Type 0 where
  pub mul_comm : (a b : F) → fl.mul a b ≡ fl.mul b a
  pub mul_assoc : (a b c : F) → fl.mul (fl.mul a b) c ≡ fl.mul a (fl.mul b c)
  pub mul_add : (a b c : F) → fl.mul (fl.add a b) c ≡ fl.add (fl.mul a c) (fl.mul b c)
  pub zero-mul : (a : F) → fl.mul fl.zero_float a ≡ fl.zero_float
  pub one-mul : (a : F) → fl.mul fl.one_float a ≡ a
  pub sqrt_mul : (a : F) → fl.lt a fl.tiny ≡ false → fl.mul (fl.sqrt a) (fl.sqrt a) ≡ a
  pub div_sqrt :
      (a : F)
      → fl.lt a fl.tiny ≡ false
      → fl.mul (fl.sqrt a) (fl.div fl.one_float (fl.sqrt a)) ≡ fl.one_float

module _ {F : Type 0} ⦃fl : Floats F⦄ (field : IsField fl) where
  infixl 66 ◌⊗◌
  abbrev ◌⊗◌ : F → F → F
  a ⊗ b = fl.mul a b

  mul_interchange : (a b c d : F) → a ⊗ b ⊗ (c ⊗ d) ≡ a ⊗ c ⊗ (b ⊗ d)
  mul_interchange a b c d =
      field.mul_assoc a b (c ⊗ d)
      ∙ ap (λ x. a ⊗ x)
          (sym (field.mul_assoc b c d)
            ∙ ap (λ x. x ⊗ d) (field.mul_comm b c)
            ∙ field.mul_assoc c b d)
      ∙ sym (field.mul_assoc a c (b ⊗ d))

  -- The squares of a vector times `k`.
  add_squares_scale :
      (v : ℕ → F) (k : F) (n i : ℕ) (acc : F)
      → add_squares (λ j. v j ⊗ k) n i (acc ⊗ (k ⊗ k)) ≡ add_squares v n i acc ⊗ (k ⊗ k)
  unfolding add_squares
  add_squares_scale v k zero i acc = refl
  add_squares_scale v k (suc n) i acc =
      ap (add_squares (λ j. v j ⊗ k) n (i + 1)) (
        ap (λ x. fl.add (acc ⊗ (k ⊗ k)) x) (mul_interchange (v i) k (v i) k)
        ∙ sym (field.mul_add acc (v i ⊗ v i) (k ⊗ k)))
      ∙ add_squares_scale v k n (i + 1) (fl.add acc (v i ⊗ v i))

  -- The square of the inverse magnitude.
  unit_square :
      (a : F)
      → fl.lt a fl.tiny ≡ false
      → let k = fl.div fl.one_float (fl.sqrt a) in a ⊗ (k ⊗ k) ≡ fl.one_float
  unit_square a big =
      let r = fl.sqrt a in
      let k = fl.div fl.one_float r in
      ap (λ x. x ⊗ (k ⊗ k)) (sym (field.sqrt_mul a big))
      ∙ mul_interchange r r k k
      ∙ ap₂ ◌⊗◌ (field.div_sqrt a big) (field.div_sqrt a big)
      ∙ field.one-mul fl.one_float

  -- What the normalization returns has length one.
  normalize-unit :
      (n : ℕ) (v w : ℕ → F) → normalize n v ≡ ok w → add_squares w n 0 fl.zero_float ≡ fl.one_float
  unfolding normalize
  normalize-unit n v w h =
      let s = add_squares v n 0 fl.zero_float in
      let k = fl.div fl.one_float (fl.sqrt s) in
      elim (Bool-cases (fl.lt s fl.tiny)) [
        | inl e ↦ absurd (ground arith)
        | inr big ↦
            let scaled = λ (j : ℕ). v j ⊗ k in
            let same : scaled ≡ w = ground arith in
            ap (λ x. add_squares x n 0 fl.zero_float) (sym same)
            ∙ ap (add_squares scaled n 0) (sym (field.zero-mul (k ⊗ k)))
            ∙ add_squares_scale v k n 0 fl.zero_float
            ∙ unit_square s big
      ]

  dot_loop-add_squares :
      (v : ℕ → F) (n i : ℕ) (acc : F) → dot_loop v v n i acc ≡ add_squares v n i acc
  unfolding dot_loop add_squares
  dot_loop-add_squares v zero i acc = refl
  dot_loop-add_squares v (suc n) i acc =
      dot_loop-add_squares v n (i + 1) (fl.add acc (fl.mul (v i) (v i)))

-- The outcomes of the pooling: each of the five tests of the output, in the order of the code, or a
-- vector.
pub pool_decides :
    {F : Type 0} ⦃fl : Floats F⦄ (output : Output F)
    → let sum_sq = add_squares (mean_pooling output) output.vec_dimension 0 fl.zero_float in
      (output.batch ≢ 1) × (pool (λ alignment size. true) output ≡ thrown batching_unsupported)
      ⊎ ((output.seq_length ≡ 0) × (pool (λ alignment size. true) output ≡ thrown empty_sequence)
          ⊎ ((output.vec_dimension ≢ vector_dim)
                × (pool (λ alignment size. true) output ≡ thrown unexpected_vector_length)
              ⊎ ((fl.lt sum_sq fl.tiny ≡ true)
                    × (pool (λ alignment size. true) output ≡ thrown degenerate_vector)
                  ⊎ ((w : ℕ → F) × (pool (λ alignment size. true) output ≡ ok w)))))
unfolding pool normalize new_aligned_vector
pool_decides {F} ⦃fl = fl⦄ output =
    let sum_sq = add_squares (mean_pooling output) output.vec_dimension 0 fl.zero_float in
    elim (Bool-cases (output.batch == 1)) [
      | inr e ↦ inl (ground arith, rw e)
      | inl e ↦ elim (Bool-cases (output.seq_length == 0)) [
        | inl f ↦ inr (inl (ground arith, rw (e, f)))
        | inr f ↦ elim (Bool-cases (output.vec_dimension == vector_dim)) [
          | inr g ↦ inr (inr (inl (ground arith, rw (e, f, g))))
          | inl g ↦ elim (Bool-cases (fl.lt sum_sq fl.tiny)) [
            | inl d ↦ inr (inr (inr (inl (d, rw (e, f, g, d)))))
            | inr d ↦ inr (
                inr (
                  inr (
                    inr (
                      (λ i. fl.mul (mean_pooling output i) (fl.div fl.one_float (fl.sqrt sum_sq))),
                      rw (e, f, g, d),
                    ))))
          ]
        ]
      ]
    ]

pool_inv :
    {F : Type 0} ⦃fl : Floats F⦄ (aligned_alloc : ℕ → ℕ → Bool) (output : Output F) (w : ℕ → F)
    → pool aligned_alloc output ≡ ok w
    → normalize vector_dim (mean_pooling output) ≡ ok w
unfolding pool new_aligned_vector
pool_inv aligned_alloc output w h = ground arith

chain-pool-unit :
    {F : Type 0} ⦃fl : Floats F⦄ (field : IsField fl) (aligned_alloc : ℕ → ℕ → Bool)
    (run : Result (Output F)) (w : ℕ → F)
    → chain run (pool aligned_alloc) ≡ ok w
    → add_squares w 384 0 fl.zero_float ≡ fl.one_float
chain-pool-unit field aligned_alloc (ok output) w h =
    normalize-unit field 384 (mean_pooling output) w (pool_inv aligned_alloc output w h)
chain-pool-unit field aligned_alloc (thrown e) w h = absurd (ground arith)
chain-pool-unit field aligned_alloc fault w h = absurd (ground arith)

-- With exact arithmetic a vector that the function returns has similarity one to itself.
pub encode-cosine_similarity :
    {F : Type 0} ⦃fl : Floats F⦄ (exact : IsExact fl) (field : IsField fl)
    (session_run : List ℕ → Result (Output F)) (aligned_alloc : ℕ → ℕ → Bool) (prompt : List ℕ)
    (w : ℕ → F)
    → encode session_run aligned_alloc prompt ≡ ok w
    → cosine_similarity w w ≡ fl.one_float
unfolding encode scalar_cosine_similarity
encode-cosine_similarity {F} ⦃fl = fl⦄ exact field session_run aligned_alloc prompt w h =
    cosine_similarity-scalar exact w w
    ∙ dot_loop-add_squares field w 384 0 fl.zero_float
    ∙ chain-pool-unit field aligned_alloc (session_run (c_str prompt)) w h

c_str-append :
    (prompt rest other : List ℕ) → c_str (prompt ++ 0 ∷ rest) ≡ c_str (prompt ++ 0 ∷ other)
unfolding c_str
c_str-append [] rest other = refl
c_str-append (x ∷ xs) rest other =
    ap (λ t. if x == 0 then [] else x ∷ t) (c_str-append xs rest other)

-- Prompts that agree up to a zero byte have the same vector, whatever follows.
pub encode_truncates :
    {F : Type 0} ⦃fl : Floats F⦄ (session_run : List ℕ → Result (Output F))
    (aligned_alloc : ℕ → ℕ → Bool) (prompt rest other : List ℕ)
    → encode session_run aligned_alloc (prompt ++ 0 ∷ rest)
      ≡ encode session_run aligned_alloc (prompt ++ 0 ∷ other)
unfolding encode
encode_truncates session_run aligned_alloc prompt rest other =
    ap (λ t. chain (session_run t) (pool aligned_alloc)) (c_str-append prompt rest other)
