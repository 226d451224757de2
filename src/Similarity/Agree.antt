-- ===== src/Similarity/Agree.antt =====
-- `CosineSimilarity` of engine/include/avx_math.hh reads the 384 elements of each vector and no more.
use semantic_sentinel.Base.{ℕ, zero, suc, ◌+◌, ◌*◌, ◌≤◌, ◌<◌, ◌≡◌, refl, ap₂, arith}
use semantic_sentinel.Constant.{vector_dim}
use semantic_sentinel.Float.{Floats}
use semantic_sentinel.Similarity.{Sums, fma_block, fma_loop, horizontal_sum, cosine_similarity}

module _ {F : Type 0} ⦃fl : Floats F⦄ where
  abbrev Lanes : (ℕ → F) → (ℕ → F) → Type 0
  Lanes f g = (lane : ℕ) → lane < 8 → f lane ≡ g lane

  record Same (s t : Sums F) : Type 0 where
    same0 : Lanes s.sum0 t.sum0
    same1 : Lanes s.sum1 t.sum1
    same2 : Lanes s.sum2 t.sum2
    same3 : Lanes s.sum3 t.sum3

  horizontal_sum-Same : (s t : Sums F) → Same s t → horizontal_sum s ≡ horizontal_sum t
  unfolding horizontal_sum
  horizontal_sum-Same s t h =
      let sum = λ (lane : ℕ) (p : lane < 8).
        ap₂ fl.add (ap₂ fl.add (h.same0 lane p) (h.same1 lane p))
          (ap₂ fl.add (h.same2 lane p) (h.same3 lane p)) in
      let pair = λ (lane : ℕ) (p : lane < 4).
        ap₂ fl.add (sum lane (omega arith)) (sum (4 + lane) (omega arith)) in
      ap₂ fl.add (ap₂ fl.add (pair 0 (omega arith)) (pair 1 (omega arith)))
        (ap₂ fl.add (pair 2 (omega arith)) (pair 3 (omega arith)))

  module _ (query f g : ℕ → F) (agree : (j : ℕ) → j < vector_dim → f j ≡ g j) where
    fma_block-Same :
        (i : ℕ) (s t : Sums F)
        → i + 32 ≤ vector_dim
        → Same s t
        → Same (fma_block query f i s) (fma_block query g i t)
    unfolding fma_block
    fma_block-Same i s t small h = record {
      same0 = λ lane p.
          ap₂ (fl.fma (query (i + lane))) (agree (i + lane) (omega arith)) (h.same0 lane p);
      same1 = λ lane p.
          ap₂ (fl.fma (query (i + 8 + lane))) (agree (i + 8 + lane) (omega arith)) (h.same1 lane p);
      same2 = λ lane p.
          ap₂ (fl.fma (query (i + 16 + lane))) (agree (i + 16 + lane) (omega arith))
            (h.same2 lane p);
      same3 = λ lane p.
          ap₂ (fl.fma (query (i + 24 + lane))) (agree (i + 24 + lane) (omega arith))
            (h.same3 lane p);
    }

    fma_loop-Same :
        (blocks i : ℕ) (s t : Sums F)
        → i + 32 * blocks ≤ vector_dim
        → Same s t
        → Same (fma_loop query f blocks i s) (fma_loop query g blocks i t)
    unfolding fma_loop
    fma_loop-Same zero i s t small h = h
    fma_loop-Same (suc blocks) i s t small h =
        fma_loop-Same blocks (i + 32) (fma_block query f i s) (fma_block query g i t) (omega arith)
          (fma_block-Same i s t (omega arith) h)

    pub cosine_similarity_agree : cosine_similarity query f ≡ cosine_similarity query g
    unfolding cosine_similarity
    cosine_similarity_agree =
        let zeros = λ (lane : ℕ). fl.zero_float in
        let s : Sums F = record { sum0 = zeros; sum1 = zeros; sum2 = zeros; sum3 = zeros } in
        let start : Same s s = record {
          same0 = λ lane p. refl;
          same1 = λ lane p. refl;
          same2 = λ lane p. refl;
          same3 = λ lane p. refl;
        } in
        horizontal_sum-Same (fma_loop query f 12 0 s) (fma_loop query g 12 0 s)
          (fma_loop-Same 12 0 s s (omega arith) start)
