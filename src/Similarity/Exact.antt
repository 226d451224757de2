-- ===== src/Similarity/Exact.antt =====
-- The AVX2 sum of engine/include/avx_math.hh beside the scalar loop, with exact arithmetic.
use semantic_sentinel.Base.{ℕ, zero, suc, ◌+◌, ◌*◌, ◌≡◌, refl, ◌∙◌, sym, ap, ap₂, fun_ext, arith}
use semantic_sentinel.Float.{Floats, IsExact}
use semantic_sentinel.Similarity.{
  Sums, fma_block, fma_loop, dot_loop, horizontal_sum, cosine_similarity, scalar_cosine_similarity,
}

module _ {F : Type 0} ⦃fl : Floats F⦄ (exact : IsExact fl) where
  infixl 65 ◌⊕◌
  abbrev ◌⊕◌ : F → F → F
  a ⊕ b = fl.add a b

  -- v 0 ⊕ … ⊕ v (n - 1)
  sum_to : (ℕ → F) → ℕ → F
  sum_to v zero = fl.zero_float
  sum_to v (suc n) = sum_to v n ⊕ v n

  add-zero : (a : F) → a ⊕ fl.zero_float ≡ a
  add-zero a = exact.add_comm a fl.zero_float ∙ exact.zero-add a

  sum_to-split : (v : ℕ → F) (m n : ℕ) → sum_to v (m + n) ≡ sum_to v m ⊕ sum_to (λ l. v (m + l)) n
  unfolding sum_to
  sum_to-split v m zero = let e : m + 0 ≡ m = omega arith in rw e (sym (add-zero (sum_to v m)))
  sum_to-split v m (suc n) =
      let e : m + suc n ≡ suc (m + n) = omega arith in
      rw e (
        ap (λ t. t ⊕ v (m + n)) (sum_to-split v m n)
        ∙ exact.add_assoc (sum_to v m) (sum_to (λ l. v (m + l)) n) (v (m + n)))

  sum_to_congr : (v w : ℕ → F) (n : ℕ) → ((l : ℕ) → v l ≡ w l) → sum_to v n ≡ sum_to w n
  sum_to_congr v w n h = ap (λ u. sum_to u n) (fun_ext h)

  interchange : (a b c d : F) → (a ⊕ b) ⊕ (c ⊕ d) ≡ (a ⊕ c) ⊕ (b ⊕ d)
  interchange a b c d =
      exact.add_assoc a b (c ⊕ d)
      ∙ ap (λ t. a ⊕ t)
          (sym (exact.add_assoc b c d)
            ∙ ap (λ t. t ⊕ d) (exact.add_comm b c)
            ∙ exact.add_assoc c b d)
      ∙ sym (exact.add_assoc a c (b ⊕ d))

  -- The eight lanes of a register, as the code adds them up.
  lanes : (ℕ → F) → F
  lanes v = ((v 0 ⊕ v 4) ⊕ (v 1 ⊕ v 5)) ⊕ ((v 2 ⊕ v 6) ⊕ (v 3 ⊕ v 7))

  lanes-add : (v w : ℕ → F) → lanes (λ l. v l ⊕ w l) ≡ lanes v ⊕ lanes w
  unfolding lanes
  lanes-add v w = simp interchange

  lanes-sum_to : (v : ℕ → F) → lanes v ≡ sum_to v 8
  unfolding lanes sum_to
  lanes-sum_to v =
      ap₂ ◌⊕◌ (interchange (v 0) (v 4) (v 1) (v 5)) (interchange (v 2) (v 6) (v 3) (v 7))
      ∙ interchange (v 0 ⊕ v 1) (v 4 ⊕ v 5) (v 2 ⊕ v 3) (v 6 ⊕ v 7)
      ∙ simp (exact.zero-add, exact.add_assoc)

  horizontal_sum-lanes :
      (s : Sums F)
      → horizontal_sum s ≡ (lanes s.sum0 ⊕ lanes s.sum1) ⊕ (lanes s.sum2 ⊕ lanes s.sum3)
  unfolding horizontal_sum
  horizontal_sum-lanes s =
      unfold lanes in
      refl
      ∙ lanes-add (λ l. s.sum0 l ⊕ s.sum1 l) (λ l. s.sum2 l ⊕ s.sum3 l)
      ∙ ap₂ ◌⊕◌ (lanes-add s.sum0 s.sum1) (lanes-add s.sum2 s.sum3)

  -- What the four registers hold together.
  total : Sums F → F
  total s = (lanes s.sum0 ⊕ lanes s.sum1) ⊕ (lanes s.sum2 ⊕ lanes s.sum3)

  module _ (query node_vector : ℕ → F) where
    product : ℕ → F
    product i = fl.mul (query i) (node_vector i)

    -- The `n` products from index `i` on.
    part : ℕ → ℕ → F
    part i n = sum_to (λ l. product (i + l)) n

    part-split : (i m n : ℕ) → part i (m + n) ≡ part i m ⊕ part (i + m) n
    unfolding part
    part-split i m n =
        sum_to-split (λ l. product (i + l)) m n
        ∙ ap (λ t. part i m ⊕ t)
            (sum_to_congr (λ l. product (i + (m + l))) (λ l. product (i + m + l)) n
              (λ l. ap product (omega arith)))

    fma-lanes :
        (i : ℕ) (acc : ℕ → F)
        → lanes (λ l. fl.fma (query (i + l)) (node_vector (i + l)) (acc l)) ≡ lanes acc ⊕ part i 8
    unfolding product part
    fma-lanes i acc =
        ap lanes (fun_ext (λ l. exact.fma_mul (query (i + l)) (node_vector (i + l)) (acc l)))
        ∙ lanes-add (λ l. product (i + l)) acc
        ∙ exact.add_comm (lanes (λ l. product (i + l))) (lanes acc)
        ∙ ap (λ t. lanes acc ⊕ t) (lanes-sum_to (λ l. product (i + l)))

    block_sum :
        (i : ℕ) → (part i 8 ⊕ part (i + 8) 8) ⊕ (part (i + 16) 8 ⊕ part (i + 24) 8) ≡ part i 32
    block_sum i =
        let e : i + 16 + 8 ≡ i + 24 = omega arith in
        ap₂ ◌⊕◌ (sym (part-split i 8 8))
          (ap (λ j. part (i + 16) 8 ⊕ part j 8) (sym e) ∙ sym (part-split (i + 16) 8 8))
        ∙ sym (part-split i 16 16)

    total-fma_block :
        (i : ℕ) (s : Sums F) → total (fma_block query node_vector i s) ≡ total s ⊕ part i 32
    unfolding total fma_block
    total-fma_block i s =
        let l0 = lanes s.sum0 in
        let l1 = lanes s.sum1 in
        let l2 = lanes s.sum2 in
        let l3 = lanes s.sum3 in
        ap₂ ◌⊕◌ (ap₂ ◌⊕◌ (fma-lanes i s.sum0) (fma-lanes (i + 8) s.sum1))
          (ap₂ ◌⊕◌ (fma-lanes (i + 16) s.sum2) (fma-lanes (i + 24) s.sum3))
        ∙ ap₂ ◌⊕◌ (interchange l0 (part i 8) l1 (part (i + 8) 8))
            (interchange l2 (part (i + 16) 8) l3 (part (i + 24) 8))
        ∙ interchange (l0 ⊕ l1) (part i 8 ⊕ part (i + 8) 8) (l2 ⊕ l3)
            (part (i + 16) 8 ⊕ part (i + 24) 8)
        ∙ ap (λ t. (l0 ⊕ l1) ⊕ (l2 ⊕ l3) ⊕ t) (block_sum i)

    total-fma_loop :
        (blocks i : ℕ) (s : Sums F)
        → total (fma_loop query node_vector blocks i s) ≡ total s ⊕ part i (32 * blocks)
    unfolding fma_loop
    total-fma_loop zero i s = unfold sum_to part in sym (add-zero (total s))
    total-fma_loop (suc blocks) i s =
        let e : 32 * suc blocks ≡ 32 + 32 * blocks = omega arith in
        total-fma_loop blocks (i + 32) (fma_block query node_vector i s)
        ∙ ap (λ t. t ⊕ part (i + 32) (32 * blocks)) (total-fma_block i s)
        ∙ exact.add_assoc (total s) (part i 32) (part (i + 32) (32 * blocks))
        ∙ ap (λ t. total s ⊕ t) (sym (part-split i 32 (32 * blocks)) ∙ ap (part i) (sym e))

    dot_loop-part : (n i : ℕ) (acc : F) → dot_loop query node_vector n i acc ≡ acc ⊕ part i n
    unfolding dot_loop product
    dot_loop-part zero i acc = unfold sum_to part in sym (add-zero acc)
    dot_loop-part (suc n) i acc =
        let e : suc n ≡ 1 + n = omega arith in
        let one : part i 1 ≡ product i =
          unfold sum_to part in exact.zero-add (product (i + 0)) ∙ ap product (omega arith) in
        dot_loop-part n (i + 1) (acc ⊕ product i)
        ∙ exact.add_assoc acc (product i) (part (i + 1) n)
        ∙ ap (λ t. acc ⊕ t)
            (ap (λ t. t ⊕ part (i + 1) n) (sym one) ∙ sym (part-split i 1 n) ∙ ap (part i) (sym e))

    -- With exact arithmetic the AVX2 sum is the scalar one.
    pub cosine_similarity-scalar :
        cosine_similarity query node_vector ≡ scalar_cosine_similarity query node_vector
    unfolding cosine_similarity scalar_cosine_similarity
    cosine_similarity-scalar =
        let zeros = λ (lane : ℕ). fl.zero_float in
        let s : Sums F = record { sum0 = zeros; sum1 = zeros; sum2 = zeros; sum3 = zeros } in
        let empty : total s ≡ fl.zero_float = unfold total lanes in simp exact.zero-add in
        horizontal_sum-lanes (fma_loop query node_vector 12 0 s)
        ∙ unfold total in
          total-fma_loop 12 0 s
          ∙ ap (λ t. t ⊕ part 0 384) empty
          ∙ sym (dot_loop-part 384 0 fl.zero_float)
