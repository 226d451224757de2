-- ===== src/Similarity.antt =====
-- engine/include/avx_math.hh: `CosineSimilarity`, the AVX2 version and the scalar fallback.
-- A vector is read by index, and a register of packed floats is a function of the lane.
pub mod Exact
pub mod Agree
use semantic_sentinel.Base.{ℕ, zero, suc, ◌+◌}
use semantic_sentinel.Float.{Floats}

module _ {F : Type 0} ⦃fl : Floats F⦄ where
  -- `_mm256_load_ps(p + i)`
  abbrev pub load_ps : (ℕ → F) → ℕ → ℕ → F
  load_ps p i lane = p (i + lane)

  -- `_mm256_fmadd_ps`
  abbrev pub fmadd_ps : (ℕ → F) → (ℕ → F) → (ℕ → F) → ℕ → F
  fmadd_ps a b c lane = fl.fma (a lane) (b lane) (c lane)

  -- `_mm256_add_ps` and `_mm_add_ps`
  abbrev pub add_ps : (ℕ → F) → (ℕ → F) → ℕ → F
  add_ps a b lane = fl.add (a lane) (b lane)

  -- `_mm_hadd_ps`
  abbrev pub hadd_ps : (ℕ → F) → (ℕ → F) → ℕ → F
  hadd_ps a b zero = fl.add (a 0) (a 1)
  hadd_ps a b (suc zero) = fl.add (a 2) (a 3)
  hadd_ps a b (suc (suc zero)) = fl.add (b 0) (b 1)
  hadd_ps a b (suc (suc (suc lane))) = fl.add (b 2) (b 3)

pub record Sums (F : Type 0) : Type 0 where
  pub sum0 : ℕ → F
  pub sum1 : ℕ → F
  pub sum2 : ℕ → F
  pub sum3 : ℕ → F

module _ {F : Type 0} ⦃fl : Floats F⦄ (query node_vector : ℕ → F) where
  -- The body of the unrolled loop.
  unfoldable pub fma_block : ℕ → Sums F → Sums F
  fma_block i s = record {
    sum0 = fmadd_ps (load_ps query i) (load_ps node_vector i) s.sum0;
    sum1 = fmadd_ps (load_ps query (i + 8)) (load_ps node_vector (i + 8)) s.sum1;
    sum2 = fmadd_ps (load_ps query (i + 16)) (load_ps node_vector (i + 16)) s.sum2;
    sum3 = fmadd_ps (load_ps query (i + 24)) (load_ps node_vector (i + 24)) s.sum3;
  }

  -- `blocks` rounds of 32 elements from index `i`.
  unfoldable pub fma_loop : ℕ → ℕ → Sums F → Sums F
  unfolding fma_block
  fma_loop zero i s = s
  fma_loop (suc blocks) i s = fma_loop blocks (i + 32) (fma_block i s)

  -- The scalar loop over `count` elements from index `i`.
  unfoldable pub dot_loop : ℕ → ℕ → F → F
  dot_loop zero i dot_product = dot_product
  dot_loop (suc count) i dot_product =
      dot_loop count (i + 1) (fl.add dot_product (fl.mul (query i) (node_vector i)))

module _ {F : Type 0} ⦃fl : Floats F⦄ where
  -- The additions after the loop.
  unfoldable pub horizontal_sum : Sums F → F
  horizontal_sum s =
      let sum_vec = add_ps (add_ps s.sum0 s.sum1) (add_ps s.sum2 s.sum3) in
      let sum_high = λ (lane : ℕ). sum_vec (4 + lane) in
      let sum_128 = add_ps sum_vec sum_high in
      let halves = hadd_ps sum_128 sum_128 in hadd_ps halves halves 0

  -- VECTOR_DIM is 384: twelve rounds of 32.
  unfoldable pub cosine_similarity : (ℕ → F) → (ℕ → F) → F
  unfolding fma_loop horizontal_sum
  cosine_similarity query node_vector =
      let zeros = λ (lane : ℕ). fl.zero_float in
      horizontal_sum (
        fma_loop query node_vector 12 0
          (record { sum0 = zeros; sum1 = zeros; sum2 = zeros; sum3 = zeros }))

  unfoldable pub scalar_cosine_similarity : (ℕ → F) → (ℕ → F) → F
  unfolding dot_loop
  scalar_cosine_similarity query node_vector = dot_loop query node_vector 384 0 fl.zero_float
