-- ===== src/Float.antt =====
-- `float`, as an interface: what the modelled code does with single-precision numbers. The type and
-- its operations are the platform's (IEEE 754 and the AVX2 unit), so they are an instance argument;
-- a theorem that needs a law of them takes it as a hypothesis.
use semantic_sentinel.Base.{ℕ, Bool, ◌≡◌}

pub record Floats (F : Type 0) : Type 0 where
  pub zero_float : F
  pub one_float : F
  pub minus_one : F  -- -1.0f
  pub similarity_threshold : F  -- 0.85f
  pub tiny : F  -- 1e-9f
  pub of_size : ℕ → F  -- static_cast<float>(size_t)
  pub add : F → F → F
  pub mul : F → F → F
  pub div : F → F → F
  pub sqrt : F → F
  pub fma : F → F → F → F  -- a * b + c, rounded once
  pub lt : F → F → Bool  -- a < b
  pub le : F → F → Bool  -- a <= b

-- The laws of exact arithmetic that a reordered sum rests on. Rounding breaks them; they hold of
-- numbers whose sums and products are exact.
pub record IsExact {F : Type 0} (fl : Floats F) : Type 0 where
  pub add_comm : (a b : F) → fl.add a b ≡ fl.add b a
  pub add_assoc : (a b c : F) → fl.add (fl.add a b) c ≡ fl.add a (fl.add b c)
  pub zero-add : (a : F) → fl.add fl.zero_float a ≡ a
  pub fma_mul : (a b c : F) → fl.fma a b c ≡ fl.add (fl.mul a b) c
