-- ===== src/Engine/Invariant.antt =====
-- What holds of every arena that the engine comes to.
use semantic_sentinel.Base.{ℕ, ◌≡◌, inl, inr, refl, sym, subst, ◌∙◌, ap, arith, List, []}
use native.Mathlib.Decide.{dec_lt}
use semantic_sentinel.Constant.{low_watermark_threshold}
use semantic_sentinel.Float.{Floats}
use semantic_sentinel.Node.{unpack_control}
use semantic_sentinel.Result.{ok}
use semantic_sentinel.Arena.{Arena, memory_arena}
use semantic_sentinel.Arena.Allocate.{used}
use semantic_sentinel.Arena.Queue.{Entry}
use semantic_sentinel.Collector.{collect_once}
use semantic_sentinel.Collector.Visit.{quiet}
use semantic_sentinel.Collector.Evict.{collect_once_idle}
use semantic_sentinel.Collector.Progress.{collect_once_moves}
use semantic_sentinel.Engine.{Step, check, fill, collect, Reach, start, later}
use semantic_sentinel.Engine.Checks.{check_cache-Kept}
use semantic_sentinel.Engine.Stores.{IsSound, SomeSound, Kept-IsSound, set_cache-IsSound}

module _ {F : Type 0} where
  pub memory_arena-IsSound : (zero_float : F) → IsSound (memory_arena zero_float) []
  unfolding memory_arena unpack_control
  memory_arena-IsSound z = record {
    holds = record {
      valid = omega arith;
      fits = omega arith;
      words = λ i. omega arith;
      chain = refl;
    };
    settled = λ i. record { word = omega arith; settled = λ e. cc };
  }

  collect_once-IsSound :
      (a : Arena F) (q : List Entry) {slept : ℕ} {a' : Arena F}
      → IsSound a q
      → collect_once quiet a ≡ (ok slept, a')
      → SomeSound a'
  collect_once-IsSound a q {slept} {a'} s ran = elim (dec_lt (used a) low_watermark_threshold) [
    | yes low ↦
        let same : a ≡ a' = ap (λ r. r.1) (sym (collect_once_idle quiet a low) ∙ ran) in
        subst SomeSound same (q, s)
    | no loaded ↦ elim (collect_once_moves a q s.holds (omega arith)) [
      | inl (threw, _) ↦ absurd (ground arith)
      | inr (b, q', moved, adv) ↦
          let same : b ≡ a' = ap (λ r. r.1) (sym moved ∙ ran) in
          subst SomeSound same (q', record { holds = adv.holds; settled = adv.slots s.settled })
    ]
  ]

module _ {F : Type 0} ⦃fl : Floats F⦄ where
  -- Every step keeps the ring a queue of payloads and the slots settled.
  Step-IsSound : {a b : Arena F} → Step a b → SomeSound a → SomeSound b
  Step-IsSound {a} (check encode curr_time prompt whole) (q, s) =
      (q, Kept-IsSound (check_cache-Kept encode curr_time prompt a) s)
  Step-IsSound {a} (fill request whole fits) (q, s) = set_cache-IsSound request a q s whole fits
  Step-IsSound {a} (collect ran) (q, s) = collect_once-IsSound a q s ran

  -- In every arena that whole calls and iterations come to, where no call's payload runs past the
  -- tail, what stands between the tail and the head of the ring is a queue of payloads, each with the header that names its slot and its
  -- length; every slot's word has 64 bits, and no slot is migrating.
  pub Reach-IsSound : {a : Arena F} → Reach a → SomeSound a
  Reach-IsSound start = ([], memory_arena-IsSound fl.zero_float)
  Reach-IsSound (later r st) = Step-IsSound st (Reach-IsSound r)
