-- ===== src/Collector/Run.antt =====
-- Whole runs of `RunGarbageCollector` in engine/src/arena.cc with no other thread in the way.
use semantic_sentinel.Base.{
  ℕ, zero, suc, ◌+◌, ◌≤◌, ◌<◌, ◌≡◌, ◌⊎◌, inl, inr, refl, subst, arith, List, [], ◌∷◌,
}
use native.Mathlib.Decide.{dec_lt}
use semantic_sentinel.Constant.{payload_buffer_size, max_payload_length, low_watermark_threshold}
use semantic_sentinel.Node.{load_control}
use semantic_sentinel.Result.{Result, ok, thrown, resource_exhausted}
use semantic_sentinel.Arena.{Arena, header_size}
use semantic_sentinel.Arena.Allocate.{used}
use semantic_sentinel.Arena.Queue.{Entry, Holds}
use semantic_sentinel.Collector.{Round, run_garbage_collector}
use semantic_sentinel.Collector.Visit.{quiet}
use semantic_sentinel.Collector.Evict.{collect_once_idle}
use semantic_sentinel.Collector.Queue.{Move, Moves, settled, first}
use semantic_sentinel.Collector.Measure.{visits_pos, remaining, reach}
use semantic_sentinel.Collector.Progress.{collect_once_moves}

module _ {F : Type 0} where
  -- `k` iterations with no other thread in the way.
  abbrev pub quiet_rounds : ℕ → List (Round F)
  quiet_rounds zero = []
  quiet_rounds (suc k) = quiet ∷ quiet_rounds k

  -- Below the low watermark a run leaves the ring alone.
  run_garbage_collector_idle :
      (k : ℕ) (a : Arena F)
      → used a < low_watermark_threshold
      → run_garbage_collector (quiet_rounds k) a ≡ (ok tt, a)
  unfolding run_garbage_collector
  run_garbage_collector_idle zero a h = refl
  run_garbage_collector_idle (suc k) a h =
      rw (collect_once_idle quiet a h, run_garbage_collector) (run_garbage_collector_idle k a h)

  remaining_pos :
      (a : Arena F) (q : List Entry)
      → Holds a q
      → low_watermark_threshold ≤ used a
      → 0 < remaining a q
  remaining_pos a [] h loaded = absurd (omega (arith, h.chain))
  remaining_pos a (e ∷ q) h loaded =
      omega (arith, visits_pos (load_control (a.metadata e.node_id)).ref_bit)

  -- How a run ends: the thread by an exception, or the ring below the low watermark.
  abbrev pub Ended : ℕ → List Entry → Result (Unit {0}) × Arena F → Type 0
  Ended bound q r =
      (r.0 ≡ thrown resource_exhausted)
        × (payload_buffer_size ≤ bound + header_size + max_payload_length)
      ⊎ ((r.0 ≡ ok tt)
          × (used r.1 < low_watermark_threshold)
          × ((q' : List Entry) × Moves q q' × Holds r.1 q'))

  Ended-before :
      (n n' : ℕ) (q q' : List Entry) (r : Result (Unit {0}) × Arena F)
      → n' ≤ n
      → Move q q'
      → Ended n' q' r
      → Ended n q r
  Ended-before n n' q q' r le m (inl (threw, full)) = inl (threw, omega arith)
  Ended-before n n' q q' r le m (inr (done, low, (p, ms, h))) = inr (done, low, (p, first m ms, h))

  -- From a ring that holds the payloads `q`, with no other thread in the way: once as many iterations
  -- have run as remain, the ring is below the low watermark and holds what
  -- drops and moves to the end have left of its payloads; or the thread has ended by an exception,
  -- which needs a ring in which too little was free at the start: less than the longest payload, its
  -- header and eleven bytes for each visit.
  pub run_garbage_collector_frees :
      (k : ℕ) (a : Arena F) (q : List Entry)
      → Holds a q
      → remaining a q ≤ k
      → Ended (reach a q) q (run_garbage_collector (quiet_rounds k) a)
  run_garbage_collector_frees zero a q h enough =
      let low : used a < low_watermark_threshold = elim (dec_lt (used a) low_watermark_threshold) [
        | yes low ↦ low
        | no loaded ↦ absurd (omega (arith, remaining_pos a q h (omega arith)))
      ] in
      rw (run_garbage_collector_idle zero a low) (inr (refl, low, (q, settled q, h)))
  run_garbage_collector_frees (suc k) a q h enough =
      elim (dec_lt (used a) low_watermark_threshold) [
        | yes low ↦
            rw (run_garbage_collector_idle (suc k) a low) (inr (refl, low, (q, settled q, h)))
        | no loaded ↦ elim (collect_once_moves a q h (omega arith)) [
          | inl (threw, full) ↦
              inl (unfold run_garbage_collector in rw (threw, run_garbage_collector), omega arith)
          | inr (a', q', ran, adv) ↦
              let later = run_garbage_collector_frees k a' q' adv.holds (omega (arith, adv.less)) in
              let all : run_garbage_collector (quiet_rounds k) a'
                  ≡ run_garbage_collector (quiet_rounds (suc k)) a =
                unfold run_garbage_collector in rw (ran, run_garbage_collector) in
              subst (Ended (reach a q) q) all (
                Ended-before (reach a q) (reach a' q') q q'
                  (run_garbage_collector (quiet_rounds k) a') adv.calm adv.move later)
        ]
      ]
