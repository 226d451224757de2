-- ===== src/Process/Shutdown.antt =====
-- The end of the process of engine/src/main.cc, from the call of `Shutdown` on.
use semantic_sentinel.Base.{
  ℕ, zero, suc, ◌+◌, ◌≤◌, ◌<◌, ◌≡◌, ◌≢◌, ◌⊎◌, inl, inr, refl, sym, subst, ◌∙◌, ap, arith, List, [],
  ◌∷◌, ◌++◌,
}
use mathlib.Core.List.{Memᴰ}
use mathlib.Core.List.Memᴰ
use semantic_sentinel.Float.{Floats}
use semantic_sentinel.Collector.{Round}
use semantic_sentinel.Embedder.Instance.{Platform}
use semantic_sentinel.Process.{
  Grpc, IsGrpc, Point, blocked, Fate, alive, exited, invalid_access, Process, Call, Event,
  main_turn, gc_turn, grpc_turn, respond, boot, perform, in_life, step, run,
}
use semantic_sentinel.Process.Order.{stage, IsOrderly, boot-IsOrderly}
use semantic_sentinel.Process.Lifetime.{step-IsOrderly, run-IsOrderly}
use semantic_sentinel.Process.Stuck.{stuck}
use semantic_sentinel.Process.Progress.{rank, IsClosing, Progress, perform-Progress}

-- A stretch of the run in which each thread has a turn and a handler returns, if one runs.
pub record IsLap {F : Type 0} (events : List (Event F)) : Type 0 where
  pub round : Round F
  pub call : Call F
  pub main : Memᴰ main_turn events
  pub wait : Memᴰ grpc_turn events
  pub gc : Memᴰ (gc_turn round) events
  pub handlers : Memᴰ (respond call) events

-- The events of some laps.
pub data Laps {F : Type 0} : ℕ → List (Event F) → Type 0 where
  no_lap : Laps 0 []
  and_lap :
      {n : ℕ} {events rest : List (Event F)}
      → IsLap events
      → Laps n rest
      → Laps (suc n) (events ++ rest)

stage-le : (point : Point) → stage point ≤ 13
stage-le point = ground arith

closing :
    {F Session Server : Type 0} (p : Process F Session Server)
    → p.point ≡ blocked
    → p.fate ≡ alive
    → IsClosing p
closing p at life = ground arith

blocked-rank :
    {F Session Server : Type 0} (p : Process F Session Server)
    → p.point ≡ blocked
    → rank p ≤ p.calls + 8
blocked-rank p at = ground arith

module _ {F Options Session Server : Type 0} ⦃fl : Floats F⦄ (platform : Platform F Options Session)
    {grpc : Grpc Server} (laws : IsGrpc grpc) where
  in_life-Progress :
      (fate : Fate) (next p : Process F Session Server)
      → p.fate ≡ fate
      → (p.fate ≡ alive → Progress p next)
      → Progress p (in_life fate next p)
  in_life-Progress alive next p e f = f e
  in_life-Progress fate next p e f = inl refl

  in_life-dead :
      (fate : Fate) (next p : Process F Session Server) → fate ≢ alive → in_life fate next p ≡ p
  in_life-dead fate next p dead = ground arith

  step-Progress :
      (e : Event F) (p : Process F Session Server)
      → IsOrderly grpc p
      → IsClosing p
      → Progress p (step platform grpc e p)
  unfolding step
  step-Progress e p h c =
      in_life-Progress p.fate (perform platform grpc e p) p refl
        (perform-Progress platform laws e p h c)

  -- What an event leaves.
  step-closes :
      (e : Event F) (p : Process F Session Server)
      → IsOrderly grpc p
      → IsClosing p
      → let p' = step platform grpc e p in IsClosing p' × (rank p' ≤ rank p)
  step-closes e p h c = elim (step-Progress e p h c) [
    | inl same ↦ (subst IsClosing (sym same) c, omega (arith, ap rank same))
    | inr (less, c') ↦ (c', omega arith)
  ]

  run-closes :
      (events : List (Event F)) (p : Process F Session Server)
      → IsOrderly grpc p
      → IsClosing p
      → let p' = run platform grpc events p in IsClosing p' × (rank p' ≤ rank p)
  unfolding run
  run-closes [] p h c = (c, omega arith)
  run-closes (e ∷ events) p h c =
      let (c', l) = step-closes e p h c in
      let (c'', l') =
        run-closes events (step platform grpc e p) (step-IsOrderly platform laws e p h) c' in
      (c'', omega arith)

  -- A part of a run lowers the rank, or each of its events leaves the process as it is.
  run-Progress :
      (events : List (Event F)) (p : Process F Session Server)
      → IsOrderly grpc p
      → IsClosing p
      → ((e : Event F) → Memᴰ e events → step platform grpc e p ≡ p)
        ⊎ (rank (run platform grpc events p) < rank p)
  unfolding run
  run-Progress [] p h c = inl (λ e m. absurd (Memᴰ.not-nil m))
  run-Progress (e ∷ events) p h c =
      let p' = step platform grpc e p in
      let h' = step-IsOrderly platform laws e p h in
      elim (step-Progress e p h c) [
        | inr (less, c') ↦ let (_, l) = run-closes events p' h' c' in inr (omega arith)
        | inl same ↦ elim (run-Progress events p' h' (subst IsClosing (sym same) c)) [
          | inr less ↦ inr (omega (arith, ap rank same))
          | inl stay ↦ inl (λ d m. elim (Memᴰ.cases_cons m) [
            | inl here ↦ ap (λ x. step platform grpc x p) here ∙ same
            | inr there ↦ subst (λ x. step platform grpc d x ≡ x) same (stay d there)
          ])
        ]
      ]

  step-perform :
      (e : Event F) (p : Process F Session Server)
      → p.fate ≡ alive
      → step platform grpc e p ≡ perform platform grpc e p
  unfolding step
  step-perform e p life = ap (λ f. in_life f (perform platform grpc e p) p) life

  lap-rank :
      (events : List (Event F)) (p : Process F Session Server)
      → IsOrderly grpc p
      → IsClosing p
      → p.fate ≡ alive
      → IsLap events
      → rank (run platform grpc events p) < rank p
  lap-rank events p h c life whole = elim (run-Progress events p h c) [
    | inr less ↦ less
    | inl stay ↦
        let still : (e : Event F) → Memᴰ e events → perform platform grpc e p ≡ p =
          λ e m. sym (step-perform e p life) ∙ stay e m in
        absurd (
          stuck platform laws whole.round whole.call p h c (still main_turn whole.main)
            (still grpc_turn whole.wait) (still (gc_turn whole.round) whole.gc)
            (still (respond whole.call) whole.handlers) life)
  ]

  run-append :
      (events rest : List (Event F)) (p : Process F Session Server)
      → run platform grpc (events ++ rest) p ≡ run platform grpc rest (run platform grpc events p)
  unfolding run
  run-append [] rest p = refl
  run-append (e ∷ events) rest p = run-append events rest (step platform grpc e p)

  abbrev Ended : Process F Session Server → Type 0
  Ended p = (p.fate ≡ exited) ⊎ (p.fate ≡ invalid_access)

  run-Ended :
      (events : List (Event F)) (p : Process F Session Server)
      → p.fate ≢ alive
      → run platform grpc events p ≡ p
  unfolding run step
  run-Ended [] p dead = refl
  run-Ended (e ∷ events) p dead =
      let same : step platform grpc e p ≡ p =
        in_life-dead p.fate (perform platform grpc e p) p dead in
      ap (run platform grpc events) same ∙ run-Ended events p dead

  Laps-Ended :
      (n : ℕ) (events : List (Event F)) (p : Process F Session Server)
      → IsOrderly grpc p
      → IsClosing p
      → rank p ≤ n
      → Laps n events
      → Ended (run platform grpc events p)
  Laps-Ended zero events p h c l laps = elim c.fates [
    | inl life ↦ absurd (omega (arith, stage-le p.point))
    | inr ended ↦ subst Ended (sym (run-Ended events p (ground arith))) ended
  ]
  Laps-Ended (suc n) events p h c l (and_lap {events = es} {rest = rest} whole laps) =
      elim c.fates [
        | inr ended ↦ subst Ended (sym (run-Ended events p (ground arith))) ended
        | inl life ↦
            let p' = run platform grpc es p in
            let (c', _) = run-closes es p h c in
            let less = lap-rank es p h c life whole in
            subst Ended (sym (run-append es rest p))
              (Laps-Ended n rest p' (run-IsOrderly platform laws es p h) c' (omega arith) laps)
      ]

  -- Once `main` has called `Shutdown`, of a server that keeps to its documentation, the process ends: in whatever order the events come, when each
  -- of some stretches has a turn of every thread and the return of a handler, eight stretches and one
  -- for each running handler are enough. It returns from `main`, or a handler has accessed memory
  -- outside an allocation.
  pub shutdown_ends :
      (before after : List (Event F))
      → (run platform grpc before boot).point ≡ blocked
      → (run platform grpc before boot).fate ≡ alive
      → Laps ((run platform grpc before boot).calls + 8) after
      → let p = run platform grpc after (run platform grpc before boot) in
        (p.fate ≡ exited) ⊎ (p.fate ≡ invalid_access)
  shutdown_ends before after at life laps =
      let p = run platform grpc before boot in
      let h = run-IsOrderly platform laws before boot (boot-IsOrderly grpc) in
      Laps-Ended (p.calls + 8) after p h (closing p at life) (blocked-rank p at) laps
