-- ===== src/Process/Stuck.antt =====
-- Where no event leads the process of engine/src/main.cc on.
use semantic_sentinel.Base.{
  ◌≤◌, ◌≡◌, ◌≢◌, inl, inr, refl, sym, subst, ◌∙◌, ap, arith, true, Bool-cases, ltb, Option, none,
  some,
}
use semantic_sentinel.Constant.{g_shutdown_timeout}
use semantic_sentinel.Float.{Floats}
use semantic_sentinel.Collector.{Round}
use semantic_sentinel.Embedder.Instance.{Platform}
use semantic_sentinel.Process.{
  Grpc, IsGrpc, Point, blocked, joining_grpc, joining_gc, leaving, Worker, absent, running,
  finished, joined, alive, Process, Call, main_turn, gc_turn, grpc_turn, respond, gc_step,
  grpc_step, wait_for, unblock, main_step, perform,
}
use semantic_sentinel.Process.Order.{stage, IsOrderly, some-inj}
use semantic_sentinel.Process.Progress.{rank, IsClosing, respond-Progress}

module _ {F Session Server : Type 0} (grpc : Grpc Server) where
  gc_step-stuck :
      (round : Round F) (worker : Worker) (p : Process F Session Server)
      → p.gc_thread ≡ worker
      → IsOrderly grpc p
      → IsClosing p
      → gc_step round worker p ≡ p
      → worker ≢ running
  gc_step-stuck round worker p e h c same = ground arith

  -- A server that is shut down is done when no handler runs.
  closed_done :
      (laws : IsGrpc grpc) (s : Server) (p : Process F Session Server)
      → p.server ≡ some s
      → 8 ≤ stage p.point
      → stage p.point ≤ 11
      → IsOrderly grpc p
      → p.calls ≡ 0
      → grpc.is_done s p.calls ≡ true
  closed_done laws s p e l u h idle =
      let (t, f) = h.closed l u in
      let same = some-inj (sym e ∙ f) in
      subst (λ z. grpc.is_done z p.calls ≡ true) (sym same)
        (subst (λ n. grpc.is_done (grpc.shut_down g_shutdown_timeout t) n ≡ true) (sym idle)
          (laws.ends g_shutdown_timeout t))

  grpc_step-stuck :
      (laws : IsGrpc grpc) (server : Option Server) (worker : Worker) (p : Process F Session Server)
      → p.server ≡ server
      → p.grpc_thread ≡ worker
      → IsOrderly grpc p
      → IsClosing p
      → p.fate ≡ alive
      → p.calls ≡ 0
      → grpc_step grpc server worker p ≡ p
      → worker ≢ running
  grpc_step-stuck laws none worker p e f h c life idle same r = ground arith
  grpc_step-stuck laws (some s) absent p e f h c life idle same r = absurd (ground arith)
  grpc_step-stuck laws (some s) finished p e f h c life idle same r = absurd (ground arith)
  grpc_step-stuck laws (some s) joined p e f h c life idle same r = absurd (ground arith)
  grpc_step-stuck laws (some s) running p e f h c life idle same r =
      let soon : stage p.point ≤ 11 = ground arith in
      let done = closed_done laws s p e c.late soon h idle in ground arith

  joining_grpc-moves :
      (worker : Worker) (p : Process F Session Server)
      → p.grpc_thread ≡ worker
      → p.point ≡ joining_grpc
      → IsOrderly grpc p
      → p.grpc_thread ≢ running
      → wait_for worker (record p { grpc_thread = joined; point = joining_gc }) p ≢ p
  joining_grpc-moves worker p e at h ended same = ground arith

  joining_gc-moves :
      (worker : Worker) (p : Process F Session Server)
      → p.gc_thread ≡ worker
      → p.point ≡ joining_gc
      → IsOrderly grpc p
      → p.gc_thread ≢ running
      → wait_for worker (record p { gc_thread = joined; point = leaving }) p ≢ p
  joining_gc-moves worker p e at h ended same = ground arith

  -- `Shutdown` returns when no handler runs.
  unblock-moves :
      (laws : IsGrpc grpc) (server : Option Server) (p : Process F Session Server)
      → p.server ≡ server
      → p.point ≡ blocked
      → IsOrderly grpc p
      → p.fate ≡ alive
      → p.calls ≡ 0
      → unblock grpc server p ≢ p
  unblock-moves laws none p e at h life idle same = ground arith
  unblock-moves laws (some s) p e at h life idle same =
      let done =
        closed_done laws s p e (omega (arith, ap stage at)) (omega (arith, ap stage at)) h idle in
      let moved : p.point ≡ joining_grpc = ground arith in ground arith

module _ {F Options Session Server : Type 0} ⦃fl : Floats F⦄ (platform : Platform F Options Session)
    {grpc : Grpc Server} (laws : IsGrpc grpc) where
  main_step-stuck :
      (point : Point) (p : Process F Session Server)
      → p.point ≡ point
      → IsOrderly grpc p
      → IsClosing p
      → p.fate ≡ alive
      → p.calls ≡ 0
      → p.grpc_thread ≢ running
      → p.gc_thread ≢ running
      → main_step platform grpc point p ≢ p
  unfolding main_step
  main_step-stuck blocked p at h c life idle grpc_ended gc_ended same =
      unblock-moves grpc laws p.server p refl at h life idle same
  main_step-stuck joining_grpc p at h c life idle grpc_ended gc_ended same =
      joining_grpc-moves grpc p.grpc_thread p refl at h grpc_ended same
  main_step-stuck joining_gc p at h c life idle grpc_ended gc_ended same =
      joining_gc-moves grpc p.gc_thread p refl at h gc_ended same
  main_step-stuck point p at h c life idle grpc_ended gc_ended same = ground arith

  -- A process from which no event leads on has ended.
  pub stuck :
      (round : Round F) (call : Call F) (p : Process F Session Server)
      → IsOrderly grpc p
      → IsClosing p
      → perform platform grpc main_turn p ≡ p
      → perform platform grpc grpc_turn p ≡ p
      → perform platform grpc (gc_turn round) p ≡ p
      → perform platform grpc (respond call) p ≡ p
      → p.fate ≢ alive
  unfolding perform
  stuck round call p h c m w g r life = elim (Bool-cases (ltb 0 p.calls)) [
    | inl busy ↦
        let (less, _) = respond-Progress platform laws call p h c life (ground arith) in
        absurd (omega (arith, ap rank r))
    | inr done ↦
        let idle : p.calls ≡ 0 = ground arith in
        main_step-stuck p.point p refl h c life idle
          (grpc_step-stuck grpc laws p.server p.grpc_thread p refl refl h c life idle w)
          (gc_step-stuck grpc round p.gc_thread p refl h c g) m
  ]
