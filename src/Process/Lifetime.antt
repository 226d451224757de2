-- ===== src/Process/Lifetime.antt =====
-- A whole run of the process of engine/src/main.cc: what its threads may still use.
use semantic_sentinel.Base.{
  ℕ, ◌≤◌, ◌<◌, ◌≡◌, ◌≢◌, ◌-◌, inl, inr, refl, arith, true, Bool-cases, ltb, List, [], ◌∷◌, none,
}
use semantic_sentinel.Float.{Floats}
use semantic_sentinel.Result.{Result}
use semantic_sentinel.CheckCache.{check_cache}
use semantic_sentinel.SetCache.{set_cache}
use semantic_sentinel.Embedder.Instance.{Platform, vectorize, warm_up_engine}
use semantic_sentinel.Process.{
  Grpc, IsGrpc, Point, installing, constructing, warming, building, spawning_gc, spawning_grpc,
  waiting, shutting, blocked, joining_grpc, joining_gc, leaving, freeing, returned, joined, exited,
  use_after_free, Process, Call, check, set, Event, main_turn, gc_turn, grpc_turn, interrupt,
  arrive, respond, boot, instance_after, make_arena, main_step, handle, perform, step, run,
}
use semantic_sentinel.Process.Order.{
  stage, has, IsOrderly, boot-IsOrderly, signal_handler-IsOrderly, grpc_step-IsOrderly,
  admit-IsOrderly, shut_grpc-IsOrderly, unblock-IsOrderly, joining_grpc-IsOrderly,
  joining_gc-IsOrderly, with_arena-IsOrderly, gc_step-IsOrderly, in_life-IsOrderly,
  warmed-IsOrderly, constructed-IsOrderly, final,
}

module _ {F Options Session Server : Type 0} ⦃fl : Floats F⦄ (platform : Platform F Options Session)
    {grpc : Grpc Server} (laws : IsGrpc grpc) where
  main_step-IsOrderly :
      (point : Point) (p : Process F Session Server)
      → p.point ≡ point
      → IsOrderly grpc p
      → IsOrderly grpc (main_step platform grpc point p)
  unfolding main_step
  main_step-IsOrderly installing p at h = ground arith
  main_step-IsOrderly constructing p at h = constructed-IsOrderly grpc (make_arena platform) p at h
  main_step-IsOrderly warming p at h =
      let w = warm_up_engine platform p.instance in warmed-IsOrderly grpc w.0 w.1 p at h
  main_step-IsOrderly building p at h = ground arith
  main_step-IsOrderly spawning_gc p at h = ground arith
  main_step-IsOrderly spawning_grpc p at h = ground arith
  main_step-IsOrderly waiting p at h = ground arith
  main_step-IsOrderly shutting p at h = shut_grpc-IsOrderly grpc p.server p refl at h
  main_step-IsOrderly blocked p at h = unblock-IsOrderly grpc laws p.server p refl at h
  main_step-IsOrderly joining_grpc p at h = joining_grpc-IsOrderly grpc p.grpc_thread p refl at h
  main_step-IsOrderly joining_gc p at h = joining_gc-IsOrderly grpc p.gc_thread p refl at h
  main_step-IsOrderly leaving p at h = ground arith
  main_step-IsOrderly freeing p at h = ground arith
  main_step-IsOrderly returned p at h = h

  handle-IsOrderly :
      (call : Call F) (p : Process F Session Server)
      → stage p.point ≤ 12
      → has p.memory_arena ≡ true
      → IsOrderly grpc p
      → IsOrderly grpc (handle platform grpc call p)
  unfolding handle
  handle-IsOrderly (check others curr_time prompt) p l there h =
      let encode : List ℕ → Result (ℕ → F) = λ text. (vectorize platform text p.instance).0 in
      with_arena-IsOrderly grpc (check_cache encode others curr_time prompt) p.memory_arena
        (record p { instance = instance_after platform prompt p.instance }) l there (ground arith)
  handle-IsOrderly (set traffic request) p l there h =
      with_arena-IsOrderly grpc (set_cache traffic request) p.memory_arena p l there h

  pub perform-IsOrderly :
      (e : Event F) (p : Process F Session Server)
      → IsOrderly grpc p
      → IsOrderly grpc (perform platform grpc e p)
  unfolding perform
  perform-IsOrderly main_turn p h = main_step-IsOrderly p.point p refl h
  perform-IsOrderly (gc_turn round) p h = gc_step-IsOrderly grpc round p.gc_thread p refl h
  perform-IsOrderly grpc_turn p h = grpc_step-IsOrderly grpc p.server p.grpc_thread p refl refl h
  perform-IsOrderly interrupt p h = signal_handler-IsOrderly grpc p.point p h
  perform-IsOrderly arrive p h = admit-IsOrderly grpc laws p.server p refl h
  perform-IsOrderly (respond call) p h = elim (Bool-cases (ltb 0 p.calls)) [
    | inr idle ↦ rw idle h
    | inl busy ↦
        let some_call : 0 < p.calls = ground arith in
        let there =
          h.arena (omega (arith, h.serves_from some_call)) (omega (arith, h.serves_to some_call)) in
        rw busy (
          handle-IsOrderly call (record p { calls = p.calls - 1 })
            (omega (arith, h.serves_to some_call)) there (ground arith))
  ]

  pub step-IsOrderly :
      (e : Event F) (p : Process F Session Server)
      → IsOrderly grpc p
      → IsOrderly grpc (step platform grpc e p)
  unfolding step
  step-IsOrderly e p h =
      in_life-IsOrderly grpc p.fate (perform platform grpc e p) p h (perform-IsOrderly e p h)

  pub run-IsOrderly :
      (events : List (Event F)) (p : Process F Session Server)
      → IsOrderly grpc p
      → IsOrderly grpc (run platform grpc events p)
  unfolding run
  run-IsOrderly [] p h = h
  run-IsOrderly (e ∷ events) p h =
      run-IsOrderly events (step platform grpc e p) (step-IsOrderly e p h)

  -- Whatever the order of the turns, the signals and the calls, and whatever a server does that keeps
  -- to its documentation: neither a handler nor the collector accesses the arena before it is made or
  -- after it is freed.
  pub run_safe : (events : List (Event F)) → (run platform grpc events boot).fate ≢ use_after_free
  run_safe events = (run-IsOrderly events boot (boot-IsOrderly grpc)).safe

  -- When `main` returns, and the server keeps to its documentation, both threads have been joined, no handler runs and the arena is freed.
  pub exited_joined :
      (events : List (Event F))
      → let p = run platform grpc events boot in
        p.fate ≡ exited
        → (p.gc_thread ≡ joined)
          × (p.grpc_thread ≡ joined)
          × (p.calls ≡ 0)
          × (p.memory_arena ≡ none)
  exited_joined events e =
      let p = run platform grpc events boot in
      final grpc p (run-IsOrderly events boot (boot-IsOrderly grpc)) e
