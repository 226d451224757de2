-- ===== src/Process/Bound.antt =====
-- The server that the threads of the process in engine/src/main.cc reach through its pointer.
use semantic_sentinel.Base.{
  ◌≢◌, ℕ, ◌≤◌, ◌≡◌, inl, inr, refl, arith, Bool-cases, true, ltb, ◌-◌, List, [], ◌∷◌, Option, none,
  some,
}
use semantic_sentinel.Float.{Floats}
use semantic_sentinel.Result.{Result, Action}
use semantic_sentinel.Arena.{Arena}
use semantic_sentinel.Collector.{Round, collect_once}
use semantic_sentinel.CheckCache.{check_cache}
use semantic_sentinel.SetCache.{set_cache}
use semantic_sentinel.Embedder.Instance.{Platform, vectorize, warm_up_engine}
use semantic_sentinel.Process.{
  Grpc, IsGrpc, Point, constructing, warming, shutting, blocked, Worker, running, Fate, null_server,
  alive, Process, Call, check, set, Event, main_turn, gc_turn, grpc_turn, interrupt, arrive,
  respond, boot, signal_handler, accessed, with_arena, gc_step, grpc_step, admit, warmed,
  constructed, shut, unblock, instance_after, make_arena, main_step, handle, perform, in_life, step,
  run,
}
use semantic_sentinel.Process.Order.{stage, has, IsOrderly, boot-IsOrderly}
use semantic_sentinel.Process.Lifetime.{step-IsOrderly}

module _ {F Session Server : Type 0} (grpc : Grpc Server) where
  -- There is a server where `main` is between its start and its end.
  pub record IsBound (p : Process F Session Server) : Type 0 where
    pub bound : 4 ≤ stage p.point → stage p.point ≤ 11 → has p.server ≡ true
    pub unharmed : p.fate ≢ null_server

  accessed-IsBound :
      {A : Type 0} (r : Result A) (a : Arena F) (p : Process F Session Server)
      → IsBound p
      → IsBound (accessed (r, a) p)
  accessed-IsBound r a p b = ground arith

  with_arena-IsBound :
      {A : Type 0} (f : Action (Arena F) A) (arena : Option (Arena F))
      (p : Process F Session Server)
      → IsBound p
      → IsBound (with_arena f arena p)
  with_arena-IsBound f none p b = ground arith
  with_arena-IsBound f (some a) p b = accessed-IsBound (f a).0 (f a).1 p b

  gc_step-IsBound :
      (round : Round F) (worker : Worker) (p : Process F Session Server)
      → IsBound p
      → IsBound (gc_step round worker p)
  gc_step-IsBound round running p b = elim (Bool-cases p.g_shutdown_requested) [
    | inl stop ↦ simp stop (ground arith)
    | inr go ↦ simp go (with_arena-IsBound (collect_once round) p.memory_arena p b)
  ]
  gc_step-IsBound round worker p b = b

  grpc_step-IsBound :
      (server : Option Server) (worker : Worker) (p : Process F Session Server)
      → p.server ≡ server
      → p.grpc_thread ≡ worker
      → IsOrderly grpc p
      → IsBound p
      → IsBound (grpc_step grpc server worker p)
  grpc_step-IsBound server worker p e f h b = ground arith

  admit-IsBound :
      (server : Option Server) (p : Process F Session Server)
      → IsBound p
      → IsBound (admit grpc server p)
  admit-IsBound server p b = ground arith

  signal_handler-IsBound :
      (point : Point) (p : Process F Session Server) → IsBound p → IsBound (signal_handler point p)
  signal_handler-IsBound point p b = ground arith

  warmed-IsBound :
      (r : Result (Unit {0})) (instance : Option Session) (p : Process F Session Server)
      → IsBound p
      → p.point ≡ warming
      → IsBound (warmed (r, instance) p)
  warmed-IsBound r instance p b at = ground arith

  constructed-IsBound :
      (r : Result (Arena F)) (p : Process F Session Server) → IsBound p → IsBound (constructed r p)
  constructed-IsBound r p b = ground arith

  shut-IsBound :
      (server : Option Server) (p : Process F Session Server)
      → p.server ≡ server
      → p.point ≡ shutting
      → IsBound p
      → IsBound (shut grpc server p)
  shut-IsBound server p e at b = ground arith

  unblock-IsBound :
      (server : Option Server) (p : Process F Session Server)
      → p.server ≡ server
      → p.point ≡ blocked
      → IsBound p
      → IsBound (unblock grpc server p)
  unblock-IsBound server p e at b = ground arith

module _ {F Options Session Server : Type 0} ⦃fl : Floats F⦄ (platform : Platform F Options Session)
    {grpc : Grpc Server} (laws : IsGrpc grpc) {first : Server}
    (binds : grpc.build_and_start "unix:///tmp/strix.sock" ≡ some first) where
  main_step-IsBound :
      (point : Point) (p : Process F Session Server)
      → p.point ≡ point
      → IsBound grpc p
      → IsBound grpc (main_step platform grpc point p)
  unfolding main_step
  main_step-IsBound constructing p at b = constructed-IsBound grpc (make_arena platform) p b
  main_step-IsBound warming p at b =
      let w = warm_up_engine platform p.instance in warmed-IsBound grpc w.0 w.1 p b at
  main_step-IsBound shutting p at b = shut-IsBound grpc p.server p refl at b
  main_step-IsBound blocked p at b = unblock-IsBound grpc p.server p refl at b
  main_step-IsBound point p at b = ground arith

  handle-IsBound :
      (call : Call F) (p : Process F Session Server)
      → IsBound grpc p
      → IsBound grpc (handle platform grpc call p)
  unfolding handle
  handle-IsBound (check others curr_time prompt) p b =
      let encode : List ℕ → Result (ℕ → F) = λ text. (vectorize platform text p.instance).0 in
      with_arena-IsBound grpc (check_cache encode others curr_time prompt) p.memory_arena
        (record p { instance = instance_after platform prompt p.instance }) (ground arith)
  handle-IsBound (set traffic request) p b =
      with_arena-IsBound grpc (set_cache traffic request) p.memory_arena p b

  perform-IsBound :
      (e : Event F) (p : Process F Session Server)
      → IsOrderly grpc p
      → IsBound grpc p
      → IsBound grpc (perform platform grpc e p)
  unfolding perform
  perform-IsBound main_turn p h b = main_step-IsBound p.point p refl b
  perform-IsBound (gc_turn round) p h b = gc_step-IsBound grpc round p.gc_thread p b
  perform-IsBound grpc_turn p h b = grpc_step-IsBound grpc p.server p.grpc_thread p refl refl h b
  perform-IsBound interrupt p h b = signal_handler-IsBound grpc p.point p b
  perform-IsBound arrive p h b = admit-IsBound grpc p.server p b
  perform-IsBound (respond call) p h b = elim (Bool-cases (ltb 0 p.calls)) [
    | inr idle ↦ simp idle b
    | inl busy ↦ simp busy (handle-IsBound call (record p { calls = p.calls - 1 }) (ground arith))
  ]

  in_life-IsBound :
      (fate : Fate) (next p : Process F Session Server)
      → IsBound grpc p
      → IsBound grpc next
      → IsBound grpc (in_life fate next p)
  in_life-IsBound alive next p b n = n
  in_life-IsBound fate next p b n = b

  run-IsBound :
      (events : List (Event F)) (p : Process F Session Server)
      → IsOrderly grpc p
      → IsBound grpc p
      → IsBound grpc (run platform grpc events p)
  unfolding run step
  run-IsBound [] p h b = b
  run-IsBound (e ∷ events) p h b =
      run-IsBound events (step platform grpc e p) (step-IsOrderly platform laws e p h)
        (in_life-IsBound p.fate (perform platform grpc e p) p b (perform-IsBound e p h b))

  -- When `BuildAndStart` returns a server, which the code takes for granted, one that keeps to its
  -- documentation, no thread goes through a
  -- null pointer to it, whatever the order of the events.
  pub bound_server : (events : List (Event F)) → (run platform grpc events boot).fate ≢ null_server
  bound_server events =
      (run-IsBound events boot (boot-IsOrderly grpc)
        (record { bound = λ l u. absurd (omega arith); unharmed = ground arith })).unharmed
