-- ===== src/Process.antt =====
-- engine/src/main.cc: the process as a machine that the turns of its threads, the signals and the
-- calls of its clients move. The gRPC server is a parameter, and so is what the platform answers.
pub mod Order
pub mod Lifetime
pub mod Progress
pub mod Stuck
pub mod Shutdown
pub mod Warm
pub mod Bound
pub mod Quiet
pub mod Same
pub mod Sound
use Prim.Native.String.{String}
use semantic_sentinel.Base.{
  ℕ, ◌≡◌, ◌+◌, ◌-◌, ◌*◌, Bool, true, false, not, ltb, if◌then◌else◌, List, [], ◌∷◌, Option, none,
  some,
}
use semantic_sentinel.Constant.{
  g_shutdown_timeout, total_max_slots, vector_memsize, payload_buffer_size,
}
use semantic_sentinel.Float.{Floats}
use semantic_sentinel.Result.{Result, ok, thrown, fault, bad_alloc, Action}
use semantic_sentinel.Message.{SetCacheRequest}
use semantic_sentinel.Arena.{Arena, memory_arena}
use semantic_sentinel.Embedder.Instance.{Platform, vectorize, warm_up_engine}
use semantic_sentinel.CheckCache.{Others, check_cache}
use semantic_sentinel.SetCache.{Traffic, set_cache}
use semantic_sentinel.Collector.{Round, collect_once}

-- What the code calls of gRPC: `BuildAndStart` for an address, which may return null; `Shutdown` with
-- its timeout in seconds; whether the server takes a call; and whether a blocked `Shutdown` or `Wait`
-- returns while a number of handlers run.
pub record Grpc (Server : Type 0) : Type 0 where
  pub build_and_start : String → Option Server
  pub shut_down : ℕ → Server → Server
  pub admits : Server → Bool
  pub is_done : Server → ℕ → Bool

-- What its documentation says: a shut down server takes no calls, and both functions block until all
-- handlers have returned after a shutdown, and no longer.
pub record IsGrpc {Server : Type 0} (grpc : Grpc Server) : Type 0 where
  pub closed : (timeout : ℕ) (s : Server) → grpc.admits (grpc.shut_down timeout s) ≡ false
  pub ends : (timeout : ℕ) (s : Server) → grpc.is_done (grpc.shut_down timeout s) 0 ≡ true
  pub done_idle : (s : Server) (n : ℕ) → grpc.is_done s n ≡ true → n ≡ 0
  pub done_closed : (s : Server) (n : ℕ) → grpc.is_done s n ≡ true → grpc.admits s ≡ false

-- The statement that the main thread is at.
pub data Point : Type 0 where
  installing constructing warming building spawning_gc spawning_grpc waiting shutting : Point
  blocked joining_grpc joining_gc leaving freeing returned : Point

pub data Worker : Type 0 where
  absent running finished joined : Worker

-- The process runs, returned from `main`, ended on an exception or on a signal without a handler, or
-- did what the language leaves undefined.
pub data Fate : Type 0 where
  alive exited terminated killed null_server use_after_free invalid_access : Fate

pub record Process (F Session Server : Type 0) : Type 0 where
  pub point : Point
  pub g_shutdown_requested : Bool
  pub memory_arena : Option (Arena F)
  pub instance : Option Session
  pub server : Option Server
  pub gc_thread : Worker
  pub grpc_thread : Worker
  -- The handlers that run.
  pub calls : ℕ
  pub fate : Fate

-- A call, with what the other threads do during it.
pub data Call (F : Type 0) : Type 0 where
  check : Others F → ℕ → List ℕ → Call F
  set : Traffic F → SetCacheRequest → Call F

-- A turn of a thread, a signal, a call that comes in, and the work and return of a handler.
pub data Event (F : Type 0) : Type 0 where
  main_turn : Event F
  gc_turn : Round F → Event F
  grpc_turn : Event F
  interrupt : Event F
  arrive : Event F
  respond : Call F → Event F

module _ {F Session Server : Type 0} where
  abbrev pub die : Fate → Process F Session Server → Process F Session Server
  die fate p = record p { fate = fate }

  -- The process as it is started.
  abbrev pub boot : Process F Session Server
  boot = record {
    point = installing;
    g_shutdown_requested = false;
    memory_arena = none;
    instance = none;
    server = none;
    gc_thread = absent;
    grpc_thread = absent;
    calls = 0;
    fate = alive;
  }

  -- `SignalHandler`, once it is installed.
  abbrev pub signal_handler : Point → Process F Session Server → Process F Session Server
  signal_handler installing p = die killed p
  signal_handler point p = record p { g_shutdown_requested = true }

  -- What a handler's access of the arena, or a thread's, comes to.
  abbrev pub accessed {ℓ} :
      {A : Type ℓ} → Result A × Arena F → Process F Session Server → Process F Session Server
  accessed (ok r, a) p = record p { memory_arena = some a }
  accessed (thrown e, a) p = die terminated p
  accessed (fault, a) p = die invalid_access p

  abbrev pub with_arena {ℓ} :
      {A : Type ℓ}
      → Action (Arena F) A
      → Option (Arena F)
      → Process F Session Server
      → Process F Session Server
  with_arena f none p = die use_after_free p
  with_arena f (some a) p = accessed (f a) p

  -- The collector's thread: the test of its loop and one iteration.
  abbrev pub gc_step : Round F → Worker → Process F Session Server → Process F Session Server
  gc_step round running p =
      if p.g_shutdown_requested
      then record p { gc_thread = finished }
      else with_arena (collect_once round) p.memory_arena p
  gc_step round worker p = p

  -- The thread in `Wait`, on the server of the pointer.
  abbrev pub grpc_step :
      Grpc Server → Option Server → Worker → Process F Session Server → Process F Session Server
  grpc_step grpc none running p = die null_server p
  grpc_step grpc (some s) running p =
      if grpc.is_done s p.calls then record p { grpc_thread = finished } else p
  grpc_step grpc server worker p = p

  -- A call that comes in is refused where there is no server to take it.
  abbrev pub admit :
      Grpc Server → Option Server → Process F Session Server → Process F Session Server
  admit grpc none p = p
  admit grpc (some s) p = if grpc.admits s then record p { calls = p.calls + 1 } else p

  -- `thread.join()` returns when the thread has ended.
  abbrev pub wait_for :
      Worker → Process F Session Server → Process F Session Server → Process F Session Server
  wait_for finished next p = next
  wait_for worker next p = p

  -- The outcome of a call on the way to the service.
  abbrev pub warmed :
      Result (Unit {0}) × Option Session → Process F Session Server → Process F Session Server
  warmed (ok done, instance) p = record p { instance = instance; point = building }
  warmed (thrown e, instance) p = die terminated p
  warmed (fault, instance) p = die invalid_access p

  abbrev pub constructed : Result (Arena F) → Process F Session Server → Process F Session Server
  constructed (ok a) p = record p { memory_arena = some a; point = warming }
  constructed (thrown e) p = die terminated p
  constructed fault p = die invalid_access p

  abbrev pub shut :
      Grpc Server → Option Server → Process F Session Server → Process F Session Server
  shut grpc none p = die null_server p
  shut grpc (some s) p = record p {
    server = some (grpc.shut_down g_shutdown_timeout s);
    point = blocked;
  }

  abbrev pub unblock :
      Grpc Server → Option Server → Process F Session Server → Process F Session Server
  unblock grpc none p = die null_server p
  unblock grpc (some s) p = if grpc.is_done s p.calls then record p { point = joining_grpc } else p

  -- Nothing happens in a process that has ended.
  abbrev pub in_life :
      Fate → Process F Session Server → Process F Session Server → Process F Session Server
  in_life alive next p = next
  in_life fate next p = p

module _ {F Options Session : Type 0} ⦃fl : Floats F⦄ (platform : Platform F Options Session) where
  -- `std::make_unique<MemoryArena>()`: the constructor clears what `aligned_alloc` returns without
  -- looking whether it is null.
  unfoldable pub make_arena : Result (Arena F)
  make_arena =
      if not (platform.new_nodes total_max_slots)
      then thrown bad_alloc
      else if not (platform.aligned_alloc 32 (total_max_slots * vector_memsize))
      then fault
      else if not (platform.aligned_alloc 32 payload_buffer_size)
      then fault
      else ok (memory_arena fl.zero_float)

  -- The embedder after a call of `CheckCache`, which leaves it alone without a prompt.
  abbrev pub instance_after : List ℕ → Option Session → Option Session
  instance_after [] instance = instance
  instance_after (byte ∷ prompt) instance = (vectorize platform (byte ∷ prompt) instance).1

module _ {F Options Session Server : Type 0} ⦃fl : Floats F⦄ (platform : Platform F Options Session)
    (grpc : Grpc Server) where
  -- `main` with `RunServer` in it, one statement at a time.
  unfoldable pub main_step : Point → Process F Session Server → Process F Session Server
  unfolding make_arena
  main_step installing p = record p { point = constructing }
  main_step constructing p = constructed (make_arena platform) p
  main_step warming p = warmed (warm_up_engine platform p.instance) p
  main_step building p = record p {
    server = grpc.build_and_start "unix:///tmp/strix.sock";
    point = spawning_gc;
  }
  main_step spawning_gc p = record p { gc_thread = running; point = spawning_grpc }
  main_step spawning_grpc p = record p { grpc_thread = running; point = waiting }
  main_step waiting p = if p.g_shutdown_requested then record p { point = shutting } else p
  main_step shutting p = shut grpc p.server p
  main_step blocked p = unblock grpc p.server p
  main_step joining_grpc p =
      wait_for p.grpc_thread (record p { grpc_thread = joined; point = joining_gc }) p
  main_step joining_gc p = wait_for p.gc_thread (record p { gc_thread = joined; point = leaving }) p
  main_step leaving p = record p { server = none; point = freeing }
  main_step freeing p = record p { memory_arena = none; point = returned; fate = exited }
  main_step returned p = p

  -- A handler's work on the arena. `CheckCache` vectorizes by the process's embedder.
  unfoldable pub handle : Call F → Process F Session Server → Process F Session Server
  handle (check others curr_time prompt) p =
      let encode : List ℕ → Result (ℕ → F) = λ text. (vectorize platform text p.instance).0 in
      with_arena (check_cache encode others curr_time prompt) p.memory_arena
        (record p { instance = instance_after platform prompt p.instance })
  handle (set traffic request) p = with_arena (set_cache traffic request) p.memory_arena p

  unfoldable pub perform : Event F → Process F Session Server → Process F Session Server
  unfolding main_step handle
  perform main_turn p = main_step p.point p
  perform (gc_turn round) p = gc_step round p.gc_thread p
  perform grpc_turn p = grpc_step grpc p.server p.grpc_thread p
  perform interrupt p = signal_handler p.point p
  perform arrive p = admit grpc p.server p
  perform (respond call) p =
      if ltb 0 p.calls then handle call (record p { calls = p.calls - 1 }) else p

  unfoldable pub step : Event F → Process F Session Server → Process F Session Server
  unfolding perform
  step e p = in_life p.fate (perform e p) p

  unfoldable pub run : List (Event F) → Process F Session Server → Process F Session Server
  unfolding step
  run [] p = p
  run (e ∷ events) p = run events (step e p)
