-- ===== src/Process/Sound.antt =====
-- The arena of the process of engine/src/main.cc, in runs in which the calls and the collector do not
-- overlap.
use semantic_sentinel.Base.{
  ℕ, ◌≡◌, inl, inr, refl, sym, subst, arith, Bool-cases, ltb, ◌-◌, List, Option, none, some,
}
use mathlib.Core.List.{Subset, not-mem-nil}
use semantic_sentinel.Cache.Origin.{requests, Brought, check_cache_origin}
use semantic_sentinel.Float.{Floats}
use semantic_sentinel.Result.{Result, ok, thrown, fault, Action}
use semantic_sentinel.Arena.{Arena, memory_arena}
use semantic_sentinel.Collector.{Round, collect_once}
use semantic_sentinel.Collector.Visit.{quiet}
use semantic_sentinel.Message.{SetCacheRequest, status_ok}
use semantic_sentinel.CheckCache.Answer.{served}
use semantic_sentinel.CheckCache.{check_cache}
use semantic_sentinel.CheckCache.Expiry.{quiet_others}
use semantic_sentinel.SetCache.{set_cache}
use semantic_sentinel.Embedder.Instance.{Platform, vectorize, warm_up_engine}
use semantic_sentinel.Engine.{start}
use semantic_sentinel.Engine.Stores.{SomeSound}
use semantic_sentinel.Engine.Invariant.{Reach-IsSound}
use semantic_sentinel.Process.{
  Grpc, Point, constructing, warming, waiting, shutting, blocked, joining_grpc, joining_gc, leaving,
  freeing, Worker, running, joined, Fate, alive, Process, Call, check, set, Event, main_turn,
  gc_turn, grpc_turn, interrupt, arrive, respond, boot, accessed, with_arena, gc_step, constructed,
  instance_after, make_arena, main_step, handle, perform, in_life, step, run,
}
use semantic_sentinel.Process.Same.{
  grpc_step-same, admit-same, signal_handler-same, warmed-same, shut-same, unblock-same,
  wait_for-same,
}
use semantic_sentinel.Process.Quiet.{
  IsQuietCall, IsQuiet, QuietRun, stop, turn, sent, IsAmong, Sends, Subset-sent, ReachBy, InReach,
  found, collect_once-ReachBy, check_cache-ReachBy, set_cache-ReachBy,
}

module _ {F Session Server : Type 0} ⦃fl : Floats F⦄ (all : List SetCacheRequest) where
  accessed-InReach :
      {A : Type 0} (r : Result A) (b : Arena F) (p : Process F Session Server)
      → InReach all p.memory_arena
      → ((x : A) → r ≡ ok x → ReachBy all b)
      → InReach all (accessed (r, b) p).memory_arena
  accessed-InReach (ok x) b p h f = f x refl
  accessed-InReach (thrown e) b p h f = h
  accessed-InReach fault b p h f = h

  with_arena-InReach :
      {A : Type 0} (f : Action (Arena F) A) (arena : Option (Arena F))
      (p : Process F Session Server)
      → InReach all p.memory_arena
      → ((a : Arena F) → arena ≡ some a → (x : A) → (f a).0 ≡ ok x → ReachBy all (f a).1)
      → InReach all (with_arena f arena p).memory_arena
  with_arena-InReach f none p h g = h
  with_arena-InReach f (some a) p h g = accessed-InReach (f a).0 (f a).1 p h (g a refl)

  gc_step-InReach :
      (round : Round F) (worker : Worker) (p : Process F Session Server)
      → round ≡ quiet
      → InReach all p.memory_arena
      → InReach all (gc_step round worker p).memory_arena
  gc_step-InReach round running p q h = elim (Bool-cases p.g_shutdown_requested) [
    | inl flag ↦ simp flag h
    | inr go ↦ simp go (
        with_arena-InReach (collect_once round) p.memory_arena p h
          (λ a e slept ran. collect_once-ReachBy all round a slept q (found all h e) ran))
  ]
  gc_step-InReach round worker p q h = h

module _ {F Options Session Server : Type 0} ⦃fl : Floats F⦄ (platform : Platform F Options Session)
    (grpc : Grpc Server) (all : List SetCacheRequest) where
  make_arena-ReachBy : (a : Arena F) → make_arena platform ≡ ok a → ReachBy all a
  unfolding make_arena requests
  make_arena-ReachBy a h =
      let e : memory_arena fl.zero_float ≡ a = ground arith in
      subst (ReachBy all) e (start, λ x m. absurd (not-mem-nil m))

  constructed-InReach :
      (r : Result (Arena F)) (p : Process F Session Server)
      → r ≡ make_arena platform
      → InReach all p.memory_arena
      → InReach all (constructed r p).memory_arena
  constructed-InReach (ok a) p e h = make_arena-ReachBy a (sym e)
  constructed-InReach (thrown x) p e h = h
  constructed-InReach fault p e h = h

  main_step-InReach :
      (point : Point) (p : Process F Session Server)
      → InReach all p.memory_arena
      → InReach all (main_step platform grpc point p).memory_arena
  unfolding main_step
  main_step-InReach constructing p h = constructed-InReach (make_arena platform) p refl h
  main_step-InReach warming p h =
      let w = warm_up_engine platform p.instance in subst (InReach all) (warmed-same w.0 w.1 p) h
  main_step-InReach waiting p h = elim (Bool-cases p.g_shutdown_requested) [
    | inl flag ↦ simp flag h
    | inr go ↦ simp go h
  ]
  main_step-InReach shutting p h = subst (InReach all) (shut-same grpc p.server p) h
  main_step-InReach blocked p h = subst (InReach all) (unblock-same grpc p.server p) h
  main_step-InReach joining_grpc p h =
      subst (InReach all)
        (wait_for-same p.grpc_thread (record p { grpc_thread = joined; point = joining_gc }) p refl)
        h
  main_step-InReach joining_gc p h =
      subst (InReach all)
        (wait_for-same p.gc_thread (record p { gc_thread = joined; point = leaving }) p refl) h
  main_step-InReach freeing p h = tt
  main_step-InReach point p h = h

  handle-InReach :
      (call : Call F) (p : Process F Session Server)
      → IsQuietCall call p.memory_arena
      → IsAmong all call
      → InReach all p.memory_arena
      → InReach all (handle platform grpc call p).memory_arena
  unfolding handle
  handle-InReach (check others curr_time prompt) p q new h =
      let encode : List ℕ → Result (ℕ → F) = λ text. (vectorize platform text p.instance).0 in
      with_arena-InReach all (check_cache encode others curr_time prompt) p.memory_arena
        (record p { instance = instance_after platform prompt p.instance }) h
        (λ a e x ran.
          check_cache-ReachBy all encode others curr_time prompt a q (found all h e) (λ lost. cc))
  handle-InReach (set traffic request) p q new h =
      with_arena-InReach all (set_cache traffic request) p.memory_arena p h (λ a e x ran.
        set_cache-ReachBy all traffic request a (subst (IsQuietCall (set traffic request)) e q) new
          (found all h e) (λ lost. cc))

  perform-InReach :
      (e : Event F) (p : Process F Session Server)
      → IsQuiet e p
      → Sends all e
      → InReach all p.memory_arena
      → InReach all (perform platform grpc e p).memory_arena
  unfolding perform
  perform-InReach main_turn p q new h = main_step-InReach p.point p h
  perform-InReach (gc_turn round) p q new h = gc_step-InReach all round p.gc_thread p q h
  perform-InReach grpc_turn p q new h =
      subst (InReach all) (grpc_step-same grpc p.server p.grpc_thread p) h
  perform-InReach interrupt p q new h = subst (InReach all) (signal_handler-same p.point p) h
  perform-InReach arrive p q new h = subst (InReach all) (admit-same grpc p.server p) h
  perform-InReach (respond call) p q new h = elim (Bool-cases (ltb 0 p.calls)) [
    | inr idle ↦ simp idle h
    | inl busy ↦ simp busy (handle-InReach call (record p { calls = p.calls - 1 }) q new h)
  ]

  in_life-InReach :
      (fate : Fate) (next p : Process F Session Server)
      → InReach all p.memory_arena
      → InReach all next.memory_arena
      → InReach all (in_life fate next p).memory_arena
  in_life-InReach alive next p h n = n
  in_life-InReach fate next p h n = h

  run-InReach :
      {events : List (Event F)} {p : Process F Session Server}
      → InReach all p.memory_arena
      → Subset (sent events) all
      → QuietRun platform grpc events p
      → InReach all (run platform grpc events p).memory_arena
  unfolding run step
  run-InReach h among stop = h
  run-InReach h among (turn {e = e} {events = events} {p = p} q rest) =
      let (new, others) = Subset-sent all e events among in
      run-InReach
        (in_life-InReach p.fate (perform platform grpc e p) p h (perform-InReach e p q new h))
        others rest

module _ {F Options Session Server : Type 0} ⦃fl : Floats F⦄ (platform : Platform F Options Session)
    (grpc : Grpc Server) (events : List (Event F)) (a : Arena F) where
  -- The engine comes to the arena of the process by the requests of the run.
  pub run-ReachBy :
      QuietRun platform grpc events boot
      → (run platform grpc events boot).memory_arena ≡ some a
      → ReachBy (sent events) a
  run-ReachBy quiet_run e =
      found (sent events) (run-InReach platform grpc (sent events) tt (λ x m. m) quiet_run) e

  -- In every run of the process in which whole calls and iterations follow one another, and no call's
  -- payload runs past the tail, the arena is sound as long as there is one: its ring is a queue of
  -- payloads, and no slot is migrating.
  pub run-SomeSound :
      QuietRun platform grpc events boot
      → (run platform grpc events boot).memory_arena ≡ some a
      → SomeSound a
  run-SomeSound quiet_run e = Reach-IsSound (run-ReachBy quiet_run e).0

  -- In every run of the process in which whole calls and iterations follow one another, and no call's
  -- payload runs past the tail, with memory for the texts of the responses, and as long as there is an
  -- arena: a hit of a whole call of `CheckCache`,
  -- with no other thread in the way, serves a text that a request of a call of `SetCache` in this run
  -- brought, for a slot that the request named.
  pub run_origin :
      (encode : List ℕ → Result (ℕ → F)) (curr_time : ℕ) (prompt text : List ℕ)
      → QuietRun platform grpc events boot
      → (run platform grpc events boot).memory_arena ≡ some a
      → (check_cache encode quiet_others curr_time prompt a).0 ≡ ok (status_ok, served text)
      → (i : ℕ) × Brought i text (sent events)
  run_origin encode curr_time prompt text quiet_run e hit =
      let (r, among) = run-ReachBy quiet_run e in
      let (i, b) = check_cache_origin encode curr_time prompt text r hit in
      (
        i,
        record {
          request = b.request;
          member = among b.request b.member;
          node_id = b.node_id;
          named = b.named;
          slot = b.slot;
          brings = b.brings;
        },
      )
