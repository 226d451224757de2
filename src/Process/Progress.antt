-- ===== src/Process/Progress.antt =====
-- One event of the process of engine/src/main.cc after the call of `Shutdown`.
use Prim.Native.String.{String}
use semantic_sentinel.Base.{
  ℕ, ◌+◌, ◌-◌, ◌≤◌, ◌<◌, ◌≡◌, ◌≢◌, ◌⊎◌, inl, inr, refl, arith, true, false, Bool-cases, ltb, List,
  [], ◌∷◌, Option, none, some,
}
use semantic_sentinel.Float.{Floats}
use semantic_sentinel.Result.{Exception, Result, ok, thrown, fault, Action, resume}
use semantic_sentinel.Arena.{Arena}
use semantic_sentinel.Message.{Status, SetCacheRequest, empty_response, caught}
use semantic_sentinel.CheckCache.{Others, look_up, check_cache}
use semantic_sentinel.SetCache.{Traffic, checked_set, set_cache}
use semantic_sentinel.Collector.{Round}
use semantic_sentinel.Embedder.Instance.{Platform, vectorize}
use semantic_sentinel.Process.{
  Grpc, IsGrpc, Point, blocked, joining_grpc, joining_gc, leaving, freeing, returned, Worker,
  absent, running, finished, joined, alive, exited, invalid_access, Process, Call, check, set,
  Event, main_turn, gc_turn, grpc_turn, interrupt, arrive, respond, signal_handler, accessed,
  with_arena, gc_step, grpc_step, admit, wait_for, unblock, instance_after, main_step, handle,
  perform,
}
use semantic_sentinel.Process.Order.{stage, has, IsOrderly, admits_before}

-- A thread that has still to end.
abbrev pub left : Worker → ℕ
left running = 1
left worker = 0

-- What is left to do: statements of `main`, threads to end, and handlers to return.
abbrev pub rank : {F Session Server : Type 0} → Process F Session Server → ℕ
rank p = 14 - stage p.point + left p.gc_thread + left p.grpc_thread + p.calls

-- `main` has called `Shutdown`, and the process runs, has ended, or has accessed memory outside an
-- allocation in a handler.
pub record IsClosing {F Session Server : Type 0} (p : Process F Session Server) : Type 0 where
  pub late : 8 ≤ stage p.point
  pub fates : (p.fate ≡ alive) ⊎ ((p.fate ≡ exited) ⊎ (p.fate ≡ invalid_access))

-- An event leaves the process as it is, or takes it nearer to its end.
abbrev pub Progress :
    {F Session Server : Type 0} → Process F Session Server → Process F Session Server → Type 0
Progress p p' = (p' ≡ p) ⊎ ((rank p' < rank p) × IsClosing p')

caught-ne-thrown :
    {S A : Type 0} (prefix : String) (response : A) (r : Result (Status × A)) (s : S)
    (e : Exception)
    → (caught prefix response (r, s)).0 ≢ thrown e
caught-ne-thrown prefix response (ok v) s e h = absurd (ground arith)
caught-ne-thrown prefix response (thrown x) s e h = absurd (ground arith)
caught-ne-thrown prefix response fault s e h = absurd (ground arith)

check_cache-ne-thrown :
    {F : Type 0} ⦃fl : Floats F⦄ (encode : List ℕ → Result (ℕ → F)) (others : Others F)
    (curr_time : ℕ) (prompt : List ℕ) (a : Arena F) (e : Exception)
    → (check_cache encode others curr_time prompt a).0 ≢ thrown e
unfolding check_cache
check_cache-ne-thrown encode others curr_time [] a e h = absurd (ground arith)
check_cache-ne-thrown encode others curr_time (byte ∷ prompt) a e h =
    let found = resume (encode (byte ∷ prompt), a) (λ query. look_up others query curr_time) in
    caught-ne-thrown "Encounter error: " empty_response found.0 found.1 e h

set_cache-ne-thrown :
    {F : Type 0} (traffic : Traffic F) (request : SetCacheRequest) (a : Arena F) (e : Exception)
    → (set_cache traffic request a).0 ≢ thrown e
unfolding set_cache
set_cache-ne-thrown traffic request a e h =
    let r = checked_set traffic request.node_id request.uncached_payload a in
    caught-ne-thrown "Encounter error" false r.0 r.1 e h

module _ {F Session Server : Type 0} (grpc : Grpc Server) where
  requested-same :
      (point : Point) (p : Process F Session Server)
      → p.point ≡ point
      → IsOrderly grpc p
      → IsClosing p
      → signal_handler point p ≡ p
  requested-same point p at h c = ground arith

  gc_step-Progress :
      (round : Round F) (worker : Worker) (p : Process F Session Server)
      → p.gc_thread ≡ worker
      → IsOrderly grpc p
      → IsClosing p
      → p.fate ≡ alive
      → Progress p (gc_step round worker p)
  gc_step-Progress round absent p e h c life = inl refl
  gc_step-Progress round finished p e h c life = inl refl
  gc_step-Progress round joined p e h c life = inl refl
  gc_step-Progress round running p e h c life =
      let stop : p.g_shutdown_requested ≡ true = ground arith in
      inr (simp stop (ground arith), simp stop (ground arith))

  grpc_step-Progress :
      (server : Option Server) (worker : Worker) (p : Process F Session Server)
      → p.server ≡ server
      → p.grpc_thread ≡ worker
      → IsOrderly grpc p
      → IsClosing p
      → p.fate ≡ alive
      → Progress p (grpc_step grpc server worker p)
  grpc_step-Progress server worker p e f h c life = ground arith

  admit-same :
      (laws : IsGrpc grpc) (server : Option Server) (p : Process F Session Server)
      → p.server ≡ server
      → IsOrderly grpc p
      → IsClosing p
      → admit grpc server p ≡ p
  admit-same laws none p e h c = refl
  admit-same laws (some s) p e h c = elim (Bool-cases (grpc.admits s)) [
    | inr refused ↦ rw refused refl
    | inl taken ↦
        let (_, early) = admits_before grpc laws s p e h taken in absurd (omega (arith, c.late))
  ]

  unblock-Progress :
      (server : Option Server) (p : Process F Session Server)
      → p.server ≡ server
      → p.point ≡ blocked
      → IsOrderly grpc p
      → IsClosing p
      → p.fate ≡ alive
      → Progress p (unblock grpc server p)
  unblock-Progress server p e at h c life = ground arith

  joining_grpc-Progress :
      (worker : Worker) (p : Process F Session Server)
      → p.grpc_thread ≡ worker
      → p.point ≡ joining_grpc
      → p.fate ≡ alive
      → Progress p (wait_for worker (record p { grpc_thread = joined; point = joining_gc }) p)
  joining_grpc-Progress worker p e at life = ground arith

  joining_gc-Progress :
      (worker : Worker) (p : Process F Session Server)
      → p.gc_thread ≡ worker
      → p.point ≡ joining_gc
      → p.fate ≡ alive
      → Progress p (wait_for worker (record p { gc_thread = joined; point = leaving }) p)
  joining_gc-Progress worker p e at life = ground arith

  accessed-Progress :
      {A : Type 0} (r : Result A) (a : Arena F) (p q : Process F Session Server)
      → ((e : Exception) → r ≢ thrown e)
      → (rank q < rank p)
      → IsClosing q
      → (rank (accessed (r, a) q) < rank p) × IsClosing (accessed (r, a) q)
  accessed-Progress (ok r) a p q total less c = (less, ground arith)
  accessed-Progress (thrown e) a p q total less c = absurd (total e refl)
  accessed-Progress fault a p q total less c = (less, ground arith)

  -- A handler that does not throw.
  with_arena-Progress :
      {A : Type 0} (f : Action (Arena F) A) (arena : Option (Arena F))
      (p q : Process F Session Server)
      → has arena ≡ true
      → ((a : Arena F) (e : Exception) → (f a).0 ≢ thrown e)
      → (rank q < rank p)
      → IsClosing q
      → (rank (with_arena f arena q) < rank p) × IsClosing (with_arena f arena q)
  with_arena-Progress f none p q there total less c = absurd (ground arith)
  with_arena-Progress f (some a) p q there total less c =
      accessed-Progress (f a).0 (f a).1 p q (total a) less c

module _ {F Options Session Server : Type 0} ⦃fl : Floats F⦄ (platform : Platform F Options Session)
    {grpc : Grpc Server} (laws : IsGrpc grpc) where
  main_step-Progress :
      (point : Point) (p : Process F Session Server)
      → p.point ≡ point
      → IsOrderly grpc p
      → IsClosing p
      → p.fate ≡ alive
      → Progress p (main_step platform grpc point p)
  unfolding main_step
  main_step-Progress blocked p at h c life = unblock-Progress grpc p.server p refl at h c life
  main_step-Progress joining_grpc p at h c life =
      joining_grpc-Progress grpc p.grpc_thread p refl at life
  main_step-Progress joining_gc p at h c life = joining_gc-Progress grpc p.gc_thread p refl at life
  main_step-Progress leaving p at h c life = ground arith
  main_step-Progress freeing p at h c life = ground arith
  main_step-Progress returned p at h c life = inl refl
  main_step-Progress point p at h c life = ground arith

  handle-Progress :
      (call : Call F) (p q : Process F Session Server)
      → has q.memory_arena ≡ true
      → rank q < rank p
      → IsClosing q
      → let p' = handle platform grpc call q in (rank p' < rank p) × IsClosing p'
  unfolding handle
  handle-Progress (check others curr_time prompt) p q there less c =
      let encode : List ℕ → Result (ℕ → F) = λ text. (vectorize platform text q.instance).0 in
      with_arena-Progress grpc (check_cache encode others curr_time prompt) q.memory_arena p
        (record q { instance = instance_after platform prompt q.instance }) there
        (check_cache-ne-thrown encode others curr_time prompt) less (ground arith)
  handle-Progress (set traffic request) p q there less c =
      with_arena-Progress grpc (set_cache traffic request) q.memory_arena p q there
        (set_cache-ne-thrown traffic request) less c

  pub respond-Progress :
      (call : Call F) (p : Process F Session Server)
      → IsOrderly grpc p
      → IsClosing p
      → p.fate ≡ alive
      → 0 < p.calls
      → let p' = perform platform grpc (respond call) p in (rank p' < rank p) × IsClosing p'
  unfolding perform
  respond-Progress call p h c life one =
      let busy : ltb 0 p.calls ≡ true = ground arith in
      let there : has p.memory_arena ≡ true = ground arith in
      simp busy (
        handle-Progress call p (record p { calls = p.calls - 1 }) there (omega arith)
          (ground arith))

  pub perform-Progress :
      (e : Event F) (p : Process F Session Server)
      → IsOrderly grpc p
      → IsClosing p
      → p.fate ≡ alive
      → Progress p (perform platform grpc e p)
  unfolding perform
  perform-Progress main_turn p h c life = main_step-Progress p.point p refl h c life
  perform-Progress (gc_turn round) p h c life =
      gc_step-Progress grpc round p.gc_thread p refl h c life
  perform-Progress grpc_turn p h c life =
      grpc_step-Progress grpc p.server p.grpc_thread p refl refl h c life
  perform-Progress interrupt p h c life = inl (requested-same grpc p.point p refl h c)
  perform-Progress arrive p h c life = inl (admit-same grpc laws p.server p refl h c)
  perform-Progress (respond call) p h c life = elim (Bool-cases (ltb 0 p.calls)) [
    | inr idle ↦ simp idle (inl refl)
    | inl busy ↦ inr (respond-Progress call p h c life (ground arith))
  ]
