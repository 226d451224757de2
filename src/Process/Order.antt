-- ===== src/Process/Order.antt =====
-- The order in which the process of engine/src/main.cc makes and ends what its threads share.
use semantic_sentinel.Base.{
  ℕ, ◌≤◌, ◌<◌, ◌≡◌, ◌≢◌, inl, inr, refl, sym, ◌∙◌, arith, Bool, true, false, Bool-cases, Option,
  none, some,
}
use semantic_sentinel.Constant.{g_shutdown_timeout}
use semantic_sentinel.Result.{Result, Action}
use semantic_sentinel.Arena.{Arena}
use semantic_sentinel.Collector.{Round, collect_once}
use semantic_sentinel.Process.{
  Grpc, IsGrpc, Point, installing, constructing, warming, building, spawning_gc, spawning_grpc,
  waiting, shutting, blocked, joining_grpc, joining_gc, leaving, freeing, returned, Worker, absent,
  running, finished, joined, Fate, alive, exited, use_after_free, Process, boot, signal_handler,
  accessed, with_arena, gc_step, grpc_step, admit, wait_for, warmed, constructed, shut, unblock,
  in_life,
}

-- The number of the statement.
abbrev pub stage : Point → ℕ
stage installing = 0
stage constructing = 1
stage warming = 2
stage building = 3
stage spawning_gc = 4
stage spawning_grpc = 5
stage waiting = 6
stage shutting = 7
stage blocked = 8
stage joining_grpc = 9
stage joining_gc = 10
stage leaving = 11
stage freeing = 12
stage returned = 13

abbrev pub has : {A : Type 0} → Option A → Bool
has none = false
has (some a) = true

-- Which of the shared things there are, and which threads run, at which statement of `main`.
pub record IsOrderly {F Session Server : Type 0} (grpc : Grpc Server) (p : Process F Session Server)
    : Type 0 where
  pub safe : p.fate ≢ use_after_free
  pub arena : 2 ≤ stage p.point → stage p.point ≤ 12 → has p.memory_arena ≡ true
  pub collects_from : p.gc_thread ≡ running → 5 ≤ stage p.point
  pub gc_gone : 11 ≤ stage p.point → p.gc_thread ≡ joined
  pub waits_from : p.grpc_thread ≡ running → 6 ≤ stage p.point
  pub grpc_gone : 10 ≤ stage p.point → p.grpc_thread ≡ joined
  pub serves_from : 0 < p.calls → 4 ≤ stage p.point
  pub serves_to : 0 < p.calls → stage p.point ≤ 8
  pub gc_started : 5 ≤ stage p.point → p.gc_thread ≢ absent
  pub grpc_started : 6 ≤ stage p.point → p.grpc_thread ≢ absent
  pub gc_joined : p.gc_thread ≡ joined → 11 ≤ stage p.point
  pub grpc_joined : p.grpc_thread ≡ joined → 10 ≤ stage p.point
  pub unbuilt : stage p.point ≤ 3 → p.server ≡ none
  pub closed :
      8 ≤ stage p.point
      → stage p.point ≤ 11
      → (s : Server) × (p.server ≡ some (grpc.shut_down g_shutdown_timeout s))
  pub destroyed : 12 ≤ stage p.point → p.server ≡ none
  pub freed : 13 ≤ stage p.point → p.memory_arena ≡ none
  pub ended : p.fate ≡ exited → p.point ≡ returned
  pub over : 13 ≤ stage p.point → p.fate ≢ alive
  pub requested : 7 ≤ stage p.point → p.g_shutdown_requested ≡ true

pub none-some : {A : Type 0} {a : A} → none ≡ some a → ⊥
none-some h = absurd (ground arith)

pub some-inj : {A : Type 0} {a b : A} → some a ≡ some b → a ≡ b
some-inj h = ground arith

closed_by :
    {Server : Type 0} (grpc : Grpc Server) (s : Server)
    → (t : Server) × (some (grpc.shut_down g_shutdown_timeout s)
        ≡ some (grpc.shut_down g_shutdown_timeout t))
closed_by grpc s = (s, refl)

module _ {F Session Server : Type 0} (grpc : Grpc Server) where
  pub boot-IsOrderly : IsOrderly grpc (boot {F = F} {Session = Session} {Server = Server})
  boot-IsOrderly = ground arith

  pub signal_handler-IsOrderly :
      (point : Point) (p : Process F Session Server)
      → IsOrderly grpc p
      → IsOrderly grpc (signal_handler point p)
  signal_handler-IsOrderly point p h = ground arith

  accessed-IsOrderly :
      {A : Type 0} (r : Result A) (a : Arena F) (p : Process F Session Server)
      → stage p.point ≤ 12
      → IsOrderly grpc p
      → IsOrderly grpc (accessed (r, a) p)
  accessed-IsOrderly r a p l h = ground arith

  pub grpc_step-IsOrderly :
      (server : Option Server) (worker : Worker) (p : Process F Session Server)
      → p.server ≡ server
      → p.grpc_thread ≡ worker
      → IsOrderly grpc p
      → IsOrderly grpc (grpc_step grpc server worker p)
  grpc_step-IsOrderly server worker p e f h = ground arith

  -- A server that takes a call is not shut down yet.
  pub admits_before :
      (laws : IsGrpc grpc) (s : Server) (p : Process F Session Server)
      → p.server ≡ some s
      → IsOrderly grpc p
      → grpc.admits s ≡ true
      → (4 ≤ stage p.point) × (stage p.point ≤ 7)
  admits_before laws s p e h taken =
      let early : stage p.point ≤ 3 → ⊥ = λ l. none-some (sym (h.unbuilt l) ∙ e) in
      let late : 12 ≤ stage p.point → ⊥ = λ l. none-some (sym (h.destroyed l) ∙ e) in
      let shut : 8 ≤ stage p.point → stage p.point ≤ 11 → ⊥ = λ l u.
        let (t, f) = h.closed l u in
        let same = some-inj (sym e ∙ f) in
        let refused = laws.closed g_shutdown_timeout t in ground arith in
      ground arith

  pub admit-IsOrderly :
      (laws : IsGrpc grpc) (server : Option Server) (p : Process F Session Server)
      → p.server ≡ server
      → IsOrderly grpc p
      → IsOrderly grpc (admit grpc server p)
  admit-IsOrderly laws none p e h = h
  admit-IsOrderly laws (some s) p e h = elim (Bool-cases (grpc.admits s)) [
    | inr refused ↦ rw refused h
    | inl taken ↦ rw taken (ground (arith, admits_before laws s p e h taken))
  ]

  pub shut_grpc-IsOrderly :
      (server : Option Server) (p : Process F Session Server)
      → p.server ≡ server
      → p.point ≡ shutting
      → IsOrderly grpc p
      → IsOrderly grpc (shut grpc server p)
  shut_grpc-IsOrderly none p e at h = ground arith
  shut_grpc-IsOrderly (some s) p e at h = ground (arith, closed_by grpc s)

  pub unblock-IsOrderly :
      (laws : IsGrpc grpc) (server : Option Server) (p : Process F Session Server)
      → p.server ≡ server
      → p.point ≡ blocked
      → IsOrderly grpc p
      → IsOrderly grpc (unblock grpc server p)
  unblock-IsOrderly laws none p e at h = ground arith
  unblock-IsOrderly laws (some s) p e at h = ground (arith, laws.done_idle s p.calls)

  pub joining_grpc-IsOrderly :
      (worker : Worker) (p : Process F Session Server)
      → p.grpc_thread ≡ worker
      → p.point ≡ joining_grpc
      → IsOrderly grpc p
      → IsOrderly grpc (wait_for worker (record p { grpc_thread = joined; point = joining_gc }) p)
  joining_grpc-IsOrderly worker p e at h = ground arith

  pub joining_gc-IsOrderly :
      (worker : Worker) (p : Process F Session Server)
      → p.gc_thread ≡ worker
      → p.point ≡ joining_gc
      → IsOrderly grpc p
      → IsOrderly grpc (wait_for worker (record p { gc_thread = joined; point = leaving }) p)
  joining_gc-IsOrderly worker p e at h = ground arith

  pub with_arena-IsOrderly :
      {A : Type 0} (f : Action (Arena F) A) (arena : Option (Arena F))
      (p : Process F Session Server)
      → stage p.point ≤ 12
      → has arena ≡ true
      → IsOrderly grpc p
      → IsOrderly grpc (with_arena f arena p)
  with_arena-IsOrderly f none p l e h = absurd (ground arith)
  with_arena-IsOrderly f (some a) p l e h = accessed-IsOrderly (f a).0 (f a).1 p l h

  pub gc_step-IsOrderly :
      (round : Round F) (worker : Worker) (p : Process F Session Server)
      → p.gc_thread ≡ worker
      → IsOrderly grpc p
      → IsOrderly grpc (gc_step round worker p)
  gc_step-IsOrderly round absent p e h = h
  gc_step-IsOrderly round finished p e h = h
  gc_step-IsOrderly round joined p e h = h
  gc_step-IsOrderly round running p e h =
      let there : has p.memory_arena ≡ true = ground arith in
      elim (Bool-cases p.g_shutdown_requested) [
        | inl stop ↦ rw stop (ground arith)
        | inr go ↦
            simp go
              (with_arena-IsOrderly (collect_once round) p.memory_arena p (ground arith) there h)
      ]

  pub in_life-IsOrderly :
      (fate : Fate) (next p : Process F Session Server)
      → IsOrderly grpc p
      → IsOrderly grpc next
      → IsOrderly grpc (in_life fate next p)
  in_life-IsOrderly fate next p h n = ground arith

  pub warmed-IsOrderly :
      (r : Result (Unit {0})) (instance : Option Session) (p : Process F Session Server)
      → p.point ≡ warming
      → IsOrderly grpc p
      → IsOrderly grpc (warmed (r, instance) p)
  warmed-IsOrderly r instance p at h = ground arith

  pub constructed-IsOrderly :
      (r : Result (Arena F)) (p : Process F Session Server)
      → p.point ≡ constructing
      → IsOrderly grpc p
      → IsOrderly grpc (constructed r p)
  constructed-IsOrderly r p at h = ground arith

  pub final :
      (p : Process F Session Server)
      → IsOrderly grpc p
      → p.fate ≡ exited
      → (p.gc_thread ≡ joined) × (p.grpc_thread ≡ joined) × (p.calls ≡ 0) × (p.memory_arena ≡ none)
  final p h e = ground arith
