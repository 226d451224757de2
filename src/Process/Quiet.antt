-- ===== src/Process/Quiet.antt =====
-- Runs of the process of engine/src/main.cc in which the calls and the collector do not overlap, and
-- what one call or iteration does to the arena in them.
use semantic_sentinel.Base.{ℕ, ◌≤◌, ◌≡◌, ◌≢◌, sym, subst, ap, List, [], ◌∷◌, Option, none, some}
use mathlib.Core.List.{Mem, Mem-prop, Subset, mem-cons_self, mem-cons_of_mem, eq-or-mem_of_mem-cons}
use mathlib.Core.Logic.Or
use semantic_sentinel.Cache.Origin.{requests}
use semantic_sentinel.Constant.{payload_buffer_size}
use semantic_sentinel.Float.{Floats}
use semantic_sentinel.Result.{Result, ok, fault}
use semantic_sentinel.Arena.{Arena}
use semantic_sentinel.Arena.Allocate.{used}
use semantic_sentinel.Collector.{Round, collect_once}
use semantic_sentinel.Collector.Visit.{quiet}
use semantic_sentinel.Message.{SetCacheRequest}
use semantic_sentinel.CheckCache.{Others, check_cache}
use semantic_sentinel.CheckCache.Expiry.{quiet_others}
use semantic_sentinel.SetCache.{Traffic, set_cache}
use semantic_sentinel.SetCache.Outcome.{quiet_traffic}
use semantic_sentinel.Embedder.Instance.{Platform}
use semantic_sentinel.Engine.{Reach, later, check as checks, fill, collect}
use semantic_sentinel.Process.{
  Grpc, Process, Call, check, set, Event, main_turn, gc_turn, grpc_turn, interrupt, arrive, respond,
  step,
}

-- A call during which nothing else happens, with memory for the text of the response; one of `SetCache` is such that its payload does not run
-- past the tail, which the guard does not ensure.
abbrev pub IsQuietCall : {F : Type 0} → Call F → Option (Arena F) → Type 0
IsQuietCall (check others curr_time prompt) arena = others ≡ quiet_others
IsQuietCall (set traffic request) none = Unit {0}
IsQuietCall (set traffic request) (some a) =
    (traffic ≡ quiet_traffic) × (used (set_cache quiet_traffic request a).1 ≤ payload_buffer_size)

abbrev pub IsQuiet : {F Session Server : Type 0} → Event F → Process F Session Server → Type 0
IsQuiet (gc_turn round) p = round ≡ quiet
IsQuiet (respond call) p = IsQuietCall call p.memory_arena
IsQuiet e p = Unit {0}

-- A run in which whole calls and iterations follow one another.
pub data QuietRun {F Options Session Server : Type 0} ⦃fl : Floats F⦄
    (platform : Platform F Options Session) (grpc : Grpc Server)
    : List (Event F) → Process F Session Server → Type 0 where
  stop : {p : Process F Session Server} → QuietRun platform grpc [] p
  turn :
      {e : Event F} {events : List (Event F)} {p : Process F Session Server}
      → IsQuiet e p
      → QuietRun platform grpc events (step platform grpc e p)
      → QuietRun platform grpc (e ∷ events) p

-- The requests of the calls of `SetCache`.
abbrev pub sent : {F : Type 0} → List (Event F) → List SetCacheRequest
sent [] = []
sent (respond (set traffic request) ∷ events) = request ∷ sent events
sent (e ∷ events) = sent events

-- The request of the call, if it is one of `SetCache`, is among the ones of the list.
abbrev pub IsAmong : {F : Type 0} → List SetCacheRequest → Call F → Type 0
IsAmong all (check others curr_time prompt) = Unit {0}
IsAmong all (set traffic request) = Mem request all

abbrev pub Sends : {F : Type 0} → List SetCacheRequest → Event F → Type 0
Sends all (respond call) = IsAmong all call
Sends all e = Unit {0}

pub Subset-sent :
    {F : Type 0} (all : List SetCacheRequest) (e : Event F) (events : List (Event F))
    → Subset (sent (e ∷ events)) all
    → Sends all e × Subset (sent events) all
Subset-sent all (respond (set traffic request)) events h =
    (h request mem-cons_self, λ x m. h x (mem-cons_of_mem request m))
Subset-sent all (respond (check others curr_time prompt)) events h = (tt, h)
Subset-sent all main_turn events h = (tt, h)
Subset-sent all (gc_turn round) events h = (tt, h)
Subset-sent all grpc_turn events h = (tt, h)
Subset-sent all interrupt events h = (tt, h)
Subset-sent all arrive events h = (tt, h)

module _ {F : Type 0} ⦃fl : Floats F⦄ (all : List SetCacheRequest) where
  -- The engine comes to the arena by calls of `SetCache` with requests of the list.
  abbrev pub ReachBy : Arena F → Type 0
  ReachBy a = (r : Reach a) × Subset (requests r) all

  -- The same of the process's arena, if there is one.
  abbrev pub InReach : Option (Arena F) → Type 0
  InReach none = Unit {0}
  InReach (some a) = ReachBy a

  pub found : {arena : Option (Arena F)} {a : Arena F} → InReach arena → arena ≡ some a → ReachBy a
  found h e = subst InReach e h

  pub collect_once-ReachBy :
      (round : Round F) (a : Arena F) (slept : ℕ)
      → round ≡ quiet
      → ReachBy a
      → (collect_once round a).0 ≡ ok slept
      → ReachBy (collect_once round a).1
  unfolding requests
  collect_once-ReachBy round a slept q (r, among) =
      subst (λ z. (collect_once z a).0 ≡ ok slept → ReachBy (collect_once z a).1) (sym q)
        (λ ran. (later r (collect (ap (λ x. (x, (collect_once quiet a).1)) ran)), among))

  pub check_cache-ReachBy :
      (encode : List ℕ → Result (ℕ → F)) (others : Others F) (curr_time : ℕ) (prompt : List ℕ)
      (a : Arena F)
      → others ≡ quiet_others
      → ReachBy a
      → (check_cache encode others curr_time prompt a).0 ≢ fault
      → ReachBy (check_cache encode others curr_time prompt a).1
  unfolding requests
  check_cache-ReachBy encode others curr_time prompt a q (r, among) =
      subst
        (λ z.
          (check_cache encode z curr_time prompt a).0 ≢ fault
          → ReachBy (check_cache encode z curr_time prompt a).1)
        (sym q) (λ whole. (later r (checks encode curr_time prompt whole), among))

  pub set_cache-ReachBy :
      (traffic : Traffic F) (request : SetCacheRequest) (a : Arena F)
      → (traffic ≡ quiet_traffic)
        × (used (set_cache quiet_traffic request a).1 ≤ payload_buffer_size)
      → Mem request all
      → ReachBy a
      → (set_cache traffic request a).0 ≢ fault
      → ReachBy (set_cache traffic request a).1
  unfolding requests
  set_cache-ReachBy traffic request a (q, fits) new (r, among) =
      subst (λ z. (set_cache z request a).0 ≢ fault → ReachBy (set_cache z request a).1) (sym q)
        (λ whole. (
          later r (fill request whole fits),
          λ x m.
              Or.elim Mem-prop (eq-or-mem_of_mem-cons m) (λ e. subst (λ y. Mem y all) (sym e) new)
                (λ old. among x old),
        ))
