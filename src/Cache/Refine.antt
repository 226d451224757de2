-- ===== src/Cache/Refine.antt =====
-- The engine of engine/src/service.cc and engine/src/arena.cc as an implementation of the cache: whole
-- calls and iterations, one after the other.
use semantic_sentinel.Base.{
  ℕ, ◌≤◌, ◌<◌, ◌≡◌, ◌≢◌, ◌⊎◌, inl, inr, refl, sym, subst, arith, false, u32, List, [],
}
use semantic_sentinel.Base.Int.{pos}
use semantic_sentinel.Constant.{payload_buffer_size, total_max_slots}
use semantic_sentinel.Float.{Floats}
use semantic_sentinel.Node.{unpack_control, load_control}
use semantic_sentinel.Result.{Result, ok, fault}
use semantic_sentinel.Message.{SetCacheRequest}
use semantic_sentinel.Arena.{Arena, memory_arena}
use semantic_sentinel.Arena.Allocate.{used}
use semantic_sentinel.Arena.Queue.{Entry}
use semantic_sentinel.SetCache.{set_cache}
use semantic_sentinel.SetCache.Outcome.{quiet_traffic}
use semantic_sentinel.CheckCache.{check_cache}
use semantic_sentinel.CheckCache.Expiry.{quiet_others}
use semantic_sentinel.CheckCache.Bounds.{check_cache-ne-fault}
use semantic_sentinel.Collector.{collect_once}
use semantic_sentinel.Collector.Visit.{quiet}
use semantic_sentinel.Engine.{Step, check, fill, collect, Reach, start, later}
use semantic_sentinel.Engine.Invariant.{memory_arena-IsSound}
use semantic_sentinel.Cache.{free, Cache, Aged, Checked, Filled, Collected}
use semantic_sentinel.Cache.View.{view}
use semantic_sentinel.Cache.Shows.{StandsFor, StandsFor-view}
use semantic_sentinel.Cache.Checks.{check_cache-Answers}
use semantic_sentinel.Cache.Sets.{Strays, set_cache-Stores}
use semantic_sentinel.Cache.Collects.{collect_once-Sweeps}

module _ {F : Type 0} ⦃fl : Floats F⦄ where
  -- The arena stands for some cache.
  abbrev SomeCache : Arena F → Type 0
  SomeCache a = (q : List Entry) × (v : Cache) × StandsFor a q v

  memory_arena-StandsFor : (zero_float : F) → StandsFor (memory_arena zero_float) [] (λ i. free)
  unfolding memory_arena unpack_control load_control
  memory_arena-StandsFor zero_float = record {
    sound = memory_arena-IsSound zero_float;
    shows = λ i. refl;
  }

  Step-SomeCache : {a b : Arena F} → Step a b → SomeCache a → SomeCache b
  Step-SomeCache {a} (check encode curr_time prompt whole) (q, v, s) =
      let (w, t, _) = check_cache-Answers encode curr_time prompt a q v s in (q, w, t)
  Step-SomeCache {a} (fill request whole fits) (q, v, s) =
      elim (set_cache-Stores request a q v s fits) [
        | inl (q', w, t, _) ↦ (q', w, t)
        | inr (_, _, _, lost) ↦ absurd (whole lost)
      ]
  Step-SomeCache {a} (collect ran) (q, v, s) =
      let (q', w, t, _) = collect_once-Sweeps a q v s ran in (q', w, t)

  Reach-SomeCache : {a : Arena F} → Reach a → SomeCache a
  Reach-SomeCache start = ([], (λ i. free), memory_arena-StandsFor fl.zero_float)
  Reach-SomeCache (later r st) = Step-SomeCache st (Reach-SomeCache r)

  -- In every arena that whole calls and iterations come to, where no call accesses memory outside
  -- the arena or lets its payload run past the tail, what stands between the tail and the head of
  -- the ring is a queue of payloads, each with the header that names its slot and its length, no
  -- slot is migrating, and every ready slot refers to one of these payloads, whose header names
  -- the slot and whose length is the one of the slot's word.
  pub Reach-StandsFor : {a : Arena F} → Reach a → (q : List Entry) × StandsFor a q (view a)
  Reach-StandsFor {a} r =
      let (q, v, s) = Reach-SomeCache r in (q, subst (StandsFor a q) (sym (StandsFor-view s)) s)

  -- The engine starts with an empty cache.
  pub memory_arena-view : (zero_float : F) → view (memory_arena zero_float) ≡ λ i. free
  memory_arena-view zero_float = StandsFor-view (memory_arena-StandsFor zero_float)

  pub check_cache_told :
      (encode : List ℕ → Result (ℕ → F)) (curr_time : ℕ) (prompt : List ℕ) {a : Arena F}
      → Reach a
      → let x = check_cache encode quiet_others curr_time prompt a in
        Checked (view a) x.0 (view x.1) ⊎ ((x.0 ≡ fault) × Aged (view a) (view x.1))
  check_cache_told encode curr_time prompt {a} r =
      let (q, s) = Reach-StandsFor r in
      let (w, t, told) = check_cache-Answers encode curr_time prompt a q (view a) s in
      let x = check_cache encode quiet_others curr_time prompt a in
      subst (λ z. Checked (view a) x.0 z ⊎ ((x.0 ≡ fault) × Aged (view a) z))
        (sym (StandsFor-view t)) told

  -- Every call of `CheckCache`, with no other thread in the way and with memory for the text of
  -- the response, in an arena that whole calls and iterations come to where no call accesses
  -- memory outside the arena or lets its payload run past the tail, does what the cache promises,
  -- if the threshold is above -1 and the vectorization accesses no memory outside its allocations:
  -- it refuses and changes nothing; or it gives claims up at most and serves a text that the cache
  -- has, names a slot whose text is on its way, refuses as no slot of the first level is free, or
  -- claims a free slot for the caller.
  pub check_cache_refines :
      (encode : List ℕ → Result (ℕ → F)) (curr_time : ℕ) (prompt : List ℕ) {a : Arena F}
      → fl.le fl.similarity_threshold fl.minus_one ≡ false
      → encode prompt ≢ fault
      → Reach a
      → let x = check_cache encode quiet_others curr_time prompt a in
        Checked (view a) x.0 (view x.1)
  check_cache_refines encode curr_time prompt {a} law total r =
      elim (check_cache_told encode curr_time prompt r) [
        | inl answered ↦ answered
        | inr (lost, _) ↦
            absurd (check_cache-ne-fault encode quiet_others curr_time prompt a law total lost)
      ]

  set_cache_told :
      (request : SetCacheRequest) {a : Arena F}
      → used (set_cache quiet_traffic request a).1 ≤ payload_buffer_size
      → Reach a
      → let r = set_cache quiet_traffic request a in
        Filled (view a) request r.0 (view r.1) ⊎ Strays request r.0
  set_cache_told request {a} fits r =
      let (q, s) = Reach-StandsFor r in
      elim (set_cache-Stores request a q (view a) s fits) [
        | inl (_, w, t, told) ↦ inl (
            subst (Filled (view a) request (set_cache quiet_traffic request a).0)
              (sym (StandsFor-view t)) told)
        | inr stray ↦ inr stray
      ]

  -- The same of a call that accesses no memory outside the arena.
  pub set_cache_whole :
      (request : SetCacheRequest) {a : Arena F}
      → (set_cache quiet_traffic request a).0 ≢ fault
      → used (set_cache quiet_traffic request a).1 ≤ payload_buffer_size
      → Reach a
      → let r = set_cache quiet_traffic request a in Filled (view a) request r.0 (view r.1)
  set_cache_whole request whole fits r = elim (set_cache_told request fits r) [
    | inl filled_in ↦ filled_in
    | inr (_, _, _, lost) ↦ absurd (whole lost)
  ]

  -- Every call of `SetCache` whose slot's number, if it is not negative, is one of the table, with
  -- no other thread in the way, in an arena that whole calls and iterations come to, where no
  -- earlier call accesses memory outside the arena and neither its payload nor an earlier call's
  -- runs past the tail, does what the cache promises: it fills the slot with its payload and says
  -- success, where the slot is claimed; it says no success with the status OK only where the slot
  -- is not claimed, and changes nothing; or it refuses and changes nothing.
  pub set_cache_refines :
      (request : SetCacheRequest) {a : Arena F}
      → ((n : ℕ) → request.node_id ≡ pos n → u32 n < total_max_slots)
      → used (set_cache quiet_traffic request a).1 ≤ payload_buffer_size
      → Reach a
      → let r = set_cache quiet_traffic request a in Filled (view a) request r.0 (view r.1)
  set_cache_refines request slot fits r = elim (set_cache_told request fits r) [
    | inl filled_in ↦ filled_in
    | inr (n, named, beyond, _) ↦ absurd (let inside = slot n named in omega arith)
  ]

  -- Every iteration of the collector that returns, with no other thread in the way, on an arena that
  -- stands for a cache, leaves an arena that stands for the same cache, or for the one in which one
  -- slot that was not free is free.
  pub collect_once_refines :
      (a : Arena F) (q : List Entry) (v : Cache) {slept : ℕ} {a' : Arena F}
      → StandsFor a q v
      → collect_once quiet a ≡ (ok slept, a')
      → ((q' : List Entry) × StandsFor a' q' (view a')) × Collected v (view a')
  collect_once_refines a q v {slept} {a'} s ran =
      let (q', w, t, step) = collect_once-Sweeps a q v s ran in
      let same = sym (StandsFor-view t) in
      ((q', subst (StandsFor a' q') same t), subst (Collected v) same step)
