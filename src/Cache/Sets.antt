-- ===== src/Cache/Sets.antt =====
-- `SetCache` of engine/src/service.cc, with no other thread in the way, as a call on the cache.
use semantic_sentinel.Base.{
  ℕ, ◌%◌, ◌^◌, ◌≤◌, ◌≡◌, ◌≢◌, ◌⊎◌, inl, inr, refl, sym, ◌∙◌, ap, arith, subst, Bool, true, false,
  Bool-cases, List, [], ◌∷◌, ◌++◌, u32, length,
}
use semantic_sentinel.Base.Int.{pos}
use semantic_sentinel.Constant.{payload_buffer_size, total_max_slots}
use semantic_sentinel.Node.{ready, pending, hot, pack_control, load_control}
use semantic_sentinel.Result.{Result, ok, fault}
use semantic_sentinel.Message.{Status, status_ok, SetCacheRequest}
use semantic_sentinel.Arena.{Arena}
use semantic_sentinel.Arena.Allocate.{used}
use semantic_sentinel.Arena.Queue.{Entry}
use semantic_sentinel.Arena.Stored.{after_write}
use semantic_sentinel.Slot.{set_control}
use semantic_sentinel.Slot.Kept.{Kept}
use semantic_sentinel.SetCache.{is_pending, publish, set_cache}
use semantic_sentinel.SetCache.Outcome.{quiet_traffic}
use semantic_sentinel.SetCache.Store.{
  ready_control, is_pending-pending, pending-is_pending, publish_waiting,
}
use semantic_sentinel.Engine.Stores.{IsSound, Kept-IsSound, publish-Kept, Brings, set_cache-Sets}
use semantic_sentinel.Cache.{claimed, filled, Cache, put, Filled, accept, late, reject}
use semantic_sentinel.Cache.View.{Live, Live-append, Live-last}
use semantic_sentinel.Cache.Shows.{
  Backs, Shows, Shows-live, Shows-claimed, StandsFor, put-StandsFor,
}

-- A call that names a slot beyond the table, and accesses it.
abbrev pub Strays : SetCacheRequest → Result (Status × Bool) → Type 0
Strays request r = (n : ℕ) × (request.node_id ≡ pos n) × (total_max_slots ≤ u32 n) × (r ≡ fault)

module _ {F : Type 0} where
  not_waiting :
      (node_id desired : ℕ) (a : Arena F)
      → is_pending (a.metadata node_id).control_block ≡ false
      → publish [] node_id desired a ≡ (false, a)
  unfolding publish
  not_waiting node_id desired a h = rw h refl

  -- What a whole call leaves.
  abbrev pub Stores : Cache → SetCacheRequest → Result (Status × Bool) × Arena F → Type 0
  Stores v request r = (q : List Entry) × (w : Cache) × StandsFor r.1 q w × Filled v request r.0 w

  module _ (request : SetCacheRequest) (n : ℕ) (named : request.node_id ≡ pos n) {a : Arena F}
      {q : List Entry} {v : Cache} (s : StandsFor a q v) {r : Result (Status × Bool) × Arena F}
      (b : Brings (u32 n) request.uncached_payload a q r) where
    abbrev laid : Arena F
    laid = after_write a b.offset (u32 n) request.uncached_payload

    abbrev longer : List Entry
    longer = q ++ (record { node_id = u32 n; text = request.uncached_payload } ∷ [])

    laid-Shows : (i : ℕ) → Shows laid.read_tail longer i (load_control (laid.metadata i)) (v i)
    laid-Shows i =
        let last = record { node_id = u32 n; text = request.uncached_payload } ∷ [] in
        Shows-live a.read_tail a.read_tail q longer i (load_control (a.metadata i)) (v i)
          (λ p text state epoch live.
            Live-append a.read_tail q last p (record { node_id = i; text = text }) live)
          (s.shows i)

    laid-IsSound : IsSound laid longer
    laid-IsSound = record { holds = b.holds; settled = s.sound.settled }

    abbrev desired : ℕ
    desired = pack_control ready hot (length request.uncached_payload) b.offset

    abbrev published : Arena F
    published = set_control (u32 n) desired laid

    -- The word that is published refers to the payload.
    published-Backs :
        Backs published.read_tail longer
          (u32 n)
          (load_control (published.metadata (u32 n)))
          request.uncached_payload
    unfolding set_control load_control
    published-Backs =
        let e : Entry = record { node_id = u32 n; text = request.uncached_payload } in
        let h = s.sound.holds in
        let valid = h.valid in
        let word : load_control (published.metadata (u32 n)) ≡ record {
          state = ready;
          ref_bit = hot;
          length = length request.uncached_payload;
          virtual_offset = b.offset % 2 ^ 37;
        } =
          ground (arith, ready_control (length request.uncached_payload) b.offset b.small) in
        rw word (record {
          state = refl;
          length_field = refl;
          offset = b.offset;
          epoch = refl;
          live =
              subst (λ p. Live a.read_tail longer p e) (sym b.at_head)
                (Live-last a.buffer_payload a.read_tail (used a) a.write_head q e (omega arith)
                  (omega arith) h.chain);
        })

    published-StandsFor :
        IsSound published longer
        → StandsFor published longer (put (u32 n) (filled request.uncached_payload) v)
    unfolding set_control
    published-StandsFor sound =
        put-StandsFor (u32 n) (filled request.uncached_payload) published longer v sound
          published-Backs
          (λ j apart.
            let same : published.metadata j ≡ laid.metadata j = ground arith in
            rw same (laid-Shows j))

    Brings-Stores : Stores v request r
    Brings-Stores =
        let k = publish-Kept (u32 n) (length request.uncached_payload) b.offset laid in
        let back = λ (p : Bool × Arena F) (e : publish [] (u32 n) desired laid ≡ p).
          sym (b.returned ∙ ap (λ (x : Bool × Arena F). (ok (status_ok, x.0), x.1)) e) in
        let c = (a.metadata (u32 n)).control_block in
        elim (Bool-cases (is_pending c)) [
          | inr busy ↦
              let taken : v (u32 n) ≢ claimed = λ e.
                let waits =
                  subst (Shows a.read_tail q (u32 n) (load_control (a.metadata (u32 n)))) e
                    (s.shows (u32 n)) in
                let no : is_pending c ≡ true =
                  pending-is_pending c (unfold load_control in waits) in
                cc in
              subst (Stores v request) (back (false, laid) (not_waiting (u32 n) desired laid busy))
                (longer, v, record { sound = laid-IsSound; shows = laid-Shows }, late n named taken)
          | inl waits ↦
              let p = publish_waiting (u32 n) desired laid waits in
              let pend : (load_control (a.metadata (u32 n))).state ≡ pending =
                unfold load_control in is_pending-pending c waits in
              let free_to_fill =
                Shows-claimed a.read_tail q (u32 n) (load_control (a.metadata (u32 n))) (v (u32 n))
                  pend (s.shows (u32 n)) in
              subst (Stores v request) (back (true, published) p) (
                longer,
                put (u32 n) (filled request.uncached_payload) v,
                published-StandsFor (Kept-IsSound (subst (λ z. Kept laid z.1) p k) laid-IsSound),
                accept n named free_to_fill,
              )
        ]

  -- A call with no other thread in the way, whose payload does not run past the tail, on an arena that
  -- stands for a cache.
  pub set_cache-Stores :
      (request : SetCacheRequest) (a : Arena F) (q : List Entry) (v : Cache)
      → StandsFor a q v
      → used (set_cache quiet_traffic request a).1 ≤ payload_buffer_size
      → Stores v request (set_cache quiet_traffic request a)
        ⊎ Strays request (set_cache quiet_traffic request a).0
  set_cache-Stores request a q v s fits = elim (set_cache-Sets request a q s.sound.holds fits) [
    | inl (status, bad, e) ↦ inl (subst (Stores v request) (sym e) (q, v, s, reject status bad))
    | inr (inl stray) ↦ inr stray
    | inr (inr (n, named, b)) ↦ inl (Brings-Stores request n named s b)
  ]
