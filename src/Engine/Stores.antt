-- ===== src/Engine/Stores.antt =====
-- `SetCache` of engine/src/service.cc, with no other thread in the way, as it changes the arena.
use Prim.Native.String.{String}
use semantic_sentinel.Base.{
  ℕ, ◌≤◌, ◌≡◌, inl, inr, sym, Bool, subst, refl, ap, ◌∙◌, ◌⊎◌, ◌≢◌, arith, false, Bool-cases, List,
  [], ◌∷◌, ◌++◌, ltb, ltb→lt, u32, length,
}
use semantic_sentinel.Base.Int.{ℤ, pos, negsuc}
use semantic_sentinel.Constant.{payload_buffer_size, max_payload_length, total_max_slots}
use semantic_sentinel.Node.{ready, hot, pack_control}
use semantic_sentinel.Result.{Result, ok, thrown, fault, resource_exhausted}
use semantic_sentinel.Message.{SetCacheRequest, Status, status_ok, invalid, handler, caught}
use semantic_sentinel.Arena.{Arena, allocate_payload, write_payload}
use semantic_sentinel.Arena.Allocate.{used}
use semantic_sentinel.Arena.Stored.{after_write, write_payload-cases, write_payload_alone_inv}
use semantic_sentinel.Arena.Queue.{Entry, place, Holds, write_payload_pushes}
use semantic_sentinel.SetCache.{is_pending, publish, fill_slot, checked_set, set_cache}
use semantic_sentinel.SetCache.Outcome.{quiet_traffic}
use semantic_sentinel.Slot.Kept.{
  pack_control-IsSettled, AllSettled, Kept, Kept-refl, caught-state, exchange_control-Kept,
}

module _ {F : Type 0} where
  -- The ring holds the payloads `q`, and no slot is migrating.
  pub record IsSound (a : Arena F) (q : List Entry) : Type 0 where
    pub holds : Holds a q
    pub settled : AllSettled a

  -- The ring holds some payloads.
  abbrev pub SomeSound : Arena F → Type 0
  SomeSound a = (q : List Entry) × IsSound a q

  pub Kept-used : {a b : Arena F} → Kept a b → used a ≡ used b
  Kept-used k = let t = k.tail in let w = k.head in rw (t, w)

  pub Kept-IsSound : {a b : Arena F} {q : List Entry} → Kept a b → IsSound a q → IsSound b q
  Kept-IsSound {a} {b} {q} k s =
      let h = s.holds in
      let settled = k.slots s.settled in
      let t = k.tail in
      let w = k.head in
      let same = Kept-used k in
      record {
        holds = record {
          valid = omega arith;
          fits = rw same at h.fits;
          words = λ i. (settled i).word;
          chain = rw (k.buffer, t, w) h.chain;
        };
        settled = settled;
      }

  pub publish-Kept :
      (node_id len off : ℕ) (a : Arena F)
      → Kept a (publish [] node_id (pack_control ready hot len off) a).1
  unfolding publish
  publish-Kept node_id len off a =
      let c = (a.metadata node_id).control_block in
      elim (Bool-cases (is_pending c)) [
        | inl e ↦ rw e (
            exchange_control-Kept node_id c (pack_control ready hot len off) a
              (λ _. pack_control-IsSettled ready hot len off (λ h. cc)))
        | inr e ↦ rw e (Kept-refl a)
      ]

  thrown_unchanged :
      (n : ℕ) (a : Arena F) {b : Arena F}
      → allocate_payload [] n a ≡ (thrown resource_exhausted, b)
      → b ≡ a
  unfolding allocate_payload
  thrown_unchanged n a h = ground arith

  -- A payload is laid down at the head, and its slot is published if it is pending.
  pub record Brings (node_id : ℕ) (payload : List ℕ) (a : Arena F) (q : List Entry)
      (r : Result (Status × Bool) × Arena F) : Type 0 where
    pub offset : ℕ
    pub at_head : offset ≡ place a.write_head
    pub small : length payload ≤ max_payload_length
    pub returned :
        let p =
          publish [] node_id
            (pack_control ready hot (length payload) offset)
            (after_write a offset node_id payload) in
        r ≡ (ok (status_ok, p.0), p.1)
    pub holds :
        Holds
          (after_write a offset node_id payload)
          (q ++ (record { node_id = node_id; text = payload } ∷ []))

  -- What follows the checks of a request, for a slot and a payload of admitted length: it throws with
  -- the arena unchanged, or the payload is brought, or written for a slot beyond the table.
  fill_slot-Brings :
      (node_id : ℕ) (payload : List ℕ) (a : Arena F) (q : List Entry)
      → length payload ≤ max_payload_length
      → Holds a q
      → used (fill_slot quiet_traffic node_id payload a).1 ≤ payload_buffer_size
      → ((total_max_slots ≤ node_id) × ((fill_slot quiet_traffic node_id payload a).0 ≡ fault))
        ⊎ (fill_slot quiet_traffic node_id payload a ≡ (thrown resource_exhausted, a))
        ⊎ Brings node_id payload a q (fill_slot quiet_traffic node_id payload a)
  fill_slot-Brings node_id payload a q small h fits =
      let n = length payload in
      let word : u32 n ≡ n = omega arith in
      elim (write_payload-cases [] node_id payload a small) [
        | inr (b, threw, wrote) ↦
            let same = thrown_unchanged n a threw in
            let e : fill_slot quiet_traffic node_id payload a ≡ (thrown resource_exhausted, b) =
              unfold fill_slot in rw (word, wrote) in
            inr (inl (e ∙ ap (λ z. (thrown resource_exhausted, z)) same))
        | inl (o, b, got, wrote) ↦ elim (Bool-cases (ltb node_id total_max_slots)) [
          | inr stray ↦
              let e : (fill_slot quiet_traffic node_id payload a).0 ≡ fault =
                unfold fill_slot in rw (word, wrote, stray) refl in
              inl (ground arith, e)
          | inl slot ↦
              let c = after_write a o node_id payload in
              let (at_head, _, same) = write_payload_alone_inv node_id payload a small wrote in
              let p = publish [] node_id (pack_control ready hot n o) c in
              let wrote' : write_payload [] node_id payload n a ≡ (ok o, c) = rw same wrote in
              let e : fill_slot quiet_traffic node_id payload a ≡ (ok (status_ok, p.0), p.1) =
                unfold fill_slot in rw (word, wrote', slot) in
              let c_fits : used c ≤ payload_buffer_size =
                subst (λ z. z ≤ payload_buffer_size)
                  (ap (λ z. used z.1) e ∙ sym (Kept-used (publish-Kept node_id n o c))) fits in
              inr (
                inr (record {
                  offset = o;
                  at_head = at_head;
                  small = small;
                  returned = e;
                  holds =
                      write_payload_pushes node_id payload a q h
                        (ltb→lt node_id total_max_slots slot) small wrote' c_fits;
                }))
        ]
      ]

  -- A whole call replies that it did not succeed, with the arena unchanged, or it brings its payload,
  -- or it writes its payload for a slot beyond the table and accesses the slot.
  abbrev pub Sets :
      SetCacheRequest → Arena F → List Entry → Result (Status × Bool) × Arena F → Type 0
  Sets request a q r =
      ((s : Status) × (s ≢ status_ok) × (r ≡ (ok (s, false), a)))
      ⊎ ((n : ℕ) × (request.node_id ≡ pos n) × (total_max_slots ≤ u32 n) × (r.0 ≡ fault))
      ⊎ ((n : ℕ) × (request.node_id ≡ pos n) × Brings (u32 n) request.uncached_payload a q r)

  caught-fault :
      {A : Type 0} (prefix : String) (blank : A) (r : Result (Status × A) × Arena F)
      → r.0 ≡ fault
      → (caught prefix blank r).0 ≡ fault
  caught-fault prefix blank r e = rw e refl

  checked_set-Sets :
      (node_id : ℤ) (payload : List ℕ) (a : Arena F) (q : List Entry)
      → Holds a q
      → used (checked_set quiet_traffic node_id payload a).1 ≤ payload_buffer_size
      → Sets
          (record { node_id = node_id; uncached_payload = payload })
          a
          q
          (caught "Encounter error" false (checked_set quiet_traffic node_id payload a))
  unfolding checked_set
  checked_set-Sets (negsuc n) payload a q h fits =
      inl (invalid "Attempt to WRITE using negative node_id", (λ h. cc), refl)
  checked_set-Sets (pos n) [] a q h fits =
      inl (invalid "Cannot cache empty payload", (λ h. cc), refl)
  checked_set-Sets (pos n) (byte ∷ rest) a q h fits =
      let payload = byte ∷ rest in
      let catch = λ (r : Result (Status × Bool) × Arena F). caught "Encounter error" false r in
      elim (Bool-cases (ltb max_payload_length (length payload))) [
        | inl long ↦ inl (invalid "Oversized payload", (λ h. cc), rw long refl)
        | inr short ↦
            rw short
              (elim (fill_slot-Brings (u32 n) payload a q (ground arith) h (rw short at fits)) [
                | inl (beyond, e) ↦
                    let r = fill_slot quiet_traffic (u32 n) payload a in
                    inr (inl (n, refl, beyond, caught-fault "Encounter error" false r e))
                | inr (inl e) ↦
                    inl (handler "Encounter error" resource_exhausted, (λ h. cc), ap catch e)
                | inr (inr b) ↦ inr (
                    inr (
                      n,
                      refl,
                      record {
                        offset = b.offset;
                        at_head = b.at_head;
                        small = b.small;
                        returned = ap catch b.returned;
                        holds = b.holds;
                      },
                    ))
              ])
      ]

  pub set_cache-Sets :
      (request : SetCacheRequest) (a : Arena F) (q : List Entry)
      → Holds a q
      → used (set_cache quiet_traffic request a).1 ≤ payload_buffer_size
      → Sets request a q (set_cache quiet_traffic request a)
  unfolding set_cache
  set_cache-Sets request a q h fits =
      let r = checked_set quiet_traffic request.node_id request.uncached_payload a in
      checked_set-Sets request.node_id request.uncached_payload a q h (
        subst (λ z. used z ≤ payload_buffer_size) (caught-state "Encounter error" false r.0 r.1)
          fits)

  -- A call that accesses no memory outside the arena and whose payload does not run past the tail
  -- leaves a ring of payloads and settled slots.
  pub set_cache-IsSound :
      (request : SetCacheRequest) (a : Arena F) (q : List Entry)
      → IsSound a q
      → (set_cache quiet_traffic request a).0 ≢ fault
      → used (set_cache quiet_traffic request a).1 ≤ payload_buffer_size
      → SomeSound (set_cache quiet_traffic request a).1
  set_cache-IsSound request a q s whole fits = elim (set_cache-Sets request a q s.holds fits) [
    | inl (_, _, e) ↦ subst SomeSound (sym (ap (λ r. r.1) e)) (q, s)
    | inr (inl (_, _, _, e)) ↦ absurd (whole e)
    | inr (inr (n, _, b)) ↦
        let payload = request.uncached_payload in
        let c = after_write a b.offset (u32 n) payload in
        subst SomeSound (sym (ap (λ r. r.1) b.returned)) (
          q ++ (record { node_id = u32 n; text = payload } ∷ []),
          Kept-IsSound (publish-Kept (u32 n) (length payload) b.offset c)
              (record { holds = b.holds; settled = s.settled }),
        )
  ]
