-- ===== src/SetCache/Outcome.antt =====
-- What a call of `SetCache` in engine/src/service.cc comes to, on every branch.
use semantic_sentinel.Base.{
  ℕ, ◌+◌, ◌^◌, ◌≤◌, ◌<◌, ◌≡◌, ◌⊎◌, inl, inr, ltb, refl, ◌∙◌, ap, arith, Bool, false, List, [], ◌∷◌,
  length, u32,
}
use semantic_sentinel.Base.Int.{pos, negsuc}
use semantic_sentinel.Constant.{total_max_slots, max_payload_length, payload_buffer_size}
use semantic_sentinel.Node.{ready, hot, pack_control}
use semantic_sentinel.Result.{Result, ok, thrown, fault, resource_exhausted, resume}
use semantic_sentinel.Message.{internal, Status, status_ok, invalid, caught}
use semantic_sentinel.Arena.{Arena, header_size, header_at, ring_index, write_payload}
use semantic_sentinel.Arena.Payload.{header_of}
use semantic_sentinel.Arena.Stored.{write_payload-cases, read_payload-write_payload}
use semantic_sentinel.Arena.Allocate.{used, IsValid, allocate_payload_alone}
use semantic_sentinel.SetCache.{Traffic, publish, fill_slot, checked_set, set_cache}

-- No other thread does anything.
abbrev pub quiet_traffic : {F : Type 0} → Traffic F
quiet_traffic = record { turns = []; before_load = λ a. a; attempts = [] }

-- A request that passes the checks.
pub record IsAdmitted (node_id : ℕ) (payload : List ℕ) : Type 0 where
  pub signed : node_id < 2 ^ 31
  pub nonempty : 0 < length payload
  pub limited : length payload ≤ max_payload_length

module _ {F : Type 0} where
  -- A request with a negative slot, an empty payload or too long a payload is refused before
  -- anything is touched.
  pub set_cache_refuses :
      (traffic : Traffic F) (node_id n : ℕ) (payload oversized : List ℕ) (a : Arena F)
      → max_payload_length < length oversized
      → (set_cache traffic (record { node_id = negsuc n; uncached_payload = payload }) a
          ≡ (ok (invalid "Attempt to WRITE using negative node_id", false), a))
        × (set_cache traffic (record { node_id = pos node_id; uncached_payload = [] }) a
            ≡ (ok (invalid "Cannot cache empty payload", false), a))
        × (set_cache traffic (record { node_id = pos node_id; uncached_payload = oversized }) a
            ≡ (ok (invalid "Oversized payload", false), a))
  unfolding set_cache checked_set
  set_cache_refuses traffic node_id n payload [] a h = absurd (omega arith)
  set_cache_refuses traffic node_id n payload (x ∷ xs) a h = (refl, refl, ground arith)

  -- An admitted request reaches its slot.
  set_cache-fill_slot :
      (traffic : Traffic F) (node_id : ℕ) (payload : List ℕ) (a : Arena F)
      → IsAdmitted node_id payload
      → set_cache traffic (record { node_id = pos node_id; uncached_payload = payload }) a
        ≡ caught "Encounter error" false (fill_slot traffic node_id payload a)
  unfolding set_cache checked_set
  set_cache-fill_slot traffic node_id [] a adm = absurd (omega arith)
  set_cache-fill_slot traffic node_id (x ∷ xs) a adm =
      let e : u32 node_id ≡ node_id = omega arith in
      ground (arith, ap (λ i. caught "Encounter error" false (fill_slot traffic i (x ∷ xs) a)) e)

  -- What an admitted request for a slot of the table does, with the length written out.
  abbrev pub publish_at : Traffic F → ℕ → ℕ → ℕ → Arena F → Result (Status × Bool) × Arena F
  publish_at traffic node_id n new_offset b =
      let r =
        publish traffic.attempts node_id (pack_control ready hot n new_offset)
          (traffic.before_load b) in
      (ok (status_ok, r.0), r.1)

  pub set_cache-write_payload :
      (traffic : Traffic F) (node_id : ℕ) (payload : List ℕ) (a : Arena F)
      → IsAdmitted node_id payload
      → node_id < total_max_slots
      → set_cache traffic (record { node_id = pos node_id; uncached_payload = payload }) a
        ≡ caught "Encounter error" false (
            resume
              (write_payload traffic.turns node_id payload (length payload) a)
              (publish_at traffic node_id (length payload)))
  unfolding fill_slot
  set_cache-write_payload traffic node_id payload a adm slot =
      let e : u32 (length payload) ≡ length payload = omega (arith, adm) in
      set_cache-fill_slot traffic node_id payload a adm
      ∙ ground (
        arith,
        slot,
        ap
            (λ n. caught "Encounter error" false (
              resume (write_payload traffic.turns node_id payload n a)
                (publish_at traffic node_id n)))
            e,
      )

  -- An admitted request that names a slot beyond the table is served all the same, whatever the other
  -- threads do: without room for the payload the status carries the exception; otherwise the payload
  -- is written into the ring with a header that names the slot and the payload's length, and then
  -- memory outside the table is accessed.
  pub set_cache_stray :
      (traffic : Traffic F) (node_id : ℕ) (payload : List ℕ) (a : Arena F)
      → IsAdmitted node_id payload
      → total_max_slots ≤ node_id
      → let w = write_payload traffic.turns node_id payload (length payload) a in
        let r =
          set_cache traffic (record { node_id = pos node_id; uncached_payload = payload }) a in
        ((w.0 ≡ thrown resource_exhausted)
          × (r ≡ (
            ok (record { code = internal; message = "Encounter errorResource Exhausted" }, false),
            w.1,
          )))
        ⊎ ((o : ℕ) × (w.0 ≡ ok o)
            × (header_at w.1.buffer_payload (ring_index o) ≡ header_of node_id (length payload))
            × (r ≡ (fault, traffic.before_load w.1)))
  unfolding fill_slot
  set_cache_stray traffic node_id payload a adm h =
      let word : u32 (length payload) ≡ length payload = omega (arith, adm) in
      let out : ltb node_id total_max_slots ≡ false = ground arith in
      elim (write_payload-cases traffic.turns node_id payload a adm.limited) [
        | inr (b, threw, wrote) ↦
            rw (set_cache-fill_slot traffic node_id payload a adm, word, wrote) (inl (refl, refl))
        | inl (o, b, got, wrote) ↦
            let small : node_id < 2 ^ 32 = omega (arith, adm) in
            let named =
              (read_payload-write_payload traffic.turns node_id payload a adm.limited small
                wrote).1 in
            rw (set_cache-fill_slot traffic node_id payload a adm, word, wrote)
              (inr (o, refl, named, rw out refl))
      ]

  -- Without room for the payload the status carries the exception, and nothing is touched.
  pub set_cache_exhausted :
      (node_id : ℕ) (payload : List ℕ) (a : Arena F)
      → IsAdmitted node_id payload
      → node_id < total_max_slots
      → IsValid a
      → payload_buffer_size ≤ used a + header_size + length payload
      → set_cache quiet_traffic (record { node_id = pos node_id; uncached_payload = payload }) a
        ≡ (ok (record { code = internal; message = "Encounter errorResource Exhausted" }, false), a)
  unfolding write_payload
  set_cache_exhausted node_id payload a adm slot v full =
      let n = length payload in
      let threw = (allocate_payload_alone n a (omega (arith, adm)) v).1 full in
      let w : write_payload [] node_id payload n a ≡ (thrown resource_exhausted, a) =
        rw (threw, write_payload) in
      set_cache-write_payload quiet_traffic node_id payload a adm slot
      ∙ ap (λ r. caught "Encounter error" false (resume r (publish_at quiet_traffic node_id n))) w
