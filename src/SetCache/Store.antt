-- ===== src/SetCache/Store.antt =====
-- What a call of `SetCache` in engine/src/service.cc does with a payload that fits, with no other
-- thread in the way.
use semantic_sentinel.Base.{
  fun_ext, ℕ, ◌+◌, ◌%◌, ◌^◌, ◌≤◌, ◌<◌, ◌≡◌, refl, subst, ◌∙◌, ap, arith, Bool, true, false, List,
  [], length, add64,
}
use semantic_sentinel.Base.Int.{pos}
use semantic_sentinel.Constant.{total_max_slots, max_payload_length, payload_buffer_size}
use semantic_sentinel.Node.{pending, ready, hot, pack_control, unpack_control, load_control}
use semantic_sentinel.Node.Layout.{unpack_control-pack_control}
use semantic_sentinel.Result.{ok, resume}
use semantic_sentinel.Message.{status_ok, caught}
use semantic_sentinel.Arena.{Arena, header_size, header_padding, write_payload, read_payload}
use semantic_sentinel.SetCache.Outcome.{
  quiet_traffic, IsAdmitted, publish_at, set_cache-write_payload,
}
use semantic_sentinel.Arena.Allocate.{ring_index-mod, used, IsValid, allocate_payload_alone}
use semantic_sentinel.Arena.Ring.{read_payload_epoch, read_payload-ring_text}
use semantic_sentinel.Arena.Payload.{written, written-text, write_payload-written}
use semantic_sentinel.Arena.Stored.{reserved_alone}
use semantic_sentinel.Slot.{set_node, exchange_control, set_control}
use semantic_sentinel.SetCache.{is_pending, publish, set_cache}

-- The word that the handler publishes, read back.
pub ready_control :
    (n o : ℕ)
    → n ≤ max_payload_length
    → unpack_control (pack_control ready hot n o)
      ≡ record { state = ready; ref_bit = hot; length = n; virtual_offset = o % 2 ^ 37 }
ready_control n o small = unpack_control-pack_control ready hot n o ∙ ground arith

-- The test of the handler reads the state.
pub is_pending-pending : (c : ℕ) → is_pending c ≡ true → (unpack_control c).state ≡ pending
unfolding unpack_control
is_pending-pending c h = ground arith

pub pending-is_pending : (c : ℕ) → (unpack_control c).state ≡ pending → is_pending c ≡ true
unfolding unpack_control
pending-is_pending c h = ground (arith, h)

module _ {F : Type 0} where
  -- The arena that a reservation of `n` bytes from `a` and the writes after it leave.
  abbrev stored : Arena F → ℕ → ℕ → List ℕ → Arena F
  stored a o node_id payload = record a {
    buffer_payload = written a.buffer_payload o node_id payload;
    write_head = add64 o (header_size + length payload);
  }

  write_runs :
      (node_id : ℕ) (payload : List ℕ) (a : Arena F)
      → IsAdmitted node_id payload
      → IsValid a
      → used a + header_size + length payload < payload_buffer_size
      → let o = add64 a.write_head (header_padding a.write_head) in
        write_payload [] node_id payload (length payload) a ≡ (ok o, stored a o node_id payload)
  write_runs node_id payload a adm v room =
      let (o, b, got, _) =
        (allocate_payload_alone (length payload) a (omega (arith, adm)) v).0 room in
      let r = reserved_alone (length payload) a got in
      subst
        (λ w.
          write_payload [] node_id payload (length payload) a ≡ (ok w, stored a w node_id payload))
        r.0 (rw (r.1) at (write_payload-written [] node_id payload a adm.limited got))

  -- With no other thread in the way a pending slot is published.
  pub publish_waiting :
      (node_id desired : ℕ) (a : Arena F)
      → is_pending (a.metadata node_id).control_block ≡ true
      → publish [] node_id desired a ≡ (true, set_control node_id desired a)
  unfolding publish exchange_control
  publish_waiting node_id desired a h = ground arith

  -- A request for a pending slot, when its payload fits and no other thread is in the way: the slot
  -- is ready and hot and refers to the payload, which a reader of the slot, with memory for the string, gets
  -- back; no other slot
  -- and no vector is touched.
  pub set_cache_stores :
      (node_id : ℕ) (payload : List ℕ) (a : Arena F)
      → IsAdmitted node_id payload
      → node_id < total_max_slots
      → IsValid a
      → used a + header_size + length payload < payload_buffer_size
      → is_pending (a.metadata node_id).control_block ≡ true
      → (a' : Arena F) × (set_cache quiet_traffic
            (record { node_id = pos node_id; uncached_payload = payload })
            a
          ≡ (ok (status_ok, true), a'))
        × (let o = add64 a.write_head (header_padding a.write_head) in
            (load_control (a'.metadata node_id) ≡ record {
              state = ready;
              ref_bit = hot;
              length = length payload;
              virtual_offset = o % 2 ^ 37;
            })
            × (read_payload true (o % 2 ^ 37) (length payload) a' ≡ (ok payload, a')))
        × (a'.metadata ≡ (set_node node_id (a'.metadata node_id) a).metadata)
        × (a'.vectors ≡ a.vectors)
  unfolding set_control load_control
  set_cache_stores node_id payload a adm slot v room waits =
      let o = add64 a.write_head (header_padding a.write_head) in
      let n = length payload in
      let b = stored a o node_id payload in
      let a' = set_control node_id (pack_control ready hot n o) b in
      (
        a',
        set_cache-write_payload quiet_traffic node_id payload a adm slot
            ∙ ap
                (λ r.
                  caught "Encounter error" false (resume r (publish_at quiet_traffic node_id n)))
                (write_runs node_id payload a adm v room)
            ∙ ap (λ (r : Bool × Arena F). caught "Encounter error" false (ok (status_ok, r.0), r.1))
                (publish_waiting node_id (pack_control ready hot n o) b waits),
        (
          ground (arith, ready_control n o adm.limited),
          read_payload_epoch o n a' (omega (arith, adm))
              ∙ read_payload-ring_text o n a' (omega (arith, adm))
              ∙ ap (λ t. (ok t, a')) (written-text a.buffer_payload o node_id payload adm.limited),
        ),
        fun_ext λ i. ground arith,
        refl,
      )

  -- A request for a slot that is not pending says so and leaves the slots alone, but its payload
  -- takes its space in the ring.
  pub set_cache_wastes :
      (node_id : ℕ) (payload : List ℕ) (a : Arena F)
      → IsAdmitted node_id payload
      → node_id < total_max_slots
      → IsValid a
      → used a + header_size + length payload < payload_buffer_size
      → is_pending (a.metadata node_id).control_block ≡ false
      → (a' : Arena F) × (set_cache quiet_traffic
            (record { node_id = pos node_id; uncached_payload = payload })
            a
          ≡ (ok (status_ok, false), a'))
        × (a'.metadata ≡ a.metadata)
        × (used a' ≡ used a + header_padding a.write_head + header_size + length payload)
  unfolding publish
  set_cache_wastes node_id payload a adm slot v room busy =
      let o = add64 a.write_head (header_padding a.write_head) in
      let b = stored a o node_id payload in
      (
        b,
        set_cache-write_payload quiet_traffic node_id payload a adm slot
            ∙ ap
                (λ r.
                  caught "Encounter error" false
                    (resume r (publish_at quiet_traffic node_id (length payload))))
                (write_runs node_id payload a adm v room)
            ∙ ground arith,
        refl,
        ground (arith, ring_index-mod a.write_head),
      )
