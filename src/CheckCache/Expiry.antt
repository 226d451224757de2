-- ===== src/CheckCache/Expiry.antt =====
-- Pending slots in the scan of `CheckCache` in engine/src/service.cc: which ones expire.
use semantic_sentinel.Base.{ℕ, ◌+◌, ◌^◌, ◌≤◌, ◌<◌, ◌≡◌, ◌≢◌, ◌⊎◌, inl, inr, ◌∙◌, arith, true, sub64}
use native.Mathlib.Decide.{dec_lt}
use semantic_sentinel.Constant.{pending_lifespan}
use semantic_sentinel.Float.{Floats}
use semantic_sentinel.Node.{dead, pending, pack_control, unpack_control, load_control}
use semantic_sentinel.Node.Layout.{unpack_control-pack_control, unpack_control-fields}
use semantic_sentinel.Arena.{Arena}
use semantic_sentinel.Slot.{set_control, set_created_at, exchange_control}
use semantic_sentinel.CheckCache.{
  Others, Scan, first_reusable, score_slot, expire_slot, scan_pending, scan_state, scan_slot,
}

-- No other thread does anything, and there is memory for the text of the response.
abbrev pub quiet_others : {F : Type 0} → Others F
quiet_others = record { before = λ moment a. a; resized = true }

-- A word with another state keeps its other fields.
pub dead_word :
    (c : ℕ)
    → let u = unpack_control c in
      unpack_control (pack_control dead u.ref_bit u.length u.virtual_offset)
      ≡ record u { state = dead }
dead_word c =
    let u = unpack_control c in
    unpack_control-pack_control dead u.ref_bit u.length u.virtual_offset
    ∙ ground (arith, unpack_control-fields c)

module _ {F : Type 0} ⦃fl : Floats F⦄ (query : ℕ → F) (curr_time i : ℕ) (s : Scan F) (a : Arena F)
    (waits : (load_control (a.metadata i)).state ≡ pending) where
  scan_slot-pending :
      scan_slot quiet_others query curr_time i s a
      ≡ scan_pending quiet_others query curr_time i (a.metadata i).control_block s a
  unfolding scan_slot scan_state load_control
  scan_slot-pending = rw waits

  scan_slot_expires :
      (a.metadata i).created_at ≢ 0
      → pending_lifespan < sub64 curr_time (a.metadata i).created_at
      → (a' : Arena F) × (scan_slot quiet_others query curr_time i s a
          ≡ (record s { reusable_node_id = first_reusable s.reusable_node_id i }, a'))
        × (load_control (a'.metadata i) ≡ record (load_control (a.metadata i)) { state = dead })
        × ((a'.metadata i).created_at ≡ 0)
  unfolding scan_pending expire_slot exchange_control set_control set_created_at load_control
  scan_slot_expires born over =
      let c = (a.metadata i).control_block in
      let u = unpack_control c in
      let d = pack_control dead u.ref_bit u.length u.virtual_offset in
      (
        set_created_at i 0 (set_control i d a),
        scan_slot-pending ∙ ground arith,
        ground (arith, dead_word c),
        ground arith,
      )

  -- A pending slot whose birth time is at most the lifespan before the handler's time is compared
  -- with the prompt like a valid one; one whose birth time is longer ago expires: it is dead, has
  -- no birth time and is the slot to reuse if there was none.
  pub scan_slot_ages :
      (a.metadata i).created_at ≢ 0
      → (a.metadata i).created_at ≤ curr_time
      → curr_time < 2 ^ 64
      → (curr_time ≤ (a.metadata i).created_at + pending_lifespan)
          × (scan_slot quiet_others query curr_time i s a
              ≡ score_slot quiet_others query curr_time i s a)
        ⊎ ((a.metadata i).created_at + pending_lifespan < curr_time)
          × ((a' : Arena F) × (scan_slot quiet_others query curr_time i s a
                ≡ (record s { reusable_node_id = first_reusable s.reusable_node_id i }, a'))
              × (load_control (a'.metadata i)
                  ≡ record (load_control (a.metadata i)) { state = dead })
              × ((a'.metadata i).created_at ≡ 0))
  unfolding scan_pending
  scan_slot_ages born past word =
      elim (dec_lt ((a.metadata i).created_at + pending_lifespan) curr_time) [
        | yes over ↦ inr (over, scan_slot_expires born (omega arith))
        | no young ↦ inl (omega arith, scan_slot-pending ∙ ground arith)
      ]

  -- A pending slot whose birth time is after the handler's time, by less than the 64-bit range less
  -- the lifespan, expires: the difference wraps around.
  pub scan_slot_newborn :
      curr_time < (a.metadata i).created_at
      → (a.metadata i).created_at + pending_lifespan < curr_time + 2 ^ 64
      → (a.metadata i).created_at < 2 ^ 64
      → (a' : Arena F) × (scan_slot quiet_others query curr_time i s a
          ≡ (record s { reusable_node_id = first_reusable s.reusable_node_id i }, a'))
        × (load_control (a'.metadata i) ≡ record (load_control (a.metadata i)) { state = dead })
        × ((a'.metadata i).created_at ≡ 0)
  scan_slot_newborn early near word = scan_slot_expires (omega arith) (omega arith)

  -- A pending slot without a birth time is passed over at every time: it does not expire, and it is
  -- not compared.
  pub scan_slot_unborn :
      (a.metadata i).created_at ≡ 0 → scan_slot quiet_others query curr_time i s a ≡ (s, a)
  unfolding scan_pending
  scan_slot_unborn unborn = scan_slot-pending ∙ ground arith
