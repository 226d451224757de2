-- ===== src/CheckCache/Race.antt =====
-- An eviction of engine/src/arena.cc and a claim of engine/src/service.cc that interleave on one slot.
use semantic_sentinel.Base.{ℕ, ◌^◌, ◌<◌, ◌≡◌, subst, ap, arith}
use semantic_sentinel.Base.Int.{pos}
use semantic_sentinel.Float.{Floats}
use semantic_sentinel.Node.{dead, pending, pack_control, unpack_control, load_control}
use semantic_sentinel.Node.Layout.{pack_control-unpack_control}
use semantic_sentinel.Arena.{Arena}
use semantic_sentinel.Slot.{set_control, set_created_at, exchange_control}
use semantic_sentinel.Collector.{Round, evict}
use semantic_sentinel.Collector.Visit.{quiet}
use semantic_sentinel.CheckCache.{Scan, claim_slot, scan_slot}
use semantic_sentinel.CheckCache.Expiry.{quiet_others, dead_word, scan_slot_unborn}
use semantic_sentinel.CheckCache.Claim.{claim_slot_grants}

module _ {F : Type 0} ⦃fl : Floats F⦄ (query : ℕ → F) (curr_time i : ℕ) where
  -- A round in which a call claims the slot between the two stores of its eviction.
  abbrev pub claimed_between : Round F
  claimed_between = record quiet {
    before_store = λ b. (claim_slot quiet_others query curr_time (pos i) b).1;
  }

  -- When a call claims a cold slot between the two stores of its eviction, the slot is pending
  -- without a birth time, and a scan passes it over, at every time.
  pub evict_claimed :
      (a : Arena F) (later : ℕ) (prompt : ℕ → F) (s : Scan F)
      → (a.metadata i).control_block < 2 ^ 64
      → let b = (evict claimed_between i (load_control (a.metadata i)) a).1 in
        ((load_control (b.metadata i)).state ≡ pending)
        × ((b.metadata i).created_at ≡ 0)
        × (scan_slot quiet_others prompt later i s b ≡ (s, b))
  evict_claimed a later prompt s word =
      let c = (a.metadata i).control_block in
      let u = unpack_control c in
      let d = pack_control dead u.ref_bit u.length u.virtual_offset in
      let gone = set_control i d a in
      let expected : pack_control u.state u.ref_bit u.length u.virtual_offset ≡ c =
        pack_control-unpack_control c word in
      let is_gone : (load_control (gone.metadata i)).state ≡ dead =
        unfold set_control load_control in ground (arith, dead_word c) in
      let (b, f, w, _, _, _) = claim_slot_grants query curr_time i gone is_gone in
      let cleared = set_created_at i 0 b in
      let after : cleared ≡ (evict claimed_between i (load_control (a.metadata i)) a).1 =
        unfold evict exchange_control load_control in
        rw (expected) (ground (arith, ap (λ r. set_created_at i 0 r.1) f)) in
      let waits : (load_control (cleared.metadata i)).state ≡ pending =
        unfold set_created_at load_control in ground (arith, w) in
      let unborn : (cleared.metadata i).created_at ≡ 0 = unfold set_created_at in ground arith in
      subst
        (λ z.
          ((load_control (z.metadata i)).state ≡ pending)
          × ((z.metadata i).created_at ≡ 0)
          × (scan_slot quiet_others prompt later i s z ≡ (s, z)))
        after (waits, unborn, scan_slot_unborn prompt later i s cleared waits unborn)
