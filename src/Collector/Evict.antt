-- ===== src/Collector/Evict.antt =====
-- The other branches of an iteration of `RunGarbageCollector` in engine/src/arena.cc: eviction,
-- passing over what no slot refers to, idling, and an allocation that throws.
use semantic_sentinel.Base.{
  fun_ext, ℕ, ◌+◌, ◌%◌, ◌^◌, ◌≤◌, ◌<◌, ◌≡◌, ◌≢◌, ◌⊎◌, refl, ◌∙◌, ap, arith, add64, bit_and-low,
}
use semantic_sentinel.Constant.{
  payload_buffer_size, total_max_slots, max_payload_length, low_watermark_threshold,
  low_gc_sleep_ms,
}
use semantic_sentinel.Node.{
  dead, cold, hot, UnpackedControl, pack_control, unpack_control, load_control,
}
use semantic_sentinel.Node.Layout.{unpack_control-pack_control}
use semantic_sentinel.Result.{ok, thrown, resource_exhausted}
use semantic_sentinel.Arena.{Arena, header_size, header_at, ring_index}
use semantic_sentinel.Arena.Allocate.{used, allocate_payload_alone}
use semantic_sentinel.Arena.Payload.{header_of}
use semantic_sentinel.Slot.{set_node, exchange_control, set_control, set_created_at}
use semantic_sentinel.Collector.{Round, advance, evict, rescue, treat, visit, sweep, collect_once}
use semantic_sentinel.Collector.Visit.{
  quiet, AtTail, AtTail-length, nap, sweep_visits, collect_once_treats,
}
use semantic_sentinel.Collector.Rescue.{expected_control}

-- The word that an eviction stores, read back.
dead_control :
    (u : UnpackedControl) (tail : ℕ)
    → u.length ≤ max_payload_length
    → u.virtual_offset ≡ tail % 2 ^ 37
    → unpack_control (pack_control dead u.ref_bit u.length u.virtual_offset)
      ≡ record u { state = dead }
dead_control u tail small epoch =
    unpack_control-pack_control dead u.ref_bit u.length u.virtual_offset ∙ ground arith

module _ {F : Type 0} where
  -- The arena that an eviction leaves.
  abbrev pub evicted : Arena F → ℕ → UnpackedControl → Arena F
  evicted a node_id u =
      set_created_at node_id 0
        (set_control node_id (pack_control dead u.ref_bit u.length u.virtual_offset) a)

module _ {F : Type 0} {a : Arena F} {node_id n : ℕ} {u : UnpackedControl} where
  pub collect_once-evicted :
      AtTail a node_id n u
      → u.ref_bit ≡ cold
      → collect_once quiet a ≡ (
        ok (nap a),
        record (evicted a node_id u) { read_tail = add64 a.read_tail (header_size + n) },
      )
  unfolding set_control set_created_at evict exchange_control
  collect_once-evicted at chilly =
      let e : evict quiet node_id u a ≡ (ok tt, evicted a node_id u) =
        ground (arith, expected_control at) in
      collect_once_treats (evicted a node_id u) at
        (ap (λ r. treat r quiet a.read_tail node_id n u a) chilly ∙ unfold treat in e)

  pub evicted-control :
      AtTail a node_id n u
      → load_control ((evicted a node_id u).metadata node_id) ≡ record u { state = dead }
  unfolding set_control set_created_at load_control
  evicted-control at = ground (arith, dead_control u a.read_tail (AtTail-length at) at.epoch)

  -- A cold slot whose payload stands at the tail is evicted: it is dead and has no birth time, the
  -- tail has passed its payload, and nothing else is touched.
  pub collect_once_evicts :
      AtTail a node_id n u
      → u.ref_bit ≡ cold
      → (a' : Arena F) × (collect_once quiet a ≡ (ok (nap a), a'))
        × (load_control (a'.metadata node_id) ≡ record u { state = dead })
        × ((a'.metadata node_id).created_at ≡ 0)
        × (a'.metadata ≡ (set_node node_id (a'.metadata node_id) a).metadata)
        × (a'.buffer_payload ≡ a.buffer_payload)
        × (a'.write_head ≡ a.write_head)
        × (a'.read_tail ≡ add64 a.read_tail (header_size + n))
  unfolding set_control set_created_at
  collect_once_evicts at chilly = (
    record (evicted a node_id u) { read_tail = add64 a.read_tail (header_size + n) },
    collect_once-evicted at chilly,
    evicted-control at,
    ground arith,
    fun_ext λ i. ground arith,
    refl,
    refl,
    refl,
  )

  -- A hot slot whose payload stands at the tail of an arena that has no room for a copy: the
  -- allocation of its rescue throws, and the loop has no handler.
  pub collect_once_unhandled :
      AtTail a node_id n u
      → u.ref_bit ≡ hot
      → payload_buffer_size ≤ used a + header_size + n
      → collect_once quiet a ≡ (thrown resource_exhausted, a)
  unfolding collect_once visit
  collect_once_unhandled at warm full =
      let threw = (allocate_payload_alone n a (omega (arith, at.small)) at.valid).1 full in
      let r : rescue quiet a.read_tail node_id n u a ≡ (thrown resource_exhausted, a) =
        unfold rescue in rw (threw, rescue) in
      let t : treat u.ref_bit quiet a.read_tail node_id n u a ≡ (thrown resource_exhausted, a) =
        ap (λ r. treat r quiet a.read_tail node_id n u a) warm ∙ unfold treat in r in
      let v : visit quiet a.read_tail node_id n a ≡ (thrown resource_exhausted, a) =
        rw (at.control) (ground (arith, bit_and-low 37 a.read_tail)) in
      let s = sweep_visits at ∙ v in ground arith

module _ {F : Type 0} where
  -- At a header whose slot is dead or refers to another offset, an iteration only moves the tail.
  pub collect_once_passes :
      (a : Arena F) (node_id n : ℕ)
      → low_watermark_threshold ≤ used a
      → ring_index a.read_tail + header_size ≤ payload_buffer_size
      → header_at a.buffer_payload (ring_index a.read_tail) ≡ header_of node_id n
      → node_id < total_max_slots
      → n ≤ max_payload_length
      → ((load_control (a.metadata node_id)).state ≡ dead)
        ⊎ ((load_control (a.metadata node_id)).virtual_offset ≢ a.read_tail % 2 ^ 37)
      → collect_once quiet a
        ≡ (ok (nap a), record a { read_tail = add64 a.read_tail (header_size + n) })
  unfolding collect_once sweep visit advance
  collect_once_passes a node_id n loaded room header slot small stale = ground (
    arith,
    ap (λ h. h.identifier) header,
    ap (λ h. h.node_id) header,
    ap (λ h. h.length) header,
    ap (λ h. visit quiet a.read_tail h.node_id h.length a) header,
    bit_and-low 37 a.read_tail,
  )

  -- Below the low watermark an iteration sleeps and does nothing itself.
  pub collect_once_idle :
      (round : Round F) (a : Arena F)
      → used a < low_watermark_threshold
      → collect_once round a ≡ (ok low_gc_sleep_ms, round.during_sleep a)
  unfolding collect_once
  collect_once_idle round a h = ground arith
