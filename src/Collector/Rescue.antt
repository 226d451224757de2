-- ===== src/Collector/Rescue.antt =====
-- One iteration of `RunGarbageCollector` in engine/src/arena.cc, met with no other
-- thread in the way: the second chance of a hot slot.
use semantic_sentinel.Base.{ℕ, ◌+◌, ◌%◌, ◌^◌, ◌≤◌, ◌<◌, ◌≡◌, ◌∙◌, sym, ap, arith, [], add64, sub64}
use semantic_sentinel.Constant.{payload_buffer_size, max_payload_length, low_watermark_threshold}
use semantic_sentinel.Node.{EvictState, cold, hot, UnpackedControl, pack_control, load_control}
use semantic_sentinel.Node.Layout.{pack_control-unpack_control}
use semantic_sentinel.Memory.{Bytes}
use semantic_sentinel.Result.{ok}
use semantic_sentinel.Arena.{
  Arena, header_size, header_padding, allocate_payload, reserve, store_bytes,
}
use semantic_sentinel.Arena.Allocate.{ring_index-mod, used, allocate_payload_room}
use semantic_sentinel.Arena.Ring.{distance}
use semantic_sentinel.Arena.Payload.{headed}
use semantic_sentinel.Slot.{exchange_control, set_control}
use semantic_sentinel.Collector.{relocate, rescue}
use semantic_sentinel.Collector.Visit.{quiet, AtTail}
use semantic_sentinel.Collector.Copy.{Apart, copied, copy_text-Copies}

-- The offset that a rescue moves the payload at the tail to.
abbrev pub rescued_offset : {F : Type 0} → Arena F → ℕ
rescued_offset a = add64 a.write_head (header_padding a.write_head)

-- Numbers only: the distances between the payload at the tail `t` and its copy at the head `w`.
pub rescue_distances :
    (w t n : ℕ)
    → w < 2 ^ 64
    → t < 2 ^ 64
    → low_watermark_threshold ≤ sub64 w t
    → n ≤ max_payload_length
    → sub64 w t + header_size + n < payload_buffer_size
    → let o = add64 w (header_padding w) in
      Apart (t + header_size) (o + header_size) n
      × (distance (t + header_size) ((o + header_size) % payload_buffer_size)
          ≡ sub64 w t + header_padding w)
rescue_distances w t n hw ht loaded small room = ground (arith, ring_index-mod w)

module _ {F : Type 0} {a : Arena F} {node_id n : ℕ} {u : UnpackedControl}
    (at : AtTail a node_id n u) where
  -- The slot's word is the one that the collector expects to exchange.
  pub expected_control :
      pack_control u.state u.ref_bit u.length u.virtual_offset ≡ (a.metadata node_id).control_block
  unfolding load_control
  expected_control =
      ap (λ v. pack_control v.state v.ref_bit v.length v.virtual_offset) (sym at.control)
      ∙ pack_control-unpack_control (a.metadata node_id).control_block at.word

  pub reserved :
      used a + header_size + n < payload_buffer_size
      → allocate_payload [] n a ≡ (
        ok (rescued_offset a),
        record a { write_head = add64 (rescued_offset a) (header_size + n) },
      )
  unfolding allocate_payload reserve
  reserved room = let w = at.valid in let k = at.small in ground arith

  -- The arena that a rescue leaves, with the buffer `m'`.
  abbrev pub after_rescue : Bytes → Arena F
  after_rescue m' =
      set_control node_id (pack_control u.state cold u.length (rescued_offset a))
        (record a { buffer_payload = m'; write_head = add64 (rescued_offset a) (header_size + n) })

  pub rescue_runs :
      used a + header_size + n < payload_buffer_size
      → u.ref_bit ≡ hot
      → (m' : Bytes) × (rescue quiet a.read_tail node_id n u a ≡ (ok tt, after_rescue m'))
        × ((i : ℕ)
            → i < payload_buffer_size
            → m' i
              ≡ copied
                  (headed a.buffer_payload (rescued_offset a) node_id n)
                  (a.read_tail + header_size)
                  (rescued_offset a + header_size)
                  n
                  i)
  unfolding rescue relocate store_bytes exchange_control headed
  rescue_runs room warm =
      let o = rescued_offset a in
      let got = reserved room in
      let fits = allocate_payload_room [] n a got in
      let far =
        rescue_distances a.write_head a.read_tail n at.valid.head_word at.valid.tail_word at.loaded
          at.small room in
      let b : Arena F = record a {
        write_head = add64 o (header_size + n);
        buffer_payload = headed a.buffer_payload o node_id n;
      } in
      let (m', e, l) =
        copy_text-Copies n (a.read_tail + header_size) (o + header_size) n b (omega arith) far.0 in
      (
        m',
        rw (got, rescue)
            (ground (
              arith,
              e,
              fits,
              expected_control,
              ap (λ (r : EvictState). pack_control u.state r u.length u.virtual_offset) warm,
              ring_index-mod (add64 a.read_tail header_size),
              ring_index-mod (add64 o header_size),
            )),
        l,
      )
