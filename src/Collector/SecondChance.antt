-- ===== src/Collector/SecondChance.antt =====
-- The second chance of a hot slot in `RunGarbageCollector` of engine/src/arena.cc, as the readers of
-- the slot see it.
use semantic_sentinel.Base.{
  fun_ext, ℕ, ◌+◌, ◌%◌, ◌^◌, ◌≤◌, ◌<◌, ◌≡◌, refl, ◌∙◌, sym, ap, arith, [], add64, sub64, true,
}
use semantic_sentinel.Constant.{payload_buffer_size, max_payload_length}
use semantic_sentinel.Node.{cold, hot, UnpackedControl, pack_control, unpack_control, load_control}
use semantic_sentinel.Node.Layout.{unpack_control-pack_control}
use semantic_sentinel.Memory.{Bytes}
use semantic_sentinel.Result.{ok}
use semantic_sentinel.Arena.{
  Arena, header_size, header_at, ring_index, header_padding, read_payload,
}
use semantic_sentinel.Arena.Allocate.{ring_index-mod, used, allocate_payload_room}
use semantic_sentinel.Arena.Ring.{
  distance, ring_text, ring_text_moved, ring_text_mod, read_payload-ring_text,
}
use semantic_sentinel.Arena.Payload.{
  headed, headed-outside, headed-header, header_of, header_at_agree,
}
use semantic_sentinel.Slot.{set_node, set_control}
use semantic_sentinel.Collector.{treat, collect_once}
use semantic_sentinel.Collector.Visit.{quiet, AtTail, AtTail-length, nap, collect_once_treats}
use semantic_sentinel.Collector.Rescue.{rescued_offset, reserved, after_rescue, rescue_runs}
use semantic_sentinel.Collector.Copy.{copied}

-- Numbers only: the copied bytes do not lie where the new header goes.
source_distance :
    (w t n k : ℕ)
    → w < 2 ^ 64
    → t < 2 ^ 64
    → header_size + n ≤ sub64 w t
    → sub64 w t + header_size + n < payload_buffer_size
    → k < n
    → header_size
      ≤ distance (add64 w (header_padding w)) ((t + header_size + k) % payload_buffer_size)
source_distance w t n k hw ht behind room hk = ground (arith, ring_index-mod w)

-- The bytes that a rescue copies, read from the new place.
module _ (m m' : Bytes) (w t node_id n : ℕ) (hw : w < 2 ^ 64) (ht : t < 2 ^ 64)
    (small : n ≤ max_payload_length) (behind : header_size + n ≤ sub64 w t)
    (room : sub64 w t + header_size + n < payload_buffer_size)
    (fits : ring_index (add64 w (header_padding w)) + header_size ≤ payload_buffer_size)
    (copy : (i : ℕ)
      → i < payload_buffer_size
      → m' i
        ≡ copied
            (headed m (add64 w (header_padding w)) node_id n)
            (t + header_size)
            (add64 w (header_padding w) + header_size)
            n
            i) where
  abbrev pub o : ℕ
  o = add64 w (header_padding w)

  pub moved_text : ring_text m' (o + header_size) n ≡ ring_text m (t + header_size) n
  moved_text = ring_text_moved m m' (t + header_size) (o + header_size) n λ k p.
      let i = (o + header_size + k) % payload_buffer_size in
      let j = (t + header_size + k) % payload_buffer_size in
      let near : distance (o + header_size) i ≡ k = omega arith in
      let far : header_size ≤ distance o j = source_distance w t n k hw ht behind room p in
      ground (arith, copy i (omega arith), headed-outside m o node_id n j fits (omega arith) far)

  pub moved_header : node_id < 2 ^ 32 → header_at m' (ring_index o) ≡ header_of node_id n
  moved_header word =
      header_at_agree (headed m o node_id n) m' (ring_index o)
        (λ k p. ground (arith, copy (ring_index o + k), ring_index-mod o))
      ∙ headed-header m o node_id n small word

-- Where the texts of two buffers agree, readers of the truncated offsets `p` and `q` get one result.
read_payload_same :
    {F : Type 0} (a a' : Arena F) (p o q t n : ℕ)
    → n ≤ max_payload_length
    → p ≡ o % 2 ^ 37
    → q ≡ t % 2 ^ 37
    → ring_text a'.buffer_payload (o + header_size) n
      ≡ ring_text a.buffer_payload (t + header_size) n
    → (read_payload true p n a').0 ≡ (read_payload true q n a).0
read_payload_same a a' p o q t n small ep eq same =
    ap (λ r. r.0) (read_payload-ring_text p n a' (omega arith))
    ∙ ap ok (
        ring_text_mod a'.buffer_payload (p + header_size) (o + header_size) n (omega arith)
        ∙ same
        ∙ ring_text_mod a.buffer_payload (t + header_size) (q + header_size) n (omega arith))
    ∙ ap (λ r. r.0) (sym (read_payload-ring_text q n a (omega arith)))

-- The word that a rescue stores, read back.
pub cold_control :
    (u : UnpackedControl) (o : ℕ)
    → u.length ≤ max_payload_length
    → unpack_control (pack_control u.state cold u.length o)
      ≡ record u { ref_bit = cold; virtual_offset = o % 2 ^ 37 }
cold_control u o small = unpack_control-pack_control u.state cold u.length o ∙ ground arith

module _ {F : Type 0} {a : Arena F} {node_id n : ℕ} {u : UnpackedControl} where
  -- A hot slot whose payload stands at the tail gets a second chance if its payload fits: afterwards
  -- it is cold, in the same state, and refers to a copy at the head, where a reader with memory for the string finds the same
  -- text and the collector the same header; the tail has passed the old place, and no other slot is
  -- touched.
  pub collect_once_second_chance :
      AtTail a node_id n u
      → used a + header_size + n < payload_buffer_size
      → u.ref_bit ≡ hot
      → (a' : Arena F) × (collect_once quiet a ≡ (ok (nap a), a'))
        × (load_control (a'.metadata node_id)
            ≡ record u { ref_bit = cold; virtual_offset = rescued_offset a % 2 ^ 37 })
        × ((read_payload true (rescued_offset a % 2 ^ 37) n a').0
            ≡ (read_payload true u.virtual_offset n a).0)
        × (header_at a'.buffer_payload (ring_index (rescued_offset a)) ≡ header_of node_id n)
        × (a'.read_tail ≡ add64 a.read_tail (header_size + n))
        × (a'.metadata ≡ (set_node node_id (a'.metadata node_id) a).metadata)
  unfolding set_control load_control
  collect_once_second_chance at room warm =
      let o = rescued_offset a in
      let (m', e, copy) = rescue_runs at room warm in
      let fits = allocate_payload_room [] n a (reserved at room) in
      let b = after_rescue at m' in
      let a' = record b { read_tail = add64 a.read_tail (header_size + n) } in
      (
        a',
        collect_once_treats b at
            (ap (λ r. treat r quiet a.read_tail node_id n u a) warm ∙ unfold treat in e),
        ground (arith, cold_control u o (AtTail-length at)),
        read_payload_same a a' (o % 2 ^ 37) o u.virtual_offset a.read_tail n at.small refl at.epoch
            (moved_text a.buffer_payload m' a.write_head a.read_tail node_id n at.valid.head_word
              at.valid.tail_word at.small (omega (arith, at.loaded, at.small)) room fits copy),
        moved_header a.buffer_payload m' a.write_head a.read_tail node_id n at.valid.head_word
            at.valid.tail_word at.small (omega (arith, at.loaded, at.small)) room fits copy
            (omega (arith, at.slot)),
        refl,
        fun_ext λ i. ground arith,
      )
