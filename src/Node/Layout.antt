-- ===== src/Node/Layout.antt =====
-- The bit layout of the control word: what `PackControl` and `UnpackControl` compute.
use semantic_sentinel.Base.{
  ℕ, ◌+◌, ◌*◌, ◌/◌, ◌%◌, ◌^◌, ◌<◌, ◌≡◌, arith, bit_or, bit_or-disjoint, bit_and-low, shl64, shr,
}
use semantic_sentinel.Node.{
  NodeState, EvictState, state_code, evict_code, state_of, evict_of, pack_control, unpack_control,
}

-- Four fields that fit their bits are added up by `<<` and `|`.
fields-sum :
    (s r l o : ℕ)
    → s < 4
    → r < 2
    → l < 2 ^ 24
    → o < 2 ^ 37
    → bit_or (bit_or (bit_or (shl64 s 62) (shl64 r 61)) (shl64 l 37)) o
      ≡ s * 2 ^ 62 + r * 2 ^ 61 + l * 2 ^ 37 + o
fields-sum s r l o hs hr hl ho =
    let es : shl64 s 62 ≡ s * 2 ^ 62 = omega arith in
    let er : shl64 r 61 ≡ r * 2 ^ 61 = omega arith in
    let el : shl64 l 37 ≡ l * 2 ^ 37 = omega arith in
    let sr : s * 2 ^ 62 + r * 2 ^ 61 ≡ (s * 2 + r) * 2 ^ 61 = omega arith in
    let srl : s * 2 ^ 62 + r * 2 ^ 61 + l * 2 ^ 37 ≡ (s * 2 ^ 25 + r * 2 ^ 24 + l) * 2 ^ 37 =
      omega arith in
    rw (
      es,
      er,
      el,
      bit_or-disjoint 62 s (r * 2 ^ 61) (omega arith),
      sr,
      bit_or-disjoint 61 (s * 2 + r) (l * 2 ^ 37) (omega arith),
      ← sr,
      srl,
      bit_or-disjoint 37 (s * 2 ^ 25 + r * 2 ^ 24 + l) o ho,
      ← srl,
    )

-- The word as a sum of its fields.
pub pack_control-sum :
    (s : NodeState) (r : EvictState) (len off : ℕ)
    → pack_control s r len off
      ≡ state_code s * 2 ^ 62 + evict_code r * 2 ^ 61 + len % 2 ^ 24 * 2 ^ 37 + off % 2 ^ 37
unfolding pack_control
pack_control-sum s r len off =
    rw (bit_and-low 24 len, bit_and-low 37 off)
      (fields-sum (state_code s) (evict_code r) (len % 2 ^ 24) (off % 2 ^ 37) (ground arith)
        (ground arith) (omega arith) (omega arith))

pub unpack_control-fields :
    (c : ℕ)
    → unpack_control c ≡ record {
      state = state_of (c / 2 ^ 62);
      ref_bit = evict_of (c / 2 ^ 61 % 2);
      length = c / 2 ^ 37 % 2 ^ 24;
      virtual_offset = c % 2 ^ 37;
    }
unfolding unpack_control
unpack_control-fields c =
    ground (arith, bit_and-low 1 (shr c 61), bit_and-low 24 (shr c 37), bit_and-low 37 c)

-- `PackControl` yields a word of 64 bits.
pub pack_control-lt :
    (s : NodeState) (r : EvictState) (len off : ℕ) → pack_control s r len off < 2 ^ 64
pack_control-lt s r len off = ground (arith, pack_control-sum s r len off)

-- `UnpackControl` recovers what `PackControl` was given: the state and the reference bit, and the
-- length and the offset as far as their 24 and 37 bits hold them.
pub unpack_control-pack_control :
    (s : NodeState) (r : EvictState) (len off : ℕ)
    → unpack_control (pack_control s r len off)
      ≡ record { state = s; ref_bit = r; length = len % 2 ^ 24; virtual_offset = off % 2 ^ 37 }
unpack_control-pack_control s r len off =
    ground (arith, pack_control-sum s r len off, unpack_control-fields (pack_control s r len off))

-- `PackControl` of the fields that `UnpackControl` reads from a 64-bit word is that word.
pub pack_control-unpack_control :
    (c : ℕ)
    → c < 2 ^ 64
    → let u = unpack_control c in pack_control u.state u.ref_bit u.length u.virtual_offset ≡ c
pack_control-unpack_control c h = ground (
  arith,
  unpack_control-fields c,
  pack_control-sum (state_of (c / 2 ^ 62)) (evict_of (c / 2 ^ 61 % 2)) (c / 2 ^ 37 % 2 ^ 24)
      (c % 2 ^ 37),
)
