-- ===== src/Arena/Payload.antt =====
-- `WritePayload` and `ReadPayload` of engine/src/arena.cc: the buffer that a write leaves,
-- its header, its text and the rest.
use semantic_sentinel.Base.{
  ℕ, ◌+◌, ◌%◌, ◌^◌, ◌≤◌, ◌<◌, ◌≡◌, ◌∙◌, ap, arith, List, ltb, if◌then◌else◌, length, get_or, take,
}
use semantic_sentinel.Constant.{payload_buffer_size, max_payload_length, valid_identifier}
use semantic_sentinel.Memory.{Bytes, write_bytes}
use semantic_sentinel.Memory.Laws.{write_bytes-inside}
use semantic_sentinel.Result.{ok}
use semantic_sentinel.Arena.{
  Arena, Turn, PayloadHeader, header_size, header_bytes, header_at, ring_index, allocate_payload,
  store_bytes, write_payload,
}
use semantic_sentinel.Arena.Allocate.{ring_index-mod, allocate_payload_room}
use semantic_sentinel.Arena.Ring.{
  distance, lay, texted, store_text-texted, texted-lay, ring_text, ring_text_moved, ring_text-lay,
}

abbrev pub header_of : ℕ → ℕ → PayloadHeader
header_of node_id n = record { identifier = valid_identifier; node_id = node_id; length = n }

-- The buffer once the header is stored, and the buffer that `write_payload` leaves.
unfoldable pub headed : Bytes → ℕ → ℕ → ℕ → Bytes
headed m o node_id n =
    write_bytes m (ring_index o) (take header_size (header_bytes (header_of node_id n)))

pub written : Bytes → ℕ → ℕ → List ℕ → Bytes
written m o node_id xs =
    texted (headed m o node_id (length xs)) (ring_index (ring_index o + header_size)) xs

text_index-lt : (o : ℕ) → ring_index (ring_index o + header_size) < payload_buffer_size
text_index-lt o = omega (arith, ring_index-mod (ring_index o + header_size))

pub headed-outside :
    (m : Bytes) (o node_id n j : ℕ)
    → ring_index o + header_size ≤ payload_buffer_size
    → j < payload_buffer_size
    → header_size ≤ distance o j
    → headed m o node_id n j ≡ m j
unfolding headed write_bytes
headed-outside m o node_id n j room hj out = ground (arith, ring_index-mod o)

-- A header stored at the index `i` is the header there.
header_at-stored :
    (m : Bytes) (i : ℕ) (h : PayloadHeader)
    → h.identifier < 2 ^ 32
    → h.node_id < 2 ^ 32
    → h.length < 2 ^ 32
    → header_at (write_bytes m i (header_bytes h)) i ≡ h
header_at-stored m i h p q r =
    let at = λ (k : ℕ). write_bytes-inside m i (header_bytes h) k in
    let at0 : write_bytes m i (header_bytes h) i ≡ h.identifier % 256 =
      ap (write_bytes m i (header_bytes h)) {x = i} {y = i + 0} (omega arith)
      ∙ at 0 (omega arith) in
    ground (
      arith,
      at0,
      at 1 (omega arith),
      at 2 (omega arith),
      at 3 (omega arith),
      at 4 (omega arith),
      at 5 (omega arith),
      at 6 (omega arith),
      at 7 (omega arith),
      at 8 (omega arith),
      at 9 (omega arith),
      at 10 (omega arith),
      at 11 (omega arith),
    )

pub headed-header :
    (m : Bytes) (o node_id n : ℕ)
    → n ≤ max_payload_length
    → node_id < 2 ^ 32
    → header_at (headed m o node_id n) (ring_index o) ≡ header_of node_id n
unfolding headed
headed-header m o node_id n small word =
    header_at-stored m (ring_index o) (header_of node_id n) (omega arith) word (omega arith)

pub header_at_agree :
    (m m' : Bytes) (i : ℕ)
    → ((k : ℕ) → k < header_size → m' (i + k) ≡ m (i + k))
    → header_at m' i ≡ header_at m i
header_at_agree m m' i h =
    ground (arith, h 0, h 1, h 2, h 3, h 4, h 5, h 6, h 7, h 8, h 9, h 10, h 11)

written-lay :
    (m : Bytes) (o node_id : ℕ) (xs : List ℕ) (j : ℕ)
    → length xs ≤ max_payload_length
    → j < payload_buffer_size
    → written m o node_id xs j ≡ lay (headed m o node_id (length xs)) (o + header_size) xs j
unfolding written
written-lay m o node_id xs j small hj =
    let t = ring_index (ring_index o + header_size) in
    let same : distance t j ≡ distance (o + header_size) j =
      omega (arith, ring_index-mod o, ring_index-mod (ring_index o + header_size)) in
    texted-lay (headed m o node_id (length xs)) t xs j (text_index-lt o) (omega arith) hj
    ∙ ap (λ (d : ℕ). if ltb d (length xs) then get_or xs d 0 else headed m o node_id (length xs) j)
        same

module _ {F : Type 0} where
  -- What follows the reservation is no access outside the buffer.
  pub write_payload-written :
      (turns : List (Turn F)) (node_id : ℕ) (xs : List ℕ) (a : Arena F) {o : ℕ} {a' : Arena F}
      → length xs ≤ max_payload_length
      → allocate_payload turns (length xs) a ≡ (ok o, a')
      → write_payload turns node_id xs (length xs) a
        ≡ (ok o, record a' { buffer_payload = written a'.buffer_payload o node_id xs })
  unfolding write_payload written headed store_bytes
  write_payload-written turns node_id xs a {o} {a'} small h =
      let room = allocate_payload_room turns (length xs) a h in
      rw (h, write_payload)
        (ground (
          arith,
          room,
          store_text-texted (ring_index (ring_index o + header_size)) xs
              (record a' { buffer_payload = headed a'.buffer_payload o node_id (length xs) })
              (text_index-lt o),
        ))

-- The header is read back.
pub written-header :
    (m : Bytes) (o node_id : ℕ) (xs : List ℕ)
    → length xs ≤ max_payload_length
    → node_id < 2 ^ 32
    → ring_index o + header_size ≤ payload_buffer_size
    → header_at (written m o node_id xs) (ring_index o) ≡ header_of node_id (length xs)
written-header m o node_id xs small word room =
    header_at_agree (headed m o node_id (length xs)) (written m o node_id xs) (ring_index o) (λ k p.
      ground (
        arith,
        ring_index-mod o,
        written-lay m o node_id xs (ring_index o + k) small (omega arith),
      ))
    ∙ headed-header m o node_id (length xs) small word

-- The text is read back.
pub written-text :
    (m : Bytes) (o node_id : ℕ) (xs : List ℕ)
    → length xs ≤ max_payload_length
    → ring_text (written m o node_id xs) (o + header_size) (length xs) ≡ xs
written-text m o node_id xs small =
    ring_text_moved (lay (headed m o node_id (length xs)) (o + header_size) xs)
      (written m o node_id xs) (o + header_size) (o + header_size) (length xs)
      (λ k p.
        written-lay m o node_id xs ((o + header_size + k) % payload_buffer_size) small
          (omega arith))
    ∙ ring_text-lay (headed m o node_id (length xs)) (o + header_size) xs (omega arith)

-- Nothing else is changed.
pub written-outside :
    (m : Bytes) (o node_id : ℕ) (xs : List ℕ) (j : ℕ)
    → length xs ≤ max_payload_length
    → ring_index o + header_size ≤ payload_buffer_size
    → j < payload_buffer_size
    → header_size + length xs ≤ distance o j
    → written m o node_id xs j ≡ m j
written-outside m o node_id xs j small room hj out =
    ground (
      arith,
      written-lay m o node_id xs j small hj,
      headed-outside m o node_id (length xs) j room hj,
    )
