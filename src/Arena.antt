-- ===== src/Arena.antt =====
-- engine/include/arena.hh and engine/src/arena.cc: the slots, their vectors and the payload ring.
-- `F` is the type of `float`. The arrays are functions of the index, and an access to the
-- buffer outside the size that the constructor allocates is a `fault`.
pub mod Allocate
pub mod Ring
pub mod Payload
pub mod Stored
pub mod Queue
use mathlib.Core.Logic.{ite}
use semantic_sentinel.Base.{
  ℕ, ◌+◌, ◌-◌, ◌<◌, Bool, not, ◌&&◌, ◌||◌, ltb, leb, ◌==◌, if◌then◌else◌, List, [], ◌∷◌, ◌++◌,
  length, take, drop, bit_and, u32, add64, sub64,
}
use semantic_sentinel.Constant.{payload_buffer_size, total_max_slots, vector_dim, valid_identifier}
use semantic_sentinel.Node.{MetaNode}
use semantic_sentinel.Memory.{Bytes, write_bytes, read_bytes, bytes32, load32}
use semantic_sentinel.Result.{
  Action, ok, fault, thrown, resource_exhausted, pure, throw, undefined, resume, ◌>>=◌, ◌>>◌,
  bad_alloc,
}

pub record PayloadHeader : Type 0 where
  pub identifier : ℕ
  pub node_id : ℕ
  pub length : ℕ

abbrev pub header_size : ℕ
header_size = 12

-- The 12 bytes of a header, and the header that 12 bytes are.
abbrev pub header_bytes : PayloadHeader → List ℕ
header_bytes h = bytes32 h.identifier (bytes32 h.node_id (bytes32 h.length []))

abbrev pub header_at : Bytes → ℕ → PayloadHeader
header_at buffer i = record {
  identifier = load32 buffer i;
  node_id = load32 buffer (i + 4);
  length = load32 buffer (i + 8);
}

pub record Arena (F : Type 0) : Type 0 where
  pub metadata : ℕ → MetaNode
  pub vectors : ℕ → F
  pub buffer_payload : Bytes
  pub write_head : ℕ
  pub read_tail : ℕ

-- `i & (PAYLOAD_BUFFER_SIZE - 1)`
abbrev pub ring_index : ℕ → ℕ
ring_index i = bit_and i (payload_buffer_size - 1)

-- The constructor, over what `operator new` finds in the memory of the slots: zeros everywhere.
unfoldable pub memory_arena : {F : Type 0} → F → Arena F
memory_arena zero_float = record {
  metadata = λ i. record { created_at = 0; control_block = 0 };
  vectors = λ i. zero_float;
  buffer_payload = λ i. 0;
  write_head = 0;
  read_tail = 0;
}

-- One turn of a compare-exchange loop: what the other threads do before the guard is read and
-- before the exchange, and whether a weak exchange fails for no reason.
pub record Turn (F : Type 0) : Type 0 where
  pub before_guard : Arena F → Arena F
  pub before_exchange : Arena F → Arena F
  pub spurious : Bool

-- `curr_write + total_size - read_tail >= PAYLOAD_BUFFER_SIZE`
abbrev pub is_exhausted : ℕ → ℕ → ℕ → Bool
is_exhausted curr_write total_size tail =
    leb payload_buffer_size (sub64 (add64 curr_write total_size) tail)

-- The bytes skipped so that the header does not straddle the end of the buffer.
abbrev pub header_padding : ℕ → ℕ
header_padding curr_write =
    let room = payload_buffer_size - ring_index curr_write in
    if ltb room header_size then room else 0

module _ {F : Type 0} where
  -- What the loop body computes from `curr_write`, exchanged into `write_head`.
  unfoldable pub reserve : ℕ → ℕ → Arena F → ℕ × Arena F
  reserve curr_write total_size a =
      let allocated_offset = add64 curr_write (header_padding curr_write) in
      (allocated_offset, record a { write_head = add64 allocated_offset total_size })

  -- At the head of each turn `curr_write` is the head as it was loaded, or as the exchange that
  -- failed found it. With no turn left no other thread is in the way.
  unfoldable pub allocate_payload : List (Turn F) → ℕ → Action (Arena F) ℕ
  unfolding reserve
  allocate_payload [] payload_length a =
      let total_size = header_size + payload_length in
      if is_exhausted a.write_head total_size a.read_tail
      then throw resource_exhausted a
      else (ok (reserve a.write_head total_size a).0, (reserve a.write_head total_size a).1)
  allocate_payload (turn ∷ turns) payload_length a =
      let curr_write = a.write_head in
      let total_size = header_size + payload_length in
      let guarded = turn.before_guard a in
      let met = turn.before_exchange guarded in
      let again = allocate_payload turns payload_length met in
      if is_exhausted curr_write total_size guarded.read_tail
      then throw resource_exhausted guarded
      else if (met.write_head == curr_write) && not turn.spurious
      then (ok (reserve curr_write total_size met).0, (reserve curr_write total_size met).1)
      else again

  -- `memcpy(buffer_payload + start, source, count)`
  unfoldable pub store_bytes : ℕ → List ℕ → ℕ → Action (Arena F) (Unit {0})
  store_bytes start source count a =
      if leb (start + count) payload_buffer_size && leb count (length source)
      then pure tt
          (record a { buffer_payload = write_bytes a.buffer_payload start (take count source) })
      else undefined a

  -- `memcpy(…, buffer_payload + start, count)`
  unfoldable pub load_bytes : ℕ → ℕ → Action (Arena F) (List ℕ)
  load_bytes start count a =
      if leb (start + count) payload_buffer_size
      then pure (read_bytes a.buffer_payload start count) a
      else undefined a

  -- The text in one piece, or in two round the end of the buffer.
  unfoldable pub store_text : ℕ → List ℕ → ℕ → Action (Arena F) (Unit {0})
  unfolding store_bytes
  store_text text_index in_payload payload_length =
      let chunk1_size = payload_buffer_size - text_index in
      let chunk2_size = payload_length - chunk1_size in
      if leb payload_length chunk1_size
      then store_bytes text_index in_payload payload_length
      else (do
        store_bytes text_index in_payload chunk1_size
        store_bytes 0 (drop chunk1_size in_payload) chunk2_size)

  unfoldable pub write_payload : List (Turn F) → ℕ → List ℕ → ℕ → Action (Arena F) ℕ
  write_payload turns node_id in_payload payload_length = do
    header_offset ← allocate_payload turns payload_length
    let header_index = ring_index header_offset
    let header : PayloadHeader = record {
      identifier = valid_identifier;
      node_id = node_id;
      length = payload_length;
    }
    store_bytes header_index (header_bytes header) header_size
    store_text (ring_index (header_index + header_size)) in_payload payload_length
    pure header_offset

  -- The result is the string that `out_payload` holds afterwards; `resized` is whether the allocator
  -- has memory for it.
  unfoldable pub read_payload : Bool → ℕ → ℕ → Action (Arena F) (List ℕ)
  unfolding load_bytes
  read_payload resized v_offset payload_length =
      let text_index = ring_index (add64 v_offset header_size) in
      let chunk1_size = payload_buffer_size - text_index in
      let chunk2_size = payload_length - chunk1_size in
      if payload_length == 0
      then pure []
      else if not resized
      then throw bad_alloc
      else if leb payload_length chunk1_size
      then load_bytes text_index payload_length
      else (do
        chunk1 ← load_bytes text_index chunk1_size
        chunk2 ← load_bytes 0 chunk2_size
        pure (chunk1 ++ chunk2))
