-- ===== src/Collector.antt =====
-- `MemoryArena::RunGarbageCollector` of engine/src/arena.cc: the snowplow that moves the read tail.
-- One iteration is `collect_once`, and a run of the thread is a list of rounds.
pub mod Copy
pub mod Visit
pub mod Rescue
pub mod SecondChance
pub mod Evict
pub mod Queue
pub mod Measure
pub mod Sweep
pub mod Progress
pub mod Run
use semantic_sentinel.Base.{
  ℕ, zero, suc, ◌+◌, ◌-◌, ◌*◌, Bool, true, false, not, ◌&&◌, ◌||◌, ltb, leb, ◌==◌, if◌then◌else◌,
  List, [], ◌∷◌, length, min, bit_and, u32, add64, sub64,
}
use semantic_sentinel.Constant.{
  payload_buffer_size, total_max_slots, virtual_offset_mask, valid_identifier,
  low_watermark_threshold, low_gc_sleep_ms, high_watermark_threshold, high_gc_sleep_ms,
}
use semantic_sentinel.Node.{
  NodeState, dead, pending, ready, migrating, EvictState, cold, hot, UnpackedControl, pack_control,
  load_control,
}
use semantic_sentinel.Memory.{write_bytes, read_bytes}
use semantic_sentinel.Result.{Action, ok, pure, undefined, resume, ◌>>=◌, ◌>>◌}
use semantic_sentinel.Arena.{
  Arena, Turn, PayloadHeader, header_size, header_bytes, header_at, ring_index, allocate_payload,
  store_bytes,
}
use semantic_sentinel.Slot.{exchange_control, set_created_at}

-- What the other threads do during one iteration: while the collector sleeps, before it exchanges a
-- control word, before it stores a birth time, and in the turns of a rescue's allocation.
pub record Round (F : Type 0) : Type 0 where
  pub during_sleep : Arena F → Arena F
  pub before_exchange : Arena F → Arena F
  pub before_store : Arena F → Arena F
  pub turns : List (Turn F)

-- `state == NodeState::DEAD`
abbrev pub is_dead : NodeState → Bool
is_dead dead = true
is_dead pending = false
is_dead ready = false
is_dead migrating = false

module _ {F : Type 0} where
  -- `read_tail.fetch_add(count)`
  unfoldable pub advance : ℕ → Action (Arena F) (Unit {0})
  advance count a = pure tt (record a { read_tail = add64 a.read_tail count })

  -- `memcpy(buffer_payload + dst_idx, buffer_payload + src_idx, count)`, undefined where the two
  -- ranges overlap.
  unfoldable pub copy_bytes : ℕ → ℕ → ℕ → Action (Arena F) (Unit {0})
  copy_bytes dst_idx src_idx count a =
      if leb (src_idx + count) payload_buffer_size
        && leb (dst_idx + count) payload_buffer_size
        && (leb (src_idx + count) dst_idx || leb (dst_idx + count) src_idx)
      then pure tt (record a {
        buffer_payload =
            write_bytes a.buffer_payload dst_idx (read_bytes a.buffer_payload src_idx count);
      })
      else undefined a

  -- The loop over `bytes_left`, on fuel: one round for each byte is enough, since a chunk has one at
  -- least. Without fuel there is no result.
  unfoldable pub copy_text : ℕ → ℕ → ℕ → ℕ → Action (Arena F) (Unit {0})
  copy_text zero src_idx dst_idx bytes_left = if bytes_left == 0 then pure tt else undefined
  copy_text (suc fuel) src_idx dst_idx bytes_left =
      let src_continuous = payload_buffer_size - src_idx in
      let dst_continuous = payload_buffer_size - dst_idx in
      let chunk_size = min bytes_left (min src_continuous dst_continuous) in
      let rest =
        copy_text fuel (ring_index (src_idx + chunk_size)) (ring_index (dst_idx + chunk_size))
          (bytes_left - chunk_size) in
      if bytes_left == 0 then pure tt else (copy_bytes dst_idx src_idx chunk_size >> rest)

  -- The eviction of a cold slot. The birth time is cleared whether the exchange wrote or not.
  unfoldable pub evict : Round F → ℕ → UnpackedControl → Action (Arena F) (Unit {0})
  evict round node_id u a =
      let expected_ctrl = pack_control u.state u.ref_bit u.length u.virtual_offset in
      let desired_ctrl = pack_control dead u.ref_bit u.length u.virtual_offset in
      let met = round.before_exchange a in
      let exchanged = (exchange_control node_id expected_ctrl desired_ctrl met).1 in
      pure tt (set_created_at node_id 0 (round.before_store exchanged))

  -- The last step of a rescue: the slot goes to the new offset, and is cold.
  unfoldable pub relocate : Round F → ℕ → UnpackedControl → ℕ → Action (Arena F) (Unit {0})
  relocate round node_id u rescued_offset a =
      let expected_ctrl = pack_control u.state hot u.length u.virtual_offset in
      let desired_ctrl = pack_control u.state cold u.length rescued_offset in
      pure tt (exchange_control node_id expected_ctrl desired_ctrl (round.before_exchange a)).1

  -- The second chance of a hot slot: its payload moves to the head.
  unfoldable pub rescue : Round F → ℕ → ℕ → ℕ → UnpackedControl → Action (Arena F) (Unit {0})
  rescue round tail node_id text_len u = do
    rescued_offset ← allocate_payload round.turns text_len
    let rescued_index = ring_index rescued_offset
    let new_header : PayloadHeader = record {
      identifier = valid_identifier;
      node_id = node_id;
      length = text_len;
    }
    store_bytes rescued_index (header_bytes new_header) header_size
    copy_text text_len (ring_index (add64 tail header_size))
        (ring_index (add64 rescued_offset header_size)) text_len
    relocate round node_id u rescued_offset

  -- The branch on the reference bit.
  unfoldable pub treat :
      EvictState → Round F → ℕ → ℕ → ℕ → UnpackedControl → Action (Arena F) (Unit {0})
  treat cold round tail node_id text_len u = evict round node_id u
  treat hot round tail node_id text_len u = rescue round tail node_id text_len u

  -- What is done of a payload whose header is valid and names `node_id`.
  unfoldable pub visit : Round F → ℕ → ℕ → ℕ → Action (Arena F) (Unit {0})
  visit round tail node_id text_len a =
      let total_size = u32 (header_size + text_len) in
      let u = load_control (a.metadata node_id) in
      if not (ltb node_id total_max_slots)
      then undefined a
      else if is_dead u.state || not (u.virtual_offset == bit_and tail virtual_offset_mask)
      then advance total_size a
      else (treat u.ref_bit round tail node_id text_len u >> advance total_size) a

  -- The snowplow at the tail.
  unfoldable pub sweep : Round F → ℕ → Action (Arena F) (Unit {0})
  sweep round tail a =
      let tail_index = ring_index tail in
      let padding = payload_buffer_size - tail_index in
      let header = header_at a.buffer_payload tail_index in
      if ltb padding header_size
      then advance padding a
      else if not (header.identifier == valid_identifier)
      then advance 1 a
      else visit round tail header.node_id header.length a

  -- One iteration. The result is how many milliseconds it slept.
  unfoldable pub collect_once : Round F → Action (Arena F) ℕ
  collect_once round a =
      let tail = a.read_tail in
      let used_space = sub64 a.write_head tail in
      if ltb used_space low_watermark_threshold
      then pure low_gc_sleep_ms (round.during_sleep a)
      else if ltb used_space high_watermark_threshold
      then (sweep round tail >> pure high_gc_sleep_ms) (round.during_sleep a)
      else (sweep round tail >> pure 0) a

  -- The thread until the shutdown request is seen, which it is after the last round.
  unfoldable pub run_garbage_collector : List (Round F) → Action (Arena F) (Unit {0})
  run_garbage_collector [] = pure tt
  run_garbage_collector (round ∷ rounds) =
      let rest = run_garbage_collector rounds in collect_once round >>= λ _. rest
