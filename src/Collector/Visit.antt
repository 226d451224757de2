-- ===== src/Collector/Visit.antt =====
-- One iteration of `RunGarbageCollector` in engine/src/arena.cc with no other thread in the way, at
-- a payload that its slot refers to.
use semantic_sentinel.Base.{
  ℕ, ◌+◌, ◌%◌, ◌^◌, ◌≤◌, ◌<◌, ◌≡◌, ◌∙◌, ap, arith, false, [], ltb, if◌then◌else◌, add64,
  bit_and-low,
}
use semantic_sentinel.Constant.{
  payload_buffer_size, total_max_slots, max_payload_length, low_watermark_threshold,
  high_watermark_threshold, high_gc_sleep_ms,
}
use semantic_sentinel.Node.{UnpackedControl, load_control}
use semantic_sentinel.Node.Layout.{unpack_control-fields}
use semantic_sentinel.Result.{ok}
use semantic_sentinel.Arena.{Arena, header_size, header_at, ring_index}
use semantic_sentinel.Arena.Allocate.{used, IsValid}
use semantic_sentinel.Arena.Payload.{header_of}
use semantic_sentinel.Collector.{Round, is_dead, advance, treat, visit, sweep, collect_once}

-- A round in which no other thread does anything.
abbrev pub quiet : {F : Type 0} → Round F
quiet = record {
  during_sleep = λ a. a;
  before_exchange = λ a. a;
  before_store = λ a. a;
  turns = [];
}

-- At the tail of a valid arena, loaded enough for the collector to work, stands the payload of `n`
-- bytes that the slot `node_id` refers to.
pub record AtTail {F : Type 0} (a : Arena F) (node_id n : ℕ) (u : UnpackedControl) : Type 0 where
  pub valid : IsValid a
  pub loaded : low_watermark_threshold ≤ used a
  pub room : ring_index a.read_tail + header_size ≤ payload_buffer_size
  pub header : header_at a.buffer_payload (ring_index a.read_tail) ≡ header_of node_id n
  pub slot : node_id < total_max_slots
  pub small : n ≤ max_payload_length
  pub word : (a.metadata node_id).control_block < 2 ^ 64
  pub control : load_control (a.metadata node_id) ≡ u
  pub alive : is_dead u.state ≡ false
  pub epoch : u.virtual_offset ≡ a.read_tail % 2 ^ 37

module _ {F : Type 0} where
  -- The length in a slot's word has 24 bits.
  pub AtTail-length :
      {a : Arena F} {node_id n : ℕ} {u : UnpackedControl}
      → AtTail a node_id n u
      → u.length ≤ max_payload_length
  unfolding load_control
  AtTail-length {a} {node_id} {u} at = ground (
    arith,
    unpack_control-fields (a.metadata node_id).control_block,
    ap (λ w. w.length) at.control,
  )

  pub sweep_visits :
      {a : Arena F} {node_id n : ℕ} {u : UnpackedControl}
      → AtTail a node_id n u
      → sweep quiet a.read_tail a ≡ visit quiet a.read_tail node_id n a
  unfolding sweep
  sweep_visits {a} {node_id} {n} at = ground (
    arith,
    ap (λ h. h.identifier) at.header,
    ap (λ h. visit quiet a.read_tail h.node_id h.length a) at.header,
  )

  visit_treats :
      {a : Arena F} {node_id n : ℕ} {u : UnpackedControl} (b : Arena F)
      → AtTail a node_id n u
      → treat u.ref_bit quiet a.read_tail node_id n u a ≡ (ok tt, b)
      → visit quiet a.read_tail node_id n a
        ≡ (ok tt, record b { read_tail = add64 b.read_tail (header_size + n) })
  unfolding visit advance
  visit_treats {a} b at e = rw (at.control) (ground (arith, bit_and-low 37 a.read_tail))

  -- The milliseconds that an iteration on a loaded arena sleeps.
  abbrev pub nap : Arena F → ℕ
  nap a = if ltb (used a) high_watermark_threshold then high_gc_sleep_ms else 0

  -- An iteration on such an arena treats the slot by its reference bit and moves the tail past the
  -- payload.
  pub collect_once_treats :
      {a : Arena F} {node_id n : ℕ} {u : UnpackedControl} (b : Arena F)
      → AtTail a node_id n u
      → treat u.ref_bit quiet a.read_tail node_id n u a ≡ (ok tt, b)
      → collect_once quiet a
        ≡ (ok (nap a), record b { read_tail = add64 b.read_tail (header_size + n) })
  unfolding collect_once
  collect_once_treats {a} b at e = let s = sweep_visits at ∙ visit_treats b at e in ground arith
