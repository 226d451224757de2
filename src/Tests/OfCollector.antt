-- ===== src/Tests/OfCollector.antt =====
-- The collector of engine/src/arena.cc, run.
use semantic_sentinel.Base.{ℕ, ◌+◌, ◌-◌, ◌*◌, ◌%◌, ◌^◌, ◌≤◌, ◌≡◌, refl, arith, add64, true}
use semantic_sentinel.Constant.{payload_buffer_size}
use semantic_sentinel.Node.{
  ready, EvictState, cold, hot, UnpackedControl, pack_control, load_control,
}
use semantic_sentinel.Memory.{write_bytes}
use semantic_sentinel.Node.Layout.{unpack_control-pack_control, pack_control-lt}
use semantic_sentinel.Result.{ok, thrown, resource_exhausted}
use semantic_sentinel.Arena.{Arena, header_size, header_at, ring_index, read_payload}
use semantic_sentinel.Arena.Payload.{header_of}
use semantic_sentinel.Slot.{set_node}
use semantic_sentinel.Collector.{copy_text, collect_once}
use semantic_sentinel.Collector.Copy.{copied, copy_text-copied}
use semantic_sentinel.Collector.Visit.{quiet, AtTail, nap}
use semantic_sentinel.Collector.Rescue.{rescued_offset}
use semantic_sentinel.Collector.SecondChance.{collect_once_second_chance}
use semantic_sentinel.Collector.Evict.{collect_once_unhandled}
use semantic_sentinel.Sample.{waiting, loaded_arena}

-- The payload of slot 7 at the tail, with the slot hot or cold, and 3 GB or all but 7 bytes of the
-- ring in use.
abbrev hot_control : UnpackedControl
hot_control = record { state = ready; ref_bit = hot; length = 2; virtual_offset = 0 }

abbrev cold_control : UnpackedControl
cold_control = record { state = ready; ref_bit = cold; length = 2; virtual_offset = 0 }

abbrev hot_arena : Arena ℕ
hot_arena = loaded_arena 7 (pack_control ready hot 2 0) (3 * 2 ^ 30)

abbrev cold_arena : Arena ℕ
cold_arena = loaded_arena 7 (pack_control ready cold 2 0) (3 * 2 ^ 30)

abbrev full_arena : Arena ℕ
full_arena = loaded_arena 7 (pack_control ready hot 2 0) (2 ^ 32 - 7)

at_tail :
    (r : EvictState) (size : ℕ)
    → 2 ^ 31 ≤ size
    → size ≤ 2 ^ 32
    → AtTail
        (loaded_arena 7 (pack_control ready r 2 0) size)
        7
        2
        (record { state = ready; ref_bit = r; length = 2; virtual_offset = 0 })
unfolding write_bytes load_control
at_tail r size lo hi = record {
  valid = omega arith;
  loaded = omega arith;
  room = omega arith;
  header = refl;
  slot = omega arith;
  small = omega arith;
  word = pack_control-lt ready r 2 0;
  control = unpack_control-pack_control ready r 2 0;
  alive = refl;
  epoch = refl;
}

collect_once_second_chance_example :
    (a' : Arena ℕ) × (collect_once quiet hot_arena ≡ (ok (nap hot_arena), a'))
    × (load_control (a'.metadata 7)
        ≡ record hot_control { ref_bit = cold; virtual_offset = rescued_offset hot_arena % 2 ^ 37 })
    × ((read_payload true (rescued_offset hot_arena % 2 ^ 37) 2 a').0
        ≡ (read_payload true 0 2 hot_arena).0)
    × (header_at a'.buffer_payload (ring_index (rescued_offset hot_arena)) ≡ header_of 7 2)
    × (a'.read_tail ≡ add64 0 (header_size + 2))
    × (a'.metadata ≡ (set_node 7 (a'.metadata 7) hot_arena).metadata)
collect_once_second_chance_example =
    collect_once_second_chance (at_tail hot (3 * 2 ^ 30) (omega arith) (omega arith)) (omega arith)
      refl

collect_once_unhandled_example :
    collect_once quiet full_arena ≡ (thrown resource_exhausted, full_arena)
collect_once_unhandled_example =
    collect_once_unhandled (at_tail hot (2 ^ 32 - 7) (omega arith) (omega arith)) refl (omega arith)

-- A copy round the end of the buffer.
copy_text-copied_example :
    let r =
      copy_text 5 ((2 ^ 32 - 2) % payload_buffer_size) (100 % payload_buffer_size) 5 waiting in
    (r.0 ≡ ok tt) × (r.1.buffer_payload 103 ≡ copied waiting.buffer_payload (2 ^ 32 - 2) 100 5 103)
copy_text-copied_example =
    copy_text-copied 5 (2 ^ 32 - 2) 100 5 waiting 103 (omega arith) (omega arith) (omega arith)
