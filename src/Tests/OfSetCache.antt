-- ===== src/Tests/OfSetCache.antt =====
-- `SetCache` of engine/src/service.cc, run.
use semantic_sentinel.Base.{
  ℕ, ◌+◌, ◌%◌, ◌^◌, ◌≡◌, ◌⊎◌, refl, arith, true, false, List, [], ◌∷◌, add64,
}
use semantic_sentinel.Base.Int.{pos}
use semantic_sentinel.Memory.{read_bytes}
use semantic_sentinel.Node.{ready, hot, pack_control, load_control}
use semantic_sentinel.Result.{ok, thrown, fault, resource_exhausted}
use semantic_sentinel.Message.{status_ok, internal}
use semantic_sentinel.Arena.{
  Arena, header_size, header_padding, header_at, ring_index, write_payload, read_payload,
}
use semantic_sentinel.Arena.Payload.{header_of}
use semantic_sentinel.Arena.Allocate.{used}
use semantic_sentinel.Slot.{set_control, set_node}
use semantic_sentinel.SetCache.{Attempt, publish, set_cache}
use semantic_sentinel.SetCache.Publish.{Published, publish-Published}
use semantic_sentinel.SetCache.Outcome.{quiet_traffic, IsAdmitted, set_cache_stray}
use semantic_sentinel.SetCache.Store.{set_cache_stores, set_cache_wastes}
use semantic_sentinel.Sample.{hi, waiting, one_slot}

hi-IsAdmitted : IsAdmitted 7 hi
hi-IsAdmitted = record { signed = omega arith; nonempty = omega arith; limited = omega arith }

set_cache_stores_example :
    (a' : Arena ℕ) × (set_cache quiet_traffic
        (record { node_id = pos 7; uncached_payload = hi })
        waiting
      ≡ (ok (status_ok, true), a'))
    × (let o = add64 waiting.write_head (header_padding waiting.write_head) in
        (load_control (a'.metadata 7)
          ≡ record { state = ready; ref_bit = hot; length = 2; virtual_offset = o % 2 ^ 37 })
        × (read_payload true (o % 2 ^ 37) 2 a' ≡ (ok hi, a')))
    × (a'.metadata ≡ (set_node 7 (a'.metadata 7) waiting).metadata)
    × (a'.vectors ≡ waiting.vectors)
unfolding pack_control
set_cache_stores_example =
    set_cache_stores 7 hi waiting hi-IsAdmitted (omega arith) (omega arith) (omega arith) refl

set_cache_wastes_example :
    (a' : Arena ℕ) × (set_cache quiet_traffic
        (record { node_id = pos 7; uncached_payload = hi })
        (one_slot 0)
      ≡ (ok (status_ok, false), a'))
    × (a'.metadata ≡ (one_slot 0).metadata)
    × (used a' ≡ used (one_slot 0) + header_padding (one_slot 0).write_head + header_size + 2)
set_cache_wastes_example =
    set_cache_wastes 7 hi (one_slot 0) hi-IsAdmitted (omega arith) (omega arith) (omega arith) refl

-- Another thread publishes first.
abbrev overtaken : List (Attempt ℕ)
overtaken =
    record { before_exchange = set_control 7 (pack_control ready hot 3 0); spurious = false } ∷ []

publish-Published_example :
    Published overtaken 7
      (pack_control ready hot 2 14)
      waiting
      (publish overtaken 7 (pack_control ready hot 2 14) waiting)
publish-Published_example = publish-Published overtaken 7 (pack_control ready hot 2 14) waiting

abbrev zeros : ℕ → List ℕ
zeros n = read_bytes (λ i. 0) 0 n

set_cache_stray_example :
    let w = write_payload [] 600_000 hi 2 waiting in
    let r =
      set_cache quiet_traffic (record { node_id = pos 600_000; uncached_payload = hi }) waiting in
    ((w.0 ≡ thrown resource_exhausted)
      × (r ≡ (
        ok (record { code = internal; message = "Encounter errorResource Exhausted" }, false),
        w.1,
      )))
    ⊎ ((o : ℕ) × (w.0 ≡ ok o)
        × (header_at w.1.buffer_payload (ring_index o) ≡ header_of 600_000 2)
        × (r ≡ (fault, w.1)))
set_cache_stray_example =
    set_cache_stray quiet_traffic 600_000 hi waiting
      (record { signed = omega arith; nonempty = omega arith; limited = omega arith }) (omega arith)
