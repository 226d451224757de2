-- ===== src/Tests/OfCheckCache.antt =====
-- `CheckCache` of engine/src/service.cc, run.
use semantic_sentinel.Base.{[], ◌∷◌, ℕ, ◌+◌, ◌≤◌, ◌<◌, ◌≡◌, ◌⊎◌, inl, refl, arith, true, false, ltb}
use semantic_sentinel.Base.Int.{pos, minus_one}
use semantic_sentinel.Node.{
  dead, pending, ready, hot, cold, pack_control, unpack_control, load_control,
}
use semantic_sentinel.Node.Layout.{pack_control-lt}
use semantic_sentinel.Result.{ok}
use semantic_sentinel.Message.{CheckCacheResponse, SetCacheRequest, Status, status_ok}
use semantic_sentinel.Arena.{Arena, header_size}
use semantic_sentinel.Arena.Ring.{ring_text}
use semantic_sentinel.Slot.{exchange_control}
use semantic_sentinel.Collector.{evict}
use semantic_sentinel.SetCache.{set_cache}
use semantic_sentinel.SetCache.Outcome.{quiet_traffic}
use semantic_sentinel.CheckCache.{
  Moment, claim, Others, Scan, first_reusable, scan_slot, scan_slots, claim_slot, hit_slot,
  answer_best, check_cache,
}
use semantic_sentinel.CheckCache.Expiry.{quiet_others, scan_slot_newborn}
use semantic_sentinel.CheckCache.Claim.{missed}
use semantic_sentinel.CheckCache.Exclusive.{claim_slot_exclusive}
use semantic_sentinel.CheckCache.Answer.{served, hit_slot_serves, answer_best-set_cache}
use semantic_sentinel.CheckCache.Bounds.{check_cache_returns}
use semantic_sentinel.Similarity.{cosine_similarity, fma_loop, fma_block, horizontal_sum}
use semantic_sentinel.CheckCache.Find.{IsThreshold, IsAnswered, check_cache-IsAnswered}
use semantic_sentinel.CheckCache.Best.{score_of, IsReadable, IsOrder}
use semantic_sentinel.CheckCache.Maximal.{scan_slots_best}
use semantic_sentinel.CheckCache.Race.{claimed_between, evict_claimed}
use semantic_sentinel.Sample.{whole_numbers, hi, waiting, one_slot}

abbrev ones : ℕ → ℕ
ones i = 1

abbrev start : Scan ℕ
start = record { max_score = 0; best_node_id = minus_one; reusable_node_id = minus_one }

pub whole_numbers-IsOrder : IsOrder whole_numbers
whole_numbers-IsOrder = record {
  lt_irrefl = λ x. ground arith;
  lt_above = λ x y z p q. ground arith;
}

is_waiting : (i : ℕ) → (load_control (waiting.metadata i)).state ≡ pending
unfolding load_control unpack_control pack_control
is_waiting i = refl

abbrev ready_seven : Arena ℕ
ready_seven = one_slot (pack_control ready cold 2 0)

-- Another call claims the slot 5 right before the exchange.
abbrev claimed_first : Moment → Arena ℕ → Arena ℕ
claimed_first claim a = (claim_slot quiet_others ones 100 (pos 5) a).1
claimed_first moment a = a

abbrev forestalling : Others ℕ
forestalling = record { before = claimed_first; resized = true }

answer_best-set_cache_example :
    let request : SetCacheRequest = record { node_id = pos 7; uncached_payload = hi } in
    (answer_best quiet_others ones 110 (pos 7) (set_cache quiet_traffic request waiting).1).0
    ≡ ok (status_ok, served hi)
unfolding pack_control
answer_best-set_cache_example =
    answer_best-set_cache ones 110 7 hi waiting
      (record { signed = omega arith; nonempty = omega arith; limited = omega arith }) (omega arith)
      (omega arith) (omega arith) refl

scan_slots_best_example :
    (s' : Scan ℕ) × (a' : Arena ℕ) × (scan_slots quiet_others ones 110 1000 0 start ready_seven
      ≡ (ok s', a'))
    × (((s'.max_score ≡ 0) × (s'.best_node_id ≡ minus_one))
        ⊎ ((k : ℕ) × (0 ≤ k)
            × (k < 0 + 1000)
            × (s'.max_score ≡ score_of ones ready_seven k)
            × (s'.best_node_id ≡ pos k)))
    × ((j : ℕ)
        → 0 ≤ j
        → j < 0 + 1000
        → IsReadable (load_control (ready_seven.metadata j)).state
        → ltb s'.max_score (score_of ones ready_seven j) ≡ false)
scan_slots_best_example =
    scan_slots_best ones 110 whole_numbers-IsOrder 1000 0 start ready_seven (omega arith)

-- At 99 they are gone.
scan_slot_newborn_example :
    (a' : Arena ℕ) × (scan_slot quiet_others ones 99 3 start waiting
      ≡ (record start { reusable_node_id = first_reusable minus_one 3 }, a'))
    × (load_control (a'.metadata 3) ≡ record (load_control (waiting.metadata 3)) { state = dead })
    × ((a'.metadata 3).created_at ≡ 0)
scan_slot_newborn_example =
    scan_slot_newborn ones 99 3 start waiting (is_waiting 3) (omega arith) (omega arith)
      (omega arith)

claim_slot_exclusive_example :
    let first = claim_slot quiet_others ones 100 (pos 5) (one_slot 0) in
    (first.0 ≡ ok (status_ok, missed (pos 5)))
    × (claim_slot forestalling ones 110 (pos 5) (one_slot 0)
        ≡ (ok (status_ok, missed minus_one), first.1))
    × (claim_slot quiet_others ones 120 (pos 5) first.1
        ≡ (ok (status_ok, missed minus_one), first.1))
unfolding load_control unpack_control
claim_slot_exclusive_example =
    claim_slot_exclusive 5 ones ones ones 110 100 120 forestalling (one_slot 0) refl refl

-- Another thread overwrites the ring before the text is read.
abbrev overwriting : Others ℕ
overwriting = record { before = λ moment a. record a { buffer_payload = λ i. 9 }; resized = true }

hit_slot_serves_example :
    let c = pack_control ready cold 2 0 in
    let u = unpack_control c in
    let seen : Arena ℕ = record (one_slot c) { buffer_payload = λ i. 9 } in
    hit_slot overwriting ones 110 7 c u (one_slot c) ≡ (
      ok (
        status_ok,
        served (ring_text seen.buffer_payload (u.virtual_offset + header_size) u.length),
      ),
      (exchange_control 7 c (pack_control u.state hot u.length u.virtual_offset) seen).1,
    )
hit_slot_serves_example =
    hit_slot_serves ones 110 7 overwriting (pack_control ready cold 2 0)
      (one_slot (pack_control ready cold 2 0)) refl

check_cache_returns_example :
    (v : Status × CheckCacheResponse) × ((check_cache
        (λ prompt. ok ones)
        overwriting
        110
        hi
        waiting).0
      ≡ ok v)
check_cache_returns_example =
    check_cache_returns (λ prompt. ok ones) overwriting 110 hi waiting refl λ h. ground arith

evict_claimed_example :
    let b = (evict (claimed_between ones 110 7) 7 (load_control (waiting.metadata 7)) waiting).1 in
    ((load_control (b.metadata 7)).state ≡ pending)
    × ((b.metadata 7).created_at ≡ 0)
    × (scan_slot quiet_others ones 999 7 start b ≡ (start, b))
evict_claimed_example =
    evict_claimed ones 110 7 waiting 999 ones start (pack_control-lt pending hot 0 0)

pub whole_numbers-IsThreshold : IsThreshold whole_numbers
whole_numbers-IsThreshold = record {
  above_start = λ y p. ground arith;
  reached = λ w x y p q r. ground arith;
}

-- The slot 7 is ready, and its vector is the prompt's.
check_cache-IsAnswered_example :
    IsAnswered (check_cache (λ prompt. ok ones) quiet_others 110 hi ready_seven)
unfolding load_control unpack_control pack_control cosine_similarity fma_loop fma_block
    horizontal_sum
check_cache-IsAnswered_example =
    check_cache-IsAnswered (λ prompt. ok ones) ones 110 104 (105 ∷ []) ready_seven 7
      whole_numbers-IsOrder whole_numbers-IsThreshold refl (omega arith) (inl refl) refl
