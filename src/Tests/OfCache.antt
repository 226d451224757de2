-- ===== src/Tests/OfCache.antt =====
-- The cache of engine/src/service.cc and engine/src/arena.cc, run: a prompt that is missed, its text
-- brought, and the prompt again; and an eviction in a ring that holds 2 GB of payloads.
use semantic_sentinel.Base.{
  ℕ, ◌+◌, ◌*◌, ◌≤◌, ◌<◌, ◌≡◌, ◌⊎◌, inl, inr, refl, sym, length, add64, Bool-cases, arith, true,
  List, [], ◌∷◌, ◌==◌, if◌then◌else◌,
}
use semantic_sentinel.Base.Int.{pos}
use semantic_sentinel.Constant.{payload_buffer_size}
use semantic_sentinel.Arena.Allocate.{used, IsValid}
use semantic_sentinel.Arena.Ring.{ring_text}
use semantic_sentinel.Arena.Queue.{Entry, Holds}
use semantic_sentinel.Tests.OfQueue.{stride, tiles, longest, payloads, tiles-Chain, length-zeros}
use semantic_sentinel.Node.{ready, cold, pack_control, unpack_control, load_control}
use semantic_sentinel.Node.Layout.{pack_control-lt}
use semantic_sentinel.Memory.{read_bytes, write_bytes}
use semantic_sentinel.Result.{ok}
use semantic_sentinel.Message.{SetCacheRequest, status_ok}
use semantic_sentinel.Arena.{
  Arena, memory_arena, header_size, reserve, allocate_payload, store_bytes, load_bytes, store_text,
  write_payload, read_payload,
}
use semantic_sentinel.Slot.{set_control, set_created_at, exchange_control}
use semantic_sentinel.Similarity.{cosine_similarity, fma_loop, fma_block, horizontal_sum}
use semantic_sentinel.SetCache.{set_cache, checked_set, fill_slot, publish}
use semantic_sentinel.SetCache.Outcome.{quiet_traffic}
use semantic_sentinel.CheckCache.{
  check_cache, look_up, scan_slots, scan_slot, scan_state, score_slot, claim_slot, answer_best,
  answer_state, hit_slot,
}
use semantic_sentinel.CheckCache.Expiry.{quiet_others}
use semantic_sentinel.CheckCache.Claim.{missed}
use semantic_sentinel.CheckCache.Answer.{served}
use semantic_sentinel.CheckCache.Find.{IsAnswered}
use semantic_sentinel.Engine.{Reach, start, later, fill, check}
use semantic_sentinel.Engine.Again.{asked_again}
use semantic_sentinel.Cache.{free, filled, Cache, put, Checked, Filled, Collected}
use semantic_sentinel.Cache.View.{view}
use semantic_sentinel.Cache.Shows.{StandsFor, put-StandsFor}
use semantic_sentinel.Slot.Kept.{AllSettled, pack_control-IsSettled}
use semantic_sentinel.Collector.Visit.{AtTail}
use semantic_sentinel.Collector.Queue.{control, oldest-AtTail}
use semantic_sentinel.Collector.Evict.{evicted, collect_once-evicted}
use semantic_sentinel.Cache.Refine.{
  Reach-StandsFor, check_cache_refines, set_cache_refines, collect_once_refines,
}
use semantic_sentinel.Cache.Origin.{Step-filled}
use semantic_sentinel.Tests.OfCheckCache.{whole_numbers-IsOrder, whole_numbers-IsThreshold}
use semantic_sentinel.Sample.{hi, whole_numbers}

abbrev ones : ℕ → ℕ
ones i = 1

abbrev nothing_yet : Arena ℕ
nothing_yet = memory_arena 0

-- The first call claims slot 0.
abbrev asked : Arena ℕ
asked = (check_cache (λ prompt. ok ones) quiet_others 100 hi nothing_yet).1

asked_misses :
    (check_cache (λ prompt. ok ones) quiet_others 100 hi nothing_yet).0
    ≡ ok (status_ok, missed (pos 0))
unfolding check_cache look_up scan_slots scan_slot scan_state claim_slot unpack_control
    exchange_control memory_arena set_control set_created_at
asked_misses = refl

asked_Reach : Reach asked
asked_Reach = later start (check (λ prompt. ok ones) 100 hi λ h. let m = asked_misses in cc)

-- Its caller brings the text.
abbrev hi_for_0 : SetCacheRequest
hi_for_0 = record { node_id = pos 0; uncached_payload = hi }

abbrev brought : Arena ℕ
brought = (set_cache quiet_traffic hi_for_0 asked).1

brought_fits : used brought ≤ payload_buffer_size
unfolding check_cache look_up scan_slots scan_slot scan_state claim_slot unpack_control
    exchange_control memory_arena set_control set_created_at set_cache checked_set fill_slot publish
    write_payload allocate_payload reserve store_bytes store_text pack_control
brought_fits = omega arith

brought_says : (set_cache quiet_traffic hi_for_0 asked).0 ≡ ok (status_ok, true)
unfolding check_cache look_up scan_slots scan_slot scan_state claim_slot unpack_control
    exchange_control memory_arena set_control set_created_at set_cache checked_set fill_slot publish
    write_payload allocate_payload reserve store_bytes store_text pack_control
brought_says = refl

brought_Reach : Reach brought
brought_Reach = later asked_Reach (fill hi_for_0 (λ h. let m = brought_says in cc) brought_fits)

-- The prompt again is a hit.
brought_hits :
    (check_cache (λ prompt. ok ones) quiet_others 101 hi brought).0 ≡ ok (status_ok, served hi)
unfolding check_cache look_up scan_slots scan_slot scan_state claim_slot unpack_control
    exchange_control memory_arena set_control set_created_at score_slot answer_best answer_state
    hit_slot set_cache checked_set fill_slot publish write_payload allocate_payload reserve
    store_bytes store_text load_bytes read_payload read_bytes write_bytes pack_control
    cosine_similarity fma_loop fma_block horizontal_sum
brought_hits = refl

check_cache_refines_example :
    let x = check_cache (λ prompt. ok ones) quiet_others 101 hi brought in
    Checked (view brought) x.0 (view x.1)
check_cache_refines_example =
    check_cache_refines (λ prompt. ok ones) 101 hi refl (λ h. ground arith) brought_Reach

set_cache_refines_example :
    Filled (view asked) hi_for_0 (set_cache quiet_traffic hi_for_0 asked).0 (view brought)
set_cache_refines_example =
    set_cache_refines hi_for_0 (λ n named. let own : 0 ≡ n = ground arith in omega arith)
      brought_fits asked_Reach

Reach-StandsFor_example : (q : List Entry) × StandsFor brought q (view brought)
Reach-StandsFor_example = Reach-StandsFor brought_Reach

brought-filled : view brought 0 ≡ filled hi
unfolding check_cache look_up scan_slots scan_slot scan_state claim_slot unpack_control
    exchange_control memory_arena set_control set_created_at set_cache checked_set fill_slot publish
    write_payload allocate_payload reserve store_bytes store_text write_bytes pack_control
    load_control ring_text
brought-filled = refl

Step-filled_example :
    let b = (check_cache (λ prompt. ok ones) quiet_others 101 hi brought).1 in
    (view b 0 ≡ filled hi) ⊎ (view b 0 ≡ free)
Step-filled_example =
    Step-filled 0 hi brought_Reach
      (check (λ prompt. ok ones) 101 hi λ h. let m = brought_hits in cc) brought-filled

nothing_yet-IsValid : IsValid nothing_yet
unfolding memory_arena
nothing_yet-IsValid = omega arith

nothing_yet_room : used nothing_yet + header_size + 2 < payload_buffer_size
unfolding memory_arena
nothing_yet_room = omega arith

asked_again_example :
    let stored = set_cache quiet_traffic hi_for_0 asked in
    (stored.0 ≡ ok (status_ok, true))
    × IsAnswered (check_cache (λ prompt. ok ones) quiet_others 101 hi stored.1)
unfolding cosine_similarity fma_loop fma_block horizontal_sum
asked_again_example =
    asked_again (λ prompt. ok ones) ones 100 101 104 (105 ∷ []) hi nothing_yet 0
      whole_numbers-IsOrder whole_numbers-IsThreshold refl refl nothing_yet-IsValid nothing_yet_room
      (record { signed = omega arith; nonempty = omega arith; limited = omega arith }) asked_misses

-- 128 payloads of the greatest length for slot 7, which refers to the oldest one and is cold.
abbrev chilly : Arena ℕ
chilly = record {
  metadata = λ i. record {
    created_at = 100;
    control_block = if i == 7 then pack_control ready cold 16777215 0 else 0;
  };
  vectors = λ k. 1;
  buffer_payload = tiles;
  write_head = 128 * stride;
  read_tail = 0;
}

chilly-Holds : Holds chilly (payloads 128)
chilly-Holds = record {
  valid = omega arith;
  fits = omega arith;
  words = λ i. ground (arith, pack_control-lt ready cold 16777215 0);
  chain = tiles-Chain 0 128 (omega arith);
}

-- The slot's text, in a cache that has no other.
abbrev one_text : Cache
one_text = put 7 (filled longest.text) λ i. free

chilly-StandsFor : StandsFor chilly (payloads 128) one_text
unfolding payloads load_control unpack_control pack_control
chilly-StandsFor =
    let settled : AllSettled chilly = λ i. elim (Bool-cases (i == 7)) [
      | inl e ↦ rw e (pack_control-IsSettled ready cold 16777215 0 (λ h. cc))
      | inr e ↦ rw e (record { word = omega arith; settled = λ h. cc })
    ] in
    put-StandsFor 7 (filled longest.text) chilly (payloads 128) (λ i. free)
      (record { holds = chilly-Holds; settled = settled })
      (record {
        state = refl;
        length_field = sym (length-zeros 16777215);
        offset = 0;
        epoch = refl;
        live = inl (refl, refl);
      })
      (λ j apart. ground arith)

oldest-Holds : Holds chilly (longest ∷ payloads 127)
unfolding payloads
oldest-Holds = chilly-Holds

chilly-AtTail : AtTail chilly 7 (length longest.text) (control oldest-Holds)
unfolding load_control unpack_control pack_control
chilly-AtTail = oldest-AtTail oldest-Holds (omega arith) refl refl refl

chilly-cold : (control oldest-Holds).ref_bit ≡ cold
unfolding load_control unpack_control pack_control
chilly-cold = refl

collect_once_refines_example :
    let a' : Arena ℕ = record (evicted chilly 7 (control oldest-Holds)) {
      read_tail = add64 0 (header_size + length longest.text);
    } in
    ((q' : List Entry) × StandsFor a' q' (view a')) × Collected one_text (view a')
collect_once_refines_example =
    collect_once_refines chilly (payloads 128) one_text chilly-StandsFor
      (collect_once-evicted chilly-AtTail chilly-cold)
