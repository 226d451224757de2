-- ===== src/Tests/OfQueue.antt =====
-- The ring of engine/src/arena.cc as a queue, run on a ring that holds 2 GB of payloads.
use semantic_sentinel.Base.{
  ℕ, zero, suc, ◌+◌, ◌-◌, ◌*◌, ◌%◌, ◌<◌, ◌≤◌, ◌≡◌, refl, ◌∙◌, sym, ap₂, subst, arith, List, [], ◌∷◌,
  ◌++◌, ◌==◌, if◌then◌else◌, length,
}
use semantic_sentinel.Constant.{payload_buffer_size}
use semantic_sentinel.Node.{ready, hot, pack_control, load_control, unpack_control}
use semantic_sentinel.Node.Layout.{pack_control-lt}
use semantic_sentinel.Memory.{Bytes}
use semantic_sentinel.Arena.{
  Arena, header_at, header_padding, ring_index, allocate_payload, store_bytes, store_text,
  write_payload,
}
use semantic_sentinel.Arena.Allocate.{ring_index-mod}
use semantic_sentinel.Arena.Payload.{header_of}
use semantic_sentinel.Arena.Ring.{ring_text}
use semantic_sentinel.Arena.Queue.{
  Entry, Stands, place, span, past, Chain, Holds, write_payload_pushes,
}
use semantic_sentinel.Sample.{hi}
use semantic_sentinel.Collector.{run_garbage_collector}
use semantic_sentinel.Collector.Measure.{visits_of, all_visits, reach}
use semantic_sentinel.Collector.Progress.{Outcome, collect_once_moves}
use semantic_sentinel.Collector.Run.{quiet_rounds, Ended, run_garbage_collector_frees}

unfoldable pub zeros : ℕ → List ℕ
zeros zero = []
zeros (suc n) = 0 ∷ zeros n

pub length-zeros : (n : ℕ) → length (zeros n) ≡ n
unfolding zeros
length-zeros zero = refl
length-zeros (suc n) = omega (arith, length-zeros n)

-- A payload of the greatest length takes this many bytes.
abbrev pub stride : ℕ
stride = 16777227

-- The bytes of the header of slot 7 for that length, and zero behind them.
abbrev tile : ℕ → ℕ
tile k =
    if k == 0
    then 0xEF
    else if k == 1
    then 0xBE
    else if k == 2
    then 0xAD
    else if k == 3
    then 0xDE
    else if k == 4
    then 7
    else if k == 8
    then 255
    else if k == 9
    then 255
    else if k == 10
    then 255
    else 0

abbrev pub tiles : Bytes
tiles k = tile (k % stride)

abbrev pub longest : Entry
longest = record { node_id = 7; text = zeros 16777215 }

unfoldable pub payloads : ℕ → List Entry
payloads zero = []
payloads (suc n) = longest ∷ payloads n

tiles-text :
    (i j n : ℕ) → i ≤ 200 → 12 ≤ j → j + n ≤ stride → ring_text tiles (i * stride + j) n ≡ zeros n
unfolding ring_text zeros
tiles-text i j zero small lo up = refl
tiles-text i j (suc n) small lo up =
    let r : (i * stride + j) % payload_buffer_size % stride ≡ j = omega arith in
    let next : i * stride + j + 1 ≡ i * stride + (j + 1) = omega arith in
    ap₂ ◌∷◌ (rw r (ground arith))
      (rw next (tiles-text i (j + 1) n small (omega arith) (omega arith)))

tiles-index : (i : ℕ) → i ≤ 200 → ring_index (i * stride) ≡ i * stride
tiles-index i small = omega (arith, ring_index-mod (i * stride))

tiles-byte : (i k : ℕ) → i ≤ 200 → k < 12 → tiles (i * stride + k) ≡ tile k
tiles-byte i k small hk = let r : (i * stride + k) % stride ≡ k = omega arith in rw r refl

header_at_moved :
    (m m' : Bytes) (i j : ℕ)
    → ((k : ℕ) → k < 12 → m' (i + k) ≡ m (j + k))
    → header_at m' i ≡ header_at m j
header_at_moved m m' i j h =
    ground (arith, h 0, h 1, h 2, h 3, h 4, h 5, h 6, h 7, h 8, h 9, h 10, h 11)

tiles-header : (i : ℕ) → i ≤ 200 → header_at tiles (i * stride) ≡ header_of 7 16777215
tiles-header i small =
    header_at_moved tile tiles (i * stride) 0
      (λ k p. let z : 0 + k ≡ k = omega arith in rw z (tiles-byte i k small p))
    ∙ refl

pub tiles-padding : (i : ℕ) → i ≤ 200 → header_padding (i * stride) ≡ 0
tiles-padding i small = let e = tiles-index i small in ground arith

tiles-place : (i : ℕ) → i ≤ 200 → place (i * stride) ≡ i * stride
tiles-place i small = omega (arith, tiles-padding i small)

tiles-Stands : (i : ℕ) → i ≤ 200 → Stands tiles (i * stride) longest
tiles-Stands i small =
    let e = length-zeros 16777215 in
    let at = tiles-index i small in
    record {
      slot = omega arith;
      small = omega arith;
      header = rw (e, at) (tiles-header i small);
      text = rw e (tiles-text i 12 16777215 small (omega arith) (omega arith));
    }

pub tiles-Chain : (i n : ℕ) → i + n ≤ 200 → Chain tiles (i * stride) (n * stride) (payloads n)
unfolding payloads
tiles-Chain i zero small = refl
tiles-Chain i (suc n) small =
    let e = length-zeros 16777215 in
    let at = tiles-place i (omega arith) in
    let pad = tiles-padding i (omega arith) in
    let size : span (i * stride) longest ≡ stride = omega arith in
    let end : past (i * stride) longest ≡ (i + 1) * stride = omega arith in
    let rest : suc n * stride - span (i * stride) longest ≡ n * stride = omega arith in
    (
      omega arith,
      subst (λ o. Stands tiles o longest) (sym at) (tiles-Stands i (omega arith)),
      rw (end, rest) (tiles-Chain (i + 1) n (omega arith)),
    )

-- 128 of these payloads, the slots hot; the oldest one's slot refers to it.
abbrev crowded : Arena ℕ
crowded = record {
  metadata = λ i. record { created_at = 100; control_block = pack_control ready hot 16777215 0 };
  vectors = λ k. 1;
  buffer_payload = tiles;
  write_head = 128 * stride;
  read_tail = 0;
}

crowded-Holds : Holds crowded (payloads 128)
crowded-Holds = record {
  valid = omega arith;
  fits = omega arith;
  words = λ i. pack_control-lt ready hot 16777215 0;
  chain = tiles-Chain 0 128 (omega arith);
}

write_payload_pushes_example :
    Holds
      (write_payload [] 8 hi 2 crowded).1
      (payloads 128 ++ (record { node_id = 8; text = hi } ∷ []))
unfolding write_payload allocate_payload store_bytes store_text
write_payload_pushes_example =
    write_payload_pushes 8 hi crowded (payloads 128) crowded-Holds (omega arith) (omega arith) refl
      (omega arith)

collect_once_moves_example : Outcome crowded (payloads 128)
collect_once_moves_example = collect_once_moves crowded (payloads 128) crowded-Holds (omega arith)

crowded-hot : visits_of crowded.metadata longest ≡ 2
unfolding load_control unpack_control pack_control
crowded-hot = refl

all_visits-payloads : (n : ℕ) → all_visits crowded.metadata (payloads n) ≤ 2 * n
unfolding payloads
all_visits-payloads zero = omega arith
all_visits-payloads (suc n) = omega (arith, all_visits-payloads n, crowded-hot)

run_garbage_collector_frees_example :
    Ended
      (reach crowded (payloads 128))
      (payloads 128)
      (run_garbage_collector (quiet_rounds 513) crowded)
run_garbage_collector_frees_example =
    run_garbage_collector_frees 513 crowded (payloads 128) crowded-Holds
      (omega (arith, all_visits-payloads 128))
