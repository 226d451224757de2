-- ===== src/Collector/Queue.antt =====
-- The ring of engine/src/arena.cc as a queue of payloads: what an iteration of `RunGarbageCollector`
-- makes of it, with no other thread in the way.
use semantic_sentinel.Base.{
  ℕ, ◌+◌, ◌-◌, ◌%◌, ◌^◌, ◌≤◌, ◌<◌, ◌≡◌, refl, ◌∙◌, subst, arith, false, List, [], ◌∷◌, ◌++◌, add64,
  sub64, length,
}
use semantic_sentinel.Constant.{payload_buffer_size, low_watermark_threshold}
use semantic_sentinel.Node.{cold, UnpackedControl, load_control}
use semantic_sentinel.Node.Layout.{pack_control-lt}
use semantic_sentinel.Memory.{Bytes}
use semantic_sentinel.Arena.{Arena, header_size, header_padding}
use semantic_sentinel.Arena.Allocate.{ring_index-mod, used, header_room}
use semantic_sentinel.Arena.Ring.{distance}
use semantic_sentinel.Arena.Payload.{headed, headed-outside}
use semantic_sentinel.Arena.Queue.{
  Entry, Stands, place, span, past, Chain, Agree, Chain_agree, Chain-append, Holds,
}
use semantic_sentinel.Slot.{set_control}
use semantic_sentinel.Collector.{is_dead}
use semantic_sentinel.Collector.Visit.{AtTail}
use semantic_sentinel.Collector.Rescue.{rescued_offset, after_rescue}
use semantic_sentinel.Collector.Copy.{copied}
use semantic_sentinel.Collector.SecondChance.{moved_text, moved_header}

-- What an iteration may make of the queue.
pub data Move : List Entry → List Entry → Type 0 where
  skip : (q : List Entry) → Move q q
  drop_first : (e : Entry) (q : List Entry) → Move (e ∷ q) q
  requeue : (e : Entry) (q : List Entry) → Move (e ∷ q) (q ++ (e ∷ []))

-- What several iterations may make of it.
pub data Moves : List Entry → List Entry → Type 0 where
  settled : (q : List Entry) → Moves q q
  first : {p q r : List Entry} → Move p q → Moves q r → Moves p r

-- Numbers only: the bytes behind the oldest payload do not lie where its copy goes.
rescue_apart :
    (w t n k : ℕ)
    → w < 2 ^ 64
    → t < 2 ^ 64
    → sub64 w t + header_size + n < payload_buffer_size
    → header_size + n ≤ k
    → k < sub64 w t
    → let o = add64 w (header_padding w) in
      let i = (t + k) % payload_buffer_size in
      (n ≤ distance (o + header_size) i) × (header_size ≤ distance o i)
rescue_apart w t n k hw ht room lo hi = ground (arith, ring_index-mod w)

module _ {F : Type 0} {a : Arena F} {e : Entry} {q : List Entry} (h : Holds a (e ∷ q)) where
  -- A tail at which no bytes are skipped stands at the oldest payload.
  pub oldest-Stands : header_padding a.read_tail ≡ 0 → Stands a.buffer_payload a.read_tail e
  oldest-Stands flat =
      let v = h.valid in
      let same : place a.read_tail ≡ a.read_tail = omega arith in
      subst (λ z. Stands a.buffer_payload z e) same h.chain.1

  -- Once the tail has passed it, the other payloads stand in every arena that keeps their bytes.
  pub dropped :
      (a' : Arena F)
      → header_padding a.read_tail ≡ 0
      → a'.read_tail ≡ add64 a.read_tail (header_size + length e.text)
      → a'.write_head ≡ a.write_head
      → a'.buffer_payload ≡ a.buffer_payload
      → ((i : ℕ) → (a'.metadata i).control_block < 2 ^ 64)
      → Holds a' q
  dropped a' flat et ew em words =
      let v = h.valid in
      let s = h.chain.0 in
      let small = h.chain.1.small in
      let rest = h.chain.2 in
      let len : used a - span a.read_tail e ≡ used a' = omega arith in
      let tail : past a.read_tail e ≡ a'.read_tail = omega arith in
      record {
        valid = omega arith;
        fits = omega (arith, h.fits);
        words = words;
        chain = rw em (
            subst (λ z. Chain a.buffer_payload a'.read_tail z q) len
              (subst (λ z. Chain a.buffer_payload z (used a - span a.read_tail e) q) tail rest));
      }

  abbrev pub control : UnpackedControl
  control = load_control (a.metadata e.node_id)

  -- The slot refers to the oldest payload.
  pub oldest-AtTail :
      low_watermark_threshold ≤ used a
      → header_padding a.read_tail ≡ 0
      → is_dead control.state ≡ false
      → control.virtual_offset ≡ a.read_tail % 2 ^ 37
      → AtTail a e.node_id (length e.text) control
  oldest-AtTail loaded flat alive epoch =
      let s = oldest-Stands flat in
      record {
        valid = h.valid;
        loaded = loaded;
        room = ground (arith, ring_index-mod a.read_tail);
        header = s.header;
        slot = s.slot;
        small = s.small;
        word = h.words e.node_id;
        control = refl;
        alive = alive;
        epoch = epoch;
      }

  -- The ring after a rescue, with the buffer `m'`.
  pub rescued-Holds :
      (at : AtTail a e.node_id (length e.text) control) (m' : Bytes)
      → header_padding a.read_tail ≡ 0
      → used a + header_size + length e.text < payload_buffer_size
      → ((i : ℕ)
          → i < payload_buffer_size
          → m' i
            ≡ copied
                (headed a.buffer_payload (rescued_offset a) e.node_id (length e.text))
                (a.read_tail + header_size)
                (rescued_offset a + header_size)
                (length e.text)
                i)
      → Holds
          (record (after_rescue at m') {
            read_tail = add64 a.read_tail (header_size + length e.text);
          })
          (q ++ (e ∷ []))
  unfolding set_control
  rescued-Holds at m' flat room copy =
      let v = h.valid in
      let n = length e.text in
      let w = a.write_head in
      let t = a.read_tail in
      let m = a.buffer_payload in
      let o = rescued_offset a in
      let fits = header_room w in
      let s = oldest-Stands flat in
      let left = used a - span t e in
      let tail : past t e ≡ add64 t (header_size + n) = omega arith in
      let c = record (after_rescue at m') { read_tail = add64 t (header_size + n) } in
      let agree : Agree m m' (add64 t (header_size + n)) left = λ k p.
        let j = header_size + n + k in
        let i = (t + j) % payload_buffer_size in
        let apart =
          rescue_apart w t n j v.head_word v.tail_word room (omega arith)
            (omega (arith, h.chain.0)) in
        let same : (add64 t (header_size + n) + k) % payload_buffer_size ≡ i = omega arith in
        rw same (
          ground (
            arith,
            copy i (omega arith),
            headed-outside m o e.node_id n i fits (omega arith) apart.1,
          )) in
      let near : header_size + n ≤ sub64 w t = omega (arith, at.loaded, at.small) in
      let stands : Stands m' (place w) e = record {
        slot = s.slot;
        small = s.small;
        header =
            moved_header m m' w t e.node_id n v.head_word v.tail_word at.small near room fits copy
              (omega (arith, at.slot));
        text =
            moved_text m m' w t e.node_id n v.head_word v.tail_word at.small near room fits copy
            ∙ s.text;
      } in
      let rest =
        Chain_agree m m' (add64 t (header_size + n)) left q agree
          (subst (λ z. Chain m z left q) tail h.chain.2) in
      let grown : left + span w e ≡ used c = ground (arith, ring_index-mod w, h.chain.0) in
      record {
        valid = ground (arith, ring_index-mod w);
        fits = ground (arith, grown, ring_index-mod w, h.chain.0);
        words = λ i. ground (arith, h.words i, pack_control-lt control.state cold control.length o);
        chain =
            subst (λ z. Chain m' (add64 t (header_size + n)) z (q ++ (e ∷ []))) grown
              (Chain-append m' (add64 t (header_size + n)) left w q e (omega arith)
                (omega (arith, h.chain.0)) rest stands);
      }
