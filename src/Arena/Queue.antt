-- ===== src/Arena/Queue.antt =====
-- The ring of engine/src/arena.cc as a queue of payloads: which payloads stand between the tail and
-- the head, and what a write makes of them.
use semantic_sentinel.Base.{
  ℕ, ◌+◌, ◌-◌, ◌%◌, ◌^◌, ◌≤◌, ◌<◌, ◌≡◌, refl, ◌∙◌, subst, arith, List, [], ◌∷◌, ◌++◌, add64, length,
}
use semantic_sentinel.Constant.{payload_buffer_size, max_payload_length, total_max_slots}
use semantic_sentinel.Memory.{Bytes}
use semantic_sentinel.Result.{ok}
use semantic_sentinel.Arena.{
  Arena, header_size, header_at, ring_index, header_padding, write_payload,
}
use semantic_sentinel.Arena.Allocate.{ring_index-mod, used, IsValid, header_room}
use semantic_sentinel.Arena.Ring.{ring_text, ring_text_moved}
use semantic_sentinel.Arena.Stored.{after_write, write_payload_alone_inv, live_distance}
use semantic_sentinel.Arena.Payload.{
  header_of, header_at_agree, written, written-header, written-text, written-outside,
}

-- A payload: the slot that its header names, and its text.
pub record Entry : Type 0 where
  pub node_id : ℕ
  pub text : List ℕ

-- The payload stands at the offset `o`.
pub record Stands (m : Bytes) (o : ℕ) (e : Entry) : Type 0 where
  pub slot : e.node_id < total_max_slots
  pub small : length e.text ≤ max_payload_length
  pub header : header_at m (ring_index o) ≡ header_of e.node_id (length e.text)
  pub text : ring_text m (o + header_size) (length e.text) ≡ e.text

-- Where a payload that is laid down at `v` begins, how many bytes it takes, and where it ends.
abbrev pub place : ℕ → ℕ
place v = add64 v (header_padding v)

abbrev pub span : ℕ → Entry → ℕ
span v e = header_padding v + (header_size + length e.text)

abbrev pub past : ℕ → Entry → ℕ
past v e = add64 (place v) (header_size + length e.text)

-- The `left` bytes from the offset `v` on are the payloads `q`, one after the other.
abbrev pub Chain : Bytes → ℕ → ℕ → List Entry → Type 0
Chain m v left [] = left ≡ 0
Chain m v left (e ∷ q) =
    (span v e ≤ left) × Stands m (place v) e × Chain m (past v e) (left - span v e) q

-- The two buffers have the same `left` bytes from `v` on.
abbrev pub Agree : Bytes → Bytes → ℕ → ℕ → Type 0
Agree m m' v left =
    (k : ℕ) → k < left → m' ((v + k) % payload_buffer_size) ≡ m ((v + k) % payload_buffer_size)

Agree-suffix :
    (m m' : Bytes) (v w k left : ℕ)
    → Agree m m' v left
    → w ≡ add64 v k
    → k ≤ left
    → Agree m m' w (left - k)
Agree-suffix m m' v w k left h e le j p =
    let same : (w + j) % payload_buffer_size ≡ (v + (k + j)) % payload_buffer_size = omega arith in
    rw same (h (k + j) (omega arith))

Agree-Stands :
    (m m' : Bytes) (o : ℕ) (e : Entry)
    → Agree m m' o (header_size + length e.text)
    → ring_index o + header_size ≤ payload_buffer_size
    → Stands m o e
    → Stands m' o e
Agree-Stands m m' o e h room s = record {
  slot = s.slot;
  small = s.small;
  header =
      header_at_agree m m' (ring_index o) (λ k p.
        let i : ring_index o + k ≡ (o + k) % payload_buffer_size =
          omega (arith, ring_index-mod o) in
        rw i (h k (omega arith)))
      ∙ s.header;
  text =
      ring_text_moved m m' (o + header_size) (o + header_size) (length e.text) (λ k p.
        let i : o + header_size + k ≡ o + (header_size + k) = omega arith in
        rw i (h (header_size + k) (omega arith)))
      ∙ s.text;
}

-- The payloads stand in every buffer that has their bytes.
pub Chain_agree :
    (m m' : Bytes) (v left : ℕ) (q : List Entry)
    → Agree m m' v left
    → Chain m v left q
    → Chain m' v left q
Chain_agree m m' v left [] h c = c
Chain_agree m m' v left (e ∷ q) h c =
    let at = Agree-suffix m m' v (place v) (header_padding v) left h refl (omega arith) in
    (
      c.0,
      Agree-Stands m m' (place v) e (λ k p. at k (omega arith)) (header_room v) c.1,
      Chain_agree m m' (past v e) (left - span v e) q
          (Agree-suffix m m' v (past v e) (span v e) left h (omega arith) c.0) c.2,
    )

-- One more payload at the end.
pub Chain-append :
    (m : Bytes) (v left w : ℕ) (q : List Entry) (e : Entry)
    → v < 2 ^ 64
    → w ≡ add64 v left
    → Chain m v left q
    → Stands m (place w) e
    → Chain m v (left + span w e) (q ++ (e ∷ []))
Chain-append m v left w [] e hv hw c s =
    let same : w ≡ v = omega arith in rw same (omega arith, rw same at s, omega arith)
Chain-append m v left w (f ∷ q) e hv hw c s =
    let rest : left + span w e - span v f ≡ left - span v f + span w e = omega arith in
    (
      omega arith,
      c.1,
      rw rest (Chain-append m (past v f) (left - span v f) w q e (omega arith) (omega arith) c.2 s),
    )

module _ {F : Type 0} where
  -- The ring of the valid arena holds the payloads `q`, the oldest first, and nothing else, and the
  -- slots' words have 64 bits.
  pub record Holds (a : Arena F) (q : List Entry) : Type 0 where
    pub valid : IsValid a
    pub fits : used a ≤ payload_buffer_size
    pub words : (i : ℕ) → (a.metadata i).control_block < 2 ^ 64
    pub chain : Chain a.buffer_payload a.read_tail (used a) q

  -- A write without interference appends its payload to the queue that the ring holds, if it ends at
  -- most a buffer's length from the tail.
  pub write_payload_pushes :
      (node_id : ℕ) (xs : List ℕ) (a : Arena F) (q : List Entry) {o : ℕ} {a' : Arena F}
      → Holds a q
      → node_id < total_max_slots
      → length xs ≤ max_payload_length
      → write_payload [] node_id xs (length xs) a ≡ (ok o, a')
      → used a' ≤ payload_buffer_size
      → Holds a' (q ++ (record { node_id = node_id; text = xs } ∷ []))
  write_payload_pushes node_id xs a q {o} {a'} h slot small wrote fits =
      let e : Entry = record { node_id = node_id; text = xs } in
      let v = h.valid in
      let w = a.write_head in
      let (eo, room, same) = write_payload_alone_inv node_id xs a small wrote in
      let c = after_write a o node_id xs in
      let m' = written a.buffer_payload o node_id xs in
      let c_fits : used c ≤ payload_buffer_size = rw (← same) at fits in
      let grown : used a + span w e ≡ used c = ground (arith, ring_index-mod w) in
      let live = λ (k : ℕ) (p : k < used a).
        written-outside a.buffer_payload o node_id xs ((a.read_tail + k) % payload_buffer_size)
          small room (omega arith)
          (live_distance w a.read_tail a.read_tail o (used a) (length xs) k v.head_word v.tail_word
            v.tail_word v.span small eo c_fits (omega arith) p) in
      let stands : Stands m' o e = record {
        slot = slot;
        small = small;
        header = written-header a.buffer_payload o node_id xs small (omega arith) room;
        text = written-text a.buffer_payload o node_id xs small;
      } in
      let chain =
        Chain-append m' a.read_tail (used a) w q e v.tail_word (omega arith)
          (Chain_agree a.buffer_payload m' a.read_tail (used a) q live h.chain)
          (subst (λ z. Stands m' z e) eo stands) in
      subst (λ z. Holds z (q ++ (e ∷ []))) same
        (record {
          valid = ground arith;
          fits = c_fits;
          words = h.words;
          chain = subst (λ z. Chain m' a.read_tail z (q ++ (e ∷ []))) grown chain;
        })
