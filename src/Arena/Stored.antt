-- ===== src/Arena/Stored.antt =====
-- The payload operations of engine/src/arena.cc as a store: `WritePayload`, then `ReadPayload`.
use semantic_sentinel.Base.{
  ℕ, ◌+◌, ◌%◌, ◌^◌, ◌≤◌, ◌<◌, ◌≡◌, ◌≢◌, ◌⊎◌, inl, inr, Bool-cases, not, ◌&&◌, ◌==◌, ◌∙◌, sym, ap,
  subst, arith, List, [], ◌∷◌, add64, sub64, length, true,
}
use semantic_sentinel.Constant.{payload_buffer_size, max_payload_length, valid_identifier}
use semantic_sentinel.Result.{ok, thrown, fault, resource_exhausted}
use semantic_sentinel.Arena.{
  Arena, Turn, is_exhausted, header_size, header_at, ring_index, header_padding, reserve,
  allocate_payload, write_payload, read_payload,
}
use semantic_sentinel.Arena.Allocate.{
  ring_index-mod, used, allocate_payload_room, IsValid, AllFair, allocate_payload-IsValid,
}
use semantic_sentinel.Arena.Ring.{distance, ring_text, read_payload-ring_text, ring_text_moved}
use semantic_sentinel.Arena.Payload.{
  written, written-header, written-text, written-outside, write_payload-written, header_at_agree,
}

-- Numbers only: an index inside a live payload is far enough behind the new reservation.
pub live_distance :
    (w t v o n l j : ℕ)
    → w < 2 ^ 64
    → t < 2 ^ 64
    → v < 2 ^ 64
    → sub64 w t ≤ payload_buffer_size + 10
    → l ≤ max_payload_length
    → o ≡ add64 w (header_padding w)
    → sub64 (add64 o (header_size + l)) t ≤ payload_buffer_size
    → sub64 v t + n ≤ sub64 w t
    → j < n
    → header_size + l ≤ distance o ((v + j) % payload_buffer_size)
live_distance w t v o n l j hw ht hv hs hl eo fits live hj = ground (arith, ring_index-mod w)

module _ {F : Type 0} where
  -- The outcomes of an allocation are a reservation or the exception.
  allocate_payload_cases :
      (turns : List (Turn F)) (n : ℕ) (a : Arena F)
      → ((o : ℕ) × (a' : Arena F) × (allocate_payload turns n a ≡ (ok o, a')))
        ⊎ ((a' : Arena F) × (allocate_payload turns n a ≡ (thrown resource_exhausted, a')))
  unfolding allocate_payload
  allocate_payload_cases [] n a =
      elim (Bool-cases (is_exhausted a.write_head (header_size + n) a.read_tail)) [
        | inl e ↦ inr (a, ground arith)
        | inr e ↦ inl (
          (reserve a.write_head (header_size + n) a).0,
          (reserve a.write_head (header_size + n) a).1,
          rw e,
        )
      ]
  allocate_payload_cases (t ∷ ts) n a =
      let g = t.before_guard a in
      let m = t.before_exchange g in
      elim (Bool-cases (is_exhausted a.write_head (header_size + n) g.read_tail)) [
        | inl e ↦ inr (g, rw e)
        | inr e ↦ elim (Bool-cases ((m.write_head == a.write_head) && not t.spurious)) [
          | inl won ↦ inl (
            (reserve a.write_head (header_size + n) m).0,
            (reserve a.write_head (header_size + n) m).1,
            rw (e, won),
          )
          | inr lost ↦ rw (e, lost) (allocate_payload_cases ts n m)
        ]
      ]

  pub write_payload-cases :
      (turns : List (Turn F)) (node_id : ℕ) (xs : List ℕ) (a : Arena F)
      → length xs ≤ max_payload_length
      → ((o : ℕ) × (a' : Arena F) × (allocate_payload turns (length xs) a ≡ (ok o, a'))
          × (write_payload turns node_id xs (length xs) a
              ≡ (ok o, record a' { buffer_payload = written a'.buffer_payload o node_id xs })))
        ⊎ ((a' : Arena F) × (allocate_payload turns (length xs) a ≡ (thrown resource_exhausted, a'))
            × (write_payload turns node_id xs (length xs) a ≡ (thrown resource_exhausted, a')))
  write_payload-cases turns node_id xs a small = elim (allocate_payload_cases turns (length xs) a) [
    | inl (o, a', h) ↦ inl (o, a', h, write_payload-written turns node_id xs a small h)
    | inr (a', h) ↦ inr (a', h, unfold write_payload in rw (h, write_payload))
  ]

  -- No write of a payload of admitted length accesses memory outside the buffer, whatever the other
  -- threads do: it returns an offset or throws.
  pub write_payload-ne-fault :
      (turns : List (Turn F)) (node_id : ℕ) (xs : List ℕ) (a : Arena F)
      → length xs ≤ max_payload_length
      → (write_payload turns node_id xs (length xs) a).0 ≢ fault
  write_payload-ne-fault turns node_id xs a small h =
      ground (arith, write_payload-cases turns node_id xs a small)

  -- A write keeps the arena valid, whatever fair threads do, also where it throws.
  pub write_payload-IsValid :
      (turns : List (Turn F)) (node_id : ℕ) (xs : List ℕ) (a : Arena F)
      → AllFair turns
      → length xs ≤ max_payload_length
      → IsValid a
      → IsValid (write_payload turns node_id xs (length xs) a).1
  write_payload-IsValid turns node_id xs a fair small v = ground (
    arith,
    write_payload-cases turns node_id xs a small,
    allocate_payload-IsValid turns (length xs) a fair,
  )

  -- What is known of a write that returned.
  write_payload_inv :
      (turns : List (Turn F)) (node_id : ℕ) (xs : List ℕ) (a : Arena F) {o : ℕ} {a' : Arena F}
      → length xs ≤ max_payload_length
      → write_payload turns node_id xs (length xs) a ≡ (ok o, a')
      → (b : Arena F) × (allocate_payload turns (length xs) a ≡ (ok o, b))
        × (record b { buffer_payload = written b.buffer_payload o node_id xs } ≡ a')
  write_payload_inv turns node_id xs a {o} {a'} small h =
      elim (write_payload-cases turns node_id xs a small) [
        | inl (o', b, got, e) ↦
            let same : o' ≡ o = ground arith in (b, ground arith, rw (← same) (ground arith))
        | inr (b, threw, e) ↦ absurd (ground arith)
      ]

  -- The payload that a write returned the offset of is read back from that offset, byte for byte,
  -- with memory for the string, and its header names the slot and the length.
  pub read_payload-write_payload :
      (turns : List (Turn F)) (node_id : ℕ) (xs : List ℕ) (a : Arena F) {o : ℕ} {a' : Arena F}
      → length xs ≤ max_payload_length
      → node_id < 2 ^ 32
      → write_payload turns node_id xs (length xs) a ≡ (ok o, a')
      → (read_payload true o (length xs) a' ≡ (ok xs, a'))
        × (header_at a'.buffer_payload (ring_index o)
            ≡ record { identifier = valid_identifier; node_id = node_id; length = length xs })
  read_payload-write_payload turns node_id xs a {o} {a'} small word h =
      let (b, got, e) = write_payload_inv turns node_id xs a small h in
      let c = record b { buffer_payload = written b.buffer_payload o node_id xs } in
      subst
        (λ z.
          (read_payload true o (length xs) z ≡ (ok xs, z))
          × (header_at z.buffer_payload (ring_index o)
              ≡ record { identifier = valid_identifier; node_id = node_id; length = length xs }))
        e
        (
          read_payload-ring_text o (length xs) c (omega arith)
              ∙ ap (λ t. (ok t, c)) (written-text b.buffer_payload o node_id xs small),
          written-header b.buffer_payload o node_id xs small word
              (allocate_payload_room turns (length xs) a got),
        )

  pub reserved_alone :
      (n : ℕ) (a : Arena F) {o : ℕ} {b : Arena F}
      → allocate_payload [] n a ≡ (ok o, b)
      → (o ≡ add64 a.write_head (header_padding a.write_head))
        × (b ≡ record a { write_head = add64 o (header_size + n) })
  unfolding allocate_payload reserve
  reserved_alone n a h = ground arith

  -- The arena that a write without interference returns.
  abbrev pub after_write : Arena F → ℕ → ℕ → List ℕ → Arena F
  after_write a o node_id xs = record a {
    buffer_payload = written a.buffer_payload o node_id xs;
    write_head = add64 o (header_size + length xs);
  }

  pub write_payload_alone_inv :
      (node_id : ℕ) (xs : List ℕ) (a : Arena F) {o : ℕ} {a' : Arena F}
      → length xs ≤ max_payload_length
      → write_payload [] node_id xs (length xs) a ≡ (ok o, a')
      → (o ≡ add64 a.write_head (header_padding a.write_head))
        × (ring_index o + header_size ≤ payload_buffer_size)
        × (after_write a o node_id xs ≡ a')
  write_payload_alone_inv node_id xs a small h =
      let (b, got, e) = write_payload_inv [] node_id xs a small h in
      let r = reserved_alone (length xs) a got in
      (r.0, allocate_payload_room [] (length xs) a got, rw (r.1) at e)

  -- A write without interference leaves every live payload as it is, header and text, if it ends at
  -- most a buffer's length from the tail.
  pub write_payload_keeps_live :
      (node_id : ℕ) (xs : List ℕ) (a : Arena F) (v n : ℕ) {o : ℕ} {a' : Arena F}
      → IsValid a
      → length xs ≤ max_payload_length
      → write_payload [] node_id xs (length xs) a ≡ (ok o, a')
      → used a' ≤ payload_buffer_size
      → v < 2 ^ 64
      → ring_index v + header_size ≤ payload_buffer_size
      → sub64 v a.read_tail + header_size + n ≤ used a
      → ((read_payload true v n a').0 ≡ (read_payload true v n a).0)
        × (header_at a'.buffer_payload (ring_index v) ≡ header_at a.buffer_payload (ring_index v))
  write_payload_keeps_live node_id xs a v n {o} {a'} valid small h fits word room live =
      let m = a.buffer_payload in
      let m' = written m o node_id xs in
      let c = after_write a o node_id xs in
      let (eo, header_fits, same) = write_payload_alone_inv node_id xs a small h in
      let c_fits : used c ≤ payload_buffer_size = rw (← same) at fits in
      let outside = λ (j : ℕ) (p : j < header_size + n).
        written-outside m o node_id xs ((v + j) % payload_buffer_size) small header_fits
          (omega arith)
          (live_distance a.write_head a.read_tail v o (header_size + n) (length xs) j
            valid.head_word valid.tail_word word valid.span small eo c_fits (omega arith) p) in
      let text : ring_text m' (v + header_size) n ≡ ring_text m (v + header_size) n =
        ring_text_moved m m' (v + header_size) (v + header_size) n λ k p.
          let e : v + header_size + k ≡ v + (header_size + k) = omega arith in
          rw e (outside (header_size + k) (omega arith)) in
      rw (← same) (
        ap (λ r. r.0) (read_payload-ring_text v n c (omega arith))
            ∙ ap ok text
            ∙ ap (λ r. r.0) (sym (read_payload-ring_text v n a (omega arith))),
        header_at_agree m m' (ring_index v) λ k p.
            let e : ring_index v + k ≡ (v + k) % payload_buffer_size =
              omega (arith, ring_index-mod v) in
            rw e (outside k (omega arith)),
      )
