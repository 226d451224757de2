-- ===== src/Arena/Allocate.antt =====
-- `AllocatePayload` of engine/src/arena.cc: what a reservation is, and when there is none.
use semantic_sentinel.Base.{
  ℕ, ◌+◌, ◌-◌, ◌%◌, ◌^◌, ◌≤◌, ◌<◌, ◌≡◌, ◌⊎◌, sym, subst, arith, false, not, ◌&&◌, inl, inr,
  Bool-cases, List, [], ◌∷◌, ◌==◌, add64, sub64, bit_and-low,
}
use native.Mathlib.Decide.{dec_lt}
use semantic_sentinel.Constant.{payload_buffer_size}
use semantic_sentinel.Result.{ok, thrown, resource_exhausted}
use semantic_sentinel.Arena.{
  Arena, Turn, header_size, ring_index, header_padding, is_exhausted, reserve, allocate_payload,
}

pub ring_index-mod : (i : ℕ) → ring_index i ≡ i % payload_buffer_size
ring_index-mod i = bit_and-low 32 i

-- The distance from tail to head, as the code computes it.
abbrev pub used : {F : Type 0} → Arena F → ℕ
used a = sub64 a.write_head a.read_tail

-- A header at the offset that is reserved from `w` lies before the end of the buffer.
pub header_room :
    (w : ℕ) → ring_index (add64 w (header_padding w)) + header_size ≤ payload_buffer_size
header_room w = ground (arith, ring_index-mod w, ring_index-mod (add64 w (header_padding w)))

-- What an allocation returns: a reservation from the head `b.write_head` that its exchange met.
pub record Reserved {F : Type 0} (payload_length offset : ℕ) (a : Arena F) : Type 0 where
  pub met : Arena F
  pub from_head : offset ≡ add64 met.write_head (header_padding met.write_head)
  pub after : a ≡ record met { write_head = add64 offset (header_size + payload_length) }

module _ {F : Type 0} where
  pub allocate_payload-Reserved :
      (turns : List (Turn F)) (n : ℕ) (a : Arena F) {o : ℕ} {a' : Arena F}
      → allocate_payload turns n a ≡ (ok o, a')
      → Reserved n o a'
  unfolding allocate_payload reserve
  allocate_payload-Reserved [] n a h =
      elim (Bool-cases (is_exhausted a.write_head (header_size + n) a.read_tail)) [
        | inl e ↦ absurd (ground arith)
        | inr e ↦ record { met = a; from_head = ground arith; after = ground arith }
      ]
  allocate_payload-Reserved (t ∷ ts) n a {o} {a'} h =
      elim (Bool-cases (is_exhausted a.write_head (header_size + n) (t.before_guard a).read_tail)) [
        | inl e ↦ absurd (ground arith)
        | inr e ↦
            elim (Bool-cases (
              ((t.before_exchange (t.before_guard a)).write_head == a.write_head)
              && not t.spurious)) [
                | inl won ↦ record {
                  met = t.before_exchange (t.before_guard a);
                  from_head = ground arith;
                  after = ground arith;
                }
                | inr lost ↦
                    allocate_payload-Reserved ts n (t.before_exchange (t.before_guard a))
                      (ground arith)
              ]
      ]

-- The header of a reservation never straddles the end of the buffer, whatever the other threads do.
pub allocate_payload_room :
    {F : Type 0} (turns : List (Turn F)) (n : ℕ) (a : Arena F) {o : ℕ} {a' : Arena F}
    → allocate_payload turns n a ≡ (ok o, a')
    → ring_index o + header_size ≤ payload_buffer_size
allocate_payload_room turns n a h =
    let r = allocate_payload-Reserved turns n a h in
    subst (λ w. ring_index w + header_size ≤ payload_buffer_size) (sym r.from_head)
      (header_room r.met.write_head)

-- The two counters are 64-bit words, and the head runs at most ten bytes further ahead of the tail
-- than the buffer is long.
pub record IsValid {F : Type 0} (a : Arena F) : Type 0 where
  pub head_word : a.write_head < 2 ^ 64
  pub tail_word : a.read_tail < 2 ^ 64
  pub span : used a ≤ payload_buffer_size + 10

-- Both counters move forward, the tail not past the head, and the head by less than 2 ^ 62.
pub record Forward {F : Type 0} (a b : Arena F) : Type 0 where
  pub allocated : ℕ
  pub collected : ℕ
  pub bounded : allocated < 2 ^ 62
  pub behind : collected ≤ used a + allocated
  pub head_moves : b.write_head ≡ add64 a.write_head allocated
  pub tail_moves : b.read_tail ≡ add64 a.read_tail collected

abbrev pub IsFair : {F : Type 0} → (Arena F → Arena F) → Type 0
IsFair {F} others = (a : Arena F) → IsValid a → IsValid (others a) × Forward a (others a)

abbrev pub AllFair : {F : Type 0} → List (Turn F) → Type 0
AllFair [] = Unit
AllFair (t ∷ ts) = IsFair t.before_guard × IsFair t.before_exchange × AllFair ts

-- Numbers only: a reservation that the guard admits, made from the head `w` when the tail has
-- moved on from `t` to `t'`.
reserve_span :
    (w t t' n e : ℕ)
    → w < 2 ^ 64
    → t < 2 ^ 64
    → n < 2 ^ 32
    → sub64 w t ≤ payload_buffer_size + 10
    → e ≤ sub64 w t
    → t' ≡ add64 t e
    → is_exhausted w (header_size + n) t ≡ false
    → sub64 (add64 (add64 w (header_padding w)) (header_size + n)) t' ≤ payload_buffer_size + 10
reserve_span w t t' n e hw ht hn hs he ht' guard = ground (arith, ring_index-mod w)

module _ {F : Type 0} where
  -- The same of the arenas that the guard and the exchange meet, when the exchange finds `w`.
  exchange_span :
      (a g m : Arena F) (n : ℕ)
      → n < 2 ^ 32
      → IsValid a
      → IsValid g
      → Forward a g
      → Forward g m
      → m.write_head ≡ a.write_head
      → is_exhausted a.write_head (header_size + n) g.read_tail ≡ false
      → used (reserve a.write_head (header_size + n) m).1 ≤ payload_buffer_size + 10
  unfolding reserve
  exchange_span a g m n small v vg ag gm same guard =
      let still : g.write_head ≡ a.write_head = omega arith in
      reserve_span a.write_head g.read_tail m.read_tail n gm.collected v.head_word vg.tail_word
        small (omega arith) (omega arith) gm.tail_moves guard

  -- An allocation keeps the arena valid, whatever fair threads do meanwhile, also where it throws.
  pub allocate_payload-IsValid :
      (turns : List (Turn F)) (n : ℕ) (a : Arena F)
      → AllFair turns
      → n < 2 ^ 32
      → IsValid a
      → IsValid (allocate_payload turns n a).1
  unfolding allocate_payload reserve
  allocate_payload-IsValid [] n a fair small v = ground (
    arith,
    reserve_span a.write_head a.read_tail a.read_tail n 0 v.head_word v.tail_word small v.span
        (omega arith) (omega arith),
  )
  allocate_payload-IsValid (t ∷ ts) n a fair small v =
      let g = t.before_guard a in
      let m = t.before_exchange g in
      let vg : IsValid g × Forward a g = fair.0 a v in
      let vm : IsValid m × Forward g m = fair.1 g vg.0 in
      ground (
        arith,
        vg.0,
        vm.0,
        exchange_span a g m n small v vg.0 vg.1 vm.1,
        allocate_payload-IsValid ts n m fair.2 small vm.0,
      )

  -- With no other thread in the way, in the two cases.
  pub allocate_payload_alone :
      (n : ℕ) (a : Arena F)
      → n < 2 ^ 32
      → IsValid a
      → (used a + header_size + n < payload_buffer_size
          → (o : ℕ) × (a' : Arena F) × (allocate_payload [] n a ≡ (ok o, a'))
            × (used a' ≡ used a + header_padding a.write_head + header_size + n))
        × (payload_buffer_size ≤ used a + header_size + n
            → allocate_payload [] n a ≡ (thrown resource_exhausted, a))
  unfolding allocate_payload reserve
  allocate_payload_alone n a small v = (
    λ h. (
      (reserve a.write_head (header_size + n) a).0,
      (reserve a.write_head (header_size + n) a).1,
      ground arith,
      ground (arith, ring_index-mod a.write_head),
    ),
    λ h. ground arith,
  )

  -- With no other thread in the way: the space is taken exactly when the payload and its header
  -- leave a byte free; the arena is as it was when they do not.
  pub allocate_payload_decides :
      (n : ℕ) (a : Arena F)
      → n < 2 ^ 32
      → IsValid a
      → (used a + header_size + n < payload_buffer_size)
          × ((o : ℕ) × (a' : Arena F) × (allocate_payload [] n a ≡ (ok o, a'))
              × (used a' ≡ used a + header_padding a.write_head + header_size + n))
        ⊎ (payload_buffer_size ≤ used a + header_size + n)
          × (allocate_payload [] n a ≡ (thrown resource_exhausted, a))
  allocate_payload_decides n a small v =
      let cases = allocate_payload_alone n a small v in
      elim (dec_lt (used a + header_size + n) payload_buffer_size) [
        | yes room ↦ inl (room, cases.0 room)
        | no full ↦ inr (omega arith, cases.1 (omega arith))
      ]

  -- Where a header would straddle the end of the buffer and the payload takes the space that the
  -- guard sees, the skipped bytes are taken too: the reservation runs past the tail, and its last
  -- bytes lie where the oldest payload begins.
  pub allocate_payload_overrun :
      (n : ℕ) (a : Arena F)
      → n < 2 ^ 32
      → IsValid a
      → used a + header_size + n < payload_buffer_size
      → payload_buffer_size < used a + header_padding a.write_head + header_size + n
      → (o : ℕ) × (a' : Arena F) × (allocate_payload [] n a ≡ (ok o, a'))
        × (payload_buffer_size < used a')
        × (k : ℕ) × (k < header_size + n)
        × (ring_index (add64 o k) ≡ ring_index a.read_tail)
  unfolding allocate_payload reserve
  allocate_payload_overrun n a small v admitted tight =
      let o = (reserve a.write_head (header_size + n) a).0 in
      let k = payload_buffer_size - used a - header_padding a.write_head in
      (
        o,
        (reserve a.write_head (header_size + n) a).1,
        ground arith,
        ground (arith, ring_index-mod a.write_head),
        k,
        ground (arith, ring_index-mod a.write_head),
        ground (
          arith,
          ring_index-mod a.write_head,
          ring_index-mod a.read_tail,
          ring_index-mod (add64 o k),
        ),
      )
