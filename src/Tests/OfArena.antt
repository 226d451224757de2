-- ===== src/Tests/OfArena.antt =====
-- The payload ring of engine/src/arena.cc, run.
use semantic_sentinel.Base.{
  ℕ, ◌+◌, ◌-◌, ◌^◌, ◌<◌, ◌≡◌, refl, arith, false, Bool-cases, ltb, ltb→lt, inl, inr, if◌then◌else◌,
  List, [], ◌∷◌, add64, true,
}
use semantic_sentinel.Constant.{payload_buffer_size, valid_identifier}
use semantic_sentinel.Result.{ok}
use semantic_sentinel.Arena.{
  Arena, Turn, header_size, header_at, ring_index, allocate_payload, write_payload, read_payload,
  store_bytes, store_text,
}
use semantic_sentinel.Arena.Allocate.{
  used, IsValid, IsFair, allocate_payload-IsValid, allocate_payload_overrun,
}
use semantic_sentinel.Arena.Stored.{read_payload-write_payload}
use semantic_sentinel.Sample.{hi, waiting, one_slot}

-- Another thread takes 14 bytes if much is free, so that the exchange of the first turn fails.
abbrev take_14 : Arena ℕ → Arena ℕ
take_14 a = if ltb (used a) (2 ^ 31) then record a { write_head = add64 a.write_head 14 } else a

abbrev contended : List (Turn ℕ)
contended = record { before_guard = λ a. a; before_exchange = take_14; spurious = false } ∷ []

allocate_payload_test : (allocate_payload contended 5 waiting).0 ≡ ok 14
unfolding allocate_payload
allocate_payload_test = refl

no_move : IsFair (λ (a : Arena ℕ). a)
no_move a v = (
  v,
  record {
    allocated = 0;
    collected = 0;
    bounded = omega arith;
    behind = omega arith;
    head_moves = omega (arith, v);
    tail_moves = omega (arith, v);
  },
)

take_14-IsFair : IsFair take_14
take_14-IsFair a v = elim (Bool-cases (ltb (used a) (2 ^ 31))) [
  | inr e ↦ rw e (no_move a v)
  | inl e ↦ rw e (
    omega (arith, v, ltb→lt (used a) (2 ^ 31) e),
    record {
      allocated = 14;
      collected = 0;
      bounded = omega arith;
      behind = omega arith;
      head_moves = refl;
      tail_moves = omega (arith, v);
    },
  )
]

waiting-IsValid : IsValid waiting
waiting-IsValid = omega arith

-- The head stands three bytes before the end of the buffer, and all but 1,013 bytes are in use.
abbrev near_end : Arena ℕ
near_end = record waiting { write_head = 2 ^ 33 - 3; read_tail = 2 ^ 32 + 1010 }

abbrev after_hi : Arena ℕ
after_hi = (write_payload contended 7 hi 2 waiting).1

read_payload-write_payload_example :
    (read_payload true 14 2 after_hi ≡ (ok hi, after_hi))
    × (header_at after_hi.buffer_payload (ring_index 14)
        ≡ record { identifier = valid_identifier; node_id = 7; length = 2 })
unfolding write_payload allocate_payload store_bytes store_text
read_payload-write_payload_example =
    read_payload-write_payload contended 7 hi waiting (omega arith) (omega arith) refl

abbrev after_second : Arena ℕ
after_second = (write_payload [] 8 hi 2 (one_slot 0)).1

allocate_payload-IsValid_example : IsValid (allocate_payload contended 5 waiting).1
allocate_payload-IsValid_example =
    allocate_payload-IsValid contended 5 waiting (no_move, take_14-IsFair, tt) (omega arith)
      waiting-IsValid

-- It takes 1,000 bytes, two too many.
allocate_payload_overrun_example :
    (o : ℕ) × (a' : Arena ℕ) × (allocate_payload [] 1000 near_end ≡ (ok o, a'))
    × (payload_buffer_size < used a')
    × (k : ℕ) × (k < header_size + 1000)
    × (ring_index (add64 o k) ≡ ring_index near_end.read_tail)
allocate_payload_overrun_example =
    allocate_payload_overrun 1000 near_end (omega arith) (omega arith) (omega arith) (omega arith)
