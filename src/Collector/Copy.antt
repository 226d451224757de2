-- ===== src/Collector/Copy.antt =====
-- The copy loop of a rescue in engine/src/arena.cc: its chunks, and a copy round the
-- ring.
use semantic_sentinel.Base.{
  ℕ, zero, suc, ◌+◌, ◌-◌, ◌%◌, ◌≤◌, ◌<◌, min, ◌≡◌, ◌∙◌, ◌⊎◌, inl, inr, sym, ap, subst, arith, ltb,
  if◌then◌else◌,
}
use semantic_sentinel.Constant.{payload_buffer_size}
use semantic_sentinel.Memory.{Bytes, write_bytes, read_bytes}
use semantic_sentinel.Memory.Laws.{length-read_bytes, get_or-read_bytes}
use native.Mathlib.Decide.{dec_lt}
use semantic_sentinel.Result.{ok}
use semantic_sentinel.Arena.{Arena, ring_index}
use semantic_sentinel.Arena.Allocate.{ring_index-mod}
use semantic_sentinel.Arena.Ring.{distance}
use semantic_sentinel.Collector.{copy_bytes, copy_text}

-- Going round the ring from `s`, the `n` bytes there come first, and then, before `s` again, those
-- from `d` on.
abbrev pub Apart : ℕ → ℕ → ℕ → Type 0
Apart s d n =
    (n ≤ distance s (d % payload_buffer_size))
    × (distance s (d % payload_buffer_size) + n ≤ payload_buffer_size)

-- The ring after its `n` bytes from `s` are copied to `d`.
abbrev pub copied : Bytes → ℕ → ℕ → ℕ → Bytes
copied m s d n i =
    if ltb (distance d i) n then m ((s + distance d i) % payload_buffer_size) else m i

-- Numbers only: where the second of two steps finds the index `i`, and that it reads no byte that
-- the first has written.
second_step :
    (s d p n i : ℕ)
    → Apart s d (p + n)
    → i < payload_buffer_size
    → p ≤ distance d i
    → distance d i < p + n
    → (distance (d + p) i ≡ distance d i - p)
      × ((s + p + distance (d + p) i) % payload_buffer_size
          ≡ (s + distance d i) % payload_buffer_size)
      × (p ≤ distance d ((s + distance d i) % payload_buffer_size))
second_step s d p n i apart hi lo up = omega arith

first_step :
    (s d p n i : ℕ)
    → Apart s d (p + n)
    → i < payload_buffer_size
    → (distance d i < p) ⊎ (p + n ≤ distance d i)
    → n ≤ distance (d + p) i
first_step s d p n i apart hi h = omega arith

-- A copy in two steps.
copied-add :
    (m m1 m2 : Bytes) (s d p n : ℕ)
    → Apart s d (p + n)
    → ((i : ℕ) → i < payload_buffer_size → m1 i ≡ copied m s d p i)
    → ((i : ℕ) → i < payload_buffer_size → m2 i ≡ copied m1 (s + p) (d + p) n i)
    → (i : ℕ) → i < payload_buffer_size
    → m2 i ≡ copied m s d (p + n) i
copied-add m m1 m2 s d p n apart h1 h2 i hi =
    let j = (s + distance d i) % payload_buffer_size in
    elim (dec_lt (distance d i) p) [
      | yes before ↦ ground (arith, h2 i hi, h1 i hi, first_step s d p n i apart hi (inl before))
      | no past ↦ elim (dec_lt (distance d i) (p + n)) [
        | yes inside ↦
            let (e, f, g) = second_step s d p n i apart hi (omega arith) inside in
            ground (arith, h2 i hi, ap m1 f, h1 j (omega arith))
        | no beyond ↦
            ground (arith, h2 i hi, h1 i hi, first_step s d p n i apart hi (inr (omega arith)))
      ]
    ]

-- One chunk.
copy_bytes-copied :
    {F : Type 0} (s d n : ℕ) (a : Arena F)
    → s % payload_buffer_size + n ≤ payload_buffer_size
    → d % payload_buffer_size + n ≤ payload_buffer_size
    → Apart s d n
    → (m' : Bytes) × (copy_bytes (d % payload_buffer_size) (s % payload_buffer_size) n a
        ≡ (ok tt, record a { buffer_payload = m' }))
      × ((i : ℕ) → i < payload_buffer_size → m' i ≡ copied a.buffer_payload s d n i)
unfolding copy_bytes write_bytes
copy_bytes-copied s d n a hs hd apart =
    let i0 = s % payload_buffer_size in
    let j0 = d % payload_buffer_size in
    let m = a.buffer_payload in
    (
      write_bytes m j0 (read_bytes m i0 n),
      ground arith,
      λ i hi. ground (
        arith,
        length-read_bytes m i0 n,
        get_or-read_bytes m i0 n (i - j0),
        ap m {x = i0 + (i - j0)} {y = (s + distance d i) % payload_buffer_size},
      ),
    )

-- The chunk that the loop takes, and what it leaves.
abbrev chunk : ℕ → ℕ → ℕ → ℕ
chunk s d n = min n (
    min (payload_buffer_size - s % payload_buffer_size)
      (payload_buffer_size - d % payload_buffer_size))

chunk_facts :
    (s d n : ℕ)
    → Apart s d n
    → 0 < n
    → let p = chunk s d n in
      (0 < p)
      × (p ≤ n)
      × (s % payload_buffer_size + p ≤ payload_buffer_size)
      × (d % payload_buffer_size + p ≤ payload_buffer_size)
      × Apart s d p
      × Apart (s + p) (d + p) (n - p)
      × (ring_index (s % payload_buffer_size + p) ≡ (s + p) % payload_buffer_size)
      × (ring_index (d % payload_buffer_size + p) ≡ (d + p) % payload_buffer_size)
chunk_facts s d n apart h = omega (
  arith,
  ring_index-mod (s % payload_buffer_size + chunk s d n),
  ring_index-mod (d % payload_buffer_size + chunk s d n),
)

module _ {F : Type 0} where
  -- One round of the loop.
  copy_text-suc :
      (fuel s d n : ℕ) (a a1 a2 : Arena F)
      → Apart s d n
      → 0 < n
      → copy_bytes (d % payload_buffer_size) (s % payload_buffer_size) (chunk s d n) a ≡ (ok tt, a1)
      → copy_text fuel
          ((s + chunk s d n) % payload_buffer_size)
          ((d + chunk s d n) % payload_buffer_size)
          (n - chunk s d n)
          a1
        ≡ (ok tt, a2)
      → copy_text (suc fuel) (s % payload_buffer_size) (d % payload_buffer_size) n a ≡ (ok tt, a2)
  unfolding copy_text
  copy_text-suc fuel s d n a a1 a2 apart pos e1 e2 =
      let f = chunk_facts s d n apart pos in ground (arith, f)

  -- What the loop promises of `n` bytes.
  abbrev pub Copies : ℕ → ℕ → ℕ → ℕ → Arena F → Type 0
  Copies fuel s d n a =
      (m' : Bytes) × (copy_text fuel (s % payload_buffer_size) (d % payload_buffer_size) n a
        ≡ (ok tt, record a { buffer_payload = m' }))
      × ((i : ℕ) → i < payload_buffer_size → m' i ≡ copied a.buffer_payload s d n i)

  Copies-suc :
      (fuel s d n : ℕ) (a : Arena F) (m1 : Bytes)
      → Apart s d n
      → 0 < n
      → copy_bytes (d % payload_buffer_size) (s % payload_buffer_size) (chunk s d n) a
        ≡ (ok tt, record a { buffer_payload = m1 })
      → ((i : ℕ) → i < payload_buffer_size → m1 i ≡ copied a.buffer_payload s d (chunk s d n) i)
      → Copies fuel
          (s + chunk s d n)
          (d + chunk s d n)
          (n - chunk s d n)
          (record a { buffer_payload = m1 })
      → Copies (suc fuel) s d n a
  Copies-suc fuel s d n a m1 apart pos e1 l1 (m2, e2, l2) =
      let p = chunk s d n in
      let whole : p + (n - p) ≡ n = omega (arith, chunk_facts s d n apart pos) in
      (
        m2,
        copy_text-suc fuel s d n a (record a { buffer_payload = m1 })
            (record a { buffer_payload = m2 }) apart pos e1 e2,
        subst (λ k. (i : ℕ) → i < payload_buffer_size → m2 i ≡ copied a.buffer_payload s d k i)
            whole
            (copied-add a.buffer_payload m1 m2 s d p (n - p) (subst (Apart s d) (sym whole) apart)
              l1 l2),
      )

  pub copy_text-Copies :
      (fuel s d n : ℕ) (a : Arena F) → n ≤ fuel → Apart s d n → Copies fuel s d n a
  unfolding copy_text
  copy_text-Copies zero s d n a h apart = (a.buffer_payload, ground arith, λ i hi. ground arith)
  copy_text-Copies (suc fuel) s d zero a h apart =
      (a.buffer_payload, ground arith, λ i hi. ground arith)
  copy_text-Copies (suc fuel) s d (suc n) a h apart =
      let f = chunk_facts s d (suc n) apart (omega arith) in
      let p = chunk s d (suc n) in
      let first = copy_bytes-copied s d p a (omega arith) (omega arith) f.4 in
      Copies-suc fuel s d (suc n) a first.0 apart (omega arith) first.1 first.2 (
        copy_text-Copies fuel (s + p) (d + p) (suc n - p) (record a { buffer_payload = first.0 })
          (omega arith) f.5)

  -- Where the source and the destination do not meet round the ring, one round for each byte is
  -- enough: with that fuel the loop ends without an access outside the buffer, and each byte `i` of
  -- the buffer is then that of the copy round the ring.
  pub copy_text-copied :
      (fuel s d n : ℕ) (a : Arena F) (i : ℕ)
      → n ≤ fuel
      → Apart s d n
      → i < payload_buffer_size
      → let r = copy_text fuel (s % payload_buffer_size) (d % payload_buffer_size) n a in
        (r.0 ≡ ok tt) × (r.1.buffer_payload i ≡ copied a.buffer_payload s d n i)
  copy_text-copied fuel s d n a i enough apart hi =
      let (m', e, c) = copy_text-Copies fuel s d n a enough apart in
      (ap (λ r. r.0) e, ap (λ r. r.1.buffer_payload i) e ∙ c i hi)
