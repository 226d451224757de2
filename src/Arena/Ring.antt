-- ===== src/Arena/Ring.antt =====
-- The buffer as a ring of bytes: a text written in one piece or in two, seen from its first byte.
use semantic_sentinel.Base.{
  ℕ, zero, suc, ◌+◌, ◌-◌, ◌%◌, ◌^◌, ◌≤◌, ◌<◌, ◌≡◌, refl, ◌∙◌, sym, ap, ap₂, arith, List, [], ◌∷◌,
  ◌++◌, ltb, leb, if◌then◌else◌, add64, length, get_or, take, drop, length-take, length-drop, true,
}
use semantic_sentinel.Constant.{payload_buffer_size}
use semantic_sentinel.Memory.{Bytes, write_bytes, read_bytes}
use semantic_sentinel.Memory.Laws.{get_or-take, get_or-drop, list_ext}
use semantic_sentinel.Result.{ok}
use semantic_sentinel.Arena.{Arena, header_size, ring_index, store_text, read_payload}
use semantic_sentinel.Arena.Allocate.{ring_index-mod}

-- How many bytes after offset `v` the index `i` is reached, going round the ring.
abbrev pub distance : ℕ → ℕ → ℕ
distance v i = (i + payload_buffer_size - v % payload_buffer_size) % payload_buffer_size

-- The ring with `xs` laid out from offset `v` on.
abbrev pub lay : Bytes → ℕ → List ℕ → Bytes
lay m v xs i = if ltb (distance v i) (length xs) then get_or xs (distance v i) 0 else m i

-- The buffer that `store_text` leaves.
pub texted : Bytes → ℕ → List ℕ → Bytes
texted m t xs =
    let chunk1_size = payload_buffer_size - t in
    if leb (length xs) chunk1_size
    then write_bytes m t (take (length xs) xs)
    else write_bytes (write_bytes m t (take chunk1_size xs)) 0
        (take (length xs - chunk1_size) (drop chunk1_size xs))

-- Storing a text that fits the buffer is no access outside it.
pub store_text-texted :
    {F : Type 0} (t : ℕ) (xs : List ℕ) (a : Arena F)
    → t < payload_buffer_size
    → length xs ≤ payload_buffer_size
    → store_text t xs (length xs) a
      ≡ (ok tt, record a { buffer_payload = texted a.buffer_payload t xs })
unfolding store_text texted
store_text-texted t xs a ht hx = ground (arith, length-drop (payload_buffer_size - t) xs)

-- One `memcpy` that stays inside the buffer lays its bytes out.
write_bytes-lay :
    (m : Bytes) (t : ℕ) (xs : List ℕ) (i : ℕ)
    → t + length xs ≤ payload_buffer_size
    → i < payload_buffer_size
    → t < payload_buffer_size
    → write_bytes m t xs i ≡ lay m t xs i
unfolding write_bytes
write_bytes-lay m t xs i fits hi ht = ground arith

pub texted-lay :
    (m : Bytes) (t : ℕ) (xs : List ℕ) (i : ℕ)
    → t < payload_buffer_size
    → length xs ≤ payload_buffer_size
    → i < payload_buffer_size
    → texted m t xs i ≡ lay m t xs i
unfolding write_bytes texted
texted-lay m t xs i ht hx hi =
    let c = payload_buffer_size - t in
    let d = distance t i in
    ground (
      arith,
      get_or-take (length xs) (i - t) xs,
      get_or-take c (i - t) xs,
      get_or-take (length xs - c) i (drop c xs),
      get_or-drop c i xs,
      length-take (length xs) xs,
      length-take c xs,
      length-drop c xs,
      length-take (length xs - c) (drop c xs),
    )

-- The `n` bytes of the ring from offset `v` on.
unfoldable pub ring_text : Bytes → ℕ → ℕ → List ℕ
ring_text m v zero = []
ring_text m v (suc n) = m (v % payload_buffer_size) ∷ ring_text m (v + 1) n

-- It depends on the offset only as far as the ring goes round.
pub ring_text_mod :
    (m : Bytes) (v w n : ℕ)
    → v % payload_buffer_size ≡ w % payload_buffer_size
    → ring_text m v n ≡ ring_text m w n
unfolding ring_text
ring_text_mod m v w zero h = refl
ring_text_mod m v w (suc n) h = ap₂ ◌∷◌ (ap m h) (ring_text_mod m (v + 1) (w + 1) n (omega arith))

pub ring_text-append :
    (m : Bytes) (v p n : ℕ) → ring_text m v (p + n) ≡ ring_text m v p ++ ring_text m (v + p) n
unfolding ring_text
ring_text-append m v zero n =
    let e : v + 0 ≡ v = omega arith in let f : 0 + n ≡ n = omega arith in rw (e, f)
ring_text-append m v (suc p) n =
    let e : v + suc p ≡ v + 1 + p = omega arith in
    let f : suc p + n ≡ suc (p + n) = omega arith in
    rw (e, f) (ap (λ l. m (v % payload_buffer_size) ∷ l) (ring_text-append m (v + 1) p n))

-- Up to the end of the buffer it is one `memcpy`.
ring_text-read_bytes :
    (m : Bytes) (v i n : ℕ)
    → v % payload_buffer_size ≡ i
    → i + n ≤ payload_buffer_size
    → ring_text m v n ≡ read_bytes m i n
unfolding ring_text read_bytes
ring_text-read_bytes m v i zero h fits = refl
ring_text-read_bytes m v i (suc zero) h fits = rw h
ring_text-read_bytes m v i (suc (suc n)) h fits =
    ap₂ ◌∷◌ (ap m h) (ring_text-read_bytes m (v + 1) (i + 1) (suc n) (omega arith) (omega arith))

-- Past the end it is two.
ring_text-two_pieces :
    (m : Bytes) (v i c n : ℕ)
    → v % payload_buffer_size ≡ i
    → i + c ≡ payload_buffer_size
    → c ≤ n
    → n ≤ payload_buffer_size
    → ring_text m v n ≡ read_bytes m i c ++ read_bytes m 0 (n - c)
ring_text-two_pieces m v i c n h end more fits =
    let e : n ≡ c + (n - c) = omega arith in
    ap (λ k. ring_text m v k) e
    ∙ ring_text-append m v c (n - c)
    ∙ ap₂ ◌++◌ (ring_text-read_bytes m v i c h (omega arith))
        (ring_text-read_bytes m (v + c) 0 (n - c) (omega arith) (omega arith))

-- `ReadPayload` returns the text of the ring behind the header, in one piece or in two, and
-- touches nothing.
pub read_payload-ring_text :
    {F : Type 0} (v n : ℕ) (a : Arena F)
    → n ≤ payload_buffer_size
    → read_payload true v n a ≡ (ok (ring_text a.buffer_payload (v + header_size) n), a)
unfolding read_payload
read_payload-ring_text v zero a h = unfold ring_text in refl
read_payload-ring_text v (suc n) a h =
    let m = a.buffer_payload in
    let i = ring_index (add64 v header_size) in
    let c = payload_buffer_size - i in
    ground (
      arith,
      ring_index-mod (add64 v header_size),
      ring_text-read_bytes m (v + header_size) i (suc n),
      ring_text-two_pieces m (v + header_size) i c (suc n),
    )

-- The 37 bits of an offset that a slot keeps read the same text as the offset.
pub read_payload_epoch :
    {F : Type 0} (o n : ℕ) (a : Arena F)
    → n ≤ payload_buffer_size
    → read_payload true (o % 2 ^ 37) n a ≡ read_payload true o n a
read_payload_epoch o n a h =
    read_payload-ring_text (o % 2 ^ 37) n a h
    ∙ ap (λ (t : List ℕ). (ok t, a))
        (ring_text_mod a.buffer_payload (o % 2 ^ 37 + header_size) (o + header_size) n
          (omega arith))
    ∙ sym (read_payload-ring_text o n a h)

pub get_or-ring_text :
    (m : Bytes) (v n k : ℕ)
    → k < n
    → get_or (ring_text m v n) k 0 ≡ m ((v + k) % payload_buffer_size)
unfolding ring_text
get_or-ring_text m v zero k h = absurd (omega arith)
get_or-ring_text m v (suc n) zero h = ap (λ j. m (j % payload_buffer_size)) (omega arith)
get_or-ring_text m v (suc n) (suc k) h =
    let e : v + suc k ≡ v + 1 + k = omega arith in
    rw e (get_or-ring_text m (v + 1) n k (omega arith))

pub length-ring_text : (m : Bytes) (v n : ℕ) → length (ring_text m v n) ≡ n
unfolding ring_text
length-ring_text m v zero = refl
length-ring_text m v (suc n) = ap suc (length-ring_text m (v + 1) n)

-- Two stretches that agree byte for byte have the same text.
pub ring_text_moved :
    (m m' : Bytes) (v w n : ℕ)
    → ((k : ℕ) → k < n → m' ((w + k) % payload_buffer_size) ≡ m ((v + k) % payload_buffer_size))
    → ring_text m' w n ≡ ring_text m v n
ring_text_moved m m' v w n h =
    list_ext (ring_text m' w n) (ring_text m v n)
      (length-ring_text m' w n ∙ sym (length-ring_text m v n))
      λ k p.
        let q : k < n = omega (arith, length-ring_text m' w n) in
        get_or-ring_text m' w n k q ∙ h k q ∙ sym (get_or-ring_text m v n k q)

-- What is laid out from `v` on is the text there.
pub ring_text-lay :
    (m : Bytes) (v : ℕ) (xs : List ℕ)
    → length xs ≤ payload_buffer_size
    → ring_text (lay m v xs) v (length xs) ≡ xs
ring_text-lay m v xs h =
    let n = length xs in
    list_ext (ring_text (lay m v xs) v n) xs (length-ring_text (lay m v xs) v n) λ k p.
      let q : k < n = omega (arith, length-ring_text (lay m v xs) v n) in
      let d : distance v ((v + k) % payload_buffer_size) ≡ k = omega arith in
      get_or-ring_text (lay m v xs) v n k q ∙ rw d (ground arith)
