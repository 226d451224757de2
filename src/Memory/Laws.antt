-- ===== src/Memory/Laws.antt =====
-- Reads after writes.
use semantic_sentinel.Base.{
  ℕ, zero, suc, ◌+◌, ◌-◌, ◌<◌, ◌≡◌, refl, arith, ap, ap₂, ◌∙◌, List, [], ◌∷◌, length, get_or, take,
  drop,
}
use semantic_sentinel.Memory.{Bytes, write_bytes, read_bytes}

pub length-read_bytes : (m : Bytes) (start n : ℕ) → length (read_bytes m start n) ≡ n
unfolding read_bytes
length-read_bytes m start zero = refl
length-read_bytes m start (suc n) = ap suc (length-read_bytes m (start + 1) n)

pub get_or-read_bytes :
    (m : Bytes) (start n i : ℕ) → i < n → get_or (read_bytes m start n) i 0 ≡ m (start + i)
unfolding read_bytes
get_or-read_bytes m start zero i h = absurd (omega arith)
get_or-read_bytes m start (suc n) zero h = ap m (omega arith)
get_or-read_bytes m start (suc n) (suc i) h =
    get_or-read_bytes m (start + 1) n i (omega arith) ∙ ap m (omega arith)

-- Two lists of one length with the same elements are equal.
pub list_ext :
    (xs ys : List ℕ)
    → length xs ≡ length ys
    → ((i : ℕ) → i < length xs → get_or xs i 0 ≡ get_or ys i 0)
    → xs ≡ ys
list_ext [] [] e h = refl
list_ext [] (y ∷ ys) e h = absurd (omega arith)
list_ext (x ∷ xs) [] e h = absurd (omega arith)
list_ext (x ∷ xs) (y ∷ ys) e h =
    ap₂ ◌∷◌ (h 0 (omega arith)) (list_ext xs ys (omega arith) (λ i p. h (suc i) (omega arith)))

pub get_or-take : (n i : ℕ) (xs : List ℕ) → i < n → get_or (take n xs) i 0 ≡ get_or xs i 0
get_or-take zero i xs h = absurd (omega arith)
get_or-take (suc n) i [] h = refl
get_or-take (suc n) zero (x ∷ xs) h = refl
get_or-take (suc n) (suc i) (x ∷ xs) h = get_or-take n i xs (omega arith)

pub get_or-drop : (n i : ℕ) (xs : List ℕ) → get_or (drop n xs) i 0 ≡ get_or xs (n + i) 0
get_or-drop zero i xs = ap (λ k. get_or xs k 0) (omega arith)
get_or-drop (suc n) i [] = refl
get_or-drop (suc n) i (x ∷ xs) =
    let e : suc n + i ≡ suc (n + i) = omega arith in rw e (get_or-drop n i xs)

pub write_bytes-inside :
    (m : Bytes) (start : ℕ) (xs : List ℕ) (k : ℕ)
    → k < length xs
    → write_bytes m start xs (start + k) ≡ get_or xs k 0
unfolding write_bytes
write_bytes-inside m start xs k h =
    let e : start + k - start ≡ k = omega arith in rw e (ground arith)
