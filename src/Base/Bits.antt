-- ===== src/Base/Bits.antt =====
-- `&` with a mask of low bits is a remainder, and `|` of a shifted field and a lower one is a sum.
-- The native operations are recursions on binary digits with fuel; the fuel is dropped first.
use Prim.Native.Nat.{
  ℕ, zero, suc, ◌+◌, ◌-◌, ◌*◌, ◌/◌, ◌%◌, ◌^◌, ◌≤◌, ◌<◌, min, max, bit_and, bit_or, digits,
  bit_and-bitwise, bit_or-bitwise,
}
use mathlib.Core.Path.{◌≡◌, refl, ap, ◌∙◌}
use native.Mathlib.Nat.{
  pow-suc, one-le-pow, div-add-mod', mul-add-mod_self_right, mod-eq_of_lt, mod-lt,
}
use native.Mathlib.Omega.{arith}

-- The fuel of `digits` does not matter once it reaches the first number.
digits-enough :
    (rest : ℕ → ℕ) (op : ℕ → ℕ → ℕ) (n m a b : ℕ)
    → a ≤ n
    → a ≤ m
    → digits rest op n a b ≡ digits rest op m a b
digits-enough rest op zero zero a b p q = refl
digits-enough rest op zero (suc m) zero b p q = refl
digits-enough rest op zero (suc m) (suc a) b p q = absurd (omega arith)
digits-enough rest op (suc n) zero zero b p q = refl
digits-enough rest op (suc n) zero (suc a) b p q = absurd (omega arith)
digits-enough rest op (suc n) (suc m) zero b p q = refl
digits-enough rest op (suc n) (suc m) (suc a) b p q =
    ap (λ (d : ℕ). d * 2 + op (suc a % 2) (b % 2))
      (digits-enough rest op n m (suc a / 2) (b / 2) (omega arith) (omega arith))

-- The lowest digit of each operation.
or_low : (a b : ℕ) → bit_or a b ≡ bit_or (a / 2) (b / 2) * 2 + max (a % 2) (b % 2)
or_low zero b = omega (arith, bit_or-bitwise 0 b, bit_or-bitwise 0 (b / 2))
or_low (suc a) b = omega (
  arith,
  bit_or-bitwise (suc a) b,
  bit_or-bitwise (suc a / 2) (b / 2),
  digits-enough (λ y. y) max a (suc a / 2) (suc a / 2) (b / 2) (omega arith) (omega arith),
)

and_low : (a b : ℕ) → bit_and a b ≡ bit_and (a / 2) (b / 2) * 2 + min (a % 2) (b % 2)
and_low zero b = omega (arith, bit_and-bitwise 0 b, bit_and-bitwise 0 (b / 2))
and_low (suc a) b = omega (
  arith,
  bit_and-bitwise (suc a) b,
  bit_and-bitwise (suc a / 2) (b / 2),
  digits-enough (λ y. 0) min a (suc a / 2) (suc a / 2) (b / 2) (omega arith) (omega arith),
)

or_none : (n a : ℕ) → a ≤ n → bit_or a 0 ≡ a
or_none n zero h = refl
or_none zero (suc a) h = absurd (omega arith)
or_none (suc n) (suc a) h = omega (arith, or_low (suc a) 0, or_none n (suc a / 2) (omega arith))

and_none : (n a : ℕ) → a ≤ n → bit_and a 0 ≡ 0
and_none n zero h = refl
and_none zero (suc a) h = absurd (omega arith)
and_none (suc n) (suc a) h = omega (arith, and_low (suc a) 0, and_none n (suc a / 2) (omega arith))

-- A multiple of `2 ^ k` and a number below it share no bit.
pub bit_or-disjoint : (k a b : ℕ) → b < 2 ^ k → bit_or (a * 2 ^ k) b ≡ a * 2 ^ k + b
bit_or-disjoint zero a zero h = omega (arith, or_none (a * 1) (a * 1) (omega arith))
bit_or-disjoint zero a (suc b) h = absurd (omega arith)
bit_or-disjoint (suc k) a b h =
    let p : 2 ^ suc k ≡ 2 ^ k * 2 = pow-suc 2 k in
    let q : a * 2 ^ suc k ≡ a * 2 ^ k * 2 = omega (arith, ap (λ (t : ℕ). a * t) p) in
    let d : a * 2 ^ suc k / 2 ≡ a * 2 ^ k = omega arith in
    omega (
      arith,
      or_low (a * 2 ^ suc k) b,
      ap (λ (t : ℕ). bit_or t (b / 2)) d,
      bit_or-disjoint k a (b / 2) (omega arith),
    )

-- The remainder by `2 ^ suc k`, from that of the half.
mod-two-pow-suc : (k a : ℕ) → a % 2 ^ suc k ≡ a / 2 % 2 ^ k * 2 + a % 2
mod-two-pow-suc k a =
    let m : ℕ = 2 ^ k in
    let q : ℕ = a / 2 / m in
    let p : 2 ^ suc k ≡ m * 2 = pow-suc 2 k in
    let small : a / 2 % m < m = mod-lt (a / 2) (one-le-pow k 2 (omega arith)) in
    let split : a ≡ q * (m * 2) + (a / 2 % m * 2 + a % 2) = omega (arith, div-add-mod' (a / 2) m) in
    ap (λ (t : ℕ). a % t) p
    ∙ ap (λ (t : ℕ). t % (m * 2)) split
    ∙ mul-add-mod_self_right q (m * 2) (a / 2 % m * 2 + a % 2)
    ∙ mod-eq_of_lt (omega arith)

-- A mask of the `k` lowest bits keeps the remainder by `2 ^ k`.
pub bit_and-low : (k a : ℕ) → bit_and a (2 ^ k - 1) ≡ a % 2 ^ k
bit_and-low zero a = omega (arith, and_none a a (omega arith))
bit_and-low (suc k) a =
    let p : 2 ^ suc k ≡ 2 ^ k * 2 = pow-suc 2 k in
    let one : 1 ≤ 2 ^ k = one-le-pow k 2 (omega arith) in
    let half : (2 ^ suc k - 1) / 2 ≡ 2 ^ k - 1 = omega arith in
    omega (
      arith,
      and_low a (2 ^ suc k - 1),
      ap (λ (t : ℕ). bit_and (a / 2) t) half,
      bit_and-low k (a / 2),
      mod-two-pow-suc k a,
    )
