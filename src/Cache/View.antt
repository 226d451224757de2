-- ===== src/Cache/View.antt =====
-- The cache that an arena of engine/src/arena.cc stands for.
use semantic_sentinel.Base.{
  ℕ, ◌+◌, ◌-◌, ◌^◌, ◌≤◌, ◌<◌, ◌≡◌, ◌⊎◌, inl, inr, refl, ap, arith, List, [], ◌∷◌, ◌++◌, add64,
  sub64, subst, length, sym,
}
use semantic_sentinel.Node.{
  NodeState, dead, pending, ready, migrating, UnpackedControl, load_control,
}
use semantic_sentinel.Memory.{Bytes}
use semantic_sentinel.Arena.{Arena, header_size, header_padding}
use semantic_sentinel.Arena.Allocate.{ring_index-mod}
use semantic_sentinel.Arena.Ring.{ring_text}
use semantic_sentinel.Arena.Queue.{Entry, Stands, place, span, past, Chain}
use semantic_sentinel.Cache.{Slot, free, claimed, filled, Cache}

-- What a reader of a slot is served from its word.
abbrev pub slot_of : NodeState → List ℕ → Slot
slot_of dead text = free
slot_of pending text = claimed
slot_of ready text = filled text
slot_of migrating text = filled text

abbrev pub seen : Bytes → UnpackedControl → Slot
seen m u = slot_of u.state (ring_text m (u.virtual_offset + header_size) u.length)

abbrev pub view : {F : Type 0} → Arena F → Cache
view a = λ i. seen a.buffer_payload (load_control (a.metadata i))

-- One of the payloads that are laid down one after the other from `v` on stands at `p`.
abbrev pub Live : ℕ → List Entry → ℕ → Entry → Type 0
Live v [] p f = ⊥
Live v (e ∷ q) p f = ((p ≡ place v) × (f ≡ e)) ⊎ Live (past v e) q p f

-- More payloads may follow.
pub Live-append :
    (v : ℕ) (q r : List Entry) (p : ℕ) (f : Entry) → Live v q p f → Live v (q ++ r) p f
Live-append v [] r p f h = absurd h
Live-append v (e ∷ q) r p f (inl h) = inl h
Live-append v (e ∷ q) r p f (inr h) = inr (Live-append (past v e) q r p f h)

-- The payload that follows `left` bytes of others begins behind them.
pub Live-last :
    (m : Bytes) (v left w : ℕ) (q : List Entry) (e : Entry)
    → v < 2 ^ 64
    → w ≡ add64 v left
    → Chain m v left q
    → Live v (q ++ (e ∷ [])) (place w) e
Live-last m v left w [] e hv hw c = let same : w ≡ v = omega arith in inl (ap place same, refl)
Live-last m v left w (f ∷ q) e hv hw c =
    inr (Live-last m (past v f) (left - span v f) w q e (omega arith) (omega arith) c.2)

pub Live-Stands :
    (m : Bytes) (v left : ℕ) (q : List Entry) (p : ℕ) (f : Entry)
    → Chain m v left q
    → Live v q p f
    → Stands m p f
Live-Stands m v left [] p f c h = absurd h
Live-Stands m v left (e ∷ q) p f c (inl (at, same)) = rw (at, same) (c.1)
Live-Stands m v left (e ∷ q) p f c (inr h) = Live-Stands m (past v e) (left - span v e) q p f c.2 h

-- Numbers only: how far the payloads lie from where they begin.
pub Live-far :
    (m : Bytes) (v left : ℕ) (q : List Entry) (p : ℕ) (f : Entry)
    → v < 2 ^ 64
    → left < 2 ^ 64
    → Chain m v left q
    → Live v q p f
    → (p < 2 ^ 64) × (sub64 p v + header_size ≤ left)
Live-far m v left [] p f hv hl c h = absurd h
Live-far m v left (e ∷ q) p f hv hl c (inl (at, same)) = (omega arith, omega arith)
Live-far m v left (e ∷ q) p f hv hl c (inr h) =
    let rest = Live-far m (past v e) (left - span v e) q p f (omega arith) (omega arith) c.2 h in
    (rest.0, omega (arith, rest.1))

-- The bytes before the first payload may be skipped.
pub Live-place :
    (v : ℕ) (q : List Entry) (p : ℕ) (f : Entry) → v < 2 ^ 64 → Live v q p f → Live (place v) q p f
Live-place v [] p f hv h = absurd h
Live-place v (e ∷ q) p f hv h =
    let flat : header_padding (place v) ≡ 0 =
      ground (arith, ring_index-mod v, ring_index-mod (place v)) in
    let same : place (place v) ≡ place v = omega arith in
    elim h [
      | inl (at, first) ↦ inl (rw same at, first)
      | inr later ↦ inr (
          subst (λ z. Live z q p f) (ap (λ z. add64 z (header_size + length e.text)) (sym same))
            later)
    ]

-- A payload behind the first, once the tail has passed the first.
pub Live-rest :
    (v w : ℕ) (e : Entry) (q : List Entry) (p : ℕ) (f : Entry)
    → header_padding v ≡ 0
    → w ≡ add64 v (header_size + length e.text)
    → Live v (e ∷ q) p f
    → ((p ≡ place v) × (f ≡ e)) ⊎ Live w q p f
Live-rest v w e q p f flat ew (inl h) = inl h
Live-rest v w e q p f flat ew (inr h) =
    let same : past v e ≡ w = omega arith in inr (subst (λ z. Live z q p f) same h)
