-- ===== src/Cache/Claims.antt =====
-- The cache of an arena of engine/src/arena.cc whose slots give claims up, as the scan of `CheckCache` in
-- engine/src/service.cc makes them.
use semantic_sentinel.Base.{ℕ, ◌≡◌, ◌⊎◌, inl, inr, refl, List}
use semantic_sentinel.Node.{UnpackedControl, load_control}
use semantic_sentinel.Arena.{Arena}
use semantic_sentinel.Arena.Queue.{Entry}
use semantic_sentinel.Slot.Ages.{Turned, Ages}
use semantic_sentinel.Engine.Stores.{Kept-IsSound}
use semantic_sentinel.Cache.{Slot, free, claimed, Cache, Aged}
use semantic_sentinel.Cache.Shows.{Shows, Shows-Alike, Shows-claimed, StandsFor}

-- The slot of a word that may have given up its claim.
Turned-Shows :
    (t : ℕ) (q : List Entry) (i : ℕ) (u w : UnpackedControl) (s : Slot)
    → Turned u w
    → Shows t q i u s
    → (z : Slot) × Shows t q i w z × ((z ≡ s) ⊎ ((s ≡ claimed) × (z ≡ free)))
Turned-Shows t q i u w s (inl same) h = (s, Shows-Alike t q i u w s same h, inl refl)
Turned-Shows t q i u w s (inr (waits, gone)) h =
    (free, gone, inr (Shows-claimed t q i u s waits h, refl))

module _ {F : Type 0} where
  -- An arena whose slots have aged stands for a cache whose slots have aged.
  pub Ages-StandsFor :
      {a b : Arena F} {q : List Entry} {v : Cache}
      → Ages a b
      → StandsFor a q v
      → (w : Cache) × StandsFor b q w × Aged v w
  Ages-StandsFor {a} {b} {q} {v} h s =
      let at = λ (i : ℕ).
        Turned-Shows a.read_tail q i (load_control (a.metadata i)) (load_control (b.metadata i))
          (v i) (h.turned i) (s.shows i) in
      let t = h.kept.tail in
      (
        λ i. (at i).0,
        record { sound = Kept-IsSound h.kept s.sound; shows = λ i. rw t ((at i).1) },
        λ i. (at i).2,
      )
