-- ===== src/Collector/Measure.antt =====
-- How much the collector of engine/src/arena.cc has left to do on a ring of payloads.
use semantic_sentinel.Base.{
  ℕ, ◌+◌, ◌*◌, ◌≤◌, ◌<◌, ◌≡◌, ◌⊎◌, inl, inr, refl, ◌∙◌, ap, arith, true, List, [], ◌∷◌, ◌++◌, ◌==◌,
  ltb, if◌then◌else◌,
}
use native.Mathlib.Decide.{ℕ_discrete}
use semantic_sentinel.Node.{
  NodeState, dead, pending, ready, migrating, EvictState, cold, hot, MetaNode, load_control,
}
use semantic_sentinel.Arena.{Arena, header_padding}
use semantic_sentinel.Arena.Allocate.{used}
use semantic_sentinel.Arena.Queue.{Entry}
use semantic_sentinel.Collector.{is_dead}

-- How often the collector meets a payload of a slot: a hot one comes back once.
abbrev pub visits : EvictState → ℕ
visits cold = 1
visits hot = 2

abbrev pub visits_of : (ℕ → MetaNode) → Entry → ℕ
visits_of metadata e = visits (load_control (metadata e.node_id)).ref_bit

abbrev pub all_visits : (ℕ → MetaNode) → List Entry → ℕ
all_visits metadata [] = 0
all_visits metadata (e ∷ q) = visits_of metadata e + all_visits metadata q

pub all_visits-append :
    (metadata : ℕ → MetaNode) (q : List Entry) (e : Entry)
    → all_visits metadata (q ++ (e ∷ [])) ≡ all_visits metadata q + visits_of metadata e
all_visits-append metadata [] e = omega arith
all_visits-append metadata (f ∷ q) e = omega (arith, all_visits-append metadata q e)

pub all_visits_mono :
    (metadata metadata' : ℕ → MetaNode) (q : List Entry)
    → ((e : Entry) → visits_of metadata' e ≤ visits_of metadata e)
    → all_visits metadata' q ≤ all_visits metadata q
all_visits_mono metadata metadata' [] h = omega arith
all_visits_mono metadata metadata' (e ∷ q) h =
    omega (arith, h e, all_visits_mono metadata metadata' q h)

-- A change of one slot that makes it no hotter.
pub visits_of_le :
    (metadata metadata' : ℕ → MetaNode) (n : ℕ)
    → metadata' ≡ (λ i. if i == n then metadata' n else metadata i)
    → visits (load_control (metadata' n)).ref_bit ≤ visits (load_control (metadata n)).ref_bit
    → (e : Entry) → visits_of metadata' e ≤ visits_of metadata e
visits_of_le metadata metadata' n h le e =
    let at : metadata' e.node_id ≡ (if e.node_id == n then metadata' n else metadata e.node_id) =
      ap (λ (f : ℕ → MetaNode). f e.node_id) h in
    elim (ℕ_discrete e.node_id n) [
      | yes same ↦ rw (same) le
      | no other ↦
          let kept : metadata' e.node_id ≡ metadata e.node_id = at ∙ ground arith in
          rw kept (omega arith)
    ]

pub visits_pos : (r : EvictState) → 0 < visits r
visits_pos cold = omega arith
visits_pos hot = omega arith

pub EvictState-cases : (r : EvictState) → (r ≡ cold) ⊎ (r ≡ hot)
EvictState-cases cold = inl refl
EvictState-cases hot = inr refl

pub is_dead-dead : (n : NodeState) → is_dead n ≡ true → n ≡ dead
is_dead-dead dead h = refl
is_dead-dead pending h = cc
is_dead-dead ready h = cc
is_dead-dead migrating h = cc

-- The iterations left: two for each visit, since a skip to the start of the buffer may come before
-- one, and one where such a skip is due.
abbrev pub remaining : {F : Type 0} → Arena F → List Entry → ℕ
remaining a q = 2 * all_visits a.metadata q + (if ltb 0 (header_padding a.read_tail) then 1 else 0)

-- The bytes in use, with those that moving payloads may skip: eleven at most for each.
abbrev pub reach : {F : Type 0} → Arena F → List Entry → ℕ
reach a q = used a + 11 * all_visits a.metadata q
