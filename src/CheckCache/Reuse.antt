-- ===== src/CheckCache/Reuse.antt =====
-- The slot that the scan of `CheckCache` in engine/src/service.cc finds to reuse, with no other thread
-- in the way.
use semantic_sentinel.Base.{
  ℕ, zero, suc, ◌+◌, ◌<◌, ◌≡◌, ◌≢◌, ◌⊎◌, inl, inr, refl, sym, subst, ◌∙◌, ap, arith, Bool-cases,
  ◌==◌,
}
use native.Mathlib.Decide.{dec_lt}
use semantic_sentinel.Base.Int.{ℤ, pos, negsuc}
use semantic_sentinel.Float.{Floats}
use semantic_sentinel.Node.{
  NodeState, dead, pending, ready, migrating, unpack_control, load_control,
}
use semantic_sentinel.Arena.{Arena}
use semantic_sentinel.Slot.{exchange_control, set_control, set_created_at}
use semantic_sentinel.CheckCache.{
  Scan, first_reusable, is_expired, score_slot, expire_slot, scan_pending, scan_state, scan_slot,
}
use semantic_sentinel.CheckCache.Rounds.{scan_rounds}
use semantic_sentinel.CheckCache.Expiry.{quiet_others, dead_word}
use semantic_sentinel.CheckCache.Best.{scan_slot-Rounded}

module _ {F : Type 0} ⦃fl : Floats F⦄ (query : ℕ → F) (curr_time : ℕ) where
  abbrev state_at : Arena F → ℕ → NodeState
  state_at a i = (load_control (a.metadata i)).state

  -- After `i` rounds: the slot to reuse is dead, and without one no slot is.
  abbrev pub Reuse : ℕ → ℤ → Arena F → Type 0
  Reuse i (pos k) a = (k < i) × (state_at a k ≡ dead)
  Reuse i (negsuc n) a = (j : ℕ) → j < i → state_at a j ≢ dead

  -- A round comes upon a dead slot or on another.
  abbrev Comes : ℕ → Scan F → Scan F × Arena F → Type 0
  Comes i s r =
      ((r.0.reusable_node_id ≡ s.reusable_node_id) × (state_at r.1 i ≢ dead))
      ⊎ ((r.0.reusable_node_id ≡ first_reusable s.reusable_node_id i) × (state_at r.1 i ≡ dead))

  score_slot-Comes :
      (i : ℕ) (s : Scan F) (a : Arena F)
      → state_at a i ≢ dead
      → Comes i s (score_slot quiet_others query curr_time i s a)
  unfolding score_slot
  score_slot-Comes i s a alive = inl (ground arith, alive)

  scan_pending-Comes :
      (i : ℕ) (s : Scan F) (a : Arena F)
      → state_at a i ≢ dead
      → Comes i s (scan_pending quiet_others query curr_time i (a.metadata i).control_block s a)
  unfolding scan_pending expire_slot exchange_control set_control set_created_at load_control
  scan_pending-Comes i s a alive =
      let birth_time = (a.metadata i).created_at in
      let c = (a.metadata i).control_block in
      elim (Bool-cases (birth_time == 0)) [
        | inl e ↦ rw e (inl (refl, alive))
        | inr e ↦ elim (Bool-cases (is_expired curr_time birth_time)) [
          | inl f ↦ rw (e, f) (inr (ground arith, ground (arith, dead_word c)))
          | inr f ↦ rw (e, f) (score_slot-Comes i s a alive)
        ]
      ]

  scan_state-Comes :
      (n : NodeState) (i : ℕ) (s : Scan F) (a : Arena F)
      → state_at a i ≡ n
      → Comes i s (scan_state quiet_others query curr_time n i (a.metadata i).control_block s a)
  unfolding scan_state
  scan_state-Comes dead i s a e = inr (refl, e)
  scan_state-Comes pending i s a e = scan_pending-Comes i s a (λ d. cc)
  scan_state-Comes ready i s a e = score_slot-Comes i s a (λ d. cc)
  scan_state-Comes migrating i s a e = score_slot-Comes i s a (λ d. cc)

  abbrev Stays : ℕ → Arena F → Arena F → Type 0
  Stays i a b = (j : ℕ) → j ≢ i → state_at b j ≡ state_at a j

  -- A round that does not come upon a dead slot.
  Reuse-past :
      (i : ℕ) (z : ℤ) (a b : Arena F)
      → Stays i a b
      → state_at b i ≢ dead
      → Reuse i z a
      → Reuse (i + 1) z b
  Reuse-past i (pos k) a b stay alive h =
      (omega (arith, h.0), stay k (λ e. omega (arith, h.0)) ∙ h.1)
  Reuse-past i (negsuc n) a b stay alive h = λ j lo gone. elim (dec_lt j i) [
    | yes below ↦ h j below (sym (stay j (λ e. omega arith)) ∙ gone)
    | no above ↦ let last : j ≡ i = omega arith in alive (ap (λ k. state_at b k) (sym last) ∙ gone)
  ]

  Reuse-first :
      (i : ℕ) (z : ℤ) (a b : Arena F)
      → Stays i a b
      → state_at b i ≡ dead
      → Reuse i z a
      → Reuse (i + 1) (first_reusable z i) b
  Reuse-first i (pos k) a b stay gone h =
      (omega (arith, h.0), stay k (λ e. omega (arith, h.0)) ∙ h.1)
  Reuse-first i (negsuc n) a b stay gone h = (omega arith, gone)

  scan_slot-Reuse :
      (i : ℕ) (s : Scan F) (a : Arena F)
      → Reuse i s.reusable_node_id a
      → let r = scan_slot quiet_others query curr_time i s a in
        Reuse (i + 1) r.0.reusable_node_id r.1
  unfolding scan_slot
  scan_slot-Reuse i s a h =
      let n = (unpack_control (a.metadata i).control_block).state in
      let r = scan_slot quiet_others query curr_time i s a in
      let at : state_at a i ≡ n = unfold load_control in refl in
      let round = scan_slot-Rounded query curr_time i s a in
      let stay : Stays i a r.1 =
        λ j apart. ap (λ m. (load_control m).state) (round.slots_stay j apart) in
      elim (scan_state-Comes n i s a at) [
        | inl (same, alive) ↦
            subst (λ z. Reuse (i + 1) z r.1) (sym same)
              (Reuse-past i s.reusable_node_id a r.1 stay alive h)
        | inr (first, gone) ↦
            subst (λ z. Reuse (i + 1) z r.1) (sym first)
              (Reuse-first i s.reusable_node_id a r.1 stay gone h)
      ]

  pub scan_rounds-Reuse :
      (count i : ℕ) (s : Scan F) (a : Arena F)
      → Reuse i s.reusable_node_id a
      → let r = scan_rounds quiet_others query curr_time count i s a in
        Reuse (i + count) r.0.reusable_node_id r.1
  unfolding scan_rounds
  scan_rounds-Reuse zero i s a h = let e : i + 0 ≡ i = omega arith in rw e h
  scan_rounds-Reuse (suc count) i s a h =
      let (s', a') = scan_slot quiet_others query curr_time i s a in
      let e : i + suc count ≡ i + 1 + count = omega arith in
      rw e (scan_rounds-Reuse count (i + 1) s' a' (scan_slot-Reuse i s a h))
