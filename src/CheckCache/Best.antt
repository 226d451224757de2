-- ===== src/CheckCache/Best.antt =====
-- The scan of `CheckCache` in engine/src/service.cc with no other thread in the way: which
-- slot it comes up with.
use semantic_sentinel.Base.{
  ℕ, zero, suc, ◌+◌, ◌*◌, ◌≤◌, ◌<◌, ◌≡◌, ◌≢◌, ◌⊎◌, inl, inr, refl, sym, subst, ◌∙◌, ap, arith, true,
  false, Bool-cases, ◌==◌,
}
use native.Mathlib.Decide.{dec_lt}
use semantic_sentinel.Base.Int.{pos}
use semantic_sentinel.Constant.{vector_dim}
use semantic_sentinel.Similarity.{cosine_similarity}
use semantic_sentinel.Float.{Floats}
use semantic_sentinel.Node.{
  NodeState, dead, pending, ready, migrating, unpack_control, load_control,
}
use semantic_sentinel.Arena.{Arena}
use semantic_sentinel.Slot.{exchange_control, set_control, set_created_at}
use semantic_sentinel.CheckCache.{
  Scan, is_expired, score_slot, expire_slot, scan_pending, scan_state, scan_slot,
}
use semantic_sentinel.CheckCache.Rounds.{scan_rounds}
use semantic_sentinel.CheckCache.Expiry.{quiet_others}

-- `curr_score` of a slot.
abbrev pub score_of : {F : Type 0} ⦃fl : Floats F⦄ → (ℕ → F) → Arena F → ℕ → F
score_of query a i = cosine_similarity query (λ j. a.vectors (vector_dim * i + j))

-- A state whose slots are compared whatever their age.
abbrev pub IsReadable : NodeState → Type 0
IsReadable n = (n ≡ ready) ⊎ (n ≡ migrating)

-- The laws of `<` that the search for a maximum rests on. They hold of IEEE 754 numbers, also of
-- those that are not comparable.
pub record IsOrder {F : Type 0} (fl : Floats F) : Type 0 where
  pub lt_irrefl : (x : F) → fl.lt x x ≡ false
  pub lt_above : (x y z : F) → fl.lt x y ≡ true → fl.lt x z ≡ false → fl.lt y z ≡ false

module _ {F : Type 0} ⦃fl : Floats F⦄ (query : ℕ → F) (curr_time : ℕ) where
  -- What one round leaves: the vectors and the other slots; and if it takes a slot it is `i`, with
  -- its score, for a score that is better.
  pub record Rounded (i : ℕ) (s : Scan F) (a : Arena F) (s' : Scan F) (a' : Arena F) : Type 0 where
    pub vectors_stay : a'.vectors ≡ a.vectors
    pub slots_stay : (j : ℕ) → j ≢ i → a'.metadata j ≡ a.metadata j
    pub taken :
        ((s'.max_score ≡ s.max_score) × (s'.best_node_id ≡ s.best_node_id))
        ⊎ ((s'.max_score ≡ score_of query a i)
            × (s'.best_node_id ≡ pos i)
            × (fl.lt s.max_score (score_of query a i) ≡ true))

  score_slot-Rounded :
      (i : ℕ) (s : Scan F) (a : Arena F)
      → let r = score_slot quiet_others query curr_time i s a in Rounded i s a r.0 r.1
  unfolding score_slot
  score_slot-Rounded i s a = elim (Bool-cases (fl.lt s.max_score (score_of query a i))) [
    | inl e ↦ record { vectors_stay = refl; slots_stay = λ j p. refl; taken = inr (rw e, rw e, e) }
    | inr e ↦ record { vectors_stay = refl; slots_stay = λ j p. refl; taken = inl (rw e, rw e) }
  ]

  expire_slot-Rounded :
      (i c : ℕ) (s : Scan F) (a : Arena F)
      → let r = expire_slot quiet_others query curr_time i c s a in Rounded i s a r.0 r.1
  unfolding expire_slot exchange_control set_control set_created_at
  expire_slot-Rounded i c s a = record {
    vectors_stay = ground arith;
    slots_stay = λ j p. ground arith;
    taken = inl (ground arith, ground arith);
  }

  scan_pending-Rounded :
      (i c : ℕ) (s : Scan F) (a : Arena F)
      → let r = scan_pending quiet_others query curr_time i c s a in Rounded i s a r.0 r.1
  unfolding scan_pending
  scan_pending-Rounded i c s a =
      let birth_time = (a.metadata i).created_at in
      elim (Bool-cases (birth_time == 0)) [
        | inl e ↦
            rw e
              (record { vectors_stay = refl; slots_stay = λ j p. refl; taken = inl (refl, refl) })
        | inr e ↦ elim (Bool-cases (is_expired curr_time birth_time)) [
          | inl f ↦ rw (e, f) (expire_slot-Rounded i c s a)
          | inr f ↦ rw (e, f) (score_slot-Rounded i s a)
        ]
      ]

  scan_state-Rounded :
      (n : NodeState) (i c : ℕ) (s : Scan F) (a : Arena F)
      → let r = scan_state quiet_others query curr_time n i c s a in Rounded i s a r.0 r.1
  unfolding scan_state
  scan_state-Rounded dead i c s a = record {
    vectors_stay = refl;
    slots_stay = λ j p. refl;
    taken = inl (refl, refl);
  }
  scan_state-Rounded pending i c s a = scan_pending-Rounded i c s a
  scan_state-Rounded ready i c s a = score_slot-Rounded i s a
  scan_state-Rounded migrating i c s a = score_slot-Rounded i s a

  pub scan_slot-Rounded :
      (i : ℕ) (s : Scan F) (a : Arena F)
      → let r = scan_slot quiet_others query curr_time i s a in Rounded i s a r.0 r.1
  unfolding scan_slot
  scan_slot-Rounded i s a =
      let c = (a.metadata i).control_block in scan_state-Rounded (unpack_control c).state i c s a

  -- No slot has a better score than the best one after its round.
  scan_slot_covers :
      IsOrder fl
      → (i : ℕ) (s : Scan F) (a : Arena F) → IsReadable (load_control (a.metadata i)).state
      → fl.lt (scan_slot quiet_others query curr_time i s a).0.max_score (score_of query a i)
        ≡ false
  unfolding scan_slot load_control
  scan_slot_covers order i s a valid =
      let c = (a.metadata i).control_block in
      let at = λ (n : NodeState).
        fl.lt (scan_state quiet_others query curr_time n i c s a).0.max_score
          (score_of query a i) in
      let e : fl.lt (score_slot quiet_others query curr_time i s a).0.max_score (score_of query a i)
          ≡ false =
        unfold score_slot in
        elim (Bool-cases (fl.lt s.max_score (score_of query a i))) [
          | inl b ↦ rw b (order.lt_irrefl (score_of query a i))
          | inr w ↦ rw w w
        ] in
      unfold scan_state in elim valid [ inl r ↦ ap at r ∙ e | inr m ↦ ap at m ∙ e ]

  -- A round does not lower the best score.
  Rounded-keeps :
      IsOrder fl
      → (i : ℕ) (s s' : Scan F) (a a' : Arena F) (x : F) → Rounded i s a s' a'
      → fl.lt s.max_score x ≡ false
      → fl.lt s'.max_score x ≡ false
  Rounded-keeps order i s s' a a' x r below = elim r.taken [
    | inl (e, _) ↦ rw e below
    | inr (e, _, better) ↦ rw e (order.lt_above s.max_score (score_of query a i) x better below)
  ]

  scan_rounds-keeps :
      IsOrder fl
      → (count i : ℕ) (s : Scan F) (a : Arena F) (x : F) → fl.lt s.max_score x ≡ false
      → fl.lt (scan_rounds quiet_others query curr_time count i s a).0.max_score x ≡ false
  unfolding scan_rounds
  scan_rounds-keeps order zero i s a x below = below
  scan_rounds-keeps order (suc count) i s a x below =
      let (s', a') = scan_slot quiet_others query curr_time i s a in
      scan_rounds-keeps order count (i + 1) s' a' x
        (Rounded-keeps order i s s' a a' x (scan_slot-Rounded i s a) below)

  -- With no other thread in the way, and under the two laws of `<`, no ready or migrating slot that
  -- the scan passes has a better score than the one it comes up with.
  pub scan_rounds_maximal :
      IsOrder fl
      → (count i : ℕ) (s : Scan F) (a : Arena F) (j : ℕ) → i ≤ j
      → j < i + count
      → IsReadable (load_control (a.metadata j)).state
      → fl.lt
          (scan_rounds quiet_others query curr_time count i s a).0.max_score
          (score_of query a j)
        ≡ false
  unfolding scan_rounds
  scan_rounds_maximal order zero i s a j lo hi valid = absurd (omega arith)
  scan_rounds_maximal order (suc count) i s a j lo hi valid =
      let (s', a') = scan_slot quiet_others query curr_time i s a in
      let r = scan_slot-Rounded i s a in
      elim (dec_lt i j) [
        | no here ↦
            let e : i ≡ j = omega arith in
            scan_rounds-keeps order count (i + 1) s' a' (score_of query a j) (
              subst
                (λ k.
                  IsReadable (load_control (a.metadata k)).state
                  → fl.lt (scan_slot quiet_others query curr_time i s a).0.max_score
                      (score_of query a k)
                    ≡ false)
                e (scan_slot_covers order i s a) valid)
        | yes later ↦
            let m = r.slots_stay j (omega arith) in
            subst
              (λ v.
                fl.lt (scan_rounds quiet_others query curr_time count (i + 1) s' a').0.max_score
                  (cosine_similarity query (λ k. v (vector_dim * j + k)))
                ≡ false)
              r.vectors_stay
              (scan_rounds_maximal order count (i + 1) s' a' j (omega arith) (omega arith)
                (subst (λ n. IsReadable (load_control n).state) (sym m) valid))
      ]

  -- With no other thread in the way, the scan comes up with the score and the slot that it began
  -- with, or with a slot that it passes and that slot's score.
  pub scan_rounds_attained :
      (count i : ℕ) (s : Scan F) (a : Arena F)
      → let s' = (scan_rounds quiet_others query curr_time count i s a).0 in
        ((s'.max_score ≡ s.max_score) × (s'.best_node_id ≡ s.best_node_id))
        ⊎ ((j : ℕ) × (i ≤ j)
            × (j < i + count)
            × (s'.max_score ≡ score_of query a j)
            × (s'.best_node_id ≡ pos j))
  unfolding scan_rounds
  scan_rounds_attained zero i s a = inl (refl, refl)
  scan_rounds_attained (suc count) i s a =
      let (s', a') = scan_slot quiet_others query curr_time i s a in
      let r = scan_slot-Rounded i s a in
      elim (scan_rounds_attained count (i + 1) s' a') [
        | inr (j, lo, hi, e, f) ↦ inr (
          j,
          omega arith,
          omega arith,
          e
              ∙ ap (λ (v : ℕ → F). cosine_similarity query (λ k. v (vector_dim * j + k)))
                  r.vectors_stay,
          f,
        )
        | inl (e, f) ↦ elim r.taken [
          | inl (g, h) ↦ inl (e ∙ g, f ∙ h)
          | inr (g, h, _) ↦ inr (i, omega arith, omega arith, e ∙ g, f ∙ h)
        ]
      ]
