-- ===== src/CheckCache/Rounds.antt =====
-- The accesses of `CheckCache` in engine/src/service.cc to the slots: they are slots of the table, so
-- that the handler is its scan's rounds and its answer, with no access outside the arena.
use semantic_sentinel.Base.{
  ℕ, zero, suc, ◌+◌, ◌*◌, ◌≤◌, ◌<◌, ◌≡◌, ◌⊎◌, inl, inr, refl, arith, Bool, true, false, Bool-cases,
  ltb, ◌==◌, if◌then◌else◌,
}
use semantic_sentinel.Base.Int.{ℤ, pos, negsuc, minus_one, is_negative}
use semantic_sentinel.Constant.{l0_max_slots, total_max_slots, vector_dim}
use semantic_sentinel.Similarity.{cosine_similarity}
use semantic_sentinel.Float.{Floats}
use semantic_sentinel.Node.{
  NodeState, dead, pending, ready, migrating, pack_control, unpack_control,
}
use semantic_sentinel.Result.{Result, Action, ok}
use semantic_sentinel.Message.{CheckCacheResponse, Status}
use semantic_sentinel.Arena.{Arena}
use semantic_sentinel.Slot.{exchange_control}
use semantic_sentinel.CheckCache.{
  load_slot, load_birth, score, expire, Others, Scan, is_expired, first_reusable, score_slot,
  expire_slot, scan_pending, scan_state, scan_slot, scan_slots, claim_slot, answer_best, look_up,
  with_node,
}

-- A slot number of the table, or -1.
abbrev pub IsSlot : ℤ → Type 0
IsSlot (pos i) = i < l0_max_slots
IsSlot (negsuc n) = n ≡ 0

-- What a scan has found so far: both numbers are slots or -1, and without a best slot the score is
-- the one that the scan began with.
pub record InTable {F : Type 0} ⦃fl : Floats F⦄ (s : Scan F) : Type 0 where
  pub best : IsSlot s.best_node_id
  pub reusable : IsSlot s.reusable_node_id
  pub scored : (is_negative s.best_node_id ≡ false) ⊎ (s.max_score ≡ fl.minus_one)

first_reusable-IsSlot : (r : ℤ) (i : ℕ) → i < l0_max_slots → IsSlot r → IsSlot (first_reusable r i)
first_reusable-IsSlot (pos j) i h p = p
first_reusable-IsSlot (negsuc n) i h p = h

module _ {F : Type 0} ⦃fl : Floats F⦄ where
  better-InTable :
      (b : Bool) (i : ℕ) (x : F) (s : Scan F)
      → i < l0_max_slots
      → InTable s
      → InTable (if b then record s { max_score = x; best_node_id = pos i } else s)
  better-InTable true i x s h t = record { best = h; reusable = t.reusable; scored = inl refl }
  better-InTable false i x s h t = t

  reusable-InTable :
      (i : ℕ) (s : Scan F)
      → i < l0_max_slots
      → InTable s
      → InTable (record s { reusable_node_id = first_reusable s.reusable_node_id i })
  reusable-InTable i s h t = record {
    best = t.best;
    reusable = first_reusable-IsSlot s.reusable_node_id i h t.reusable;
    scored = t.scored;
  }

module _ {F : Type 0} ⦃fl : Floats F⦄ (others : Others F) (query : ℕ → F) (curr_time : ℕ) where
  -- The rounds of the scan, without a look at the table.
  unfoldable pub scan_rounds : ℕ → ℕ → Scan F → Arena F → Scan F × Arena F
  scan_rounds zero i s a = (s, a)
  scan_rounds (suc count) i s a =
      let next = scan_slot others query curr_time i s a in scan_rounds count (i + 1) next.0 next.1

  -- A scan that stays in the table is its rounds.
  pub scan_slots-scan_rounds :
      (count i : ℕ) (s : Scan F) (a : Arena F)
      → i + count ≤ total_max_slots
      → let r = scan_rounds count i s a in
        scan_slots others query curr_time count i s a ≡ (ok r.0, r.1)
  unfolding scan_slots scan_rounds
  scan_slots-scan_rounds zero i s a h = refl
  scan_slots-scan_rounds (suc count) i s a h =
      let next = scan_slot others query curr_time i s a in
      let inside : ltb i total_max_slots ≡ true = ground arith in
      rw inside (scan_slots-scan_rounds count (i + 1) next.0 next.1 (omega arith))

  score_slot-InTable :
      (i : ℕ) (s : Scan F) (a : Arena F)
      → i < l0_max_slots
      → InTable s
      → InTable (score_slot others query curr_time i s a).0
  unfolding score_slot
  score_slot-InTable i s a h t =
      let x =
        cosine_similarity query (λ j. (others.before (score i) a).vectors (vector_dim * i + j)) in
      better-InTable (fl.lt s.max_score x) i x s h t

  expire_slot-InTable :
      (i c : ℕ) (s : Scan F) (a : Arena F)
      → i < l0_max_slots
      → InTable s
      → InTable (expire_slot others query curr_time i c s a).0
  unfolding expire_slot
  expire_slot-InTable i c s a h t =
      let u = unpack_control c in
      let d = pack_control dead u.ref_bit u.length u.virtual_offset in
      elim (Bool-cases (exchange_control i c d (others.before (expire i) a)).0) [
        | inl e ↦ rw e (reusable-InTable i s h t)
        | inr e ↦ rw e t
      ]

  scan_pending-InTable :
      (i c : ℕ) (s : Scan F) (a : Arena F)
      → i < l0_max_slots
      → InTable s
      → InTable (scan_pending others query curr_time i c s a).0
  unfolding scan_pending
  scan_pending-InTable i c s a h t =
      let seen = others.before (load_birth i) a in
      let birth_time = (seen.metadata i).created_at in
      elim (Bool-cases (birth_time == 0)) [
        | inl e ↦ rw e t
        | inr e ↦ elim (Bool-cases (is_expired curr_time birth_time)) [
          | inl f ↦ rw (e, f) (expire_slot-InTable i c s seen h t)
          | inr f ↦ rw (e, f) (score_slot-InTable i s seen h t)
        ]
      ]

  scan_state-InTable :
      (n : NodeState) (i c : ℕ) (s : Scan F) (a : Arena F)
      → i < l0_max_slots
      → InTable s
      → InTable (scan_state others query curr_time n i c s a).0
  unfolding scan_state
  scan_state-InTable dead i c s a h t = reusable-InTable i s h t
  scan_state-InTable pending i c s a h t = scan_pending-InTable i c s a h t
  scan_state-InTable ready i c s a h t = score_slot-InTable i s a h t
  scan_state-InTable migrating i c s a h t = score_slot-InTable i s a h t

  -- Whatever the other threads do, a scan that stays in the table finds slots of the table, and its
  -- score is above the first one only with a slot.
  pub scan_rounds-InTable :
      (count i : ℕ) (s : Scan F) (a : Arena F)
      → i + count ≤ l0_max_slots
      → InTable s
      → InTable (scan_rounds count i s a).0
  unfolding scan_rounds scan_slot
  scan_rounds-InTable zero i s a h t = t
  scan_rounds-InTable (suc count) i s a h t =
      let seen = others.before (load_slot i) a in
      let c = (seen.metadata i).control_block in
      let next = scan_slot others query curr_time i s a in
      scan_rounds-InTable count (i + 1) next.0 next.1 (omega arith)
        (scan_state-InTable (unpack_control c).state i c s seen (omega arith) t)

  abbrev pub start : Scan F
  start = record {
    max_score = fl.minus_one;
    best_node_id = minus_one;
    reusable_node_id = minus_one;
  }

  pub start-InTable : InTable start
  start-InTable = record { best = refl; reusable = refl; scored = inr refl }

  -- What follows the rounds, without a look at the table.
  abbrev pub answer_rounds : Scan F × Arena F → Result (Status × CheckCacheResponse) × Arena F
  answer_rounds (s, b) =
      if fl.le fl.similarity_threshold s.max_score
      then answer_best others query curr_time s.best_node_id b
      else claim_slot others query curr_time s.reusable_node_id b

  with_node-IsSlot :
      {A : Type 0} (n : ℤ) (action : Action (Arena F) A) (a : Arena F)
      → IsSlot n
      → with_node n action a ≡ action a
  with_node-IsSlot (negsuc n) action a h = refl
  with_node-IsSlot (pos i) action a h =
      let inside : ltb i total_max_slots ≡ true = ground arith in rw inside refl

  -- The slots that the handler accesses are slots of the table.
  pub look_up-rounds :
      (a : Arena F)
      → look_up others query curr_time a ≡ answer_rounds (scan_rounds l0_max_slots 0 start a)
  unfolding look_up
  look_up-rounds a =
      let (s, b) = scan_rounds l0_max_slots 0 start a in
      let t = scan_rounds-InTable l0_max_slots 0 start a (omega arith) start-InTable in
      let e =
        with_node-IsSlot s.best_node_id (answer_best others query curr_time s.best_node_id) b in
      let f =
        with_node-IsSlot s.reusable_node_id (claim_slot others query curr_time s.reusable_node_id)
          b in
      rw (scan_slots-scan_rounds l0_max_slots 0 start a (omega arith), e t.best, f t.reusable) refl
