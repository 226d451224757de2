-- ===== src/Engine/Checks.antt =====
-- `CheckCache` of engine/src/service.cc, with no other thread in the way, as it changes the arena.
use semantic_sentinel.Base.{
  ℕ, zero, suc, ◌+◌, ◌-◌, ◌*◌, ◌≡◌, inl, inr, refl, sym, subst, ap, Bool-cases, List, [], ◌∷◌, ◌==◌,
  if◌then◌else◌, shr,
}
use semantic_sentinel.Base.Int.{ℤ, pos, negsuc, minus_one}
use semantic_sentinel.Constant.{vector_dim, l0_max_slots}
use semantic_sentinel.Float.{Floats}
use semantic_sentinel.Node.{
  NodeState, dead, pending, ready, migrating, hot, state_of, pack_control, unpack_control,
}
use semantic_sentinel.Result.{Result, ok, thrown, fault, resume}
use semantic_sentinel.Message.{empty_response}
use semantic_sentinel.Memory.{within}
use semantic_sentinel.Arena.{Arena}
use semantic_sentinel.Slot.{set_created_at, exchange_control}
use semantic_sentinel.Collector.{is_dead}
use semantic_sentinel.CheckCache.{
  Scan, is_expired, score_slot, expire_slot, scan_pending, scan_state, scan_slot, claim_slot,
  hit_slot, answer_state, answer_best, look_up, check_cache,
}
use semantic_sentinel.CheckCache.Rounds.{scan_rounds, look_up-rounds}
use semantic_sentinel.CheckCache.Expiry.{quiet_others, dead_word}
use semantic_sentinel.CheckCache.Answer.{hit_slot_serves, hot_word}
use semantic_sentinel.Slot.Ages.{
  Ages, Ages-refl, Ages-trans, set_created_at-Ages, exchange_control-Ages,
}
use semantic_sentinel.Slot.Kept.{
  pack_control-IsSettled, Kept, Kept-refl, Kept-trans, caught-state, set_created_at-Kept,
  exchange_control-Kept,
}

module _ {F : Type 0} ⦃fl : Floats F⦄ (query : ℕ → F) (curr_time : ℕ) where
  expire_slot-Ages :
      (i c : ℕ) (s : Scan F) (a : Arena F)
      → (unpack_control c).state ≡ pending
      → Ages a (expire_slot quiet_others query curr_time i c s a).1
  unfolding expire_slot
  expire_slot-Ages i c s a waits =
      let u = unpack_control c in
      let d = pack_control dead u.ref_bit u.length u.virtual_offset in
      let x = exchange_control i c d a in
      let k =
        exchange_control-Ages i c d a
          (λ _. pack_control-IsSettled dead u.ref_bit u.length u.virtual_offset (λ e. cc))
          (inr (waits, ap (λ w. w.state) (dead_word c))) in
      elim (Bool-cases x.0) [
        | inl e ↦ rw e (Ages-trans a x.1 (set_created_at i 0 x.1) k (set_created_at-Ages i 0 x.1))
        | inr e ↦ rw e k
      ]

  scan_state-Ages :
      (n : NodeState) (i c : ℕ) (s : Scan F) (a : Arena F)
      → (unpack_control c).state ≡ n
      → Ages a (scan_state quiet_others query curr_time n i c s a).1
  unfolding scan_state score_slot scan_pending
  scan_state-Ages dead i c s a e = Ages-refl a
  scan_state-Ages ready i c s a e = Ages-refl a
  scan_state-Ages migrating i c s a e = Ages-refl a
  scan_state-Ages pending i c s a waits =
      let birth_time = (a.metadata i).created_at in
      elim (Bool-cases (birth_time == 0)) [
        | inl e ↦ rw e (Ages-refl a)
        | inr e ↦ elim (Bool-cases (is_expired curr_time birth_time)) [
          | inl f ↦ rw (e, f) (expire_slot-Ages i c s a waits)
          | inr f ↦ rw (e, f) (Ages-refl a)
        ]
      ]

  -- A scan gives up claims and changes nothing else.
  pub scan_rounds-Ages :
      (count i : ℕ) (s : Scan F) (a : Arena F)
      → Ages a (scan_rounds quiet_others query curr_time count i s a).1
  unfolding scan_rounds scan_slot
  scan_rounds-Ages zero i s a = Ages-refl a
  scan_rounds-Ages (suc count) i s a =
      let c = (a.metadata i).control_block in
      let n = (unpack_control c).state in
      let next = scan_slot quiet_others query curr_time i s a in
      Ages-trans a next.1 (scan_rounds quiet_others query curr_time count (i + 1) next.0 next.1).1
        (scan_state-Ages n i c s a refl) (scan_rounds-Ages count (i + 1) next.0 next.1)

  pub claim_slot-Kept :
      (r : ℤ) (a : Arena F) → Kept a (claim_slot quiet_others query curr_time r a).1
  unfolding claim_slot
  claim_slot-Kept (negsuc n) a = Kept-refl a
  claim_slot-Kept (pos i) a =
      let c = (a.metadata i).control_block in
      let x = exchange_control i c (pack_control pending hot 0 0) a in
      let k =
        exchange_control-Kept i c (pack_control pending hot 0 0) a
          (λ _. pack_control-IsSettled pending hot 0 0 (λ e. cc)) in
      let filled : Arena F = record x.1 {
        vectors = λ k.
            if within (vector_dim * i) vector_dim k
            then query (k - vector_dim * i)
            else x.1.vectors k;
      } in
      let same : Kept x.1 filled = record {
        buffer = refl;
        head = refl;
        tail = refl;
        slots = λ h. h;
      } in
      elim (Bool-cases (is_dead (state_of (shr c 62)))) [
        | inr e ↦ rw e (Kept-refl a)
        | inl e ↦ elim (Bool-cases x.0) [
          | inr f ↦ rw (e, f) k
          | inl f ↦
              rw (e, f)
                (Kept-trans a x.1 (set_created_at i curr_time filled) k (
                  Kept-trans x.1 filled (set_created_at i curr_time filled) same
                    (set_created_at-Kept i curr_time filled)))
        ]
      ]

  -- A hit sets the reference bit at most.
  pub hit_slot-Ages :
      (i : ℕ) (a : Arena F)
      → let c = (a.metadata i).control_block in
        Ages a (hit_slot quiet_others query curr_time i c (unpack_control c) a).1
  hit_slot-Ages i a =
      let c = (a.metadata i).control_block in
      let u = unpack_control c in
      subst (Ages a) (sym (ap (λ r. r.1) (hit_slot_serves query curr_time i quiet_others c a refl)))
        (exchange_control-Ages i c (pack_control u.state hot u.length u.virtual_offset) a
          (λ s. pack_control-IsSettled u.state hot u.length u.virtual_offset (s i).settled)
          (inl (
            rw (hot_word c) (record { state = refl; length_field = refl; virtual_offset = refl }))))

  answer_state-Kept :
      (n : NodeState) (i : ℕ) (a : Arena F)
      → Kept a (answer_state quiet_others query curr_time n i (a.metadata i).control_block a).1
  unfolding answer_state
  answer_state-Kept dead i a = claim_slot-Kept (pos i) a
  answer_state-Kept pending i a = Kept-refl a
  answer_state-Kept ready i a = (hit_slot-Ages i a).kept
  answer_state-Kept migrating i a = (hit_slot-Ages i a).kept

  answer_best-Kept : (b : ℤ) (a : Arena F) → Kept a (answer_best quiet_others query curr_time b a).1
  unfolding answer_best
  answer_best-Kept (negsuc n) a = Kept-refl a
  answer_best-Kept (pos i) a =
      answer_state-Kept (unpack_control (a.metadata i).control_block).state i a

  look_up-Kept : (a : Arena F) → Kept a (look_up quiet_others query curr_time a).1
  look_up-Kept a =
      let start : Scan F = record {
        max_score = fl.minus_one;
        best_node_id = minus_one;
        reusable_node_id = minus_one;
      } in
      let (s, b) = scan_rounds quiet_others query curr_time l0_max_slots 0 start a in
      let k = (scan_rounds-Ages l0_max_slots 0 start a).kept in
      rw (look_up-rounds quiet_others query curr_time a)
        (elim (Bool-cases (fl.le fl.similarity_threshold s.max_score)) [
          | inl e ↦ rw e (
              Kept-trans a b (answer_best quiet_others query curr_time s.best_node_id b).1 k
                (answer_best-Kept s.best_node_id b))
          | inr e ↦ rw e (
              Kept-trans a b (claim_slot quiet_others query curr_time s.reusable_node_id b).1 k
                (claim_slot-Kept s.reusable_node_id b))
        ])

vectorized-Kept :
    {F : Type 0} ⦃fl : Floats F⦄ (curr_time : ℕ) (r : Result (ℕ → F)) (a : Arena F)
    → Kept a (resume (r, a) λ query. look_up quiet_others query curr_time).1
vectorized-Kept curr_time (ok query) a = look_up-Kept query curr_time a
vectorized-Kept curr_time (thrown e) a = Kept-refl a
vectorized-Kept curr_time fault a = Kept-refl a

-- A call leaves the ring alone and its slots settled.
pub check_cache-Kept :
    {F : Type 0} ⦃fl : Floats F⦄ (encode : List ℕ → Result (ℕ → F)) (curr_time : ℕ)
    (prompt : List ℕ) (a : Arena F)
    → Kept a (check_cache encode quiet_others curr_time prompt a).1
unfolding check_cache
check_cache-Kept encode curr_time [] a = Kept-refl a
check_cache-Kept encode curr_time (byte ∷ prompt) a =
    let r = encode (byte ∷ prompt) in
    let found = resume (r, a) (λ query. look_up quiet_others query curr_time) in
    subst (Kept a) (sym (caught-state "Encounter error: " empty_response found.0 found.1))
      (vectorized-Kept curr_time r a)
