-- ===== src/CheckCache/Granted.antt =====
-- What holds when `CheckCache` of engine/src/service.cc has granted a slot, with no other thread in the
-- way.
use semantic_sentinel.Base.{
  ℕ, ◌+◌, ◌-◌, ◌*◌, ◌<◌, ◌≡◌, ◌≢◌, inl, inr, refl, sym, ◌∙◌, ap, arith, subst, Bool-cases, List,
  ◌∷◌,
}
use semantic_sentinel.Base.Int.{ℤ, pos, negsuc, minus_one}
use semantic_sentinel.Constant.{vector_dim, l0_max_slots}
use semantic_sentinel.Float.{Floats}
use semantic_sentinel.Node.{
  NodeState, dead, pending, ready, migrating, unpack_control, load_control,
}
use semantic_sentinel.Result.{Result, ok, thrown, fault, resume}
use semantic_sentinel.Message.{CheckCacheResponse, Status, status_ok, empty_response, caught}
use semantic_sentinel.Arena.{Arena}
use semantic_sentinel.Slot.Kept.{caught-state}
use semantic_sentinel.CheckCache.{
  Scan, claim_slot, hit_slot, answer_state, answer_best, look_up, check_cache,
}
use semantic_sentinel.CheckCache.Rounds.{scan_rounds, look_up-rounds}
use semantic_sentinel.CheckCache.Expiry.{quiet_others}
use semantic_sentinel.CheckCache.Claim.{missed, claim_slot_grants, claim_slot_declines}
use semantic_sentinel.CheckCache.Answer.{hit_slot_serves}
use semantic_sentinel.CheckCache.Rounds.{IsSlot, scan_rounds-InTable}

module _ {F : Type 0} ⦃fl : Floats F⦄ (query : ℕ → F) where
  -- The slot waits for its text, and its vector is the prompt's.
  pub record Granted (k : ℕ) (a : Arena F) : Type 0 where
    pub in_table : k < l0_max_slots
    pub waits : (load_control (a.metadata k)).state ≡ pending
    pub vector : (j : ℕ) → j < vector_dim → a.vectors (vector_dim * k + j) ≡ query j

  module _ (curr_time k : ℕ) where
    abbrev Grants : Result (Status × CheckCacheResponse) × Arena F → Type 0
    Grants r = r.0 ≡ ok (status_ok, missed (pos k)) → Granted k r.1

    declined-Granted :
        (i : ℕ) (a : Arena F)
        → (load_control (a.metadata i)).state ≢ dead
        → Grants (claim_slot quiet_others query curr_time (pos i) a)
    declined-Granted i a alive =
        subst Grants (sym (claim_slot_declines query curr_time i a alive))
          λ same. absurd (ground arith)

    claim_state-Granted :
        (n : NodeState) (i : ℕ) (a : Arena F)
        → i < l0_max_slots
        → (load_control (a.metadata i)).state ≡ n
        → Grants (claim_slot quiet_others query curr_time (pos i) a)
    claim_state-Granted dead i a lo gone =
        let (b, e, word, _, vec, _) = claim_slot_grants query curr_time i a gone in
        subst Grants (sym e) λ same.
          let own : i ≡ k = ground arith in
          subst (λ z. Granted z b) own
            (record {
              in_table = lo;
              waits = ap (λ u. u.state) word;
              vector = λ j p.
                  ap (λ v. v (vector_dim * i + j)) vec
                  ∙ (let e : vector_dim * i + j - vector_dim * i ≡ j = omega arith in
                      ground (arith, ap query e));
            })
    claim_state-Granted pending i a lo e = declined-Granted i a (λ d. cc)
    claim_state-Granted ready i a lo e = declined-Granted i a (λ d. cc)
    claim_state-Granted migrating i a lo e = declined-Granted i a (λ d. cc)

    claim_slot-Granted :
        (i : ℤ) (a : Arena F) → IsSlot i → Grants (claim_slot quiet_others query curr_time i a)
    unfolding claim_slot
    claim_slot-Granted (negsuc n) a lo = λ same. absurd (ground arith)
    claim_slot-Granted (pos i) a lo =
        claim_state-Granted (load_control (a.metadata i)).state i a lo refl

    hit_slot-Granted :
        (i : ℕ) (a : Arena F)
        → let c = (a.metadata i).control_block in
          Grants (hit_slot quiet_others query curr_time i c (unpack_control c) a)
    hit_slot-Granted i a same =
        let c = (a.metadata i).control_block in
        let served_it = ap (λ r. r.0) (hit_slot_serves query curr_time i quiet_others c a refl) in
        absurd (ground arith)

    answer_state-Granted :
        (n : NodeState) (i : ℕ) (a : Arena F)
        → i < l0_max_slots
        → Grants (answer_state quiet_others query curr_time n i (a.metadata i).control_block a)
    unfolding answer_state
    answer_state-Granted dead i a lo = claim_slot-Granted (pos i) a lo
    answer_state-Granted pending i a lo = λ same. absurd (ground arith)
    answer_state-Granted ready i a lo = hit_slot-Granted i a
    answer_state-Granted migrating i a lo = hit_slot-Granted i a

    answer_best-Granted :
        (b : ℤ) (a : Arena F) → IsSlot b → Grants (answer_best quiet_others query curr_time b a)
    unfolding answer_best
    answer_best-Granted (negsuc n) a lo = λ same. absurd (ground arith)
    answer_best-Granted (pos i) a lo =
        answer_state-Granted (unpack_control (a.metadata i).control_block).state i a lo

    look_up-Granted : (a : Arena F) → Grants (look_up quiet_others query curr_time a)
    look_up-Granted a =
        let start : Scan F = record {
          max_score = fl.minus_one;
          best_node_id = minus_one;
          reusable_node_id = minus_one;
        } in
        let (s, b) = scan_rounds quiet_others query curr_time l0_max_slots 0 start a in
        let t =
          scan_rounds-InTable quiet_others query curr_time l0_max_slots 0 start a (omega arith)
            (record { best = refl; reusable = refl; scored = inr refl }) in
        rw (look_up-rounds quiet_others query curr_time a)
          (elim (Bool-cases (fl.le fl.similarity_threshold s.max_score)) [
            | inl e ↦ rw e (answer_best-Granted s.best_node_id b t.best)
            | inr e ↦ rw e (claim_slot-Granted s.reusable_node_id b t.reusable)
          ])

caught-missed :
    {S : Type 0} (r : Result (Status × CheckCacheResponse)) (x : S) (k : ℕ)
    → (caught "Encounter error: " empty_response (r, x)).0 ≡ ok (status_ok, missed (pos k))
    → r ≡ ok (status_ok, missed (pos k))
caught-missed (ok r) x k e = e
caught-missed (thrown z) x k e = absurd (ground arith)
caught-missed fault x k e = e

-- A slot that a whole call has granted waits for its text and has the prompt's vector.
pub check_cache-Granted :
    {F : Type 0} ⦃fl : Floats F⦄ (encode : List ℕ → Result (ℕ → F)) (query : ℕ → F)
    (curr_time byte : ℕ) (prompt : List ℕ) (a : Arena F) (k : ℕ)
    → encode (byte ∷ prompt) ≡ ok query
    → (check_cache encode quiet_others curr_time (byte ∷ prompt) a).0
      ≡ ok (status_ok, missed (pos k))
    → Granted query k (check_cache encode quiet_others curr_time (byte ∷ prompt) a).1
unfolding check_cache
check_cache-Granted encode query curr_time byte prompt a k encoded e =
    let found = look_up quiet_others query curr_time a in
    let same : resume (encode (byte ∷ prompt), a) (λ q. look_up quiet_others q curr_time) ≡ found =
      ap (λ r. resume (r, a) (λ q. look_up quiet_others q curr_time)) encoded in
    rw same (
      subst (Granted query k)
        (sym (caught-state "Encounter error: " empty_response found.0 found.1))
        (look_up-Granted query curr_time k a (caught-missed found.0 found.1 k (rw same at e))))
