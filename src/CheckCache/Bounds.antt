-- ===== src/CheckCache/Bounds.antt =====
-- The outcomes of a call of `CheckCache` in engine/src/service.cc, whatever the other threads do.
use Prim.Native.String.{String}
use semantic_sentinel.Base.{ℕ, ◌≡◌, ◌≢◌, inl, inr, refl, arith, false, Bool-cases, List, [], ◌∷◌}
use semantic_sentinel.Base.Int.{ℤ, pos, negsuc, is_negative}
use semantic_sentinel.Constant.{l0_max_slots}
use semantic_sentinel.Float.{Floats}
use semantic_sentinel.Node.{NodeState, dead, pending, ready, migrating, unpack_control}
use semantic_sentinel.Result.{Result, ok, thrown, fault, resume, Exception}
use semantic_sentinel.Message.{CheckCacheResponse, empty_response, Status, invalid, handler, caught}
use semantic_sentinel.Arena.{Arena}
use semantic_sentinel.CheckCache.{
  load_best, Others, claim_slot, answer_state, answer_best, look_up, check_cache,
}
use semantic_sentinel.CheckCache.Rounds.{
  start, start-InTable, scan_rounds, scan_rounds-InTable, look_up-rounds,
}
use semantic_sentinel.CheckCache.Claim.{claim_slot_misses}
use semantic_sentinel.CheckCache.Answer.{hit_slot-ne-fault}

module _ {F : Type 0} ⦃fl : Floats F⦄ (others : Others F) (query : ℕ → F) (curr_time : ℕ) where
  claim_slot-ne-fault : (r : ℤ) (a : Arena F) → (claim_slot others query curr_time r a).0 ≢ fault
  unfolding claim_slot
  claim_slot-ne-fault (negsuc n) a h = ground arith
  claim_slot-ne-fault (pos i) a h = ground (arith, claim_slot_misses query curr_time i others a)

  answer_state-ne-fault :
      (n : NodeState) (i c : ℕ) (a : Arena F)
      → (answer_state others query curr_time n i c a).0 ≢ fault
  unfolding answer_state
  answer_state-ne-fault dead i c a h = claim_slot-ne-fault (pos i) a h
  answer_state-ne-fault pending i c a h = ground arith
  answer_state-ne-fault ready i c a h = hit_slot-ne-fault query curr_time i others c a h
  answer_state-ne-fault migrating i c a h = hit_slot-ne-fault query curr_time i others c a h

  answer_best-ne-fault :
      (b : ℤ) (a : Arena F)
      → is_negative b ≡ false
      → (answer_best others query curr_time b a).0 ≢ fault
  unfolding answer_best
  answer_best-ne-fault (negsuc n) a e h = ground arith
  answer_best-ne-fault (pos i) a e h =
      let loaded = others.before load_best a in
      let c = (loaded.metadata i).control_block in
      answer_state-ne-fault (unpack_control c).state i c loaded h

  look_up-ne-fault :
      (a : Arena F)
      → fl.le fl.similarity_threshold fl.minus_one ≡ false
      → (look_up others query curr_time a).0 ≢ fault
  look_up-ne-fault a law =
      let start = start others query curr_time in
      let (s, scanned) = scan_rounds others query curr_time l0_max_slots 0 start a in
      let t =
        scan_rounds-InTable others query curr_time l0_max_slots 0 start a (omega arith)
          (start-InTable others query curr_time) in
      rw (look_up-rounds others query curr_time a)
        (elim (Bool-cases (fl.le fl.similarity_threshold s.max_score)) [
          | inr e ↦ rw e (claim_slot-ne-fault s.reusable_node_id scanned)
          | inl e ↦ elim t.scored [
            | inl f ↦ rw e (answer_best-ne-fault s.best_node_id scanned f)
            | inr f ↦ absurd (ground arith)
          ]
        ])

caught-ne-fault :
    {S A : Type 0} (prefix : String) (response : A) (r : Result (Status × A)) (x : S)
    → r ≢ fault
    → (caught prefix response (r, x)).0 ≢ fault
caught-ne-fault prefix response (ok v) x h e = ground arith
caught-ne-fault prefix response (thrown v) x h e = ground arith
caught-ne-fault prefix response fault x h e = h refl

vectorized-ne-fault :
    {F : Type 0} ⦃fl : Floats F⦄ (others : Others F) (curr_time : ℕ) (r : Result (ℕ → F))
    (a : Arena F)
    → fl.le fl.similarity_threshold fl.minus_one ≡ false
    → r ≢ fault
    → (resume (r, a) λ query. look_up others query curr_time).0 ≢ fault
vectorized-ne-fault others curr_time (ok query) a law total h =
    look_up-ne-fault others query curr_time a law h
vectorized-ne-fault others curr_time (thrown e) a law total h = ground arith
vectorized-ne-fault others curr_time fault a law total h = total refl

pub check_cache-ne-fault :
    {F : Type 0} ⦃fl : Floats F⦄ (encode : List ℕ → Result (ℕ → F)) (others : Others F)
    (curr_time : ℕ) (prompt : List ℕ) (a : Arena F)
    → fl.le fl.similarity_threshold fl.minus_one ≡ false
    → encode prompt ≢ fault
    → (check_cache encode others curr_time prompt a).0 ≢ fault
unfolding check_cache
check_cache-ne-fault encode others curr_time [] a law total h = ground arith
check_cache-ne-fault encode others curr_time (byte ∷ prompt) a law total h =
    let r = encode (byte ∷ prompt) in
    let found = resume (r, a) (λ query. look_up others query curr_time) in
    caught-ne-fault "Encounter error: " empty_response found.0 found.1
      (vectorized-ne-fault others curr_time r a law total) h

caught_returns :
    {S A : Type 0} (prefix : String) (response : A) (r : Result (Status × A)) (x : S)
    → r ≢ fault
    → (v : Status × A) × ((caught prefix response (r, x)).0 ≡ ok v)
caught_returns prefix response (ok v) x whole = (v, refl)
caught_returns prefix response (thrown e) x whole = ((handler prefix e, response), refl)
caught_returns prefix response fault x whole = absurd (whole refl)

-- Whatever the other threads do during the call, it returns a status and a response, whether the
-- vectorization returns a vector or throws, if the vectorization accesses no memory outside its
-- allocations and the threshold is above -1: no exception leaves the handler, and it accesses no slot
-- beyond the table.
pub check_cache_returns :
    {F : Type 0} ⦃fl : Floats F⦄ (encode : List ℕ → Result (ℕ → F)) (others : Others F)
    (curr_time : ℕ) (prompt : List ℕ) (a : Arena F)
    → fl.le fl.similarity_threshold fl.minus_one ≡ false
    → encode prompt ≢ fault
    → (v : Status × CheckCacheResponse) × ((check_cache encode others curr_time prompt a).0 ≡ ok v)
unfolding check_cache
check_cache_returns encode others curr_time [] a law total =
    ((invalid "User prompt is empty", empty_response), refl)
check_cache_returns encode others curr_time (byte ∷ prompt) a law total =
    let r = encode (byte ∷ prompt) in
    let found = resume (r, a) (λ query. look_up others query curr_time) in
    caught_returns "Encounter error: " empty_response found.0 found.1
      (vectorized-ne-fault others curr_time r a law total)

-- Without a prompt, and when the vectorization throws, the status says so, the response is empty and
-- nothing is touched.
pub check_cache_refuses :
    {F : Type 0} ⦃fl : Floats F⦄ (encode : List ℕ → Result (ℕ → F)) (others : Others F)
    (curr_time : ℕ) (byte : ℕ) (prompt : List ℕ) (e : Exception) (a : Arena F)
    → encode (byte ∷ prompt) ≡ thrown e
    → (check_cache encode others curr_time [] a
        ≡ (ok (invalid "User prompt is empty", empty_response), a))
      × (check_cache encode others curr_time (byte ∷ prompt) a
          ≡ (ok (handler "Encounter error: " e, empty_response), a))
unfolding check_cache
check_cache_refuses encode others curr_time byte prompt e a h = (refl, rw h)
