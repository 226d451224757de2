-- ===== src/CheckCache/Find.antt =====
-- Whole calls of `CheckCache` in engine/src/service.cc with no other thread in the way.
use Prim.Native.String.{String}
use semantic_sentinel.Base.{
  ℕ, zero, suc, ◌+◌, ◌<◌, ◌≡◌, ◌≢◌, ◌⊎◌, inl, inr, refl, sym, ◌∙◌, ap, arith, true, false,
  Bool-cases, ◌==◌, List, ◌∷◌,
}
use semantic_sentinel.Base.Int.{pos, minus_one}
use semantic_sentinel.Constant.{l0_max_slots}
use semantic_sentinel.Float.{Floats}
use semantic_sentinel.Node.{
  NodeState, dead, pending, ready, migrating, unpack_control, load_control,
}
use semantic_sentinel.Result.{Result, ok, thrown, fault, resume}
use semantic_sentinel.Message.{
  CacheState, CheckCacheResponse, Status, status_ok, empty_response, caught,
}
use semantic_sentinel.Arena.{Arena, header_size}
use semantic_sentinel.Arena.Ring.{ring_text}
use semantic_sentinel.CheckCache.{
  Scan, is_expired, score_slot, expire_slot, scan_pending, scan_state, scan_slot, answer_state,
  answer_best, look_up, check_cache,
}
use semantic_sentinel.CheckCache.Rounds.{scan_rounds, look_up-rounds}
use semantic_sentinel.CheckCache.Expiry.{quiet_others}
use semantic_sentinel.CheckCache.Best.{
  score_of, IsReadable, IsOrder, scan_slot-Rounded, scan_rounds_maximal,
}
use semantic_sentinel.CheckCache.Answer.{served, answer_best_serves}

-- The laws of comparisons with the threshold, which is above -1. They hold of IEEE 754 numbers: where
-- `lt w x` holds, `x` is comparable.
pub record IsThreshold {F : Type 0} (fl : Floats F) : Type 0 where
  pub above_start : (y : F) → fl.le fl.similarity_threshold y ≡ true → fl.lt fl.minus_one y ≡ true
  pub reached :
      (w x y : F)
      → fl.lt w x ≡ true
      → fl.lt x y ≡ false
      → fl.le fl.similarity_threshold y ≡ true
      → fl.le fl.similarity_threshold x ≡ true

-- An answer that is no miss.
abbrev pub IsAnswered : {F : Type 0} → Result (Status × CheckCacheResponse) × Arena F → Type 0
IsAnswered r =
    (response : CheckCacheResponse) × (r.0 ≡ ok (status_ok, response))
    × (response.check_state ≢ CacheState.miss)

module _ {F : Type 0} ⦃fl : Floats F⦄ (query : ℕ → F) (curr_time : ℕ) where
  abbrev state_at : Arena F → ℕ → NodeState
  state_at a i = (load_control (a.metadata i)).state

  -- What a scan has come up with: nothing, or a slot that is not dead, with a comparable score.
  pub data Found (s : Scan F) (a : Arena F) (i : ℕ) : Type 0 where
    nothing : s.max_score ≡ fl.minus_one → Found s a i
    slot :
        (k : ℕ) (w : F)
        → k < i
        → s.best_node_id ≡ pos k
        → fl.lt w s.max_score ≡ true
        → state_at a k ≢ dead
        → Found s a i

  -- A slot that a round takes is not dead after it.
  abbrev Taken : ℕ → Scan F → Scan F × Arena F → Type 0
  Taken i s r =
      ((r.0.max_score ≡ s.max_score) × (r.0.best_node_id ≡ s.best_node_id))
      ⊎ ((r.0.best_node_id ≡ pos i)
          × (fl.lt s.max_score r.0.max_score ≡ true)
          × (state_at r.1 i ≢ dead))

  score_slot-Taken :
      (i : ℕ) (s : Scan F) (a : Arena F)
      → state_at a i ≢ dead
      → Taken i s (score_slot quiet_others query curr_time i s a)
  unfolding score_slot
  score_slot-Taken i s a alive = elim (Bool-cases (fl.lt s.max_score (score_of query a i))) [
    | inl e ↦ inr (rw e, rw e e, alive)
    | inr e ↦ inl (rw e, rw e)
  ]

  scan_pending-Taken :
      (i c : ℕ) (s : Scan F) (a : Arena F)
      → state_at a i ≢ dead
      → Taken i s (scan_pending quiet_others query curr_time i c s a)
  unfolding scan_pending expire_slot
  scan_pending-Taken i c s a alive =
      let birth_time = (a.metadata i).created_at in
      elim (Bool-cases (birth_time == 0)) [
        | inl e ↦ rw e (inl (refl, refl))
        | inr e ↦ elim (Bool-cases (is_expired curr_time birth_time)) [
          | inl f ↦ rw (e, f) (inl (ground arith, ground arith))
          | inr f ↦ rw (e, f) (score_slot-Taken i s a alive)
        ]
      ]

  scan_state-Taken :
      (n : NodeState) (i c : ℕ) (s : Scan F) (a : Arena F)
      → state_at a i ≡ n
      → Taken i s (scan_state quiet_others query curr_time n i c s a)
  unfolding scan_state
  scan_state-Taken dead i c s a e = inl (refl, refl)
  scan_state-Taken pending i c s a e = scan_pending-Taken i c s a (λ d. cc)
  scan_state-Taken ready i c s a e = score_slot-Taken i s a (λ d. cc)
  scan_state-Taken migrating i c s a e = score_slot-Taken i s a (λ d. cc)

  scan_slot-Found :
      (i : ℕ) (s : Scan F) (a : Arena F)
      → Found s a i
      → let r = scan_slot quiet_others query curr_time i s a in Found r.0 r.1 (i + 1)
  unfolding scan_slot
  scan_slot-Found i s a f =
      let c = (a.metadata i).control_block in
      let n = (unpack_control c).state in
      let r = scan_slot-Rounded query curr_time i s a in
      let at : state_at a i ≡ n = unfold load_control in refl in
      elim (scan_state-Taken n i c s a at) [
        | inr (best, better, alive) ↦ slot i s.max_score (omega arith) best better alive
        | inl (same, kept) ↦ elim f [
          | nothing e ↦ nothing (same ∙ e)
          | slot k w lo best better alive ↦
              let stay = r.slots_stay k (λ e. absurd (omega arith)) in
              slot k w (omega arith) (kept ∙ best) (ap (fl.lt w) same ∙ better)
                (λ d. alive (ap (λ m. (load_control m).state) (sym stay) ∙ d))
        ]
      ]

  scan_rounds-Found :
      (count i : ℕ) (s : Scan F) (a : Arena F)
      → Found s a i
      → let r = scan_rounds quiet_others query curr_time count i s a in Found r.0 r.1 (i + count)
  unfolding scan_rounds
  scan_rounds-Found zero i s a f = let e : i + 0 ≡ i = omega arith in rw e f
  scan_rounds-Found (suc count) i s a f =
      let (s', a') = scan_slot quiet_others query curr_time i s a in
      let e : i + suc count ≡ i + 1 + count = omega arith in
      rw e (scan_rounds-Found count (i + 1) s' a' (scan_slot-Found i s a f))

  served-IsAnswered :
      (k : ℕ) (a : Arena F)
      → IsReadable (state_at a k)
      → IsAnswered (answer_best quiet_others query curr_time (pos k) a)
  served-IsAnswered k a valid =
      let u = load_control (a.metadata k) in
      let (b, f, _, _) = answer_best_serves query curr_time k a valid in
      (
        served (ring_text a.buffer_payload (u.virtual_offset + header_size) u.length),
        ap (λ r. r.0) f,
        λ h. cc,
      )

  answer_best-IsAnswered :
      (k : ℕ) (n : NodeState) (a : Arena F)
      → state_at a k ≡ n
      → n ≢ dead
      → IsAnswered (answer_best quiet_others query curr_time (pos k) a)
  answer_best-IsAnswered k dead a e alive = absurd (alive refl)
  answer_best-IsAnswered k pending a e alive =
      let c = (a.metadata k).control_block in
      let at : (unpack_control c).state ≡ pending = unfold load_control in e in
      let waits : CheckCacheResponse = record empty_response {
        check_state = CacheState.pending;
        node_id = pos k;
      } in
      (
        waits,
        unfold answer_best answer_state in
            ap (λ n. (answer_state quiet_others query curr_time n k c a).0) at,
        λ h. cc,
      )
  answer_best-IsAnswered k ready a e alive = served-IsAnswered k a (inl e)
  answer_best-IsAnswered k migrating a e alive = served-IsAnswered k a (inr e)

  look_up-IsAnswered :
      IsOrder fl
      → IsThreshold fl
      → (a : Arena F) (j : ℕ) → j < l0_max_slots
      → IsReadable (state_at a j)
      → fl.le fl.similarity_threshold (score_of query a j) ≡ true
      → IsAnswered (look_up quiet_others query curr_time a)
  look_up-IsAnswered order law a j lo valid near =
      let start : Scan F = record {
        max_score = fl.minus_one;
        best_node_id = minus_one;
        reusable_node_id = minus_one;
      } in
      let (s, b) = scan_rounds quiet_others query curr_time l0_max_slots 0 start a in
      let y = score_of query a j in
      let below =
        scan_rounds_maximal query curr_time order l0_max_slots 0 start a j (omega arith)
          (omega arith) valid in
      rw (look_up-rounds quiet_others query curr_time a)
        (elim (scan_rounds-Found l0_max_slots 0 start a (nothing refl)) [
          | nothing e ↦
              let up = law.above_start y near in
              let low = ap (λ x. fl.lt x y) (sym e) ∙ below in absurd (ground arith)
          | slot k w in_table best better alive ↦
              let enough = law.reached w s.max_score y better below near in
              let (r, e, f) = answer_best-IsAnswered k (state_at b k) b refl alive in
              rw (enough, best) (r, e, f)
        ])

caught-ok :
    {S A : Type 0} (prefix : String) (response : A) (x : Result (Status × A) × S) {v : Status × A}
    → x.0 ≡ ok v
    → (caught prefix response x).0 ≡ ok v
caught-ok prefix response (ok v, s) h = h
caught-ok prefix response (thrown e, s) h = absurd (ground arith)
caught-ok prefix response (fault, s) h = h

-- With no other thread in the way, with memory for the text of the response, and under the laws of
-- comparison, a call whose prompt is vectorized does not miss while a ready or migrating slot of the
-- first level reaches the threshold: it answers with a hit, or with a pending slot.
pub check_cache-IsAnswered :
    {F : Type 0} ⦃fl : Floats F⦄ (encode : List ℕ → Result (ℕ → F)) (query : ℕ → F)
    (curr_time byte : ℕ) (prompt : List ℕ) (a : Arena F) (j : ℕ)
    → IsOrder fl
    → IsThreshold fl
    → encode (byte ∷ prompt) ≡ ok query
    → j < l0_max_slots
    → IsReadable (load_control (a.metadata j)).state
    → fl.le fl.similarity_threshold (score_of query a j) ≡ true
    → IsAnswered (check_cache encode quiet_others curr_time (byte ∷ prompt) a)
unfolding check_cache
check_cache-IsAnswered encode query curr_time byte prompt a j order law encoded lo valid near =
    let (r, e, f) = look_up-IsAnswered query curr_time order law a j lo valid near in
    let found = resume (encode (byte ∷ prompt), a) (λ q. look_up quiet_others q curr_time) in
    (r, caught-ok "Encounter error: " empty_response found (rw encoded e), f)
