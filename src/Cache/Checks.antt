-- ===== src/Cache/Checks.antt =====
-- `CheckCache` of engine/src/service.cc, with no other thread in the way, as a call on the cache.
use semantic_sentinel.Base.{
  ℕ, ◌+◌, ◌<◌, ◌≡◌, ◌≢◌, ◌⊎◌, inl, inr, refl, sym, ◌∙◌, ap, arith, subst, Bool-cases, List, [], ◌∷◌,
}
use semantic_sentinel.Base.Int.{ℤ, pos, negsuc, minus_one}
use semantic_sentinel.Constant.{l0_max_slots}
use semantic_sentinel.Float.{Floats}
use semantic_sentinel.Node.{
  NodeState, dead, pending, ready, migrating, unpack_control, load_control,
}
use semantic_sentinel.Result.{Result, Exception, foreign, high_traffic, ok, thrown, fault, resume}
use semantic_sentinel.Message.{
  CheckCacheResponse, Status, empty_response, caught, handler, internal, invalid,
}
use semantic_sentinel.Arena.{Arena, header_size}
use semantic_sentinel.Arena.Ring.{ring_text}
use semantic_sentinel.Arena.Queue.{Entry}
use semantic_sentinel.Slot.Kept.{Kept}
use semantic_sentinel.CheckCache.{Scan, claim_slot, answer_state, answer_best, look_up, check_cache}
use semantic_sentinel.CheckCache.Rounds.{scan_rounds, look_up-rounds}
use semantic_sentinel.CheckCache.Expiry.{quiet_others}
use semantic_sentinel.CheckCache.Claim.{claim_slot_grants}
use semantic_sentinel.CheckCache.Reuse.{Reuse, scan_rounds-Reuse}
use semantic_sentinel.CheckCache.Answer.{hit_slot_serves}
use semantic_sentinel.Engine.Checks.{scan_rounds-Ages, claim_slot-Kept, hit_slot-Ages}
use semantic_sentinel.Engine.Stores.{Kept-IsSound}
use semantic_sentinel.Cache.{
  free, claimed, filled, Cache, put, Aged, Aged-trans, Aged-filled, Checked, refused, hit, wait,
  grant, crowded,
}
use semantic_sentinel.Cache.View.{slot_of}
use semantic_sentinel.Cache.Claims.{Ages-StandsFor}
use semantic_sentinel.Cache.Shows.{
  Shows, Shows-free, Shows-claimed, StandsFor, StandsFor-view, put-StandsFor,
}

-- A call has a reply that the cache admits, or ends with an exception or an access outside the arena.
data Told (v : Cache) : Result (Status × CheckCacheResponse) → Cache → Type 0 where
  replied : {r : Result (Status × CheckCacheResponse)} {w : Cache} → Checked v r w → Told v r w
  threw : (e : Exception) → Told v (thrown e) v
  busy :
      {w : Cache}
      → ((i : ℕ) → i < l0_max_slots → w i ≢ free)
      → Aged v w
      → Told v (thrown high_traffic) w
  lost : {w : Cache} → Aged v w → Told v fault w

module _ {F : Type 0} where
  -- What a call leaves of an arena that stands for `v`.
  abbrev Leaves : List Entry → Cache → Result (Status × CheckCacheResponse) × Arena F → Type 0
  Leaves q v r = (w : Cache) × StandsFor r.1 q w × Told v r.0 w

  module _ ⦃fl : Floats F⦄ (query : ℕ → F) (curr_time : ℕ) {q : List Entry} {v : Cache} where
    granted-Leaves :
        (i : ℕ) {b : Arena F} {w : Cache}
        → (load_control (b.metadata i)).state ≡ dead
        → StandsFor b q w
        → Aged v w
        → Leaves q v (claim_slot quiet_others query curr_time (pos i) b)
    granted-Leaves i {b} {w} gone s aged =
        let (a', e, word, _, _, meta) = claim_slot_grants query curr_time i b gone in
        let k = subst (λ r. Kept b r.1) e (claim_slot-Kept query curr_time (pos i) b) in
        let t = k.tail in
        let is_free =
          Shows-free b.read_tail q i (load_control (b.metadata i)) (w i) gone (s.shows i) in
        subst (Leaves q v) (sym e) (
          put i claimed w,
          put-StandsFor i claimed a' q w (Kept-IsSound k s.sound) (ap (λ u. u.state) word)
              (λ j apart.
                let same : a'.metadata j ≡ b.metadata j = ap (λ f. f j) meta ∙ ground arith in
                rw (t, same) (s.shows j)),
          replied (grant i w is_free aged),
        )

    claim_slot-Leaves :
        (i : ℤ) {b : Arena F} {w : Cache}
        → Reuse query curr_time l0_max_slots i b
        → StandsFor b q w
        → Aged v w
        → Leaves q v (claim_slot quiet_others query curr_time i b)
    unfolding claim_slot
    claim_slot-Leaves (negsuc n) {b} {w} none s aged = (
      w,
      s,
      busy
          (λ i lo is_free.
            none i lo
              (subst (Shows b.read_tail q i (load_control (b.metadata i))) is_free (s.shows i)))
          aged,
    )
    claim_slot-Leaves (pos i) (_, gone) s aged = granted-Leaves i gone s aged

    answer_state-Leaves :
        (n : NodeState) (i : ℕ) {b : Arena F} {w : Cache}
        → (load_control (b.metadata i)).state ≡ n
        → StandsFor b q w
        → Aged v w
        → Leaves q v (answer_state quiet_others query curr_time n i (b.metadata i).control_block b)
    unfolding answer_state
    answer_state-Leaves dead i gone s aged = granted-Leaves i gone s aged
    answer_state-Leaves pending i {b} {w} e s aged =
        let u = load_control (b.metadata i) in
        (w, s, replied (wait i (Shows-claimed b.read_tail q i u (w i) e (s.shows i)) aged))
    answer_state-Leaves ready i {b} {w} e s aged =
        let c = (b.metadata i).control_block in
        let u = unpack_control c in
        let text = ring_text b.buffer_payload (u.virtual_offset + header_size) u.length in
        let (z, t, older) = Ages-StandsFor (hit_slot-Ages query curr_time i b) s in
        let has : w i ≡ filled text =
          unfold load_control in
          sym (ap (λ f. f i) (StandsFor-view s)) ∙ ap (λ n. slot_of n text) e in
        let r = ap (λ x. x.0) (hit_slot_serves query curr_time i quiet_others c b refl) in
        (
          z,
          t,
          subst (λ x. Told v x z) (sym r)
              (replied (hit i text (Aged-filled i text aged has) (Aged-trans aged older))),
        )
    answer_state-Leaves migrating i {b} e s aged =
        absurd ((s.sound.settled i).settled (unfold load_control in e))

    answer_best-Leaves :
        (best : ℤ) {b : Arena F} {w : Cache}
        → StandsFor b q w
        → Aged v w
        → Leaves q v (answer_best quiet_others query curr_time best b)
    unfolding answer_best
    answer_best-Leaves (negsuc n) {b} {w} s aged = (w, s, lost aged)
    answer_best-Leaves (pos i) {b} s aged =
        answer_state-Leaves (unpack_control (b.metadata i).control_block).state i
          (unfold load_control in refl) s aged

    look_up-Leaves :
        {a : Arena F} → StandsFor a q v → Leaves q v (look_up quiet_others query curr_time a)
    look_up-Leaves {a} s =
        let start : Scan F = record {
          max_score = fl.minus_one;
          best_node_id = minus_one;
          reusable_node_id = minus_one;
        } in
        let (r, b) = scan_rounds quiet_others query curr_time l0_max_slots 0 start a in
        let (w, t, aged) =
          Ages-StandsFor (scan_rounds-Ages query curr_time l0_max_slots 0 start a) s in
        let reuse =
          scan_rounds-Reuse query curr_time l0_max_slots 0 start a (λ j lo. absurd (omega arith)) in
        rw (look_up-rounds quiet_others query curr_time a)
          (elim (Bool-cases (fl.le fl.similarity_threshold r.max_score)) [
            | inl e ↦ rw e (answer_best-Leaves r.best_node_id t aged)
            | inr e ↦ rw e (claim_slot-Leaves r.reusable_node_id reuse t aged)
          ])

vectorized-Leaves :
    {F : Type 0} ⦃fl : Floats F⦄ (curr_time : ℕ) (r : Result (ℕ → F)) (a : Arena F) {q : List Entry}
    {v : Cache}
    → StandsFor a q v
    → Leaves q v (resume (r, a) λ query. look_up quiet_others query curr_time)
vectorized-Leaves curr_time (ok query) a s = look_up-Leaves query curr_time s
vectorized-Leaves curr_time (thrown e) a {q} {v} s = (v, s, threw e)
vectorized-Leaves curr_time fault a {q} {v} s = (v, s, lost (λ i. inl refl))

-- The handler of exceptions turns one into a refusal.
handler-internal : (e : Exception) → (handler "Encounter error: " e).code ≡ internal
handler-internal e = elim e as (λ x. (handler "Encounter error: " x).code ≡ internal) [
  | foreign ↦ refl
  | _ ↦ refl
]

Checked-caught :
    {F : Type 0} {v w : Cache} (r : Result (Status × CheckCacheResponse)) (b : Arena F)
    → Checked v r w
    → caught "Encounter error: " empty_response (r, b) ≡ (r, b)
Checked-caught (ok r) b t = refl
Checked-caught (thrown e) b t = elim t [ ]
Checked-caught fault b t = elim t [ ]

-- What a whole call leaves.
abbrev pub Answers :
    {F : Type 0} → List Entry → Cache → Result (Status × CheckCacheResponse) × Arena F → Type 0
Answers q v r = (w : Cache) × StandsFor r.1 q w × (Checked v r.0 w ⊎ ((r.0 ≡ fault) × Aged v w))

caught-Answers :
    {F : Type 0} (r : Result (Status × CheckCacheResponse)) (b : Arena F) {q : List Entry}
    {v w : Cache}
    → StandsFor b q w
    → Told v r w
    → Answers q v (caught "Encounter error: " empty_response (r, b))
caught-Answers r b {q} {v} {w} s (replied t) =
    subst (Answers q v) (sym (Checked-caught r b t)) (w, s, inl t)
caught-Answers r b {q} {v} {w} s (threw e) =
    (v, s, inl (refused (handler "Encounter error: " e) (λ h. let c = handler-internal e in cc)))
caught-Answers r b {q} {v} {w} s (busy none t) = (w, s, inl (crowded none t))
caught-Answers r b {q} {v} {w} s (lost t) = (w, s, inr (refl, t))

-- A call with no other thread in the way, on an arena that stands for a cache.
pub check_cache-Answers :
    {F : Type 0} ⦃fl : Floats F⦄ (encode : List ℕ → Result (ℕ → F)) (curr_time : ℕ)
    (prompt : List ℕ) (a : Arena F) (q : List Entry) (v : Cache)
    → StandsFor a q v
    → Answers q v (check_cache encode quiet_others curr_time prompt a)
unfolding check_cache
check_cache-Answers encode curr_time [] a q v s =
    (v, s, inl (refused (invalid "User prompt is empty") (λ h. cc)))
check_cache-Answers encode curr_time (byte ∷ prompt) a q v s =
    let r = encode (byte ∷ prompt) in
    let found = resume (r, a) (λ query. look_up quiet_others query curr_time) in
    let (w, t, told) = vectorized-Leaves curr_time r a s in caught-Answers found.0 found.1 t told
