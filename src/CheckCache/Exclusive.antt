-- ===== src/CheckCache/Exclusive.antt =====
-- Two claims of one dead slot in calls of `CheckCache` of engine/src/service.cc.
use semantic_sentinel.Base.{ℕ, ◌≡◌, ◌≢◌, sym, ap, ◌∙◌}
use semantic_sentinel.Base.Int.{pos, minus_one}
use semantic_sentinel.Float.{Floats}
use semantic_sentinel.Node.{dead, unpack_control, load_control}
use semantic_sentinel.Result.{ok}
use semantic_sentinel.Message.{status_ok}
use semantic_sentinel.Arena.{Arena}
use semantic_sentinel.CheckCache.{load_claim, claim, Others, claim_slot}
use semantic_sentinel.CheckCache.Expiry.{quiet_others}
use semantic_sentinel.CheckCache.Claim.{
  missed, claim_slot_grants, claim_slot_declines, claim_slot_forestalled,
}

module _ {F : Type 0} ⦃fl : Floats F⦄ (i : ℕ) where
  -- When another call claims the dead slot between a call's load of its word and its exchange, the
  -- other call alone is granted the slot: this call is told a miss with -1 for the slot, and leaves the
  -- word, the vector and the birth time that the other call stored; and so is every call that claims
  -- the slot after that, with no thread in its way.
  pub claim_slot_exclusive :
      (query first_query later_query : ℕ → F) (curr_time first_time later_time : ℕ)
      (others : Others F) (a : Arena F)
      → let loaded = others.before load_claim a in
        let first = claim_slot quiet_others first_query first_time (pos i) loaded in
        (load_control (loaded.metadata i)).state ≡ dead
        → others.before claim loaded ≡ first.1
        → (first.0 ≡ ok (status_ok, missed (pos i)))
          × (claim_slot others query curr_time (pos i) a
              ≡ (ok (status_ok, missed minus_one), first.1))
          × (claim_slot quiet_others later_query later_time (pos i) first.1
              ≡ (ok (status_ok, missed minus_one), first.1))
  claim_slot_exclusive query first_query later_query curr_time first_time later_time others a gone
        rival =
      let loaded = others.before load_claim a in
      let first = claim_slot quiet_others first_query first_time (pos i) loaded in
      let (b, granted, word, _, _, _) = claim_slot_grants first_query first_time i loaded gone in
      let alive : (load_control (first.1.metadata i)).state ≢ dead = λ h.
        let w = ap (λ r. (load_control (r.1.metadata i)).state) granted ∙ ap (λ u. u.state) word in
        cc in
      let taken : ((others.before claim loaded).metadata i).control_block
          ≢ (loaded.metadata i).control_block =
        λ same.
          let e : (load_control ((others.before claim loaded).metadata i)).state ≡ dead =
            unfold load_control in ap (λ c. (unpack_control c).state) same ∙ gone in
          alive (ap (λ z. (load_control (z.metadata i)).state) (sym rival) ∙ e) in
      (
        ap (λ r. r.0) granted,
        claim_slot_forestalled query curr_time i others a gone taken
            ∙ ap (λ z. (ok (status_ok, missed minus_one), z)) rival,
        claim_slot_declines later_query later_time i first.1 alive,
      )
