-- ===== src/SetCache/Publish.antt =====
-- The exchange loop of `SetCache` in engine/src/service.cc, against any other threads.
use semantic_sentinel.Base.{
  ℕ, ◌≡◌, inl, inr, refl, arith, Bool, true, false, ◌&&◌, not, Bool-cases, List, [], ◌∷◌,
}
use semantic_sentinel.Arena.{Arena}
use semantic_sentinel.Slot.{exchange_control, set_control}
use semantic_sentinel.SetCache.{Attempt, is_pending, publish}

-- The arena that the loop looks at, at the head of a turn or at an exchange, after none, some or all
-- of what the other threads do.
pub data Passed {F : Type 0} : List (Attempt F) → Arena F → Arena F → Type 0 where
  here : {attempts : List (Attempt F)} {a : Arena F} → Passed attempts a a
  next :
      {attempt : Attempt F} {attempts : List (Attempt F)} {a b : Arena F}
      → Passed attempts (attempt.before_exchange a) b
      → Passed (attempt ∷ attempts) a b

-- What the loop leaves: the new word over a word that said pending, in an arena that it came by, or
-- such an arena as it is, in which the slot is not pending.
abbrev pub Published : {F : Type 0} → List (Attempt F) → ℕ → ℕ → Arena F → Bool × Arena F → Type 0
Published {F} attempts node_id desired a (true, b) =
    (met : Arena F) × Passed attempts a met
    × (is_pending (met.metadata node_id).control_block ≡ true)
    × (b ≡ set_control node_id desired met)
Published attempts node_id desired a (false, b) =
    Passed attempts a b × (is_pending (b.metadata node_id).control_block ≡ false)

Published-next :
    {F : Type 0} (attempt : Attempt F) (attempts : List (Attempt F)) (node_id desired : ℕ)
    (a : Arena F) (r : Bool × Arena F)
    → Published attempts node_id desired (attempt.before_exchange a) r
    → Published (attempt ∷ attempts) node_id desired a r
Published-next attempt attempts node_id desired a (true, b) (met, passed, waits, e) =
    (met, next passed, waits, e)
Published-next attempt attempts node_id desired a (false, b) (passed, busy) = (next passed, busy)

-- An exchange that wrote.
exchange_control_won :
    {F : Type 0} (node_id expected desired : ℕ) (a : Arena F)
    → (exchange_control node_id expected desired a).0 ≡ true
    → ((a.metadata node_id).control_block ≡ expected)
      × (exchange_control node_id expected desired a ≡ (true, set_control node_id desired a))
unfolding exchange_control
exchange_control_won node_id expected desired a h = ground arith

module _ {F : Type 0} where
  -- Whatever the other threads do between the turns, the loop says success only if its exchange
  -- wrote the new word, and nothing else, over the word of a pending slot, in the arena as what they
  -- had done until then left it; and it says failure only if it changed nothing and what they had done
  -- until then left the slot not pending.
  pub publish-Published :
      (attempts : List (Attempt F)) (node_id desired : ℕ) (a : Arena F)
      → Published attempts node_id desired a (publish attempts node_id desired a)
  unfolding publish
  publish-Published [] node_id desired a =
      let c = (a.metadata node_id).control_block in
      elim (Bool-cases (is_pending c)) [
        | inl e ↦
            let w =
              exchange_control_won node_id c desired a (unfold exchange_control in ground arith) in
            rw (e, w.1) (a, here, e, refl)
        | inr e ↦ rw e (here, e)
      ]
  publish-Published (t ∷ ts) node_id desired a =
      let c = (a.metadata node_id).control_block in
      let met = t.before_exchange a in
      let done = (exchange_control node_id c desired met).0 && not t.spurious in
      elim (Bool-cases (is_pending c)) [
        | inl e ↦ elim (Bool-cases done) [
          | inl won ↦
              let w = exchange_control_won node_id c desired met (ground arith) in
              rw (e, won, w.1) (met, next here, rw (w.0) e, refl)
          | inr lost ↦
              rw (e, lost)
                (Published-next t ts node_id desired a (publish ts node_id desired met)
                  (publish-Published ts node_id desired met))
        ]
        | inr e ↦ rw e (here, e)
      ]
