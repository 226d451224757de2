-- ===== src/SetCache.antt =====
-- `SemanticServiceImpl::SetCache` of engine/src/service.cc. The result beside the status is whether
-- the response says success.
pub mod Publish
pub mod Outcome
pub mod Store
use semantic_sentinel.Base.{
  ℕ, Bool, true, false, not, ◌&&◌, ltb, ◌==◌, if◌then◌else◌, List, [], ◌∷◌, length, u32, shr,
}
use semantic_sentinel.Base.Int.{ℤ, pos, negsuc}
use semantic_sentinel.Constant.{total_max_slots, max_payload_length}
use semantic_sentinel.Node.{NodeState, pending, ready, hot, state_code, pack_control}
use semantic_sentinel.Result.{
  Result, Action, ok, thrown, fault, pure, throw, undefined, resume, ◌>>=◌, ◌>>◌,
}
use semantic_sentinel.Message.{SetCacheRequest, Status, status_ok, invalid, caught}
use semantic_sentinel.Arena.{Arena, Turn, write_payload}
use semantic_sentinel.Slot.{exchange_control, set_control}

-- One turn of the loop over the weak exchange: what the other threads do before the exchange, and
-- whether it fails for no reason.
pub record Attempt (F : Type 0) : Type 0 where
  pub before_exchange : Arena F → Arena F
  pub spurious : Bool

-- What the other threads do during a call.
pub record Traffic (F : Type 0) : Type 0 where
  pub turns : List (Turn F)
  pub before_load : Arena F → Arena F
  pub attempts : List (Attempt F)

-- `static_cast<uint8_t>(expected_control >> 62) == static_cast<uint8_t>(NodeState::PENDING)`
abbrev pub is_pending : ℕ → Bool
is_pending control = shr control 62 == state_code pending

module _ {F : Type 0} where
  -- At the head of each turn `expected_control` is the slot's word, as it was loaded or as the
  -- exchange that failed found it. With no turn left no other thread is in the way.
  unfoldable pub publish : List (Attempt F) → ℕ → ℕ → Arena F → Bool × Arena F
  publish [] node_id desired_control a =
      let expected_control = (a.metadata node_id).control_block in
      if is_pending expected_control
      then exchange_control node_id expected_control desired_control a
      else (false, a)
  publish (attempt ∷ attempts) node_id desired_control a =
      let expected_control = (a.metadata node_id).control_block in
      let met = attempt.before_exchange a in
      let exchanged = exchange_control node_id expected_control desired_control met in
      let again = publish attempts node_id desired_control met in
      if is_pending expected_control
      then if exchanged.0 && not attempt.spurious then exchanged else again
      else (false, a)

  -- What follows the checks of the request, for a slot. The slot's word is loaded after the payload
  -- is written, with the number as it came.
  unfoldable pub fill_slot : Traffic F → ℕ → List ℕ → Action (Arena F) (Status × Bool)
  fill_slot traffic node_id payload a =
      let payload_len = u32 (length payload) in
      resume (write_payload traffic.turns node_id payload payload_len a) (λ new_offset b.
        let desired_control = pack_control ready hot payload_len new_offset in
        let published = publish traffic.attempts node_id desired_control (traffic.before_load b) in
        if ltb node_id total_max_slots
        then pure (status_ok, published.0) published.1
        else undefined (traffic.before_load b))

  unfoldable pub checked_set : Traffic F → ℤ → List ℕ → Action (Arena F) (Status × Bool)
  checked_set traffic (negsuc n) payload =
      pure (invalid "Attempt to WRITE using negative node_id", false)
  checked_set traffic (pos node_id) [] = pure (invalid "Cannot cache empty payload", false)
  checked_set traffic (pos node_id) (byte ∷ rest) =
      let payload = byte ∷ rest in
      if ltb max_payload_length (length payload)
      then pure (invalid "Oversized payload", false)
      else fill_slot traffic (u32 node_id) payload

  -- The whole handler.
  unfoldable pub set_cache : Traffic F → SetCacheRequest → Action (Arena F) (Status × Bool)
  set_cache traffic request a =
      caught "Encounter error" false
        (checked_set traffic request.node_id request.uncached_payload a)
