-- ===== src/CheckCache.antt =====
-- `SemanticServiceImpl::CheckCache` of engine/src/service.cc.
pub mod Expiry
pub mod Claim
pub mod Exclusive
pub mod Answer
pub mod Rounds
pub mod Bounds
pub mod Best
pub mod Maximal
pub mod Race
pub mod Find
pub mod Reuse
pub mod Granted
use semantic_sentinel.Base.{
  ℕ, zero, suc, ◌+◌, ◌-◌, ◌*◌, Bool, ltb, ◌==◌, if◌then◌else◌, List, [], ◌∷◌, sub64, shr,
}
use semantic_sentinel.Base.Int.{ℤ, pos, negsuc, minus_one, is_negative}
use semantic_sentinel.Constant.{vector_dim, total_max_slots, l0_max_slots, pending_lifespan}
use semantic_sentinel.Float.{Floats}
use semantic_sentinel.Similarity.{cosine_similarity}
use semantic_sentinel.Node.{
  NodeState, dead, pending, ready, migrating, hot, UnpackedControl, state_of, pack_control,
  unpack_control,
}
use semantic_sentinel.Memory.{within}
use semantic_sentinel.Result.{Result, Action, high_traffic, pure, throw, undefined, resume}
use semantic_sentinel.Message.{
  CacheState, CheckCacheResponse, empty_response, Status, status_ok, invalid, caught,
}
use semantic_sentinel.Arena.{Arena, read_payload}
use semantic_sentinel.Slot.{exchange_control, set_created_at}
use semantic_sentinel.Collector.{is_dead}

-- The accesses of a call to memory that other threads share, in the order of the code; the ones of
-- the scan are one for each slot.
pub data Moment : Type 0 where
  load_slot load_birth expire clear_birth score : ℕ → Moment
  load_best read_text touch load_claim claim fill_vector stamp : Moment

-- What a call meets: what the other threads do right before an access, and whether the allocator has
-- memory for the text of the response.
pub record Others (F : Type 0) : Type 0 where
  pub before : Moment → Arena F → Arena F
  pub resized : Bool

pub record Scan (F : Type 0) : Type 0 where
  pub max_score : F
  pub best_node_id : ℤ
  pub reusable_node_id : ℤ

-- `reusable_node_id = (reusable_node_id == -1) ? i : reusable_node_id`
abbrev pub first_reusable : ℤ → ℕ → ℤ
first_reusable reusable i = if is_negative reusable then pos i else reusable

-- `curr_time - birth_time > PENDING_LIFESPAN` on uint64_t
abbrev pub is_expired : ℕ → ℕ → Bool
is_expired curr_time birth_time = ltb pending_lifespan (sub64 curr_time birth_time)

-- `memory_arena.GetNode(static_cast<size_t>(node_id))`, and what the code does with the slot: a slot
-- beyond the table is no part of the arena. What comes of a negative number is left to the action.
abbrev pub with_node : {F A : Type 0} → ℤ → Action (Arena F) A → Action (Arena F) A
with_node (negsuc n) action a = action a
with_node (pos i) action a = if ltb i total_max_slots then action a else undefined a

module _ {F : Type 0} ⦃fl : Floats F⦄ (others : Others F) (query : ℕ → F) (curr_time : ℕ) where
  -- The comparison of a valid slot.
  unfoldable pub score_slot : ℕ → Scan F → Arena F → Scan F × Arena F
  score_slot i s a =
      let seen = others.before (score i) a in
      let curr_score = cosine_similarity query (λ j. seen.vectors (vector_dim * i + j)) in
      (
        if fl.lt s.max_score curr_score
            then record s { max_score = curr_score; best_node_id = pos i }
            else s,
        seen,
      )

  -- The exchange of a pending slot whose time is over, whose word was `best_ctrl`.
  unfoldable pub expire_slot : ℕ → ℕ → Scan F → Arena F → Scan F × Arena F
  expire_slot i best_ctrl s a =
      let u = unpack_control best_ctrl in
      let desired_ctrl = pack_control dead u.ref_bit u.length u.virtual_offset in
      let exchanged = exchange_control i best_ctrl desired_ctrl (others.before (expire i) a) in
      if exchanged.0
      then (
        record s { reusable_node_id = first_reusable s.reusable_node_id i },
        set_created_at i 0 (others.before (clear_birth i) exchanged.1),
      )
      else (s, exchanged.1)

  unfoldable pub scan_pending : ℕ → ℕ → Scan F → Arena F → Scan F × Arena F
  scan_pending i best_ctrl s a =
      let seen = others.before (load_birth i) a in
      let birth_time = (seen.metadata i).created_at in
      if birth_time == 0
      then (s, seen)
      else if is_expired curr_time birth_time
      then expire_slot i best_ctrl s seen
      else score_slot i s seen

  unfoldable pub scan_state : NodeState → ℕ → ℕ → Scan F → Arena F → Scan F × Arena F
  scan_state dead i best_ctrl s a =
      (record s { reusable_node_id = first_reusable s.reusable_node_id i }, a)
  scan_state pending i best_ctrl s a = scan_pending i best_ctrl s a
  scan_state ready i best_ctrl s a = score_slot i s a
  scan_state migrating i best_ctrl s a = score_slot i s a

  -- One round of the scan.
  unfoldable pub scan_slot : ℕ → Scan F → Arena F → Scan F × Arena F
  scan_slot i s a =
      let seen = others.before (load_slot i) a in
      let best_ctrl = (seen.metadata i).control_block in
      scan_state (unpack_control best_ctrl).state i best_ctrl s seen

  -- `count` rounds from slot `i`, each with accesses of the slot and of its vector.
  unfoldable pub scan_slots : ℕ → ℕ → Scan F → Action (Arena F) (Scan F)
  scan_slots zero i s a = pure s a
  scan_slots (suc count) i s a =
      let next = scan_slot i s a in
      let rest = scan_slots count (i + 1) next.0 next.1 in
      if ltb i total_max_slots then rest else undefined a

  -- The slot found dead or expired is claimed.
  unfoldable pub claim_slot : ℤ → Action (Arena F) (Status × CheckCacheResponse)
  claim_slot (negsuc n) a = throw high_traffic a
  claim_slot (pos i) a =
      let loaded = others.before load_claim a in
      let expected_ctrl = (loaded.metadata i).control_block in
      let desired_ctrl = pack_control pending hot 0 0 in
      let exchanged = exchange_control i expected_ctrl desired_ctrl (others.before claim loaded) in
      let missed : CheckCacheResponse = record empty_response {
        check_state = CacheState.miss;
        node_id = minus_one;
      } in
      let seen = others.before fill_vector exchanged.1 in
      let filled = record seen {
        vectors = λ k.
            if within (vector_dim * i) vector_dim k
            then query (k - vector_dim * i)
            else seen.vectors k;
      } in
      if is_dead (state_of (shr expected_ctrl 62))
      then if exchanged.0
        then pure (status_ok, record missed { node_id = pos i })
            (set_created_at i curr_time (others.before stamp filled))
        else pure (status_ok, missed) exchanged.1
      else pure (status_ok, missed) loaded

  -- A hit: the text is read, and the slot becomes hot if it has not changed.
  unfoldable pub hit_slot : ℕ → ℕ → UnpackedControl → Action (Arena F) (Status × CheckCacheResponse)
  hit_slot i best_ctrl u a =
      resume (read_payload others.resized u.virtual_offset u.length (others.before read_text a))
        λ text b.
          let desired_ctrl = pack_control u.state hot u.length u.virtual_offset in
          pure
            (
              status_ok,
              record { check_state = CacheState.hit; node_id = minus_one; cached_payload = text },
            )
            (exchange_control i best_ctrl desired_ctrl (others.before touch b)).1

  unfoldable pub answer_state : NodeState → ℕ → ℕ → Action (Arena F) (Status × CheckCacheResponse)
  answer_state ready i best_ctrl = hit_slot i best_ctrl (unpack_control best_ctrl)
  answer_state migrating i best_ctrl = hit_slot i best_ctrl (unpack_control best_ctrl)
  answer_state pending i best_ctrl =
      pure (status_ok, record empty_response { check_state = CacheState.pending; node_id = pos i })
  answer_state dead i best_ctrl = claim_slot (pos i)

  -- The slot with the best score, which reaches the threshold.
  unfoldable pub answer_best : ℤ → Action (Arena F) (Status × CheckCacheResponse)
  answer_best (negsuc n) a = undefined a
  answer_best (pos i) a =
      let loaded = others.before load_best a in
      let best_ctrl = (loaded.metadata i).control_block in
      answer_state (unpack_control best_ctrl).state i best_ctrl loaded

  -- What follows the vectorization of the prompt.
  unfoldable pub look_up : Action (Arena F) (Status × CheckCacheResponse)
  look_up a =
      let start : Scan F = record {
        max_score = fl.minus_one;
        best_node_id = minus_one;
        reusable_node_id = minus_one;
      } in
      resume (scan_slots l0_max_slots 0 start a) λ s scanned.
        if fl.le fl.similarity_threshold s.max_score
        then with_node s.best_node_id (answer_best s.best_node_id) scanned
        else with_node s.reusable_node_id (claim_slot s.reusable_node_id) scanned

-- The whole handler. `encode` is `Embedder::Encode`.
unfoldable pub check_cache :
    {F : Type 0} ⦃fl : Floats F⦄ (encode : List ℕ → Result (ℕ → F)) (others : Others F)
    → ℕ
    → List ℕ
    → Action (Arena F) (Status × CheckCacheResponse)
check_cache encode others curr_time [] a = pure (invalid "User prompt is empty", empty_response) a
check_cache encode others curr_time (byte ∷ prompt) a =
    caught "Encounter error: " empty_response
      (resume (encode (byte ∷ prompt), a) λ query. look_up others query curr_time)
