-- ===== src/CheckCache/Claim.antt =====
-- The claim of a dead slot at the end of `CheckCache` in engine/src/service.cc.
use semantic_sentinel.Base.{
  ℕ, ◌-◌, ◌*◌, ◌≡◌, ◌≢◌, ◌⊎◌, inl, inr, refl, fun_ext, arith, true, Bool-cases, [], ◌==◌,
  if◌then◌else◌, shr,
}
use semantic_sentinel.Base.Int.{ℤ, pos, minus_one}
use semantic_sentinel.Constant.{vector_dim}
use semantic_sentinel.Float.{Floats}
use semantic_sentinel.Node.{
  dead, pending, hot, state_of, pack_control, unpack_control, load_control,
}
use semantic_sentinel.Node.Layout.{unpack_control-pack_control}
use semantic_sentinel.Memory.{within}
use semantic_sentinel.Result.{ok}
use semantic_sentinel.Message.{CacheState, CheckCacheResponse, status_ok}
use semantic_sentinel.Arena.{Arena}
use semantic_sentinel.Slot.{set_node, set_control, set_created_at, exchange_control}
use semantic_sentinel.Collector.{is_dead}
use semantic_sentinel.CheckCache.{load_claim, claim, Others, claim_slot}
use semantic_sentinel.CheckCache.Expiry.{quiet_others}

-- A miss that grants the slot `node_id`.
abbrev pub missed : ℤ → CheckCacheResponse
missed node_id = record { check_state = CacheState.miss; node_id = node_id; cached_payload = [] }

pending_word :
    unpack_control (pack_control pending hot 0 0)
    ≡ record { state = pending; ref_bit = hot; length = 0; virtual_offset = 0 }
pending_word = unpack_control-pack_control pending hot 0 0

is_dead_lem : (c : ℕ) → (unpack_control c).state ≡ dead → is_dead (state_of (shr c 62)) ≡ true
unfolding unpack_control
is_dead_lem c h = ground (arith, h)

module _ {F : Type 0} ⦃fl : Floats F⦄ (query : ℕ → F) (curr_time i : ℕ) where
  -- With no other thread in the way a dead slot is granted: it is pending and hot from then on, was
  -- born at the handler's time, its vector, alone of all, is the prompt's, and no other slot is
  -- touched.
  pub claim_slot_grants :
      (a : Arena F)
      → (load_control (a.metadata i)).state ≡ dead
      → (a' : Arena F) × (claim_slot quiet_others query curr_time (pos i) a
          ≡ (ok (status_ok, missed (pos i)), a'))
        × (load_control (a'.metadata i)
            ≡ record { state = pending; ref_bit = hot; length = 0; virtual_offset = 0 })
        × ((a'.metadata i).created_at ≡ curr_time)
        × (a'.vectors ≡ λ k.
            if within (vector_dim * i) vector_dim k
            then query (k - vector_dim * i)
            else a.vectors k)
        × (a'.metadata ≡ (set_node i (a'.metadata i) a).metadata)
  unfolding claim_slot load_control exchange_control set_control set_created_at
  claim_slot_grants a gone =
      let d = pack_control pending hot 0 0 in
      let b = set_control i d a in
      let c = record b {
        vectors = λ k.
            if within (vector_dim * i) vector_dim k
            then query (k - vector_dim * i)
            else b.vectors k;
      } in
      (
        set_created_at i curr_time c,
        ground (arith, is_dead_lem (a.metadata i).control_block gone),
        ground (arith, pending_word),
        ground arith,
        refl,
        fun_ext λ j. ground arith,
      )

  -- A slot that is not dead is not granted, and nothing is touched.
  pub claim_slot_declines :
      (a : Arena F)
      → (load_control (a.metadata i)).state ≢ dead
      → claim_slot quiet_others query curr_time (pos i) a ≡ (ok (status_ok, missed minus_one), a)
  unfolding claim_slot load_control unpack_control
  claim_slot_declines a alive = ground arith

  -- Whatever the other threads do, the answer is a miss, and it grants the slot only where the slot
  -- was dead when its word was loaded and still had that word at the exchange.
  pub claim_slot_misses :
      (others : Others F) (a : Arena F)
      → let loaded = others.before load_claim a in
        let c = (loaded.metadata i).control_block in
        let met = others.before claim loaded in
        ((claim_slot others query curr_time (pos i) a).0 ≡ ok (status_ok, missed minus_one))
        ⊎ ((claim_slot others query curr_time (pos i) a).0 ≡ ok (status_ok, missed (pos i)))
          × (is_dead (state_of (shr c 62)) ≡ true)
          × ((met.metadata i).control_block ≡ c)
  unfolding claim_slot exchange_control
  claim_slot_misses others a =
      let loaded = others.before load_claim a in
      let c = (loaded.metadata i).control_block in
      let met = others.before claim loaded in
      elim (Bool-cases (is_dead (state_of (shr c 62)))) [
        | inr e ↦ inl (rw e)
        | inl e ↦ elim (Bool-cases ((met.metadata i).control_block == c)) [
          | inr f ↦ inl (rw (e, f))
          | inl f ↦ inr (rw (e, f), e, ground arith)
        ]
      ]

  -- A claim that another thread forestalls grants nothing and changes nothing: the response is a
  -- miss with -1 for the slot.
  pub claim_slot_forestalled :
      (others : Others F) (a : Arena F)
      → let loaded = others.before load_claim a in
        (load_control (loaded.metadata i)).state ≡ dead
        → ((others.before claim loaded).metadata i).control_block
          ≢ (loaded.metadata i).control_block
        → claim_slot others query curr_time (pos i) a
          ≡ (ok (status_ok, missed minus_one), others.before claim loaded)
  unfolding claim_slot exchange_control load_control
  claim_slot_forestalled others a gone taken =
      ground (arith, is_dead_lem ((others.before load_claim a).metadata i).control_block gone)
