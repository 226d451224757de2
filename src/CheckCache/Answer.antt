-- ===== src/CheckCache/Answer.antt =====
-- The answer of `CheckCache` in engine/src/service.cc from the slot with the best score, also
-- after `SetCache`.
use native.Mathlib.Decide.{dec_lt}
use semantic_sentinel.Base.{
  ℕ, ◌+◌, ◌%◌, ◌^◌, ◌≤◌, ◌<◌, ◌≡◌, ◌⊎◌, inl, inr, refl, ◌∙◌, ap, arith, true, List, length, add64,
  Bool-cases, false, ◌≢◌,
}
use semantic_sentinel.Base.Int.{pos, minus_one}
use semantic_sentinel.Constant.{payload_buffer_size, max_payload_length, total_max_slots}
use semantic_sentinel.Float.{Floats}
use semantic_sentinel.Node.{
  NodeState, ready, migrating, hot, UnpackedControl, pack_control, unpack_control, load_control,
}
use semantic_sentinel.Node.Layout.{unpack_control-pack_control, unpack_control-fields}
use semantic_sentinel.Result.{ok, thrown, fault, bad_alloc}
use semantic_sentinel.Message.{CacheState, CheckCacheResponse, status_ok, SetCacheRequest}
use semantic_sentinel.Arena.{Arena, header_size, header_padding, read_payload}
use semantic_sentinel.Arena.Allocate.{used, IsValid}
use semantic_sentinel.Arena.Ring.{ring_text, read_payload-ring_text}
use semantic_sentinel.Slot.{set_control, exchange_control}
use semantic_sentinel.CheckCache.{read_text, touch, Others, hit_slot, answer_state, answer_best}
use semantic_sentinel.CheckCache.Expiry.{quiet_others}
use semantic_sentinel.SetCache.{is_pending, set_cache}
use semantic_sentinel.SetCache.Outcome.{quiet_traffic, IsAdmitted}
use semantic_sentinel.SetCache.Store.{set_cache_stores}

-- A hit with the text `text`.
abbrev pub served : List ℕ → CheckCacheResponse
served text = record { check_state = CacheState.hit; node_id = minus_one; cached_payload = text }

unpack_control-small : (c : ℕ) → (unpack_control c).length ≤ max_payload_length
unpack_control-small c = ground (arith, unpack_control-fields c)

-- A word with the reference bit set keeps its other fields.
pub hot_word :
    (c : ℕ)
    → let u = unpack_control c in
      unpack_control (pack_control u.state hot u.length u.virtual_offset)
      ≡ record u { ref_bit = hot }
hot_word c =
    let u = unpack_control c in
    unpack_control-pack_control u.state hot u.length u.virtual_offset
    ∙ ground (arith, unpack_control-fields c)

module _ {F : Type 0} ⦃fl : Floats F⦄ (query : ℕ → F) (curr_time i : ℕ) where
  -- With memory for the text of the response, a hit answers with whatever the ring holds at the offset
  -- of the word `c` at the time of the reading, whatever the other threads did since the word was
  -- loaded: no later access is looked at.
  pub hit_slot_serves :
      (others : Others F) (c : ℕ) (a : Arena F)
      → others.resized ≡ true
      → let u = unpack_control c in
        let seen = others.before read_text a in
        hit_slot others query curr_time i c u a ≡ (
          ok (
            status_ok,
            served (ring_text seen.buffer_payload (u.virtual_offset + header_size) u.length),
          ),
          (exchange_control i c
              (pack_control u.state hot u.length u.virtual_offset)
              (others.before touch seen)).1,
        )
  unfolding hit_slot
  hit_slot_serves others c a enough =
      let u = unpack_control c in
      rw (
        enough,
        read_payload-ring_text u.virtual_offset u.length (others.before read_text a)
            (omega (arith, unpack_control-small c)),
      )

  -- Without memory for it the text is not read, and an exception is thrown.
  pub hit_slot_starved :
      (others : Others F) (c : ℕ) (a : Arena F)
      → others.resized ≡ false
      → let u = unpack_control c in
        0 < u.length
        → hit_slot others query curr_time i c u a ≡ (thrown bad_alloc, others.before read_text a)
  unfolding hit_slot read_payload
  hit_slot_starved others c a short some_text = ground arith

  -- A hit accesses no memory outside the buffer.
  pub hit_slot-ne-fault :
      (others : Others F) (c : ℕ) (a : Arena F)
      → (hit_slot others query curr_time i c (unpack_control c) a).0 ≢ fault
  hit_slot-ne-fault others c a h = elim (Bool-cases others.resized) [
    | inl enough ↦ ground (arith, hit_slot_serves others c a enough)
    | inr short ↦ elim (dec_lt 0 (unpack_control c).length) [
      | yes some_text ↦ ground (arith, hit_slot_starved others c a short some_text)
      | no empty ↦ unfold hit_slot read_payload in ground arith
    ]
  ]

  -- With no other thread in the way a ready or migrating slot is served from the ring, and its word
  -- says hot afterwards and is otherwise the same.
  pub answer_best_serves :
      (a : Arena F)
      → let u = load_control (a.metadata i) in
        (u.state ≡ ready) ⊎ (u.state ≡ migrating)
        → (a' : Arena F) × (answer_best quiet_others query curr_time (pos i) a ≡ (
          ok (
            status_ok,
            served (ring_text a.buffer_payload (u.virtual_offset + header_size) u.length),
          ),
          a',
        ))
          × (load_control (a'.metadata i) ≡ record u { ref_bit = hot })
          × (a'.buffer_payload ≡ a.buffer_payload)
  unfolding answer_best answer_state load_control exchange_control set_control
  answer_best_serves a valid =
      let c = (a.metadata i).control_block in
      let u = unpack_control c in
      let text = ring_text a.buffer_payload (u.virtual_offset + header_size) u.length in
      let b = set_control i (pack_control u.state hot u.length u.virtual_offset) a in
      let e : hit_slot quiet_others query curr_time i c u a ≡ (ok (status_ok, served text), b) =
        hit_slot_serves quiet_others c a refl ∙ ground arith in
      let at = λ (s : NodeState). answer_state quiet_others query curr_time s i c a in
      (
        b,
        elim valid [ inl r ↦ ap at r ∙ e | inr m ↦ ap at m ∙ e ],
        ground (arith, hot_word c),
        refl,
      )

-- What `SetCache` stores is what `CheckCache` serves: after a request for a pending slot, when its
-- payload fits, no other thread is in the way, and there is memory for the text of the response, the
-- slot answers with a hit and that payload.
pub answer_best-set_cache :
    {F : Type 0} ⦃fl : Floats F⦄ (query : ℕ → F) (curr_time node_id : ℕ) (payload : List ℕ)
    (a : Arena F)
    → IsAdmitted node_id payload
    → node_id < total_max_slots
    → IsValid a
    → used a + header_size + length payload < payload_buffer_size
    → is_pending (a.metadata node_id).control_block ≡ true
    → let request : SetCacheRequest = record {
      node_id = pos node_id;
      uncached_payload = payload;
    } in
      (answer_best quiet_others query curr_time
        (pos node_id)
        (set_cache quiet_traffic request a).1).0
      ≡ ok (status_ok, served payload)
answer_best-set_cache query curr_time node_id payload a adm slot v room waits =
    let (b, e, (w, r), _, _) = set_cache_stores node_id payload a adm slot v room waits in
    let (c, f, _, _) = answer_best_serves query curr_time node_id b (inl (ap (λ u. u.state) w)) in
    let o = add64 a.write_head (header_padding a.write_head) in
    let n = length payload in
    let t = read_payload-ring_text (o % 2 ^ 37) n b (omega (arith, adm)) in
    let text : ring_text b.buffer_payload (o % 2 ^ 37 + header_size) n ≡ payload = ground arith in
    ap (λ z. (answer_best quiet_others query curr_time (pos node_id) z.1).0) e
    ∙ ap (λ z. z.0) f
    ∙ ap
        (λ (u : UnpackedControl). ok (
          status_ok,
          served (ring_text b.buffer_payload (u.virtual_offset + header_size) u.length),
        ))
        w
    ∙ ap (λ x. ok (status_ok, served x)) text
