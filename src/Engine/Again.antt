-- ===== src/Engine/Again.antt =====
-- A prompt's way through the handlers of engine/src/service.cc: a miss of `CheckCache`, `SetCache` with
-- the text, and `CheckCache` again.
use semantic_sentinel.Base.{
  ℕ, ◌+◌, ◌*◌, ◌<◌, ◌≡◌, inl, sym, ◌∙◌, ap, subst, arith, true, List, ◌∷◌, length,
}
use semantic_sentinel.Base.Int.{pos}
use semantic_sentinel.Constant.{vector_dim, payload_buffer_size}
use semantic_sentinel.Float.{Floats}
use semantic_sentinel.Similarity.{cosine_similarity}
use semantic_sentinel.Similarity.Agree.{cosine_similarity_agree}
use semantic_sentinel.Node.{load_control}
use semantic_sentinel.Result.{Result, ok}
use semantic_sentinel.Message.{SetCacheRequest, status_ok}
use semantic_sentinel.Arena.{Arena, header_size}
use semantic_sentinel.Arena.Allocate.{used, IsValid}
use semantic_sentinel.Slot.Kept.{Kept}
use semantic_sentinel.SetCache.{set_cache}
use semantic_sentinel.SetCache.Outcome.{quiet_traffic, IsAdmitted}
use semantic_sentinel.SetCache.Store.{pending-is_pending, set_cache_stores}
use semantic_sentinel.CheckCache.{check_cache}
use semantic_sentinel.CheckCache.Expiry.{quiet_others}
use semantic_sentinel.CheckCache.Claim.{missed}
use semantic_sentinel.CheckCache.Best.{score_of, IsOrder}
use semantic_sentinel.CheckCache.Find.{IsThreshold, IsAnswered, check_cache-IsAnswered}
use semantic_sentinel.CheckCache.Granted.{check_cache-Granted}
use semantic_sentinel.Engine.Checks.{check_cache-Kept}
use semantic_sentinel.Engine.Stores.{Kept-used}

Kept-IsValid : {F : Type 0} {a b : Arena F} → Kept a b → IsValid a → IsValid b
Kept-IsValid {F} {a} {b} k v = let t = k.tail in let w = k.head in omega arith

module _ {F : Type 0} ⦃fl : Floats F⦄ (encode : List ℕ → Result (ℕ → F)) (query : ℕ → F)
    (first_time second_time byte : ℕ) (prompt payload : List ℕ) (a : Arena F) (k : ℕ) where
  -- With no other thread in the way, with memory for the text of the response, and under the laws of
  -- comparison: when `CheckCache` misses a
  -- prompt in a valid arena and grants a slot, and `SetCache` is called for this slot with a payload
  -- that is admitted and fits, then `SetCache` succeeds, and the next call of `CheckCache` with this
  -- prompt, at any time, does not miss: it answers with a hit, or with a pending slot. The prompt is
  -- one that is vectorized, to a vector that reaches the threshold when it is compared with itself.
  pub asked_again :
      IsOrder fl
      → IsThreshold fl
      → encode (byte ∷ prompt) ≡ ok query
      → fl.le fl.similarity_threshold (cosine_similarity query query) ≡ true
      → IsValid a
      → used a + header_size + length payload < payload_buffer_size
      → IsAdmitted k payload
      → (check_cache encode quiet_others first_time (byte ∷ prompt) a).0
        ≡ ok (status_ok, missed (pos k))
      → let b = (check_cache encode quiet_others first_time (byte ∷ prompt) a).1 in
        let request : SetCacheRequest = record { node_id = pos k; uncached_payload = payload } in
        let stored = set_cache quiet_traffic request b in
        (stored.0 ≡ ok (status_ok, true))
        × IsAnswered (check_cache encode quiet_others second_time (byte ∷ prompt) stored.1)
  asked_again order law encoded near valid room adm miss =
      let b = (check_cache encode quiet_others first_time (byte ∷ prompt) a).1 in
      let kept = check_cache-Kept encode first_time (byte ∷ prompt) a in
      let g = check_cache-Granted encode query first_time byte prompt a k encoded miss in
      let same_used = Kept-used kept in
      let low = g.in_table in
      let (c, e, (word, _), _, vectors) =
        set_cache_stores k payload b adm (omega arith) (Kept-IsValid kept valid) (omega arith)
          (pending-is_pending (b.metadata k).control_block (unfold load_control in g.waits)) in
      let agree =
        λ (j : ℕ) (p : j < vector_dim). ap (λ v. v (vector_dim * k + j)) vectors ∙ g.vector j p in
      let score : score_of query c k ≡ cosine_similarity query query =
        cosine_similarity_agree query (λ j. c.vectors (vector_dim * k + j)) query agree in
      let answered =
        check_cache-IsAnswered encode query second_time byte prompt c k order law encoded low
          (inl (ap (λ u. u.state) word)) (ap (fl.le fl.similarity_threshold) score ∙ near) in
      (
        ap (λ r. r.0) e,
        subst (λ z. IsAnswered (check_cache encode quiet_others second_time (byte ∷ prompt) z))
            (sym (ap (λ r. r.1) e)) answered,
      )
