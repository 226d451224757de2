-- ===== src/Cache/Origin.antt =====
-- Where the texts come from that the engine of engine/src/service.cc and engine/src/arena.cc serves.
use semantic_sentinel.Base.{ℕ, ◌≡◌, ◌⊎◌, inl, inr, ap, arith, u32, List, [], ◌∷◌}
use mathlib.Core.List.{Mem, mem-cons_self, mem-cons_of_mem}
use semantic_sentinel.Base.Int.{pos}
use semantic_sentinel.Float.{Floats}
use semantic_sentinel.Result.{Result, ok}
use semantic_sentinel.Message.{SetCacheRequest, status_ok}
use semantic_sentinel.Arena.{Arena}
use semantic_sentinel.CheckCache.{check_cache}
use semantic_sentinel.CheckCache.Expiry.{quiet_others}
use semantic_sentinel.CheckCache.Answer.{served}
use semantic_sentinel.SetCache.{set_cache}
use semantic_sentinel.SetCache.Outcome.{quiet_traffic}
use semantic_sentinel.Collector.{collect_once}
use semantic_sentinel.Collector.Visit.{quiet}
use semantic_sentinel.Engine.{Step, check, fill, collect, Reach, start, later}
use semantic_sentinel.Cache.{free, filled, Collected}
use semantic_sentinel.Cache.Texts.{
  Checked-filled, Collected-filled, Checked-served, Filled-filled, Checked-keeps, Filled-keeps,
  Collected-keeps,
}
use semantic_sentinel.Cache.View.{view}
use semantic_sentinel.Cache.Refine.{
  Reach-StandsFor, memory_arena-view, check_cache_told, set_cache_whole, collect_once_refines,
}

-- The requests of the calls of `SetCache`, the latest first.
unfoldable pub requests :
    {F : Type 0} ⦃fl : Floats F⦄ {a : Arena F} → Reach a → List SetCacheRequest
requests start = []
requests (later r (check encode curr_time prompt whole)) = requests r
requests (later r (fill request whole fits)) = request ∷ requests r
requests (later r (collect ran)) = requests r

-- One of the requests brings the text for the slot `i`.
pub record Brought (i : ℕ) (text : List ℕ) (l : List SetCacheRequest) : Type 0 where
  pub request : SetCacheRequest
  pub member : Mem request l
  pub node_id : ℕ
  pub named : request.node_id ≡ pos node_id
  pub slot : u32 node_id ≡ i
  pub brings : request.uncached_payload ≡ text

Brought-more :
    (i : ℕ) (text : List ℕ) (x : SetCacheRequest) (l : List SetCacheRequest)
    → Brought i text l
    → Brought i text (x ∷ l)
Brought-more i text x l b = record {
  request = b.request;
  member = mem-cons_of_mem x b.member;
  node_id = b.node_id;
  named = b.named;
  slot = b.slot;
  brings = b.brings;
}

module _ {F : Type 0} ⦃fl : Floats F⦄ where
  collected :
      {a b : Arena F} {slept : ℕ}
      → Reach a
      → collect_once quiet a ≡ (ok slept, b)
      → Collected (view a) (view b)
  collected {a} r ran =
      let (q, s) = Reach-StandsFor r in (collect_once_refines a q (view a) s ran).1

  -- In every arena that whole calls and iterations come to, where no call's payload runs past the tail,
  -- a slot that has a text was brought that text by a request of one of the calls of `SetCache`, which
  -- named that slot.
  pub view_origin :
      {a : Arena F} (r : Reach a) (i : ℕ) (text : List ℕ)
      → view a i ≡ filled text
      → Brought i text (requests r)
  unfolding requests
  view_origin start i text e =
      absurd (let none = ap (λ v. v i) (memory_arena-view fl.zero_float) in cc)
  view_origin (later {a = a} r (check encode curr_time prompt whole)) i text e =
      elim (check_cache_told encode curr_time prompt r) [
        | inl told ↦
            view_origin r i text
              (Checked-filled (check_cache encode quiet_others curr_time prompt a).0 i text told e)
        | inr (lost, _) ↦ absurd (whole lost)
      ]
  view_origin (later r (collect ran)) i text e =
      view_origin r i text (Collected-filled i text (collected r ran) e)
  view_origin (later {a = a} r (fill request whole fits)) i text e =
      let told = set_cache_whole request whole fits r in
      elim (Filled-filled request (set_cache quiet_traffic request a).0 i text told e) [
        | inl old ↦ Brought-more i text request (requests r) (view_origin r i text old)
        | inr (n, named, slot, brings) ↦ record {
          request = request;
          member = mem-cons_self;
          node_id = n;
          named = named;
          slot = slot;
          brings = brings;
        }
      ]

  -- A hit of a call of `CheckCache`, with no other thread in the way, in an arena that whole calls and
  -- iterations come to, where no call's payload runs past the tail, serves a text that a request of one
  -- of the calls of `SetCache` brought, for a slot that the request named.
  pub check_cache_origin :
      (encode : List ℕ → Result (ℕ → F)) (curr_time : ℕ) (prompt text : List ℕ) {a : Arena F}
      (r : Reach a)
      → (check_cache encode quiet_others curr_time prompt a).0 ≡ ok (status_ok, served text)
      → (i : ℕ) × Brought i text (requests r)
  check_cache_origin encode curr_time prompt text {a} r e =
      elim (check_cache_told encode curr_time prompt r) [
        | inr (lost, _) ↦ absurd (ground arith)
        | inl told ↦
            let x = check_cache encode quiet_others curr_time prompt a in
            let (i, has) = Checked-served x.0 text told e in (i, view_origin r i text has)
      ]

  -- A whole call, with memory for the text of the response, or an iteration, from an arena that
  -- whole calls and iterations come to, where no call accesses memory outside the arena or lets
  -- its payload run past the tail, keeps every text of the cache in its slot as it is, or frees
  -- the slot.
  pub Step-filled :
      {a b : Arena F} (i : ℕ) (text : List ℕ)
      → Reach a
      → Step a b
      → view a i ≡ filled text
      → (view b i ≡ filled text) ⊎ (view b i ≡ free)
  Step-filled {a} i text r (check encode curr_time prompt whole) e =
      elim (check_cache_told encode curr_time prompt r) [
        | inl told ↦
            inl (Checked-keeps (check_cache encode quiet_others curr_time prompt a).0 i text told e)
        | inr (lost, _) ↦ absurd (whole lost)
      ]
  Step-filled {a} i text r (fill request whole fits) e = inl (
      Filled-keeps request (set_cache quiet_traffic request a).0 i text
        (set_cache_whole request whole fits r) e)
  Step-filled i text r (collect ran) e = Collected-keeps i text (collected r ran) e
