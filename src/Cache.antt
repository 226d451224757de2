-- ===== src/Cache.antt =====
-- What the cache of the engine promises: its slots as a caller may think of them, without the ring,
-- the control words and the birth times of engine/src/arena.cc, and what the handlers of
-- engine/src/service.cc and the collector of engine/src/arena.cc may make of them.
pub mod View
pub mod Shows
pub mod Claims
pub mod Checks
pub mod Sets
pub mod Collects
pub mod Refine
pub mod Texts
pub mod Origin
use Prim.Native.String.{String}
use semantic_sentinel.Base.{
  ℕ, ◌<◌, ◌≡◌, ◌≢◌, ◌⊎◌, inl, inr, sym, ◌∙◌, Bool, true, false, ◌==◌, if◌then◌else◌, List, u32,
}
use semantic_sentinel.Base.Int.{pos}
use semantic_sentinel.Constant.{l0_max_slots}
use semantic_sentinel.Result.{Result, ok, high_traffic}
use semantic_sentinel.Message.{
  CacheState, CheckCacheResponse, empty_response, SetCacheRequest, Status, status_ok, handler,
}
use semantic_sentinel.CheckCache.Answer.{served}
use semantic_sentinel.CheckCache.Claim.{missed}

-- A slot may be taken, is taken by a caller who will bring its text, or has its text.
pub data Slot : Type 0 where
  free claimed : Slot
  filled : List ℕ → Slot

abbrev pub Cache : Type 0
Cache = ℕ → Slot

abbrev pub put : ℕ → Slot → Cache → Cache
put i s v = λ j. if j == i then s else v j

-- Some claims are given up.
abbrev pub Aged : Cache → Cache → Type 0
Aged v w = (i : ℕ) → (w i ≡ v i) ⊎ ((v i ≡ claimed) × (w i ≡ free))

pub Aged-trans : {u v w : Cache} → Aged u v → Aged v w → Aged u w
Aged-trans {u} {v} {w} h k i = elim (k i) [
  | inl same ↦ elim (h i) [ inl e ↦ inl (same ∙ e) | inr (c, f) ↦ inr (c, same ∙ f) ]
  | inr (c, f) ↦ elim (h i) [ inl e ↦ inr (sym e ∙ c, f) | inr (d, e) ↦ inr (d, f) ]
]

pub Aged-filled :
    {v w : Cache} (i : ℕ) (text : List ℕ) → Aged v w → w i ≡ filled text → v i ≡ filled text
Aged-filled i text h e = elim (h i) [ inl same ↦ sym same ∙ e | inr (c, f) ↦ absurd (cc) ]

-- The reply that names a slot whose text is on its way.
abbrev pub awaited : ℕ → CheckCacheResponse
awaited i = record empty_response { check_state = CacheState.pending; node_id = pos i }

-- What `CheckCache` may reply, and what it makes of the cache: a refusal, also where no slot of the
-- first level is free; a text that the cache has; the slot whose text is on its way; or a free slot,
-- which is claimed.
pub data Checked (v : Cache) : Result (Status × CheckCacheResponse) → Cache → Type 0 where
  refused : (s : Status) → s ≢ status_ok → Checked v (ok (s, empty_response)) v
  crowded :
      {w : Cache}
      → ((i : ℕ) → i < l0_max_slots → w i ≢ free)
      → Aged v w
      → Checked v (ok (handler "Encounter error: " high_traffic, empty_response)) w
  hit :
      (i : ℕ) (text : List ℕ) {w : Cache}
      → v i ≡ filled text
      → Aged v w
      → Checked v (ok (status_ok, served text)) w
  wait : (i : ℕ) {w : Cache} → w i ≡ claimed → Aged v w → Checked v (ok (status_ok, awaited i)) w
  grant :
      (i : ℕ) (w : Cache)
      → w i ≡ free
      → Aged v w
      → Checked v (ok (status_ok, missed (pos i))) (put i claimed w)

-- What `SetCache` may reply, and what it makes of the cache: it fills a claimed slot, finds that the
-- slot is not claimed, or is refused.
pub data Filled (v : Cache) (request : SetCacheRequest)
    : Result (Status × Bool) → Cache → Type 0 where
  accept :
      (n : ℕ)
      → request.node_id ≡ pos n
      → v (u32 n) ≡ claimed
      → Filled v request (ok (status_ok, true)) (put (u32 n) (filled request.uncached_payload) v)
  late :
      (n : ℕ)
      → request.node_id ≡ pos n
      → v (u32 n) ≢ claimed
      → Filled v request (ok (status_ok, false)) v
  reject : (s : Status) → s ≢ status_ok → Filled v request (ok (s, false)) v

-- What an iteration of the collector may make of the cache.
pub data Collected (v : Cache) : Cache → Type 0 where
  keep : Collected v v
  forget : (i : ℕ) → v i ≢ free → Collected v (put i free v)
