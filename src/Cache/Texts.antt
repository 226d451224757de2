-- ===== src/Cache/Texts.antt =====
-- The texts of the cache that engine/src/service.cc and engine/src/arena.cc implement: what the calls
-- and the collector make of them.
use semantic_sentinel.Base.{
  ℕ, ◌≡◌, ◌⊎◌, inl, inr, ◌∙◌, ap, arith, Bool, u32, Bool-cases, ◌==◌, ==_iff, List,
}
use semantic_sentinel.Base.Int.{pos}
use semantic_sentinel.Result.{Result, ok}
use semantic_sentinel.Message.{CheckCacheResponse, SetCacheRequest, Status, status_ok}
use semantic_sentinel.CheckCache.Answer.{served}
use semantic_sentinel.Cache.{
  free, filled, Cache, Aged, Aged-filled, Checked, refused, crowded, hit, wait, grant, Filled,
  accept, late, reject, Collected, keep, forget,
}

-- What a step makes of a slot that has a text afterwards.
pub Checked-filled :
    {v w : Cache} (r : Result (Status × CheckCacheResponse)) (i : ℕ) (text : List ℕ)
    → Checked v r w
    → w i ≡ filled text
    → v i ≡ filled text
Checked-filled r i text (refused s bad) e = e
Checked-filled r i text (crowded none t) e = Aged-filled i text t e
Checked-filled r i text (hit j seen has t) e = Aged-filled i text t e
Checked-filled r i text (wait j pend t) e = Aged-filled i text t e
Checked-filled r i text (grant j w gone t) e = elim (Bool-cases (i == j)) [
  | inl own ↦ absurd (ground arith)
  | inr other ↦ Aged-filled i text t (ground arith)
]

pub Collected-filled :
    {v w : Cache} (i : ℕ) (text : List ℕ) → Collected v w → w i ≡ filled text → v i ≡ filled text
Collected-filled i text keep e = e
Collected-filled i text (forget j taken) e = ground arith

-- A hit has a text of the cache.
pub Checked-served :
    {v w : Cache} (r : Result (Status × CheckCacheResponse)) (text : List ℕ)
    → Checked v r w
    → r ≡ ok (status_ok, served text)
    → (i : ℕ) × (v i ≡ filled text)
Checked-served r text (refused s bad) e = absurd (ground arith)
Checked-served r text (crowded none t) e = absurd (ground arith)
Checked-served r text (hit j seen has t) e = (j, ground arith)
Checked-served r text (wait j pend t) e = absurd (ground arith)
Checked-served r text (grant j w gone t) e = absurd (ground arith)

-- The texts that are there after a call of `SetCache`.
pub Filled-filled :
    (request : SetCacheRequest) {v w : Cache} (r : Result (Status × Bool)) (i : ℕ) (text : List ℕ)
    → Filled v request r w
    → w i ≡ filled text
    → (v i ≡ filled text)
      ⊎ ((n : ℕ) × (request.node_id ≡ pos n) × (u32 n ≡ i) × (request.uncached_payload ≡ text))
Filled-filled request r i text (late n named taken) e = inl e
Filled-filled request r i text (reject s bad) e = inl e
Filled-filled request r i text (accept n named waits) e = elim (Bool-cases (i == u32 n)) [
  | inl own ↦ inr (n, named, ground arith, ground arith)
  | inr other ↦ inl (ground arith)
]

-- What a step makes of a slot that had a text.
pub Aged-keeps :
    {v w : Cache} (i : ℕ) (text : List ℕ) → Aged v w → v i ≡ filled text → w i ≡ filled text
Aged-keeps i text t e = elim (t i) [ inl same ↦ same ∙ e | inr (pend, _) ↦ absurd (ground arith) ]

pub Checked-keeps :
    {v w : Cache} (r : Result (Status × CheckCacheResponse)) (i : ℕ) (text : List ℕ)
    → Checked v r w
    → v i ≡ filled text
    → w i ≡ filled text
Checked-keeps r i text (refused s bad) e = e
Checked-keeps r i text (crowded none t) e = Aged-keeps i text t e
Checked-keeps r i text (hit j seen has t) e = Aged-keeps i text t e
Checked-keeps r i text (wait j pend t) e = Aged-keeps i text t e
Checked-keeps r i text (grant j w gone t) e =
    let kept = Aged-keeps i text t e in
    elim (Bool-cases (i == j)) [
      | inl own ↦ absurd (let same = (==_iff i j).0 own in let x = ap w same in cc)
      | inr other ↦ ground arith
    ]

pub Filled-keeps :
    (request : SetCacheRequest) {v w : Cache} (r : Result (Status × Bool)) (i : ℕ) (text : List ℕ)
    → Filled v request r w
    → v i ≡ filled text
    → w i ≡ filled text
Filled-keeps request r i text (late n named taken) e = e
Filled-keeps request r i text (reject s bad) e = e
Filled-keeps request {v} r i text (accept n named waits) e = elim (Bool-cases (i == u32 n)) [
  | inl own ↦ absurd (let x = ap v ((==_iff i (u32 n)).0 own) in cc)
  | inr other ↦ ground arith
]

pub Collected-keeps :
    {v w : Cache} (i : ℕ) (text : List ℕ)
    → Collected v w
    → v i ≡ filled text
    → (w i ≡ filled text) ⊎ (w i ≡ free)
Collected-keeps i text keep e = inl e
Collected-keeps i text (forget j taken) e = elim (Bool-cases (i == j)) [
  | inl own ↦ inr (ground arith)
  | inr other ↦ inl (ground arith)
]
