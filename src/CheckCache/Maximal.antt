-- ===== src/CheckCache/Maximal.antt =====
-- The scan of `CheckCache` in engine/src/service.cc with no other thread in the way, with its looks
-- at the table: the score and the slot that it returns.
use semantic_sentinel.Base.{ℕ, ◌+◌, ◌≤◌, ◌<◌, ◌≡◌, ◌⊎◌, false}
use semantic_sentinel.Base.Int.{pos}
use semantic_sentinel.Constant.{total_max_slots}
use semantic_sentinel.Float.{Floats}
use semantic_sentinel.Node.{load_control}
use semantic_sentinel.Result.{ok}
use semantic_sentinel.Arena.{Arena}
use semantic_sentinel.CheckCache.{Scan, scan_slots}
use semantic_sentinel.CheckCache.Expiry.{quiet_others}
use semantic_sentinel.CheckCache.Rounds.{scan_rounds, scan_slots-scan_rounds}
use semantic_sentinel.CheckCache.Best.{
  score_of, IsReadable, IsOrder, scan_rounds_maximal, scan_rounds_attained,
}

-- With no other thread in the way, and under the two laws of `<`, a scan that stays in the table
-- returns: the score and the slot that it began with, or a slot that it passes with that slot's
-- score; and no ready or migrating slot that it passes has a better score than the one returned.
pub scan_slots_best :
    {F : Type 0} ⦃fl : Floats F⦄ (query : ℕ → F) (curr_time : ℕ)
    → IsOrder fl
    → (count i : ℕ) (s : Scan F) (a : Arena F) → i + count ≤ total_max_slots
    → (s' : Scan F) × (a' : Arena F) × (scan_slots quiet_others query curr_time count i s a
        ≡ (ok s', a'))
      × (((s'.max_score ≡ s.max_score) × (s'.best_node_id ≡ s.best_node_id))
          ⊎ ((k : ℕ) × (i ≤ k)
              × (k < i + count)
              × (s'.max_score ≡ score_of query a k)
              × (s'.best_node_id ≡ pos k)))
      × ((j : ℕ)
          → i ≤ j
          → j < i + count
          → IsReadable (load_control (a.metadata j)).state
          → fl.lt s'.max_score (score_of query a j) ≡ false)
scan_slots_best query curr_time order count i s a inside =
    let (s', a') = scan_rounds quiet_others query curr_time count i s a in
    (
      s',
      a',
      scan_slots-scan_rounds quiet_others query curr_time count i s a inside,
      scan_rounds_attained query curr_time count i s a,
      scan_rounds_maximal query curr_time order count i s a,
    )
