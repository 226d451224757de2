-- ===== src/Engine.antt =====
-- The engine as its parts share one arena: calls of engine/src/service.cc and iterations of the
-- collector of engine/src/arena.cc, one after the other.
pub mod Checks
pub mod Stores
pub mod Invariant
pub mod Again
use semantic_sentinel.Base.{ℕ, ◌≤◌, ◌≡◌, ◌≢◌, List}
use semantic_sentinel.Constant.{payload_buffer_size}
use semantic_sentinel.Float.{Floats}
use semantic_sentinel.Result.{Result, ok, fault}
use semantic_sentinel.Message.{SetCacheRequest}
use semantic_sentinel.Arena.{Arena, memory_arena}
use semantic_sentinel.Arena.Allocate.{used}
use semantic_sentinel.SetCache.{set_cache}
use semantic_sentinel.SetCache.Outcome.{quiet_traffic}
use semantic_sentinel.CheckCache.{check_cache}
use semantic_sentinel.CheckCache.Expiry.{quiet_others}
use semantic_sentinel.Collector.{collect_once}
use semantic_sentinel.Collector.Visit.{quiet}

-- A whole call or iteration, with no other thread in the way and with memory for the text of a
-- response. A call is one that accesses no memory
-- outside the arena and its allocations, as nothing is known of the process after such an access; an
-- iteration that throws ends the process. A call of `SetCache` is moreover one whose payload does not
-- run past the tail, which the guard does not ensure.
pub data Step {F : Type 0} ⦃fl : Floats F⦄ (a : Arena F) : Arena F → Type 0 where
  check :
      (encode : List ℕ → Result (ℕ → F)) (curr_time : ℕ) (prompt : List ℕ)
      → (check_cache encode quiet_others curr_time prompt a).0 ≢ fault
      → Step a (check_cache encode quiet_others curr_time prompt a).1
  fill :
      (request : SetCacheRequest)
      → (set_cache quiet_traffic request a).0 ≢ fault
      → used (set_cache quiet_traffic request a).1 ≤ payload_buffer_size
      → Step a (set_cache quiet_traffic request a).1
  collect : {slept : ℕ} {a' : Arena F} → collect_once quiet a ≡ (ok slept, a') → Step a a'

-- The arenas that the engine comes to from the one that its constructor makes.
pub data Reach {F : Type 0} ⦃fl : Floats F⦄ : Arena F → Type 0 where
  start : Reach (memory_arena fl.zero_float)
  later : {a b : Arena F} → Reach a → Step a b → Reach b
