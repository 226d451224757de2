-- ===== src/Message.antt =====
-- The messages of api/proto/strix.proto as the handlers of engine/src/service.cc fill them, the gRPC
-- status that a handler returns, and the handler of its exceptions.
use Prim.Native.String.{String}
use Prim.Native.String.{◌++◌ as ◌<>◌}
use semantic_sentinel.Base.{ℕ, List, []}
use semantic_sentinel.Base.Int.{ℤ, pos}
use semantic_sentinel.Result.{Exception, foreign, what, Result, ok, thrown, fault}

pub data CacheState : Type 0 where
  unspecified hit miss pending : CacheState

pub record CheckCacheResponse : Type 0 where
  pub check_state : CacheState
  pub node_id : ℤ
  pub cached_payload : List ℕ

-- A fresh message.
abbrev pub empty_response : CheckCacheResponse
empty_response = record {
  check_state = CacheState.unspecified;
  node_id = pos 0;
  cached_payload = [];
}

pub record SetCacheRequest : Type 0 where
  pub node_id : ℤ
  pub uncached_payload : List ℕ

pub data StatusCode : Type 0 where
  ok_code invalid_argument internal : StatusCode

pub record Status : Type 0 where
  pub code : StatusCode
  pub message : String

abbrev pub status_ok : Status
status_ok = record { code = ok_code; message = "" }

abbrev pub invalid : String → Status
invalid message = record { code = invalid_argument; message = message }

-- The two `catch` clauses, the first of which puts `prefix` before `e.what()`.
abbrev pub handler : String → Exception → Status
handler prefix foreign = record { code = internal; message = "Unknown Fatal error" }
handler prefix e = record { code = internal; message = ◌<>◌ prefix (what e) }

-- The outcome of a handler: undefined behaviour is not caught.
abbrev pub caught {ℓ κ} :
    {S : Type ℓ} {A : Type κ} → String → A → Result (Status × A) × S → Result (Status × A) × S
caught prefix response (ok r, s) = (ok r, s)
caught prefix response (thrown e, s) = (ok (handler prefix e, response), s)
caught prefix response (fault, s) = (fault, s)
