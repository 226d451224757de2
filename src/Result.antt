-- ===== src/Result.antt =====
-- What a call of the engine comes to: a value, a C++ exception, or an access outside an allocation,
-- which the language leaves undefined. The state that the call worked on is returned beside each.

use Prim.Native.String.{String}
use Prim.Native.String.{◌++◌ as ◌<>◌}

-- What the modelled code throws, by what `what()` says, and what ONNX Runtime and the allocator
-- throw through it: `model_error` is an `Ort::Exception`, and `foreign` is an exception that is no `std::exception`.
pub data Exception : Type 0 where
  resource_exhausted : Exception
  high_traffic : Exception
  batching_unsupported : Exception
  empty_sequence : Exception
  unexpected_vector_length : Exception
  degenerate_vector : Exception
  bad_alloc : Exception
  model_path_unset : Exception
  extensions_path_unset : Exception
  library_failed : String → Exception
  model_error : String → Exception
  foreign : Exception

-- `e.what()`
abbrev pub what : Exception → String
what resource_exhausted = "Resource Exhausted"
what high_traffic = "High traffic"
what batching_unsupported = "Batching Inference is not supported"
what empty_sequence = "Sequence length is 0. Cannot compute mean pooling."
what unexpected_vector_length = "Unexpected vector length"
what degenerate_vector = "Degenerate zero vector from model"
what bad_alloc = "std::bad_alloc"
what model_path_unset = "Environment variable INFERENCE_MODEL_PATH is not set"
what extensions_path_unset = "Environment variable ORT_EXTENSIONS_PATH is not set"
what (library_failed message) = ◌<>◌ "Failed to load custom ops library: " message
what (model_error message) = message
what foreign = ""

pub data Result {ℓ} (A : Type ℓ) : Type ℓ where
  ok : A → Result A
  thrown : Exception → Result A
  fault : Result A

-- One call after another, where no state is shared.
abbrev pub chain {ℓ κ} : {A : Type ℓ} {B : Type κ} → Result A → (A → Result B) → Result B
chain (ok a) f = f a
chain (thrown e) f = thrown e
chain fault f = fault

-- Code that works on a state `S`.
abbrev pub Action {ℓ κ} : Type ℓ → Type κ → Type (ℓ ⊔ κ)
Action S A = S → Result A × S

module _ {ℓ κ} {S : Type ℓ} {A : Type κ} where
  abbrev pub pure : A → Action S A
  pure a s = (ok a, s)

  abbrev pub throw : Exception → Action S A
  throw e s = (thrown e, s)

  abbrev pub undefined : Action S A
  undefined s = (fault, s)

abbrev pub resume {ℓ κ μ} :
    {S : Type ℓ} {A : Type κ} {B : Type μ} → Result A × S → (A → Action S B) → Result B × S
resume (ok a, s) f = f a s
resume (thrown e, s) f = (thrown e, s)
resume (fault, s) f = (fault, s)

infixl 5 ◌>>=◌ ◌>>◌
abbrev pub ◌>>=◌ {ℓ κ μ} :
    {S : Type ℓ} {A : Type κ} {B : Type μ} → Action S A → (A → Action S B) → Action S B
◌>>=◌ m f s = resume (m s) f

abbrev pub ◌>>◌ {ℓ μ} : {S : Type ℓ} {B : Type μ} → Action S (Unit {0}) → Action S B → Action S B
m >> k = m >>= λ _. k
