-- ===== src/Embedder/Instance.antt =====
-- The embedder of the process: its constructor in engine/src/embedder.cc, `GetInstance` of
-- engine/include/embedder.hh, its use in `CheckCache` of engine/src/service.cc, and `WarmUpEngine` of
-- engine/src/main.cc. ONNX Runtime and the environment are parameters.
use Prim.Native.String.{String}
use semantic_sentinel.Base.{ℕ, zero, suc, Bool, List, [], ◌∷◌, Option, none, some}
use semantic_sentinel.Float.{Floats}
use semantic_sentinel.Result.{
  Result, ok, thrown, fault, chain, model_error, model_path_unset, extensions_path_unset,
  library_failed, Action, resume,
}
use semantic_sentinel.Embedder.{Output, encode}

-- What the code calls of ONNX Runtime. Each call may throw.
pub record Onnx (F Options Session : Type 0) : Type 0 where
  -- `Ort::Env` and `Ort::SessionOptions`
  pub create_options : Result Options
  pub set_graph_optimization_level : Options → Result Options
  pub set_intra_op_num_threads : ℕ → Options → Result Options
  pub set_inter_op_num_threads : ℕ → Options → Result Options
  pub register_custom_ops_library : String → Options → Result Options
  pub create_session : String → Options → Result Session
  pub run : Session → List ℕ → Result (Output F)

-- What the process runs on: the runtime, the environment and the allocators, which say whether they
-- find memory of an alignment and size, or for a number of slots.
pub record Platform (F Options Session : Type 0) : Type 0 where
  pub onnx : Onnx F Options Session
  pub getenv : String → Option String
  pub aligned_alloc : ℕ → ℕ → Bool
  pub new_nodes : ℕ → Bool

-- The `catch` clause around the registration: it takes the exceptions of the runtime only.
abbrev pub rewrap : {A : Type 0} → Result A → Result A
rewrap (thrown (model_error message)) = thrown (library_failed message)
rewrap r = r

-- "Hello, World"
abbrev pub dummy_prompt : List ℕ
dummy_prompt = 72 ∷ 101 ∷ 108 ∷ 108 ∷ 111 ∷ 44 ∷ 32 ∷ 87 ∷ 111 ∷ 114 ∷ 108 ∷ 100 ∷ []

module _ {F Options Session : Type 0} (p : Platform F Options Session) where
  -- The constructor, when both paths are known.
  unfoldable pub load_model : String → String → Options → Result Session
  load_model model_path ext_path options =
      chain (p.onnx.set_graph_optimization_level options) λ optimized.
        chain (p.onnx.set_intra_op_num_threads 1 optimized) λ narrow.
          chain (p.onnx.set_inter_op_num_threads 1 narrow) λ configured.
            chain (rewrap (p.onnx.register_custom_ops_library ext_path configured))
              λ extended. p.onnx.create_session model_path extended

  -- The two tests of the environment.
  abbrev pub with_paths : Option String → Option String → Options → Result Session
  with_paths none ext_path options = thrown model_path_unset
  with_paths (some model_path) none options = thrown extensions_path_unset
  with_paths (some model_path) (some ext_path) options = load_model model_path ext_path options

  -- `Embedder::Embedder`
  unfoldable pub embedder : Result Session
  embedder =
      chain p.onnx.create_options
        (with_paths (p.getenv "INFERENCE_MODEL_PATH") (p.getenv "ORT_EXTENSIONS_PATH"))

  -- What an initialization leaves in the static: nothing, if it threw.
  abbrev pub initialized : Result Session → Result Session × Option Session
  initialized (ok session) = (ok session, some session)
  initialized (thrown e) = (thrown e, none)
  initialized fault = (fault, none)

  -- `Embedder::GetInstance`, with its static `instance`.
  unfoldable pub get_instance : Action (Option Session) Session
  unfolding embedder
  get_instance (some session) = (ok session, some session)
  get_instance none = initialized embedder

  module _ ⦃fl : Floats F⦄ where
    -- `Encode` of that session.
    abbrev pub encode_with : Session → List ℕ → Result (ℕ → F)
    encode_with session = encode (p.onnx.run session) p.aligned_alloc

    -- `Embedder::GetInstance().Encode(prompt)`
    unfoldable pub vectorize : List ℕ → Action (Option Session) (ℕ → F)
    vectorize prompt instance =
        resume (get_instance instance) λ session s. (encode_with session prompt, s)

    -- The loop of the warm-up.
    unfoldable pub warm_up_loop : ℕ → List ℕ → Session → Result (Unit {0})
    warm_up_loop zero prompt session = ok tt
    warm_up_loop (suc rounds) prompt session =
        let rest = warm_up_loop rounds prompt session in
        chain (encode_with session prompt) λ dummy_vec. rest

    -- `WarmUpEngine`: the similarity that it computes at its end is dropped.
    unfoldable pub warm_up_engine : Action (Option Session) (Unit {0})
    warm_up_engine instance =
        resume (get_instance instance) λ session s. (warm_up_loop 3 dummy_prompt session, s)
