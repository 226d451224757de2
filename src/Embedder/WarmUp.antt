-- ===== src/Embedder/WarmUp.antt =====
-- What the construction and the warm-up of the embedder in engine/src/embedder.cc and
-- engine/src/main.cc leave for the calls of engine/src/service.cc.
use Prim.Native.String.{String}
use semantic_sentinel.Base.{ℕ, subst, ◌≡◌, refl, sym, ◌∙◌, ap, arith, List, Option, none, some}
use semantic_sentinel.Float.{Floats}
use semantic_sentinel.Result.{Exception, Result, ok, thrown, fault, Action, chain, resume}
use semantic_sentinel.Embedder.Instance.{
  Platform, rewrap, load_model, with_paths, embedder, initialized, get_instance, encode_with,
  vectorize, warm_up_loop, dummy_prompt, warm_up_engine,
}

chain_inv :
    {A B : Type 0} (r : Result A) (f : A → Result B) {b : B}
    → chain r f ≡ ok b
    → (a : A) × (r ≡ ok a) × (f a ≡ ok b)
chain_inv (ok a) f h = (a, refl, h)
chain_inv (thrown e) f h = absurd (ground arith)
chain_inv fault f h = absurd (ground arith)

resume_inv :
    {S A B : Type 0} (r : Result A) {s later : S} (f : A → Action S B) {b : B}
    → resume (r, s) f ≡ (ok b, later)
    → (a : A) × (r ≡ ok a) × (f a s ≡ (ok b, later))
resume_inv (ok a) f h = (a, refl, h)
resume_inv (thrown e) f h = absurd (ground arith)
resume_inv fault f h = absurd (ground arith)

rewrap_inv : {A : Type 0} (r : Result A) {a : A} → rewrap r ≡ ok a → r ≡ ok a
rewrap_inv (ok a) h = h
rewrap_inv (thrown e) h = absurd (ground arith)
rewrap_inv fault h = absurd (ground arith)

module _ {F Options Session : Type 0} (p : Platform F Options Session) where
  -- Where a session comes from.
  abbrev pub Loaded : String → String → Session → Type 0
  Loaded model_path ext_path session =
      (configured extended : Options) × (p.onnx.register_custom_ops_library ext_path configured
        ≡ ok extended)
      × (p.onnx.create_session model_path extended ≡ ok session)

  load_model_inv :
      (model_path ext_path : String) (options : Options) {session : Session}
      → load_model p model_path ext_path options ≡ ok session
      → Loaded model_path ext_path session
  unfolding load_model
  load_model_inv model_path ext_path options h =
      let (optimized, _, h1) = chain_inv (p.onnx.set_graph_optimization_level options) _ h in
      let (narrow, _, h2) = chain_inv (p.onnx.set_intra_op_num_threads 1 optimized) _ h1 in
      let (configured, _, h3) = chain_inv (p.onnx.set_inter_op_num_threads 1 narrow) _ h2 in
      let r = p.onnx.register_custom_ops_library ext_path configured in
      let (extended, e, h4) = chain_inv (rewrap r) _ h3 in
      (configured, extended, rewrap_inv r e, h4)

  with_paths_inv :
      (model ext : Option String) (options : Options) {session : Session}
      → with_paths p model ext options ≡ ok session
      → (model_path ext_path : String) × (model ≡ some model_path)
        × (ext ≡ some ext_path)
        × Loaded model_path ext_path session
  with_paths_inv none ext options h = absurd (ground arith)
  with_paths_inv (some m) none options h = absurd (ground arith)
  with_paths_inv (some m) (some x) options h = (m, x, refl, refl, load_model_inv m x options h)

  -- An embedder is constructed only with both paths in the environment, from the model at the one,
  -- with the operators of the library at the other registered before.
  pub embedder_loads :
      {session : Session}
      → embedder p ≡ ok session
      → (model_path ext_path : String) × (p.getenv "INFERENCE_MODEL_PATH" ≡ some model_path)
        × (p.getenv "ORT_EXTENSIONS_PATH" ≡ some ext_path)
        × Loaded model_path ext_path session
  unfolding embedder
  embedder_loads h =
      let model = p.getenv "INFERENCE_MODEL_PATH" in
      let ext = p.getenv "ORT_EXTENSIONS_PATH" in
      let (options, _, built) = chain_inv p.onnx.create_options (with_paths p model ext) h in
      with_paths_inv model ext options built

  initialized_inv :
      (r : Result Session) {session : Session}
      → (initialized p r).0 ≡ ok session
      → (initialized p r).1 ≡ some session
  initialized_inv (ok s) h = ground arith
  initialized_inv (thrown e) h = absurd (ground arith)
  initialized_inv fault h = absurd (ground arith)

  get_instance_inv :
      (instance : Option Session) {session : Session}
      → (get_instance p instance).0 ≡ ok session
      → (get_instance p instance).1 ≡ some session
  unfolding get_instance
  get_instance_inv (some s) h = ground arith
  get_instance_inv none h = initialized_inv (embedder p) h

initialized_thrown :
    {F Options Session : Type 0} (p : Platform F Options Session) (r : Result Session)
    {e : Exception} {instance : Option Session}
    → initialized p r ≡ (thrown e, instance)
    → instance ≡ none
initialized_thrown p (ok s) h = absurd (ground arith)
initialized_thrown p (thrown e) h = ground arith
initialized_thrown p fault h = absurd (ground arith)

initialized-result :
    {F Options Session : Type 0} (p : Platform F Options Session) (r : Result Session)
    → (initialized p r).0 ≡ r
initialized-result p (ok s) = refl
initialized-result p (thrown e) = refl
initialized-result p fault = refl

-- After a construction that throws, the next call of `GetInstance` constructs again, on the platform
-- as it is then.
pub get_instance_retries :
    {F Options Session : Type 0} (p later : Platform F Options Session) {e : Exception}
    {instance : Option Session}
    → get_instance p none ≡ (thrown e, instance)
    → (get_instance later instance).0 ≡ embedder later
unfolding get_instance
get_instance_retries p later h =
    ap (λ s. (get_instance later s).0) (initialized_thrown p (embedder p) h)
    ∙ initialized-result later (embedder later)

module _ {F Options Session : Type 0} ⦃fl : Floats F⦄ (p : Platform F Options Session) where
  -- What a warm-up that returns has seen to.
  pub record IsWarm (instance : Option Session) : Type 0 where
    pub session : Session
    pub kept : instance ≡ some session
    pub dummy_vec : ℕ → F
    pub encoded : encode_with p session dummy_prompt ≡ ok dummy_vec

  pub warm_up_engine-IsWarm :
      (instance : Option Session) {later : Option Session}
      → warm_up_engine p instance ≡ (ok tt, later)
      → IsWarm later
  unfolding warm_up_engine warm_up_loop
  warm_up_engine-IsWarm instance {later} h =
      let g = get_instance p instance in
      let f : Session → Action (Option Session) (Unit {0}) =
        λ session s. (warm_up_loop p 3 dummy_prompt session, s) in
      let (session, e, warmed) = resume_inv g.0 f h in
      let (dummy_vec, encoded, _) =
        chain_inv (encode_with p session dummy_prompt) _ (ap (λ r. r.0) warmed) in
      record {
        session = session;
        kept = sym (ap (λ r. r.1) warmed) ∙ get_instance_inv p instance e;
        dummy_vec = dummy_vec;
        encoded = encoded;
      }

  -- After a warm-up that returns, there is one session for good: every call of the handler encodes
  -- with it and leaves it in place, and it has encoded the dummy prompt.
  pub warm_up_engine-vectorize :
      (instance : Option Session) {later : Option Session} (prompt : List ℕ)
      → warm_up_engine p instance ≡ (ok tt, later)
      → (w : IsWarm later) × (vectorize p prompt later ≡ (encode_with p w.session prompt, later))
  warm_up_engine-vectorize instance {later} prompt h =
      let w = warm_up_engine-IsWarm instance h in
      let k = w.kept in
      (
        w,
        subst (λ i. vectorize p prompt i ≡ (encode_with p w.session prompt, i)) (sym k)
            (unfold vectorize get_instance in refl),
      )
