-- ===== src/Process/Warm.antt =====
-- The embedder that the service of the process in engine/src/main.cc meets.
use semantic_sentinel.Base.{
  ℕ, ◌≤◌, ◌≡◌, fun_ext, ◌⊎◌, inl, inr, refl, sym, subst, ◌∙◌, ap, arith, Bool-cases, ltb, ◌-◌, List,
  [], ◌∷◌, Option, none, some,
}
use semantic_sentinel.Float.{Floats}
use semantic_sentinel.Result.{Result, ok, thrown, fault, Action}
use semantic_sentinel.Arena.{Arena}
use semantic_sentinel.Collector.{Round, collect_once}
use semantic_sentinel.CheckCache.{Others, check_cache}
use semantic_sentinel.SetCache.{set_cache}
use semantic_sentinel.Embedder.Instance.{
  Platform, get_instance, encode_with, vectorize, warm_up_engine,
}
use semantic_sentinel.Embedder.WarmUp.{IsWarm, warm_up_engine-IsWarm}
use semantic_sentinel.Process.{
  Grpc, IsGrpc, Point, installing, constructing, warming, Worker, running, Fate, alive, Process,
  Call, check, set, Event, main_turn, gc_turn, grpc_turn, interrupt, arrive, respond, boot,
  signal_handler, accessed, with_arena, gc_step, grpc_step, admit, warmed, constructed,
  instance_after, make_arena, main_step, handle, perform, in_life, step, run,
}
use semantic_sentinel.Process.Order.{stage, none-some, boot-IsOrderly}
use semantic_sentinel.Process.Lifetime.{run-IsOrderly}

module _ {F Options Session : Type 0} ⦃fl : Floats F⦄ (platform : Platform F Options Session) where
  warm-vectorize :
      {instance : Option Session} (prompt : List ℕ) (w : IsWarm platform instance)
      → vectorize platform prompt instance ≡ (encode_with platform w.session prompt, instance)
  warm-vectorize prompt w =
      subst (λ i. vectorize platform prompt i ≡ (encode_with platform w.session prompt, i))
        (sym w.kept) (unfold vectorize get_instance in refl)

  instance_after-IsWarm :
      {instance : Option Session} (prompt : List ℕ)
      → IsWarm platform instance
      → IsWarm platform (instance_after platform prompt instance)
  instance_after-IsWarm [] w = w
  instance_after-IsWarm (byte ∷ prompt) w =
      subst (IsWarm platform) (sym (ap (λ r. r.1) (warm-vectorize (byte ∷ prompt) w))) w

  instance_after-warm :
      {instance : Option Session} (prompt : List ℕ)
      → IsWarm platform instance
      → instance_after platform prompt instance ≡ instance
  instance_after-warm [] w = refl
  instance_after-warm (byte ∷ prompt) w = ap (λ r. r.1) (warm-vectorize (byte ∷ prompt) w)

module _ {F Options Session Server : Type 0} ⦃fl : Floats F⦄ (platform : Platform F Options Session)
    (grpc : Grpc Server) where
  warm-handle :
      (others : Others F) (curr_time : ℕ) (prompt : List ℕ) (p : Process F Session Server)
      (w : IsWarm platform p.instance)
      → handle platform grpc (check others curr_time prompt) p
        ≡ with_arena
            (check_cache (encode_with platform w.session) others curr_time prompt)
            p.memory_arena
            p
  unfolding handle
  warm-handle others curr_time prompt p w =
      let encode : (λ text. (vectorize platform text p.instance).0)
          ≡ encode_with platform w.session =
        fun_ext λ text. ap (λ r. r.0) (warm-vectorize platform text w) in
      let same = instance_after-warm platform prompt w in
      ap
        (λ e.
          with_arena (check_cache e others curr_time prompt) p.memory_arena
            (record p { instance = instance_after platform prompt p.instance }))
        encode
      ∙ ap
          (λ z.
            with_arena (check_cache (encode_with platform w.session) others curr_time prompt)
              p.memory_arena (record p { instance = z }))
          same

  -- `main` has not built the server yet, or the embedder is warm.
  abbrev pub Prepared : Process F Session Server → Type 0
  Prepared p = (stage p.point ≤ 2) ⊎ IsWarm platform p.instance

  accessed-Prepared :
      {A : Type 0} (r : Result A) (a : Arena F) (p : Process F Session Server)
      → Prepared p
      → Prepared (accessed (r, a) p)
  accessed-Prepared (ok r) a p h = h
  accessed-Prepared (thrown e) a p h = h
  accessed-Prepared fault a p h = h

  with_arena-Prepared :
      {A : Type 0} (f : Action (Arena F) A) (arena : Option (Arena F))
      (p : Process F Session Server)
      → Prepared p
      → Prepared (with_arena f arena p)
  with_arena-Prepared f none p h = h
  with_arena-Prepared f (some a) p h = accessed-Prepared (f a).0 (f a).1 p h

  gc_step-Prepared :
      (round : Round F) (worker : Worker) (p : Process F Session Server)
      → Prepared p
      → Prepared (gc_step round worker p)
  gc_step-Prepared round running p h = elim (Bool-cases p.g_shutdown_requested) [
    | inl stop ↦ simp stop h
    | inr go ↦ simp go (with_arena-Prepared (collect_once round) p.memory_arena p h)
  ]
  gc_step-Prepared round worker p h = h

  grpc_step-Prepared :
      (server : Option Server) (worker : Worker) (p : Process F Session Server)
      → Prepared p
      → Prepared (grpc_step grpc server worker p)
  grpc_step-Prepared server worker p h = ground arith

  admit-Prepared :
      (server : Option Server) (p : Process F Session Server)
      → Prepared p
      → Prepared (admit grpc server p)
  admit-Prepared server p h = ground arith

  signal_handler-Prepared :
      (point : Point) (p : Process F Session Server)
      → Prepared p
      → Prepared (signal_handler point p)
  signal_handler-Prepared point p h = ground arith

  warmed-Prepared :
      (r : Result (Unit {0})) (instance : Option Session) (p : Process F Session Server)
      → Prepared p
      → warm_up_engine platform p.instance ≡ (r, instance)
      → Prepared (warmed (r, instance) p)
  warmed-Prepared (ok done) instance p h e = inr (warm_up_engine-IsWarm platform p.instance e)
  warmed-Prepared (thrown x) instance p h e = h
  warmed-Prepared fault instance p h e = h

  constructed-Prepared :
      (r : Result (Arena F)) (p : Process F Session Server)
      → Prepared p
      → Prepared (constructed r p)
  constructed-Prepared r p h = ground arith

  past :
      (p q : Process F Session Server)
      → 3 ≤ stage p.point
      → p.instance ≡ q.instance
      → Prepared p
      → Prepared q
  past p q l e h = elim h [
    | inl early ↦ absurd (omega arith)
    | inr w ↦ inr (subst (IsWarm platform) e w)
  ]

  main_step-Prepared :
      (point : Point) (p : Process F Session Server)
      → p.point ≡ point
      → Prepared p
      → Prepared (main_step platform grpc point p)
  unfolding main_step
  main_step-Prepared installing p at h = inl (omega arith)
  main_step-Prepared constructing p at h = constructed-Prepared (make_arena platform) p h
  main_step-Prepared warming p at h =
      let w = warm_up_engine platform p.instance in warmed-Prepared w.0 w.1 p h refl
  main_step-Prepared point p at h = ground arith

  handle-Prepared :
      (call : Call F) (p : Process F Session Server)
      → Prepared p
      → Prepared (handle platform grpc call p)
  unfolding handle
  handle-Prepared (check others curr_time prompt) p h =
      let encode : List ℕ → Result (ℕ → F) = λ text. (vectorize platform text p.instance).0 in
      with_arena-Prepared (check_cache encode others curr_time prompt) p.memory_arena
        (record p { instance = instance_after platform prompt p.instance })
        (elim h [ inl early ↦ inl early | inr w ↦ inr (instance_after-IsWarm platform prompt w) ])
  handle-Prepared (set traffic request) p h =
      with_arena-Prepared (set_cache traffic request) p.memory_arena p h

  perform-Prepared :
      (e : Event F) (p : Process F Session Server)
      → Prepared p
      → Prepared (perform platform grpc e p)
  unfolding perform
  perform-Prepared main_turn p h = main_step-Prepared p.point p refl h
  perform-Prepared (gc_turn round) p h = gc_step-Prepared round p.gc_thread p h
  perform-Prepared grpc_turn p h = grpc_step-Prepared p.server p.grpc_thread p h
  perform-Prepared interrupt p h = signal_handler-Prepared p.point p h
  perform-Prepared arrive p h = admit-Prepared p.server p h
  perform-Prepared (respond call) p h = elim (Bool-cases (ltb 0 p.calls)) [
    | inr idle ↦ simp idle h
    | inl busy ↦ simp busy (handle-Prepared call (record p { calls = p.calls - 1 }) h)
  ]

  in_life-Prepared :
      (fate : Fate) (next p : Process F Session Server)
      → Prepared p
      → Prepared next
      → Prepared (in_life fate next p)
  in_life-Prepared alive next p h n = n
  in_life-Prepared fate next p h n = h

  run-Prepared :
      (events : List (Event F)) (p : Process F Session Server)
      → Prepared p
      → Prepared (run platform grpc events p)
  unfolding run step
  run-Prepared [] p h = h
  run-Prepared (e ∷ events) p h =
      run-Prepared events (step platform grpc e p)
        (in_life-Prepared p.fate (perform platform grpc e p) p h (perform-Prepared e p h))

-- While there is a server, one that keeps to its documentation, the embedder is constructed and has
-- encoded the dummy prompt, and a handler of `CheckCache` encodes with its session: what the handler
-- does to the process is what the call with that encoding does, and the embedder stays as it is.
pub handle_encodes :
    {F Options Session Server : Type 0} ⦃fl : Floats F⦄ (platform : Platform F Options Session)
    {grpc : Grpc Server} (laws : IsGrpc grpc) (events : List (Event F)) (others : Others F)
    (curr_time : ℕ) (prompt : List ℕ) {s : Server}
    → (run platform grpc events boot).server ≡ some s
    → let p = run platform grpc events boot in
      (w : IsWarm platform p.instance) × (handle platform grpc (check others curr_time prompt) p
        ≡ with_arena
            (check_cache (encode_with platform w.session) others curr_time prompt)
            p.memory_arena
            p)
handle_encodes platform {grpc} laws events others curr_time prompt e =
    let p = run platform grpc events boot in
    let h = run-IsOrderly platform laws events boot (boot-IsOrderly grpc) in
    elim (run-Prepared platform grpc events boot (inl (omega arith))) [
      | inl early ↦ absurd (none-some (sym (h.unbuilt (omega arith)) ∙ e))
      | inr w ↦ (w, warm-handle platform grpc others curr_time prompt p w)
    ]
