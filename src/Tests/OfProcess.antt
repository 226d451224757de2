-- ===== src/Tests/OfProcess.antt =====
-- The process of engine/src/main.cc, run from its start to its end.
use semantic_sentinel.Base.{
  ℕ, zero, suc, ◌≡◌, ◌≢◌, ◌⊎◌, refl, arith, Bool, true, false, not, ◌&&◌, ◌==◌, List, [], ◌∷◌, ◌++◌,
  some,
}
use mathlib.Core.List.{Memᴰ}
use semantic_sentinel.Embedder.{encode, pool, normalize, add_squares, mean_pooling, add_rows}
use semantic_sentinel.Embedder.Instance.{
  encode_with, vectorize, get_instance, load_model, warm_up_loop, warm_up_engine,
}
use semantic_sentinel.Embedder.WarmUp.{IsWarm}
use semantic_sentinel.CheckCache.Expiry.{quiet_others}
use semantic_sentinel.Collector.Visit.{quiet}
use semantic_sentinel.Process.{
  set, Grpc, IsGrpc, exited, invalid_access, null_server, use_after_free, Process, check, Event,
  main_turn, gc_turn, grpc_turn, interrupt, arrive, respond, boot, with_arena, handle, run,
}
use semantic_sentinel.Process.Lifetime.{run_safe}
use semantic_sentinel.Process.Shutdown.{IsLap, Laps, no_lap, and_lap, shutdown_ends}
use semantic_sentinel.Process.Warm.{handle_encodes}
use semantic_sentinel.Process.Quiet.{QuietRun, stop, turn, sent}
use semantic_sentinel.Process.Sound.{run_origin}
use semantic_sentinel.Base.Int.{pos}
use semantic_sentinel.Arena.{
  Arena, memory_arena, reserve, load_bytes, read_payload, write_payload, allocate_payload,
  store_bytes, store_text,
}
use semantic_sentinel.Collector.{collect_once}
use semantic_sentinel.SetCache.{set_cache, checked_set, fill_slot, publish}
use semantic_sentinel.SetCache.Outcome.{quiet_traffic}
use semantic_sentinel.Result.{Result, ok}
use semantic_sentinel.Message.{SetCacheRequest, status_ok}
use semantic_sentinel.CheckCache.{
  check_cache, look_up, scan_slots, scan_slot, scan_state, score_slot, claim_slot, answer_best,
  answer_state, hit_slot,
}
use semantic_sentinel.CheckCache.Answer.{served as served_text}
use semantic_sentinel.Node.{pack_control, unpack_control}
use semantic_sentinel.Slot.{set_control, set_created_at, exchange_control}
use semantic_sentinel.Memory.{read_bytes, write_bytes}
use semantic_sentinel.Similarity.{cosine_similarity, fma_loop, fma_block, horizontal_sum}
use semantic_sentinel.Cache.Origin.{Brought}
use semantic_sentinel.Process.Bound.{bound_server}
use semantic_sentinel.Sample.{hi, whole_numbers, willing}

-- A server that is down once `Shutdown` is called.
abbrev switch : Grpc Bool
switch = record {
  build_and_start = λ address. some false;
  shut_down = λ timeout s. true;
  admits = λ s. not s;
  is_done = λ s n. s && n == 0;
}

switch-IsGrpc : IsGrpc switch
switch-IsGrpc = record {
  closed = λ timeout s. refl;
  ends = λ timeout s. refl;
  done_idle = λ s n h. ground arith;
  done_closed = λ s n h. ground arith;
}

-- A signal and a call come in while the server runs, and `main` calls `Shutdown`.
abbrev served : List (Event ℕ)
served =
    main_turn
    ∷ main_turn
    ∷ main_turn
    ∷ main_turn
    ∷ main_turn
    ∷ main_turn
    ∷ arrive
    ∷ interrupt
    ∷ gc_turn quiet
    ∷ main_turn
    ∷ main_turn
    ∷ []

-- One turn of everything.
abbrev all_turns : List (Event ℕ)
all_turns = respond (check quiet_others 100 []) ∷ gc_turn quiet ∷ grpc_turn ∷ main_turn ∷ []

all_turns-IsLap : IsLap all_turns
all_turns-IsLap = record {
  round = quiet;
  call = check quiet_others 100 [];
  main = Memᴰ.tail (Memᴰ.tail (Memᴰ.tail (Memᴰ.head refl)));
  wait = Memᴰ.tail (Memᴰ.tail (Memᴰ.head refl));
  gc = Memᴰ.tail (Memᴰ.head refl);
  handlers = Memᴰ.head refl;
}

abbrev repeated : ℕ → List (Event ℕ)
repeated zero = []
repeated (suc n) = all_turns ++ repeated n

repeated-Laps : (n : ℕ) → Laps n (repeated n)
repeated-Laps zero = no_lap
repeated-Laps (suc n) = and_lap all_turns-IsLap (repeated-Laps n)

abbrev at_shutdown : Process ℕ (Unit {0}) Bool
at_shutdown = run willing switch served boot

shutdown_ends_example :
    let p = run willing switch (repeated 9) at_shutdown in
    (p.fate ≡ exited) ⊎ (p.fate ≡ invalid_access)
unfolding run warm_up_engine get_instance load_model warm_up_loop encode pool normalize add_squares
    mean_pooling add_rows
shutdown_ends_example =
    shutdown_ends willing switch-IsGrpc served (repeated 9) refl refl (repeated-Laps 9)

run_safe_example : at_shutdown.fate ≢ use_after_free
run_safe_example = run_safe willing switch-IsGrpc served

abbrev at_end : Process ℕ (Unit {0}) Bool
at_end = run willing switch (served ++ repeated 9) boot

bound_server_example : at_end.fate ≢ null_server
bound_server_example = bound_server willing switch-IsGrpc refl (served ++ repeated 9)

handle_encodes_example :
    (w : IsWarm willing at_shutdown.instance) × (handle willing switch
        (check quiet_others 100 hi)
        at_shutdown
      ≡ with_arena
          (check_cache (encode_with willing w.session) quiet_others 100 hi)
          at_shutdown.memory_arena
          at_shutdown)
unfolding run warm_up_engine get_instance load_model warm_up_loop encode pool normalize add_squares
    mean_pooling add_rows
handle_encodes_example = handle_encodes willing switch-IsGrpc served quiet_others 100 hi refl

-- A prompt is missed, its text is brought, and the collector has a turn.
abbrev hi_for_0 : SetCacheRequest
hi_for_0 = record { node_id = pos 0; uncached_payload = hi }

abbrev bringing : List (Event ℕ)
bringing =
    main_turn
    ∷ main_turn
    ∷ main_turn
    ∷ main_turn
    ∷ main_turn
    ∷ main_turn
    ∷ arrive
    ∷ respond (check quiet_others 100 hi)
    ∷ arrive
    ∷ respond (set quiet_traffic hi_for_0)
    ∷ gc_turn quiet
    ∷ []

abbrev vector : List ℕ → Result (ℕ → ℕ)
vector text = (vectorize willing text at_shutdown.instance).0

-- The arena with the text.
abbrev brought : Arena ℕ
brought =
    (set_cache quiet_traffic hi_for_0 (check_cache vector quiet_others 100 hi (memory_arena 0)).1).1

bringing-run : (run willing switch bringing boot).memory_arena ≡ some brought
unfolding run warm_up_engine get_instance load_model warm_up_loop encode pool normalize add_squares
    mean_pooling add_rows set_cache checked_set fill_slot publish write_payload allocate_payload
    memory_arena store_bytes store_text collect_once check_cache vectorize look_up scan_slots
    scan_slot scan_state unpack_control claim_slot exchange_control set_created_at pack_control
bringing-run = refl

bringing-QuietRun : QuietRun willing switch bringing boot
unfolding run warm_up_engine get_instance load_model warm_up_loop encode pool normalize add_squares
    mean_pooling add_rows set_cache checked_set fill_slot publish write_payload allocate_payload
    memory_arena store_bytes store_text collect_once check_cache vectorize look_up scan_slots
    scan_slot scan_state unpack_control claim_slot exchange_control set_created_at pack_control
bringing-QuietRun = turn tt (
    turn tt (
      turn tt (
        turn tt (
          turn tt (
            turn tt (turn tt (turn refl (turn tt (turn (refl, omega arith) (turn refl stop))))))))))

brought_hits : (check_cache vector quiet_others 101 hi brought).0 ≡ ok (status_ok, served_text hi)
unfolding run warm_up_engine get_instance load_model warm_up_loop encode pool normalize add_squares
    mean_pooling add_rows set_cache checked_set fill_slot publish write_payload allocate_payload
    memory_arena store_bytes store_text collect_once check_cache vectorize look_up scan_slots
    scan_slot scan_state unpack_control claim_slot exchange_control set_created_at pack_control
    set_control score_slot answer_best answer_state hit_slot reserve load_bytes read_payload
    read_bytes write_bytes cosine_similarity fma_loop fma_block horizontal_sum
brought_hits = refl

run_origin_example : (i : ℕ) × Brought i hi (sent bringing)
run_origin_example =
    run_origin willing switch bringing brought vector 101 hi hi bringing-QuietRun bringing-run
      brought_hits
