-- ===== src/Sample.antt =====
-- Concrete data that the tests run the model on: numbers in place of `float`, and small arenas.
use semantic_sentinel.Result.{ok}
use semantic_sentinel.Embedder.{Output}
use semantic_sentinel.Embedder.Instance.{Platform}
use semantic_sentinel.Base.{
  ℕ, true, some, ◌+◌, ◌*◌, List, [], ◌∷◌, ◌++◌, ltb, leb, ◌==◌, if◌then◌else◌,
}
use semantic_sentinel.Float.{Floats}
use semantic_sentinel.Node.{pending, hot, pack_control}
use semantic_sentinel.Memory.{write_bytes}
use semantic_sentinel.Arena.{Arena, header_bytes}
use semantic_sentinel.Arena.Payload.{header_of}

-- Whole numbers: sums and products are exact, and 0 stands for -1.0f.
instance abbrev pub whole_numbers : Floats ℕ
whole_numbers = record {
  zero_float = 0;
  one_float = 1;
  minus_one = 0;
  similarity_threshold = 2;
  tiny = 0;
  of_size = λ n. n;
  add = λ a b. a + b;
  mul = λ a b. a * b;
  div = λ a b. a;
  sqrt = λ a. a;
  fma = λ a b c. a * b + c;
  lt = ltb;
  le = leb;
}

abbrev pub hi : List ℕ
hi = 104 ∷ 105 ∷ []

-- All slots pending since 100, the ring empty.
abbrev pub waiting : Arena ℕ
waiting = record {
  metadata = λ i. record { created_at = 100; control_block = pack_control pending hot 0 0 };
  vectors = λ k. 1;
  buffer_payload = λ i. 0;
  write_head = 0;
  read_tail = 0;
}

-- The memory with the payload `hi` of slot 7 at its start.
abbrev pub loaded_buffer : ℕ → ℕ
loaded_buffer = write_bytes (λ i. 0) 0 (header_bytes (header_of 7 2) ++ hi)

-- Slot `j` has the word `control`, the others are dead, and `size` bytes of the ring are in use.
abbrev pub loaded_arena : ℕ → ℕ → ℕ → Arena ℕ
loaded_arena j control size = record {
  metadata = λ i. record { created_at = 100; control_block = if i == j then control else 0 };
  vectors = λ k. 1;
  buffer_payload = loaded_buffer;
  write_head = size;
  read_tail = 0;
}

-- The same with the ring empty but for the payload, as the handlers meet it.
abbrev pub one_slot : ℕ → Arena ℕ
one_slot control = loaded_arena 7 control 14

-- What a model returns for every prompt: one token.
abbrev pub one_token : Output ℕ
one_token = record { batch = 1; seq_length = 1; vec_dimension = 384; float_array = λ k. 1 }

-- A platform on which everything is found.
abbrev pub willing : Platform ℕ (Unit {0}) (Unit {0})
willing = record {
  onnx = record {
    create_options = ok tt;
    set_graph_optimization_level = λ options. ok options;
    set_intra_op_num_threads = λ count options. ok options;
    set_inter_op_num_threads = λ count options. ok options;
    register_custom_ops_library = λ path options. ok options;
    create_session = λ path options. ok tt;
    run = λ session text. ok one_token;
  };
  getenv = λ name. some name;
  aligned_alloc = λ alignment size. true;
  new_nodes = λ count. true;
}
