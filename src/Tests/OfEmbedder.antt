-- ===== src/Tests/OfEmbedder.antt =====
-- `Embedder::Encode` of engine/src/embedder.cc, run over the field of two elements.
use Prim.Native.String.{String}
use semantic_sentinel.Base.{
  Option, none, some, ℕ, ◌%◌, ◌≡◌, refl, arith, Bool, true, false, not, ◌&&◌, ◌||◌, [], ◌∷◌, ◌++◌,
  ◌==◌,
}
use semantic_sentinel.Float.{Floats, IsExact}
use semantic_sentinel.Result.{ok}
use semantic_sentinel.Similarity.{cosine_similarity}
use semantic_sentinel.Embedder.{
  Output, new_aligned_vector, add_squares, add_rows, mean_pooling, normalize, pool, encode,
}
use semantic_sentinel.Embedder.Pooling.{IsField, encode-cosine_similarity, encode_truncates}
use semantic_sentinel.Embedder.Instance.{Platform, load_model, embedder}
use semantic_sentinel.Embedder.WarmUp.{Loaded, embedder_loads}
use semantic_sentinel.Sample.{hi, whole_numbers, willing}

abbrev xor : Bool → Bool → Bool
xor true b = not b
xor false b = b

-- The numbers modulo 2: the square root is the number itself, and only 0 is tiny.
instance abbrev two_elements : Floats Bool
two_elements = record {
  zero_float = false;
  one_float = true;
  minus_one = true;
  similarity_threshold = true;
  tiny = true;
  of_size = λ n. n % 2 == 1;
  add = xor;
  mul = λ a b. a && b;
  div = λ a b. a && b;
  sqrt = λ a. a;
  fma = λ a b c. xor (a && b) c;
  lt = λ a b. not a && b;
  le = λ a b. not a || b;
}

two_elements-IsExact : IsExact two_elements
two_elements-IsExact = record {
  add_comm = λ a b. ground arith;
  add_assoc = λ a b c. ground arith;
  zero-add = λ a. refl;
  fma_mul = λ a b c. refl;
}

two_elements-IsField : IsField two_elements
two_elements-IsField = record {
  mul_comm = λ a b. ground arith;
  mul_assoc = λ a b c. ground arith;
  mul_add = λ a b c. ground arith;
  zero-mul = λ a. refl;
  one-mul = λ a. refl;
  sqrt_mul = λ a p. ground arith;
  div_sqrt = λ a p. ground arith;
}

-- Three tokens, the vectors of which have their first element only.
abbrev three_tokens : Output Bool
three_tokens = record {
  batch = 1;
  seq_length = 3;
  vec_dimension = 384;
  float_array = λ k. k % 384 == 0;
}

abbrev first_unit : ℕ → Bool
first_unit i = mean_pooling three_tokens i && true

encode-cosine_similarity_example : cosine_similarity first_unit first_unit ≡ true
unfolding encode pool new_aligned_vector normalize add_squares mean_pooling add_rows
encode-cosine_similarity_example =
    encode-cosine_similarity two_elements-IsExact two_elements-IsField (λ text. ok three_tokens)
      (λ alignment size. true) hi first_unit refl

encode_truncates_example :
    encode (λ text. ok three_tokens) (λ alignment size. true) (hi ++ 0 ∷ 1 ∷ [])
    ≡ encode (λ text. ok three_tokens) (λ alignment size. true) (hi ++ 0 ∷ 2 ∷ [])
encode_truncates_example =
    encode_truncates (λ text. ok three_tokens) (λ alignment size. true) hi (1 ∷ []) (2 ∷ [])

-- The platform without its environment.
abbrev unset : Platform ℕ (Unit {0}) (Unit {0})
unset = record willing { getenv = λ name. none }

embedder_loads_example :
    (model_path ext_path : String) × (willing.getenv "INFERENCE_MODEL_PATH" ≡ some model_path)
    × (willing.getenv "ORT_EXTENSIONS_PATH" ≡ some ext_path)
    × Loaded willing model_path ext_path tt
unfolding embedder load_model
embedder_loads_example = embedder_loads willing refl

abbrev warm : Option (Unit {0})
warm = some tt
