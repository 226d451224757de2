-- ===== src/Tests/OfNode.antt =====
-- The control word of engine/include/node.hh and the sum of engine/include/avx_math.hh, run.
use semantic_sentinel.Base.{◌+◌, ◌*◌, ◌%◌, ◌^◌, ◌≡◌, refl, arith}
use semantic_sentinel.Float.{IsExact}
use semantic_sentinel.Node.{pending, ready, hot, pack_control, unpack_control}
use semantic_sentinel.Node.Layout.{unpack_control-pack_control, pack_control-unpack_control}
use semantic_sentinel.Similarity.{cosine_similarity, scalar_cosine_similarity}
use semantic_sentinel.Similarity.Exact.{cosine_similarity-scalar}
use semantic_sentinel.Sample.{whole_numbers}

pending_word_test : pack_control pending hot 0 0 ≡ 2 ^ 62 + 2 ^ 61
unfolding pack_control
pending_word_test = refl

-- The length loses its 25th bit, the offset its 38th.
unpack_control-pack_control_example :
    unpack_control (pack_control ready hot (2 ^ 24 + 5) (2 ^ 37 + 9)) ≡ record {
      state = ready;
      ref_bit = hot;
      length = (2 ^ 24 + 5) % 2 ^ 24;
      virtual_offset = (2 ^ 37 + 9) % 2 ^ 37;
    }
unpack_control-pack_control_example =
    unpack_control-pack_control ready hot (2 ^ 24 + 5) (2 ^ 37 + 9)

pack_control-unpack_control_example :
    let u = unpack_control 0xA000_0040_0000_0009 in
    pack_control u.state u.ref_bit u.length u.virtual_offset ≡ 0xA000_0040_0000_0009
pack_control-unpack_control_example =
    pack_control-unpack_control 0xA000_0040_0000_0009 (omega arith)

whole_numbers-IsExact : IsExact whole_numbers
whole_numbers-IsExact = record {
  add_comm = λ a b. omega arith;
  add_assoc = λ a b c. omega arith;
  zero-add = λ a. omega arith;
  fma_mul = λ a b c. refl;
}

cosine_similarity-scalar_example :
    cosine_similarity (λ i. i) (λ i. 2 * i + 1) ≡ scalar_cosine_similarity (λ i. i) (λ i. 2 * i + 1)
cosine_similarity-scalar_example =
    cosine_similarity-scalar whole_numbers-IsExact (λ i. i) (λ i. 2 * i + 1)
