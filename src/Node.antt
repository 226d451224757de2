-- ===== src/Node.antt =====
-- engine/include/node.hh: the control word of a cache slot and its four fields.
-- A slot's two atomics are numbers below 2 ^ 64; the loads and exchanges stand in the operations
-- that make them.
pub mod Layout
use semantic_sentinel.Base.{ℕ, zero, suc, bit_and, bit_or, u32, shl64, shr}
use semantic_sentinel.Constant.{max_payload_length, virtual_offset_mask}

pub data NodeState : Type 0 where
  dead pending ready migrating : NodeState

pub data EvictState : Type 0 where
  cold hot : EvictState

pub record UnpackedControl : Type 0 where
  pub state : NodeState
  pub ref_bit : EvictState
  pub length : ℕ
  pub virtual_offset : ℕ

-- `static_cast<uint64_t>` of the enumerators, and the casts back.
abbrev pub state_code : NodeState → ℕ
state_code dead = 0
state_code pending = 1
state_code ready = 2
state_code migrating = 3

abbrev pub evict_code : EvictState → ℕ
evict_code cold = 0
evict_code hot = 1

-- The code casts two bits, so 3 is the largest number that arrives here.
abbrev pub state_of : ℕ → NodeState
state_of zero = dead
state_of (suc zero) = pending
state_of (suc (suc zero)) = ready
state_of (suc (suc (suc n))) = migrating

-- The code casts one bit.
abbrev pub evict_of : ℕ → EvictState
evict_of zero = cold
evict_of (suc n) = hot

unfoldable pub pack_control : NodeState → EvictState → ℕ → ℕ → ℕ
pack_control state ref_bit length offset =
    bit_or
      (bit_or (bit_or (shl64 (state_code state) 62) (shl64 (evict_code ref_bit) 61))
        (shl64 (bit_and length max_payload_length) 37))
      (bit_and offset virtual_offset_mask)

unfoldable pub unpack_control : ℕ → UnpackedControl
unpack_control control = record {
  state = state_of (shr control 62);
  ref_bit = evict_of (bit_and (shr control 61) 0x1);
  length = u32 (bit_and (shr control 37) max_payload_length);
  virtual_offset = bit_and control virtual_offset_mask;
}

pub record MetaNode : Type 0 where
  pub created_at : ℕ
  pub control_block : ℕ

unfoldable pub load_control : MetaNode → UnpackedControl
load_control node = unpack_control node.control_block
