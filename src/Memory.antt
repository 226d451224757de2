-- ===== src/Memory.antt =====
-- Memory as bytes by index, `memcpy` on it, and the little-endian layout of `uint32_t` that the
-- x86-64 target gives a `PayloadHeader`. Bounds are the callers': see Arena.
pub mod Laws
use semantic_sentinel.Base.{
  ℕ, zero, suc, ◌+◌, ◌-◌, ◌*◌, ◌/◌, ◌%◌, ◌^◌, Bool, ◌&&◌, ltb, leb, if◌then◌else◌, List, [], ◌∷◌,
  length, get_or,
}

abbrev pub Bytes : Type 0
Bytes = ℕ → ℕ

abbrev pub within : ℕ → ℕ → ℕ → Bool
within start count i = leb start i && ltb i (start + count)

-- The memory after `memcpy(memory + start, xs, length xs)`.
unfoldable pub write_bytes : Bytes → ℕ → List ℕ → Bytes
write_bytes memory start xs i =
    if within start (length xs) i then get_or xs (i - start) 0 else memory i

-- What `memcpy(…, memory + start, count)` copies.
unfoldable pub read_bytes : Bytes → ℕ → ℕ → List ℕ
read_bytes memory start zero = []
read_bytes memory start (suc count) = memory start ∷ read_bytes memory (start + 1) count

abbrev pub bytes32 : ℕ → List ℕ → List ℕ
bytes32 n rest = n % 256 ∷ n / 2 ^ 8 % 256 ∷ n / 2 ^ 16 % 256 ∷ n / 2 ^ 24 % 256 ∷ rest

abbrev pub load32 : Bytes → ℕ → ℕ
load32 memory i =
    memory i + memory (i + 1) * 2 ^ 8 + memory (i + 2) * 2 ^ 16 + memory (i + 3) * 2 ^ 24
