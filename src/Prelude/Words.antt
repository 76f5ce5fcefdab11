-- ===== src/Prelude/Words.antt =====
-- Arithmetic of the unsigned machine words.
use Prim.Native.Nat.{ℕ, ◌+◌, ◌-◌, ◌%◌, ◌^◌}

-- `x++` on a `uint32_t`.
abbrev pub inc_u32 : ℕ → ℕ
inc_u32 x = (x + 1) % 2 ^ 32

-- `x--` on a `uint32_t`.
abbrev pub dec_u32 : ℕ → ℕ
dec_u32 x = (x + 2 ^ 32 - 1) % 2 ^ 32

-- `a + b` on `uint64_t`.
abbrev pub add_u64 : ℕ → ℕ → ℕ
add_u64 a b = (a + b) % 2 ^ 64

-- `x++` on a `uint64_t`.
abbrev pub inc_u64 : ℕ → ℕ
inc_u64 x = (x + 1) % 2 ^ 64

abbrev pub uint64_max : ℕ
uint64_max = 2 ^ 64 - 1

abbrev pub uint32_max : ℕ
uint32_max = 2 ^ 32 - 1

-- `x--` on a `uint64_t`.
abbrev pub dec_u64 : ℕ → ℕ
dec_u64 x = (x + 2 ^ 64 - 1) % 2 ^ 64
