-- ===== src/Words.antt =====
-- Go's int and int64: 64-bit patterns in two's complement. Addition wraps; comparison is signed.
use xds_test_harness.Base.{ℕ, ◌+◌, ◌%◌, ◌^◌, ◌<◌, ◌≡◌, arith, Bool, leb}

abbrev pub add64 : ℕ → ℕ → ℕ
add64 a b = (a + b) % 2 ^ 64

-- x++
abbrev pub inc64 : ℕ → ℕ
inc64 a = add64 a 1

-- The signed order is that of the patterns with the sign bit flipped.
abbrev pub le64 : ℕ → ℕ → Bool
le64 a b = leb ((a + 2 ^ 63) % 2 ^ 64) ((b + 2 ^ 63) % 2 ^ 64)

abbrev pub IsWord : ℕ → Type 0
IsWord a = a < 2 ^ 64

-- Not negative.
abbrev pub IsCount : ℕ → Type 0
IsCount a = a < 2 ^ 63

pub le64-count : (a b : ℕ) → IsCount a → IsCount b → le64 a b ≡ leb a b
le64-count a b h k = ground arith
