-- ===== src/Prelude/Int.antt =====
-- Signed integers, and the casts between std::uint64_t and std::int64_t, and from std::size_t to int.
use Prim.Native.Nat.{ℕ, ◌-◌, ◌%◌, ◌^◌, ◌<◌}
use mathlib.Core.Path.{◌≡◌}
use native.Mathlib.Omega.{arith}
use modern_cpp_hw.Prelude.Tests.{ltb, if◌then◌else◌}

-- `negsuc n` is -(n + 1).
pub data ℤ : Type 0 where
  pos : ℕ → ℤ
  negsuc : ℕ → ℤ

-- static_cast<std::int64_t> of a std::uint64_t.
unfoldable pub to_int64 : ℕ → ℤ
to_int64 n = if ltb n (2 ^ 63) then pos n else negsuc (2 ^ 64 - 1 - n)

-- static_cast<std::uint64_t> of a std::int64_t.
unfoldable pub to_uint64 : ℤ → ℕ
to_uint64 (pos n) = n % 2 ^ 64
to_uint64 (negsuc n) = (2 ^ 64 - 1 - n) % 2 ^ 64

-- static_cast<int> of a std::size_t.
unfoldable pub to_int : ℕ → ℤ
to_int n = let low = n % 2 ^ 32 in if ltb low (2 ^ 31) then pos low else negsuc (2 ^ 32 - 1 - low)

pub to_uint64-to_int64 : (n : ℕ) → n < 2 ^ 64 → to_uint64 (to_int64 n) ≡ n
unfolding to_uint64 to_int64
to_uint64-to_int64 n l = ground (arith, l)

pub to_int_small : (n : ℕ) → n < 2 ^ 31 → to_int n ≡ pos n
unfolding to_int
to_int_small n l = ground (arith, l)
