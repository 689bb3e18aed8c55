-- ===== src/Prelude/Word.antt =====
-- Fixed-width unsigned integers: `unsigned` has 32 bits, `std::size_t` and `std::uint64_t` 64.
use mathlib.Core.List.{List, [], ◌∷◌}
use Prim.Native.Nat.{ℕ, ◌<◌, ◌+◌, ◌-◌, ◌%◌, ◌^◌}

abbrev pub u32 : ℕ → ℕ
u32 n = n % 2 ^ 32

-- a - b on `unsigned`.
abbrev pub sub_u32 : ℕ → ℕ → ℕ
sub_u32 a b = (a + 2 ^ 32 - b) % 2 ^ 32

-- ++n and --n on `std::size_t`.
abbrev pub incr_size : ℕ → ℕ
incr_size n = (n + 1) % 2 ^ 64

abbrev pub decr_size : ℕ → ℕ
decr_size n = (n + 2 ^ 64 - 1) % 2 ^ 64

abbrev pub IsBytes : List ℕ → Type 0
IsBytes [] = Unit {0}
IsBytes (b ∷ bytes) = (b < 256) × IsBytes bytes
