-- ===== src/Prelude/Words.antt =====
-- Rust's unsigned machine integers as native numbers, with their saturation and wrap-around.
use mathlib.Core.List.{List, [], ◌∷◌}
use Prim.Native.Nat.{ℕ, ◌+◌, ◌-◌, ◌%◌, ◌^◌, min}

abbrev pub u32_max : ℕ
u32_max = 2 ^ 32 - 1

abbrev pub u64_max : ℕ
u64_max = 2 ^ 64 - 1

-- `a.saturating_add(b)` at `u32` and at `u64`
abbrev pub saturating_add_u32 : ℕ → ℕ → ℕ
saturating_add_u32 a b = min (a + b) u32_max

abbrev pub saturating_add_u64 : ℕ → ℕ → ℕ
saturating_add_u64 a b = min (a + b) u64_max

-- `a.saturating_sub(b)`, at any width
abbrev pub saturating_sub : ℕ → ℕ → ℕ
saturating_sub a b = a - b

-- `n as u32` and `n as u64` from a wider or an equally wide type
abbrev pub as_u32 : ℕ → ℕ
as_u32 n = n % 2 ^ 32

abbrev pub as_u64 : ℕ → ℕ
as_u64 n = n % 2 ^ 64

-- `sum::<u32>()`, which wraps around in a release build.
abbrev pub sum_u32 : List ℕ → ℕ
sum_u32 [] = 0
sum_u32 (n ∷ ns) = as_u32 (n + sum_u32 ns)

abbrev pub sum_u64 : List ℕ → ℕ
sum_u64 [] = 0
sum_u64 (n ∷ ns) = as_u64 (n + sum_u64 ns)
