-- ===== src/Base/Int64.antt =====
-- Go's int64: an integer in range, with sums and differences that wrap around.
use Prim.Native.Nat.{◌-◌, ◌%◌, ◌^◌}
use mathlib.Core.Path.{◌≡◌}
use native.Mathlib.Omega.{arith}
use go_hermes.Base.Tests.{ltb, if◌then◌else◌}
use go_hermes.Base.Int.{ℤ, pos, negsuc, ◌+ℤ◌, ◌-ℤ◌, ◌*ℤ◌, ◌≤ℤ◌, int_laws}

-- The value of an integer's low 64 bits, read as a two's complement number.
unfoldable pub wrap64 : ℤ → ℤ
wrap64 (pos n) =
    if ltb (n % 2 ^ 64) (2 ^ 63) then pos (n % 2 ^ 64) else negsuc (2 ^ 64 - n % 2 ^ 64 - 1)
wrap64 (negsuc n) =
    if ltb (n % 2 ^ 64) (2 ^ 63) then negsuc (n % 2 ^ 64) else pos (2 ^ 64 - n % 2 ^ 64 - 1)

unfoldable pub add64 : ℤ → ℤ → ℤ
unfolding wrap64 ◌+ℤ◌
add64 a b = wrap64 (a +ℤ b)

unfoldable pub sub64 : ℤ → ℤ → ℤ
unfolding wrap64 ◌-ℤ◌
sub64 a b = wrap64 (a -ℤ b)

unfoldable pub mul64 : ℤ → ℤ → ℤ
unfolding wrap64 ◌*ℤ◌
mul64 a b = wrap64 (a *ℤ b)

pub record IsInt64 (a : ℤ) : Type 0 where
  pub low : negsuc (2 ^ 63 - 1) ≤ℤ a
  pub high : a ≤ℤ pos (2 ^ 63 - 1)

pub wrap64-IsInt64 : (a : ℤ) → IsInt64 (wrap64 a)
unfolding wrap64
wrap64-IsInt64 (pos n) = ground arith
wrap64-IsInt64 (negsuc n) = ground arith

-- In range nothing wraps.
pub wrap64_id : (a : ℤ) → IsInt64 a → wrap64 a ≡ a
unfolding wrap64
wrap64_id (pos n) h = ground arith
wrap64_id (negsuc n) h = ground arith

-- A sum of two numbers of the range that are not negative has wrapped exactly if it is negative.
pub wrap64_sum :
    (a b : ℤ)
    → IsInt64 a
    → IsInt64 b
    → pos 0 ≤ℤ a
    → pos 0 ≤ℤ b
    → pos 0 ≤ℤ wrap64 (a +ℤ b)
    → wrap64 (a +ℤ b) ≡ a +ℤ b
unfolding wrap64 ◌+ℤ◌
wrap64_sum (pos n) (pos m) ha hb pa pb h = ground arith
wrap64_sum (negsuc n) b ha hb pa pb h = absurd (omega arith)
wrap64_sum (pos n) (negsuc m) ha hb pa pb h = absurd (omega arith)

pub add64_exact :
    (a b : ℤ)
    → IsInt64 a
    → IsInt64 b
    → pos 0 ≤ℤ a
    → pos 0 ≤ℤ b
    → pos 0 ≤ℤ add64 a b
    → add64 a b ≡ a +ℤ b
unfolding add64
add64_exact a b ha hb pa pb h = wrap64_sum a b ha hb pa pb h

pub sub64_exact : (a b : ℤ) → IsInt64 a → pos 0 ≤ℤ b → b ≤ℤ a → sub64 a b ≡ a -ℤ b
unfolding sub64
sub64_exact a b ha pb h =
    wrap64_id (a -ℤ b) (record { low = omega int_laws; high = omega int_laws })

pub add64-IsInt64 : (a b : ℤ) → IsInt64 (add64 a b)
unfolding add64
add64-IsInt64 a b = wrap64-IsInt64 (a +ℤ b)

pub sub64-IsInt64 : (a b : ℤ) → IsInt64 (sub64 a b)
unfolding sub64
sub64-IsInt64 a b = wrap64-IsInt64 (a -ℤ b)
