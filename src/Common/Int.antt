-- ===== src/Common/Int.antt =====
-- Signed integers over the native numbers, and the reading of a 64-bit pattern as `int64`.
use Prim.Native.Nat.{◌<◌, ◌+◌, ℕ, zero, suc, ◌-◌, ◌%◌, ◌^◌, ◌/◌}
use mathlib.Core.Path.{◌≡◌, refl}
use native.Mathlib.Omega.{arith}
use mathlib.Core.Bool.{Bool, true, false}
use kefka.Common.Tests.{ltb, ◌==◌, if◌then◌else◌}

-- `negsuc n` is -(n + 1).
pub data ℤ : Type 0 where
  pos : ℕ → ℤ
  negsuc : ℕ → ℤ

-- `a < b`
abbrev pub ltb_ℤ : ℤ → ℤ → Bool
ltb_ℤ (pos a) (pos b) = ltb a b
ltb_ℤ (pos a) (negsuc b) = false
ltb_ℤ (negsuc a) (pos b) = true
ltb_ℤ (negsuc a) (negsuc b) = ltb b a

-- `a == b`
abbrev pub eqb_ℤ : ℤ → ℤ → Bool
eqb_ℤ (pos a) (pos b) = a == b
eqb_ℤ (negsuc a) (negsuc b) = a == b
eqb_ℤ _ _ = false

abbrev pub neg_ℕ : ℕ → ℤ
neg_ℕ zero = pos 0
neg_ℕ (suc n) = negsuc n

-- A number modulo 2 ^ 64, read as `int64`.
unfoldable pub int64 : ℕ → ℤ
int64 n = if ltb (n % 2 ^ 64) (2 ^ 63) then pos (n % 2 ^ 64) else negsuc (2 ^ 64 - 1 - n % 2 ^ 64)

-- Go's division of an `int64` by a positive constant, which rounds towards zero.
unfoldable pub quot : ℤ → ℕ → ℤ
quot (pos a) n = pos (a / n)
quot (negsuc a) n = neg_ℕ (suc a / n)

-- An `int64` as 64 bits, and the sum of two with its wrap-around.
abbrev pub word : ℤ → ℕ
word (pos n) = n % 2 ^ 64
word (negsuc n) = 2 ^ 64 - 1 - n % 2 ^ 64

unfoldable pub add_int64 : ℤ → ℤ → ℤ
unfolding int64
add_int64 a b = int64 (word a + word b)

pub add_int64-fits : (a b : ℕ) → a + b < 2 ^ 63 → add_int64 (pos a) (pos b) ≡ pos (a + b)
unfolding add_int64 int64
add_int64-fits a b h =
    let same : (a % 2 ^ 64 + b % 2 ^ 64) % 2 ^ 64 ≡ a + b = omega arith in
    let small : ltb (a + b) (2 ^ 63) ≡ true = ground arith in rw (same, small) refl
