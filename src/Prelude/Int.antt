-- ===== src/Prelude/Int.antt =====
-- Go's `int` on a 64-bit platform, over the native numbers and under the library's names.
use Prim.Native.Nat.{ℕ, zero, suc, ◌+◌, ◌-◌, ◌≤◌, ◌<◌, ◌^◌}
use mathlib.Core.Bool.{Bool}
use native.Mathlib.Omega.{arith}
use go_ddd.Prelude.Tests.{ltb, leb, nat_beq, if◌then◌else◌}

-- `negsuc n` is -(n + 1).
pub data ℤ : Type 0 where
  pos : ℕ → ℤ
  negsuc : ℕ → ℤ

abbrev pub pos_part : ℤ → ℕ
pos_part (pos n) = n
pos_part (negsuc n) = 0

abbrev pub neg_part : ℤ → ℕ
neg_part (pos n) = 0
neg_part (negsuc n) = suc n

infix 50 ◌≤ℤ◌ ◌<ℤ◌
abbrev pub ◌≤ℤ◌ : ℤ → ℤ → Type 0
a ≤ℤ b = pos_part a + neg_part b ≤ pos_part b + neg_part a

abbrev pub ◌<ℤ◌ : ℤ → ℤ → Type 0
a <ℤ b = pos_part a + neg_part b < pos_part b + neg_part a

abbrev pub ltb_ℤ : ℤ → ℤ → Bool
ltb_ℤ a b = ltb (pos_part a + neg_part b) (pos_part b + neg_part a)

abbrev pub leb_ℤ : ℤ → ℤ → Bool
leb_ℤ a b = leb (pos_part a + neg_part b) (pos_part b + neg_part a)

abbrev pub beq_ℤ : ℤ → ℤ → Bool
beq_ℤ a b = nat_beq (pos_part a + neg_part b) (pos_part b + neg_part a)

abbrev pub max_int : ℕ
max_int = 2 ^ 63 - 1

-- What an `int` can hold.
abbrev pub IsInt : ℤ → Type 0
IsInt (pos n) = n ≤ max_int
IsInt (negsuc n) = n ≤ max_int

-- `x + 1` and `x++`: the largest `int` wraps round to the smallest.
unfoldable pub int_succ : ℤ → ℤ
int_succ (pos n) = if nat_beq n max_int then negsuc max_int else pos (n + 1)
int_succ (negsuc zero) = pos 0
int_succ (negsuc (suc n)) = negsuc n

pub int_succ-IsInt : (a : ℤ) → IsInt a → IsInt (int_succ a)
unfolding int_succ
int_succ-IsInt (pos n) h = ground arith
int_succ-IsInt (negsuc zero) h = omega arith
int_succ-IsInt (negsuc (suc n)) h = omega arith

pub lt-int_succ : (a : ℤ) → a <ℤ pos max_int → a <ℤ int_succ a
unfolding int_succ
lt-int_succ (pos n) h = ground arith
lt-int_succ (negsuc zero) h = omega arith
lt-int_succ (negsuc (suc n)) h = omega arith
