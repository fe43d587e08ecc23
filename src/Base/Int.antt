-- ===== src/Base/Int.antt =====
-- Signed integers over the native numbers, for `int` values that may fall below zero.
use Prim.Native.Nat.{ℕ, suc, ◌+◌, ◌-◌}
use mathlib.Core.Path.{◌≡◌}
use mathlib.Core.Bool.{Bool}
use native.Mathlib.Omega.{arith}
use poptrie_project.Base.Tests.{leb, if◌then◌else◌}

-- `negsuc n` is -(n + 1).
pub data ℤ : Type 0 where
  pos : ℕ → ℤ
  negsuc : ℕ → ℤ

abbrev pub pos_part : ℤ → ℕ
pos_part (pos n) = n
pos_part (negsuc n) = 0

abbrev pub neg_part : ℤ → ℕ
neg_part (pos n) = 0
neg_part (negsuc n) = suc n

-- a - b, as an integer.
abbrev pub sub_ℕ : ℕ → ℕ → ℤ
sub_ℕ a b = if leb b a then pos (a - b) else negsuc (b - a - 1)

-- `n++` and `n--`.
abbrev pub succ : ℤ → ℤ
succ a = sub_ℕ (pos_part a + 1) (neg_part a)

abbrev pub pred : ℤ → ℤ
pred a = sub_ℕ (pos_part a) (neg_part a + 1)

-- `0 < n`.
abbrev pub is_positive : ℤ → Bool
is_positive a = leb 1 (pos_part a)

pub pred-succ : (a : ℤ) → pred (succ a) ≡ a
pred-succ a = ground arith

pub succ-pred : (a : ℤ) → succ (pred a) ≡ a
succ-pred a = ground arith
