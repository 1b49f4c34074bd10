-- ===== src/Base/Int.antt =====
-- The C++ type int where it may be negative, over the native numbers, and its conversion to size_t.
use Prim.Native.Nat.{ℕ, zero, suc, ◌+◌, ◌-◌, ◌^◌}
use mathlib.Core.Bool.{Bool, true, false}
use worker_unit.Base.Tests.{ltb}

pub data ℤ : Type 0 where
  pos : ℕ → ℤ
  negsuc : ℕ → ℤ

-- An int compared with a size() is converted first.
abbrev pub to_size : ℤ → ℕ
to_size (pos n) = n
to_size (negsuc n) = 2 ^ 64 - suc n

-- `a > b` on two ints
abbrev pub gtz : ℤ → ℤ → Bool
gtz (pos a) (pos b) = ltb b a
gtz (pos a) (negsuc b) = true
gtz (negsuc a) (pos b) = false
gtz (negsuc a) (negsuc b) = ltb a b

-- `a - b` on natural numbers, as an int
abbrev pub subz : ℕ → ℕ → ℤ
subz a zero = pos a
subz zero (suc b) = negsuc b
subz (suc a) (suc b) = subz a b

infixl 60 ◌+ℤ◌
abbrev pub ◌+ℤ◌ : ℤ → ℤ → ℤ
pos a +ℤ pos b = pos (a + b)
pos a +ℤ negsuc b = subz a (suc b)
negsuc a +ℤ pos b = subz b (suc a)
negsuc a +ℤ negsuc b = negsuc (suc (a + b))
