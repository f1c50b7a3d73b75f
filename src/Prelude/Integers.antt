-- ===== src/Prelude/Integers.antt =====
-- Python's integers, over the native numbers: `negsuc n` is `- (n + 1)`.
use Prim.Native.Nat.{ℕ, suc, ◌+◌, ◌-◌}
use mathlib.Core.Bool.{Bool, false}
use gprofiler.Prelude.Tests.{if◌then◌else◌, leb, eqb}

pub data ℤ : Type 0 where
  pos negsuc : ℕ → ℤ

infixl 60 ◌+ℤ◌
abbrev pub ◌+ℤ◌ : ℤ → ℤ → ℤ
ℤ.pos a +ℤ ℤ.pos b = ℤ.pos (a + b)
ℤ.pos a +ℤ ℤ.negsuc b = if leb (suc b) a then ℤ.pos (a - suc b) else ℤ.negsuc (b - a)
ℤ.negsuc a +ℤ ℤ.pos b = if leb (suc a) b then ℤ.pos (b - suc a) else ℤ.negsuc (a - b)
ℤ.negsuc a +ℤ ℤ.negsuc b = ℤ.negsuc (suc (a + b))

-- a == b
abbrev pub same_int : ℤ → ℤ → Bool
same_int (ℤ.pos a) (ℤ.pos b) = eqb a b
same_int (ℤ.negsuc a) (ℤ.negsuc b) = eqb a b
same_int a b = false
