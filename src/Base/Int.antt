-- ===== src/Base/Int.antt =====
-- Signed integers over the native numbers, under the library's names: what `int` results stand for.
use Prim.Native.Nat.{ℕ, suc, ◌+◌, ◌-◌, ◌<◌}
use mathlib.Core.Path.{◌≡◌}
use mathlib.Core.Logic.{◌≢◌}
use native.Mathlib.Omega.{arith}
use magical_os.Base.Tests.{ltb, leb, if◌then◌else◌}

-- `negsuc n` is -(n + 1).
pub data ℤ : Type 0 where
  pos : ℕ → ℤ
  negsuc : ℕ → ℤ

abbrev pub pos_part : ℤ → ℕ
pos_part (pos n) = n
pos_part (negsuc n) = 0

abbrev pub neg_part : ℤ → ℕ
neg_part (pos n) = 0
neg_part (negsuc n) = suc n

-- a - b, as an integer.
abbrev pub sub_ℕ : ℕ → ℕ → ℤ
sub_ℕ a b = if leb b a then pos (a - b) else negsuc (b - a - 1)

infixl 65 ◌-ℤ◌
abbrev pub ◌-ℤ◌ : ℤ → ℤ → ℤ
a -ℤ b = sub_ℕ (pos_part a + neg_part b) (neg_part a + pos_part b)

-- A byte read as a `char`, which is signed on this machine.
abbrev pub schar : ℕ → ℤ
schar b = if ltb b 128 then pos b else negsuc (255 - b)

-- `*s1 - *s2`
abbrev pub char_diff : ℕ → ℕ → ℤ
char_diff a b = schar a -ℤ schar b

pub char_diff_self : (a : ℕ) → char_diff a a ≡ pos 0
char_diff_self a = ground arith

pub char_diff_ne : (a b : ℕ) → a < 256 → b < 256 → a ≢ b → char_diff a b ≢ pos 0
char_diff_ne a b ha hb ne e = ground arith
