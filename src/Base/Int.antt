-- ===== src/Base/Int.antt =====
-- Go's `int` and `int64`: signed integers with their 64-bit wrap-around written out.
use Prim.Native.Nat.{ℕ, suc, ◌+◌, ◌-◌, ◌*◌, ◌/◌, ◌%◌, ◌≤◌, ◌<◌}
use mathlib.Core.Path.{◌≡◌, refl}
use mathlib.Core.Bool.{Bool, ◌&&◌}
use native.Mathlib.Omega.{arith}
use titan_explorer.Base.Tests.{ltb, leb, ◌==◌, if◌then◌else◌}

-- `negsuc n` is -(n + 1).
pub data ℤ : Type 0 where
  pos : ℕ → ℤ
  negsuc : ℕ → ℤ

abbrev pub pos_part : ℤ → ℕ
pos_part (pos n) = n
pos_part (negsuc n) = 0

abbrev pub neg_part : ℤ → ℕ
neg_part (pos n) = 0
neg_part (negsuc n) = suc n

abbrev pub sub_ℕ : ℕ → ℕ → ℤ
sub_ℕ a b = if leb b a then pos (a - b) else negsuc (b - a - 1)

infixl 65 ◌+ℤ◌ ◌-ℤ◌
infixl 70 ◌*ℤ◌
infix 50 ◌≤ℤ◌ ◌<ℤ◌
unfoldable pub ◌+ℤ◌ : ℤ → ℤ → ℤ
a +ℤ b = sub_ℕ (pos_part a + pos_part b) (neg_part a + neg_part b)

unfoldable pub ◌-ℤ◌ : ℤ → ℤ → ℤ
a -ℤ b = sub_ℕ (pos_part a + neg_part b) (neg_part a + pos_part b)

unfoldable pub ◌*ℤ◌ : ℤ → ℤ → ℤ
a *ℤ b =
    sub_ℕ (pos_part a * pos_part b + neg_part a * neg_part b)
      (pos_part a * neg_part b + neg_part a * pos_part b)

abbrev pub ◌≤ℤ◌ : ℤ → ℤ → Type 0
a ≤ℤ b = pos_part a + neg_part b ≤ pos_part b + neg_part a

abbrev pub ◌<ℤ◌ : ℤ → ℤ → Type 0
a <ℤ b = pos_part a + neg_part b < pos_part b + neg_part a

abbrev pub ltb_ℤ : ℤ → ℤ → Bool
ltb_ℤ a b = ltb (pos_part a + neg_part b) (pos_part b + neg_part a)

abbrev pub leb_ℤ : ℤ → ℤ → Bool
leb_ℤ a b = leb (pos_part a + neg_part b) (pos_part b + neg_part a)

abbrev pub eqb_ℤ : ℤ → ℤ → Bool
eqb_ℤ a b = pos_part a + neg_part b == pos_part b + neg_part a

-- `lo <= x && x <= hi`
abbrev pub between : ℕ → ℕ → ℤ → Bool
between lo hi x = leb_ℤ (pos lo) x && leb_ℤ x (pos hi)

-- 2 ^ 64
abbrev pub int64_mod : ℕ
int64_mod = 18_446_744_073_709_551_616

-- 2 ^ 63
abbrev pub int64_half : ℕ
int64_half = 9_223_372_036_854_775_808

-- The value of the low 64 bits of an integer, read as a signed number.
unfoldable pub wrap64 : ℤ → ℤ
wrap64 z =
    let r = (pos_part z + int64_mod - neg_part z % int64_mod) % int64_mod in
    if ltb r int64_half then pos r else negsuc (int64_mod - 1 - r)

-- `uint64(x)`
abbrev pub to_uint64 : ℤ → ℕ
to_uint64 z = (pos_part z + int64_mod - neg_part z % int64_mod) % int64_mod

-- `a * b` on `int`
unfoldable pub mul64 : ℤ → ℤ → ℤ
unfolding wrap64 ◌*ℤ◌
mul64 a b = wrap64 (a *ℤ b)

-- `a + b` and `a - b` on `int`
unfoldable pub add64 : ℤ → ℤ → ℤ
unfolding wrap64 ◌+ℤ◌
add64 a b = wrap64 (a +ℤ b)

unfoldable pub sub64 : ℤ → ℤ → ℤ
unfolding wrap64 ◌-ℤ◌
sub64 a b = wrap64 (a -ℤ b)

-- `a / k` on `int` for a positive constant: the quotient is cut off towards zero.
unfoldable pub quot : ℤ → ℕ → ℤ
quot (pos n) k = pos (n / k)
quot (negsuc n) k = sub_ℕ 0 (suc n / k)

pub wrap64-pos : (n : ℕ) → n < int64_half → wrap64 (pos n) ≡ pos n
unfolding wrap64
wrap64-pos n h = ground arith

pub to_uint64-pos : (n : ℕ) → n < int64_half → to_uint64 (pos n) ≡ n
to_uint64-pos n h = ground (arith, h)

pub mul64-pos : (a b : ℕ) → a * b < int64_half → mul64 (pos a) (pos b) ≡ pos (a * b)
unfolding mul64
mul64-pos a b h = ground arith

pub add64-pos : (a b : ℕ) → a + b < int64_half → add64 (pos a) (pos b) ≡ pos (a + b)
unfolding add64
add64-pos a b h = ground arith

pub mul64-zero : (a : ℤ) → mul64 a (pos 0) ≡ pos 0
unfolding mul64
mul64-zero a = ground arith

mul64_wraps : mul64 (pos int64_half) (pos 3) ≡ negsuc (int64_half - 1)
unfolding mul64
mul64_wraps = refl

pub sub64-pos : (a b : ℕ) → a < int64_half → b < int64_half → sub64 (pos a) (pos b) ≡ sub_ℕ a b
unfolding sub64
sub64-pos a b p q = ground arith

-- `t.Sub(u)`: a difference out of the range of `time.Duration` becomes the nearest end.
unfoldable pub sub_time : ℤ → ℤ → ℤ
unfolding ◌-ℤ◌
sub_time t u =
    let d = t -ℤ u in
    if leb_ℤ (pos int64_half) d
    then pos (int64_half - 1)
    else if ltb_ℤ d (negsuc (int64_half - 1))
    then negsuc (int64_half - 1)
    else d
