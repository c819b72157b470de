-- ===== src/Prelude/Int.antt =====
-- Signed integers: Go's `int64` values, within their range.
use Prim.Native.Nat.{ℕ, suc, ◌+◌, ◌-◌, ◌%◌, ◌^◌, ◌≤◌, ◌<◌}
use mathlib.Core.Path.{◌≡◌}
use native.Mathlib.Omega.{arith}
use mathlib.Core.Bool.{Bool, not}
use gapi.Prelude.Tests.{leb, ltb, if◌then◌else◌}

-- `negsuc n` is -(n + 1).
pub data ℤ : Type 0 where
  pos : ℕ → ℤ
  negsuc : ℕ → ℤ

abbrev pub pos_part : ℤ → ℕ
pos_part (pos n) = n
pos_part (negsuc n) = 0

abbrev pub neg_part : ℤ → ℕ
neg_part (pos n) = 0
neg_part (negsuc n) = suc n

infix 50 ◌≤ℤ◌ ◌<ℤ◌
abbrev pub ◌≤ℤ◌ : ℤ → ℤ → Type 0
a ≤ℤ b = pos_part a + neg_part b ≤ pos_part b + neg_part a

abbrev pub ◌<ℤ◌ : ℤ → ℤ → Type 0
a <ℤ b = suc (pos_part a + neg_part b) ≤ pos_part b + neg_part a

-- The tests `a <= b` and `a < b`.
abbrev pub leb_int : ℤ → ℤ → Bool
leb_int a b = leb (pos_part a + neg_part b) (pos_part b + neg_part a)

abbrev pub ltb_int : ℤ → ℤ → Bool
ltb_int a b = not (leb_int b a)

-- Go's `a + b` on `int` and `int64`: two's complement of 64 bits, which wraps around.
unfoldable pub bits : ℤ → ℕ
bits (pos n) = n % 2 ^ 64
bits (negsuc n) = 2 ^ 64 - 1 - n % 2 ^ 64

unfoldable pub signed : ℕ → ℤ
signed b = if ltb b (2 ^ 63) then pos b else negsuc (2 ^ 64 - 1 - b)

unfoldable pub add_int : ℤ → ℤ → ℤ
unfolding bits signed
add_int a b = signed ((bits a + bits b) % 2 ^ 64)

unfoldable pub sub_int : ℤ → ℤ → ℤ
unfolding bits signed
sub_int a b = signed ((bits a + (2 ^ 64 - bits b)) % 2 ^ 64)

-- Sums of numbers from 0 up do not wrap around below 2 ^ 63.
pub add_int-pos : (a b : ℕ) → a + b < 2 ^ 63 → add_int (pos a) (pos b) ≡ pos (a + b)
unfolding add_int
add_int-pos a b h = ground arith

-- Sums that do not wrap around, for instants, whose range is wider.
abbrev pub sub_ℕ : ℕ → ℕ → ℤ
sub_ℕ a b = if leb b a then pos (a - b) else negsuc (b - a - 1)

infixl 65 ◌+ℤ◌ ◌-ℤ◌
unfoldable pub ◌+ℤ◌ : ℤ → ℤ → ℤ
a +ℤ b = sub_ℕ (pos_part a + pos_part b) (neg_part a + neg_part b)

unfoldable pub ◌-ℤ◌ : ℤ → ℤ → ℤ
a -ℤ b = sub_ℕ (pos_part a + neg_part b) (neg_part a + pos_part b)

pub +ℤ_cancel : (a b : ℤ) → (a +ℤ b) -ℤ a ≡ b
unfolding ◌+ℤ◌ ◌-ℤ◌
+ℤ_cancel a b = ground arith
