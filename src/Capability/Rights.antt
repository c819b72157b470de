-- ===== src/Capability/Rights.antt =====
-- Rights bitmaps: the three rights, the signal that each allows, and `&^` on `uint64`.
use gapi.Prelude.{
  ℕ, zero, suc, ◌+◌, ◌-◌, ◌*◌, ◌/◌, ◌%◌, ◌≤◌, ◌<◌, ◌≡◌, refl, ◌||◌, Option, none, some, arith, ◌==◌,
  if◌then◌else◌,
}

abbrev pub right_signal_term : ℕ
right_signal_term = 1

abbrev pub right_signal_kill : ℕ
right_signal_kill = 2

abbrev pub right_signal_user : ℕ
right_signal_user = 4

-- `RightForSignal`; `none` is the error of a signal that cannot be granted.
unfoldable pub right_for_signal : ℕ → Option ℕ
right_for_signal signum =
    if signum == 2 || signum == 15
    then some right_signal_term
    else if signum == 9
    then some right_signal_kill
    else if signum == 10 || signum == 12
    then some right_signal_user
    else none

-- The lowest `w` bits of `a &^ b`.
unfoldable pub and_not_bits : ℕ → ℕ → ℕ → ℕ
and_not_bits zero a b = 0
and_not_bits (suc w) a b = (a % 2) * (1 - b % 2) + 2 * and_not_bits w (a / 2) (b / 2)

unfoldable pub and_not : ℕ → ℕ → ℕ
and_not a b = and_not_bits 64 a b

-- The bit of weight `2 ^ k`.
abbrev pub bit : ℕ → ℕ → ℕ
bit zero a = a % 2
bit (suc k) a = bit k (a / 2)

-- Nothing is missing exactly if every bit asked for is there.
pub and_not_bits-eq-zero : (w a b k : ℕ) → and_not_bits w a b ≡ 0 → k < w → bit k a ≤ bit k b
unfolding and_not_bits
and_not_bits-eq-zero zero a b k h lt = absurd (omega arith)
and_not_bits-eq-zero (suc w) a b zero h lt = grind arith
and_not_bits-eq-zero (suc w) a b (suc k) h lt =
    and_not_bits-eq-zero w (a / 2) (b / 2) k (grind arith) (omega arith)

pub and_not_bits_of_le :
    (w a b : ℕ) → ((k : ℕ) → k < w → bit k a ≤ bit k b) → and_not_bits w a b ≡ 0
unfolding and_not_bits
and_not_bits_of_le zero a b h = refl
and_not_bits_of_le (suc w) a b h = grind (
  arith,
  h 0 (omega arith),
  and_not_bits_of_le w (a / 2) (b / 2) (λ k lt. h (suc k) (omega arith)),
)
