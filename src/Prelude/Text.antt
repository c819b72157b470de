-- ===== src/Prelude/Text.antt =====
-- What the program uses of Go's `strings` and `unicode` packages, on texts of characters.
use Prim.Native.Nat.{ℕ, ◌+◌}
use Prim.Native.String.{String, ◌∷◌, [], slice, len}
use Prim.Native.Char.{Char, code}
use text.Mathlib.Text.{starts_with}
use mathlib.Core.Bool.{Bool, true, false, ◌&&◌, ◌||◌}
use mathlib.Core.List.{List, ◌∷◌ as cons, [] as nil}
use gapi.Prelude.Tests.{leb, ◌==◌, if◌then◌else◌}

-- `unicode.IsSpace`, of a character's number.
abbrev pub is_space : ℕ → Bool
is_space n =
    (leb 9 n && leb n 13)
    || n == 32
    || n == 133
    || n == 160
    || n == 5760
    || (leb 8192 n && leb n 8202)
    || n == 8232
    || n == 8233
    || n == 8239
    || n == 8287
    || n == 12288

-- `strings.TrimSpace(s) == ""`.
unfoldable pub is_blank : String → Bool
is_blank [] = true
is_blank (c ∷ s) = is_space (code c) && is_blank s

-- `strings.TrimSpace`.
unfoldable pub trim_left : String → String
trim_left [] = []
trim_left (c ∷ s) = if is_space (code c) then trim_left s else c ∷ s

unfoldable pub trim_right : String → String
unfolding is_blank
trim_right [] = []
trim_right (c ∷ s) = if is_blank (c ∷ s) then [] else c ∷ trim_right s

unfoldable pub trim_space : String → String
trim_space s = trim_right (trim_left s)

-- `strings.ToLower(s) == w`, for a word `w` of small ASCII letters: of the letters outside ASCII, the
-- Kelvin sign alone becomes a `k`, and the capital I with a dot alone an `i`.
abbrev pub lower_code : ℕ → ℕ
lower_code n =
    if leb 65 n && leb n 90 then n + 32 else if n == 8490 then 107 else if n == 304 then 105 else n

unfoldable pub lower_is : String → String → Bool
lower_is [] [] = true
lower_is [] (d ∷ w) = false
lower_is (c ∷ s) [] = false
lower_is (c ∷ s) (d ∷ w) = lower_code (code c) == code d && lower_is s w

-- `strings.TrimPrefix`.
unfoldable pub trim_prefix : String → String → String
trim_prefix s p = if starts_with s p then slice s (len p) (len s) else s

-- `strings.Contains` and `strings.Split`, for a separator of one character with the number `n`.
unfoldable pub contains : ℕ → String → Bool
contains n [] = false
contains n (c ∷ s) = code c == n || contains n s

abbrev pub on_first : Char → List String → List String
on_first c nil = cons (c ∷ []) nil
on_first c (cons part parts) = cons (c ∷ part) parts

unfoldable pub split_on : ℕ → String → List String
split_on n [] = cons [] nil
split_on n (c ∷ s) = if code c == n then cons [] (split_on n s) else on_first c (split_on n s)

-- The characters' numbers, and decimal digits among them.
unfoldable pub codes : String → List ℕ
codes [] = nil
codes (c ∷ s) = cons (code c) (codes s)
