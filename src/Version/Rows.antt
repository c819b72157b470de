-- ===== src/Version/Rows.antt =====
-- The printed block: its columns, and its row for an embedded kernel.
use gapi.Prelude.{
  ℕ, zero, suc, ◌+◌, ◌-◌, ◌≤◌, ◌≡◌, refl, sym, ap, ◌∙◌, String, Bool, true, false, not, ◌&&◌, List,
  [], ◌∷◌, Option, ltb, arith, if◌then◌else◌, same, ◌⊎◌, inl, inr,
}
use mathlib.Core.Path.{subst}
use Prim.Native.String.{◌++◌ as str_append, len, ◌∷◌ as cons_char, [] as no_chars}
use Prim.Native.String.len as length_of
use text.Mathlib.TextPositions.{len_utf8-pos}
use text.Mathlib.TextLemmas.{cons-append, nil-append, append_assoc}
use gapi.Version.Resolve.{Stamps, BuildInfo, embedded_kernel_row_label}
use gapi.Version.Summary.{
  Info, State, Row, init, set_binary_name_and_version, set_ships_kernel, set_build_metadata,
  embedded_rows, groups, group_width, block_width, rune_count, spaces, pad_right, print_row,
}

rune_count-append : (s t : String) → rune_count (str_append s t) ≡ rune_count s + rune_count t
unfolding rune_count
rune_count-append no_chars t = ap rune_count (nil-append t) ∙ omega arith
rune_count-append (cons_char c s) t =
    ap rune_count (cons-append c s t) ∙ ground (arith, rune_count-append s t)

rune_count-le : (s : String) → rune_count s ≤ len s
unfolding rune_count
rune_count-le no_chars = omega arith
rune_count-le (cons_char c s) =
    let (k, width) = len_utf8-pos c in omega (arith, length_of.cons c s, width, rune_count-le s)

rune_count-spaces : (n : ℕ) → rune_count (spaces n) ≡ n
unfolding spaces rune_count
rune_count-spaces zero = refl
rune_count-spaces (suc n) = rune_count-append " " (spaces n) ∙ omega (arith, rune_count-spaces n)

-- A row of a group, and a group of a block.
abbrev pub InRows : Row → List Row → Type 0
InRows r [] = ⊥
InRows r (x ∷ xs) = (x ≡ r) ⊎ InRows r xs

abbrev pub InGroups : List Row → List (List Row) → Type 0
InGroups g [] = ⊥
InGroups g (x ∷ xs) = (x ≡ g) ⊎ InGroups g xs

group_width-le : (g : List Row) (width : ℕ) → width ≤ group_width g width
unfolding group_width
group_width-le [] width = omega arith
group_width-le ((label, value) ∷ rows) width =
    by (ltb width (len label + 1)) refl (λ n. group_width-le rows n)
  where
    by :
        (b : Bool)
        → ltb width (len label + 1) ≡ b
        → ((n : ℕ) → n ≤ group_width rows n)
        → width ≤ group_width rows (if b then len label + 1 else width)
    by true h rest = ground (arith, h, rest (len label + 1))
    by false h rest = rest width

group_width-covers :
    (g : List Row) (width : ℕ) (r : Row) → InRows r g → len r.0 + 1 ≤ group_width g width
unfolding group_width
group_width-covers [] width r h = absurd h
group_width-covers ((label, value) ∷ rows) width r (inr h) = group_width-covers rows _ r h
group_width-covers ((label, value) ∷ rows) width r (inl e) =
    by (ltb width (len label + 1)) refl (group_width-le rows)
  where
    by :
        (b : Bool)
        → ltb width (len label + 1) ≡ b
        → ((n : ℕ) → n ≤ group_width rows n)
        → len r.0 + 1 ≤ group_width rows (if b then len label + 1 else width)
    by true h le = omega (arith, ap (λ (x : Row). len x.0) e, le (len label + 1))
    by false h le = ground (arith, ap (λ (x : Row). len x.0) e, h, le width)

block_width-le : (gs : List (List Row)) (width : ℕ) → width ≤ block_width gs width
unfolding block_width
block_width-le [] width = omega arith
block_width-le (g ∷ gs) width =
    omega (arith, group_width-le g width, block_width-le gs (group_width g width))

block_width-covers :
    (gs : List (List Row)) (width : ℕ) (g : List Row) (r : Row)
    → InGroups g gs
    → InRows r g
    → len r.0 + 1 ≤ block_width gs width
unfolding block_width
block_width-covers [] width g r h there = absurd h
block_width-covers (x ∷ gs) width g r (inr h) there = block_width-covers gs _ g r h there
block_width-covers (x ∷ gs) width g r (inl e) there = omega (
  arith,
  group_width-covers x width r (subst (InRows r) (sym e) there),
  block_width-le gs (group_width x width),
)

rune_count-pad_right :
    (width : ℕ) (s : String) → rune_count s ≤ width → rune_count (pad_right width s) ≡ width
unfolding pad_right
rune_count-pad_right width s h =
    rune_count-append s (spaces (width - rune_count s))
    ∙ omega (arith, rune_count-spaces (width - rune_count s), h)

-- In the printed block every value begins in the same column, one behind the width of the block.
pub summary_aligned :
    (self : String) (stamps : Stamps) (info : Option BuildInfo) (s : State) (g : List Row) (r : Row)
    → InGroups g (groups self stamps info s)
    → InRows r g
    → (before : String) × (print_row (block_width (groups self stamps info s) 0) r
        ≡ str_append before (str_append r.1 "\n"))
      × (rune_count before ≡ block_width (groups self stamps info s) 0 + 1)
unfolding print_row
summary_aligned self stamps info s g r in_block in_group =
    let width = block_width (groups self stamps info s) 0 in
    let label = str_append r.0 ":" in
    let fits : rune_count label ≤ width = omega (
      arith,
      rune_count-append r.0 ":",
      rune_count-le r.0,
      block_width-covers (groups self stamps info s) 0 g r in_block in_group,
      colon,
    ) in
    (
      str_append (pad_right width label) " ",
      sym (append_assoc (pad_right width label) " " (str_append r.1 "\n")),
      rune_count-append (pad_right width label) " "
          ∙ omega (arith, rune_count-pad_right width label fits, space),
    )
  where
    colon : rune_count ":" ≡ 1
    colon = refl

    space : rune_count " " ≡ 1
    space = refl

-- What a binary calls before it prints.
pub data Call : Type 0 where
  names : String → String → Call
  ships : Bool → Call
  overrides : Info → Call

unfoldable pub call : Call → State → State
unfolding set_binary_name_and_version set_ships_kernel set_build_metadata
call (names name version) s = set_binary_name_and_version name version s
call (ships v) s = set_ships_kernel v s
call (overrides info) s = set_build_metadata info s

unfoldable pub calls : List Call → State → State
unfolding call
calls [] s = s
calls (c ∷ cs) s = calls cs (call c s)

-- The last name, and the last word on the kernel, of a series of calls.
unfoldable pub last_name : List Call → String → String
last_name [] old = old
last_name (names name version ∷ cs) old = last_name cs name
last_name (ships v ∷ cs) old = last_name cs old
last_name (overrides info ∷ cs) old = last_name cs old

unfoldable pub last_ships : List Call → Bool → Bool
last_ships [] old = old
last_ships (names name version ∷ cs) old = last_ships cs old
last_ships (ships v ∷ cs) old = last_ships cs v
last_ships (overrides info ∷ cs) old = last_ships cs old

calls-name : (cs : List Call) (s : State) → (calls cs s).active.name ≡ last_name cs s.active.name
unfolding calls last_name
calls-name [] s = refl
calls-name (names name version ∷ cs) s = calls-name cs (call (names name version) s)
calls-name (ships v ∷ cs) s = calls-name cs (call (ships v) s)
calls-name (overrides info ∷ cs) s = calls-name cs (call (overrides info) s)

calls-ships :
    (cs : List Call) (s : State) → (calls cs s).ships_kernel ≡ last_ships cs s.ships_kernel
unfolding calls last_ships
calls-ships [] s = refl
calls-ships (names name version ∷ cs) s = calls-ships cs (call (names name version) s)
calls-ships (ships v ∷ cs) s = calls-ships cs (call (ships v) s)
calls-ships (overrides info ∷ cs) s = calls-ships cs (call (overrides info) s)

-- How many rows have the label.
unfoldable pub labelled : String → List Row → ℕ
labelled label [] = 0
labelled label (r ∷ rows) = (if same r.0 label then 1 else 0) + labelled label rows

labelled-embedded_rows :
    (self : String) (stamps : Stamps) (info : Option BuildInfo) (s : State)
    → labelled embedded_kernel_row_label (embedded_rows self stamps info s)
      ≡ (if not (same s.active.name "") && not s.ships_kernel then 1 else 0)
unfolding labelled embedded_rows same
labelled-embedded_rows self stamps info s = ground arith

-- Whatever a binary calls before it prints, and in whatever order, the embedded components have a
-- row for the kernel exactly if the last name given is not empty and the last word on the kernel,
-- if any, was that the binary does not ship it; they have one such row at most.
pub embedded_rows-calls :
    (self : String) (stamps : Stamps) (info : Option BuildInfo) (go_version platform : String)
    (cs : List Call)
    → labelled embedded_kernel_row_label
        (embedded_rows self stamps info (calls cs (init stamps info go_version platform)))
      ≡ (if not (same (last_name cs "") "") && not (last_ships cs false) then 1 else 0)
unfolding init
embedded_rows-calls self stamps info go_version platform cs =
    let s = init stamps info go_version platform in
    labelled-embedded_rows self stamps info (calls cs s)
    ∙ ap (λ n. if not (same n "") && not (calls cs s).ships_kernel then 1 else 0) (calls-name cs s)
    ∙ ap (λ b. if not (same (last_name cs "") "") && not b then 1 else 0) (calls-ships cs s)
