-- ===== src/Version/Summary.antt =====
-- core/version/version.go: the variables that a binary sets, and `Summary`.
--
-- The lock makes each operation one step.
use gapi.Prelude.{
  ℕ, zero, suc, ◌+◌, ◌-◌, String, Bool, false, not, ◌&&◌, List, [], ◌∷◌, ◌++◌, Option, ltb,
  if◌then◌else◌, same,
}
use Prim.Native.String.{◌++◌ as str_append, len, slice, ◌∷◌ as cons_char, [] as no_chars}
use gapi.Version.Resolve.{
  Stamps, BuildInfo, unidentified_binary_label, embedded_kernel_row_label, kernel_version,
  adk_version, resolve_commit, resolve_source_date,
}

pub record Info : Type 0 where
  pub name : String
  pub version : String
  pub commit : String
  pub build_date : String
  pub built_by : String
  pub go_version : String
  pub platform : String

-- `active` and `shipsKernel`.
pub record State : Type 0 where
  pub active : Info
  pub ships_kernel : Bool

-- `init`, with what the toolchain says of itself.
unfoldable pub init : Stamps → Option BuildInfo → String → String → State
init stamps info go_version platform = record {
  active = record {
    name = "";
    version = "";
    commit = resolve_commit stamps info;
    build_date = resolve_source_date stamps info;
    built_by = stamps.built_by;
    go_version = go_version;
    platform = platform;
  };
  ships_kernel = false;
}

unfoldable pub binary_version : Stamps → State → String
binary_version stamps s =
    if not (same s.active.version "") then s.active.version else stamps.gapi_version

unfoldable pub set_binary_name_and_version : String → String → State → State
set_binary_name_and_version name version s = record s {
  active = record s.active { name = name; version = version };
}

unfoldable pub set_ships_kernel : Bool → State → State
set_ships_kernel v s = record s { ships_kernel = v }

abbrev pub overridden : String → String → String
overridden new old = if not (same new "") then new else old

unfoldable pub set_build_metadata : Info → State → State
set_build_metadata o s =
    let a = s.active in
    record s {
      active = record a {
        commit = overridden o.commit a.commit;
        build_date = overridden o.build_date a.build_date;
        built_by = overridden o.built_by a.built_by;
        go_version = overridden o.go_version a.go_version;
        platform = overridden o.platform a.platform;
      };
    }

-- The first 16 bytes, of a text with one byte to a character.
unfoldable pub truncate16 : String → String
truncate16 s = if ltb 16 (len s) then slice s 0 16 else s

-- A label and its value.
abbrev pub Row : Type 0
Row = String × String

unfoldable pub identity_rows : String → Stamps → Option BuildInfo → State → List Row
identity_rows self stamps info s =
    let name = if same s.active.name "" then unidentified_binary_label else s.active.name in
    let version =
      if same s.active.version "" then kernel_version self stamps info else s.active.version in
    (name, version) ∷ []

unfoldable pub embedded_rows : String → Stamps → Option BuildInfo → State → List Row
unfolding truncate16
embedded_rows self stamps info s =
    let kernel =
      if not (same s.active.name "") && not s.ships_kernel
      then (embedded_kernel_row_label, kernel_version self stamps info) ∷ []
      else [] in
    kernel
    ++ (("Go ADK", adk_version self stamps info stamps.go_adk_version)
        ∷ ("Python ADK", adk_version self stamps info stamps.python_adk_version)
        ∷ ("Protobuf Schema Hash", truncate16 stamps.schema_hash)
        ∷ [])

unfoldable pub groups : String → Stamps → Option BuildInfo → State → List (List Row)
unfolding identity_rows embedded_rows truncate16
groups self stamps info s =
    identity_rows self stamps info s
    ∷ embedded_rows self stamps info s
    ∷ (("Commit", truncate16 s.active.commit)
        ∷ ("Build Tag", stamps.build_tag)
        ∷ ("Source Date", s.active.build_date)
        ∷ ("Built By", s.active.built_by)
        ∷ [])
    ∷ (("Built With Go", s.active.go_version) ∷ ("Platform", s.active.platform) ∷ [])
    ∷ []

-- The loops over the rows of a group and over the groups that find the longest label.
unfoldable pub group_width : List Row → ℕ → ℕ
group_width [] width = width
group_width ((label, value) ∷ rows) width =
    let n = len label + 1 in group_width rows (if ltb width n then n else width)

unfoldable pub block_width : List (List Row) → ℕ → ℕ
unfolding group_width
block_width [] width = width
block_width (g ∷ gs) width = block_width gs (group_width g width)

-- `utf8.RuneCountInString`, by which `fmt` pads.
unfoldable pub rune_count : String → ℕ
rune_count no_chars = 0
rune_count (cons_char c s) = suc (rune_count s)

unfoldable pub spaces : ℕ → String
spaces zero = ""
spaces (suc n) = str_append " " (spaces n)

-- `%-*s`
unfoldable pub pad_right : ℕ → String → String
unfolding rune_count spaces
pad_right width s = str_append s (spaces (width - rune_count s))

-- `fmt.Fprintf(&out, "%-*s %s\n", width, r[0]+":", r[1])`
unfoldable pub print_row : ℕ → Row → String
unfolding pad_right
print_row width (label, value) =
    str_append (pad_right width (str_append label ":")) (str_append " " (str_append value "\n"))

unfoldable pub print_rows : ℕ → List Row → String
unfolding print_row
print_rows width [] = ""
print_rows width (r ∷ rows) = str_append (print_row width r) (print_rows width rows)

-- The groups behind the first have a line between them.
unfoldable pub print_more : ℕ → List (List Row) → String
unfolding print_rows
print_more width [] = ""
print_more width (g ∷ gs) = str_append "\n" (str_append (print_rows width g) (print_more width gs))

unfoldable pub print_groups : ℕ → List (List Row) → String
unfolding print_more
print_groups width [] = ""
print_groups width (g ∷ gs) = str_append (print_rows width g) (print_more width gs)

unfoldable pub summary : String → Stamps → Option BuildInfo → State → String
unfolding groups block_width print_groups
summary self stamps info s =
    let gs = groups self stamps info s in print_groups (block_width gs 0) gs
