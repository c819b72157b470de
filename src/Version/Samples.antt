-- ===== src/Version/Samples.antt =====
-- A binary that embeds the kernel, without a stamp.
use gapi.Prelude.{
  ◌<◌, ◌≡◌, refl, sym, ap, ◌∙◌, String, true, false, List, [], ◌∷◌, none, some, same, if◌then◌else◌,
  ◌⊎◌, inl, inr,
}
use Prim.Native.String.{len}
use gapi.Prelude.Text.{trim_prefix, trim_space, trim_left, trim_right, is_blank}
use gapi.Version.Resolve.{
  Stamps, BuildInfo, Best, is_concrete_version, module_contains, consider, consider_deps,
  best_module, gapi_version_from, kernel_version, adk_version, find_setting, is_concrete_value,
  resolve_commit, resolve_source_date,
}
use gapi.Version.Summary.{
  State, Row, init, set_binary_name_and_version, set_ships_kernel, embedded_rows, identity_rows,
  groups, group_width, block_width, rune_count, spaces, pad_right, print_row, print_rows,
  print_more, print_groups, summary, truncate16,
}
use gapi.Version.Modules.{built_deps, modules, In, kernel_version_lem}
use gapi.Version.Rows.{Call, names, ships, call, calls, last_name, last_ships, labelled}

abbrev stamps : Stamps
stamps = record {
  gapi_version = "dev";
  go_adk_version = "dev";
  python_adk_version = "2.0";
  build_tag = "dev";
  schema_hash = "0123456789abcdef0123";
  commit = "unknown";
  source_date = "unknown";
  built_by = "unknown";
}

abbrev self : String
self = "example.org/kernel/core/version"

abbrev info : BuildInfo
info = record {
  main = record { path = "example.org/goblin"; version = "v9"; replaced = none };
  deps =
      some (record { path = "example.org/kernel"; version = "v1.0"; replaced = some "v1.1" })
      ∷ none
      ∷ some (record { path = "example.org/ker"; version = "v3"; replaced = none })
      ∷ [];
  settings = ("vcs.revision", "abc") ∷ [];
}

abbrev kernel : Best
kernel = record { path = "example.org/kernel"; version = "v1.1" }

program : Unit {0}
unfolding is_concrete_version module_contains consider consider_deps best_module gapi_version_from
    kernel_version adk_version find_setting is_concrete_value resolve_commit resolve_source_date
    init set_binary_name_and_version set_ships_kernel embedded_rows identity_rows groups group_width
    block_width rune_count spaces pad_right print_row print_rows print_more print_groups summary
    truncate16 built_deps modules same call calls last_name last_ships labelled trim_prefix
    trim_space trim_left trim_right is_blank
program = tt

only_kernel :
    (other : Best)
    → In other (modules info)
    → module_contains other.path self ≡ true
    → (other ≡ kernel) ⊎ (len other.path < len kernel.path)
unfolding program
only_kernel other (inl e) h =
    let f : module_contains "example.org/goblin" self ≡ true =
      ap (λ (b : Best). module_contains b.path self) e ∙ h in
    absurd cc
only_kernel other (inr (inl e)) h = inl (sym e)
only_kernel other (inr (inr (inl e))) h =
    let f : module_contains "example.org/ker" self ≡ true =
      ap (λ (b : Best). module_contains b.path self) e ∙ h in
    absurd cc
only_kernel other (inr (inr (inr e))) h = absurd e

kernel_version_lem_example : kernel_version self stamps (some info) ≡ (
    if is_concrete_version stamps.gapi_version
    then stamps.gapi_version
    else trim_prefix kernel.version "v")
unfolding program
kernel_version_lem_example =
    kernel_version_lem self stamps info kernel (inr (inl refl)) refl only_kernel refl refl

derived : kernel_version self stamps (some info) ≡ "1.1"
unfolding program
derived = refl

abbrev goblin : List Call
goblin = ships true ∷ names "goblind" "9" ∷ ships false ∷ []

abbrev block : State
block = calls goblin (init stamps (some info) "go1.25" "linux/amd64")

abbrev platform_row : Row
platform_row = ("Platform", "linux/amd64")

abbrev last_group : List Row
last_group = ("Built With Go", "go1.25") ∷ platform_row ∷ []
