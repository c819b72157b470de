-- ===== src/Version/Resolve.antt =====
-- core/version/version.go: stamps, and what is derived from the build info where there is none.
use gapi.Prelude.{
  String, Bool, not, ◌&&◌, ◌||◌, List, [], ◌∷◌, Option, none, some, leb, if◌then◌else◌, same,
}
use Prim.Native.String.{◌++◌ as str_append, len}
use text.Mathlib.Text.{starts_with}
use gapi.Prelude.Text.{trim_prefix, trim_space}

-- The variables that the linker sets.
pub record Stamps : Type 0 where
  pub gapi_version : String
  pub go_adk_version : String
  pub python_adk_version : String
  pub build_tag : String
  pub schema_hash : String
  pub commit : String
  pub source_date : String
  pub built_by : String

-- A module of the build; `replaced` is the version of its replacement, if there is one.
pub record Module : Type 0 where
  pub path : String
  pub version : String
  pub replaced : Option String

-- `debug.BuildInfo`; a nil dependency is `none`.
pub record BuildInfo : Type 0 where
  pub main : Module
  pub deps : List (Option Module)
  pub settings : List (String × String)

abbrev pub unknown_value : String
unknown_value = "unknown"

abbrev pub unidentified_binary_label : String
unidentified_binary_label = "Runtime Core"

abbrev pub embedded_kernel_row_label : String
embedded_kernel_row_label = "Runtime Core"

abbrev pub dev_version : String
dev_version = "dev"

unfoldable pub is_concrete_version : String → Bool
is_concrete_version v = not (same v "") && not (same v dev_version) && not (same v "(devel)")

unfoldable pub module_contains : String → String → Bool
module_contains module_path pkg_path =
    not (same module_path "")
    && (same pkg_path module_path || starts_with pkg_path (str_append module_path "/"))

-- The variables of `gapiVersionFrom`.
pub record Best : Type 0 where
  pub path : String
  pub version : String

-- `consider`
unfoldable pub consider : String → String → String → Best → Best
unfolding module_contains
consider self path version best =
    if not (module_contains path self) || leb (len path) (len best.path)
    then best
    else record { path = path; version = version }

abbrev pub built_version : String → Option String → String
built_version version none = version
built_version version (some replaced) = if is_concrete_version replaced then replaced else version

unfoldable pub consider_deps : String → List (Option Module) → Best → Best
unfolding consider
consider_deps self [] best = best
consider_deps self (none ∷ deps) best = consider_deps self deps best
consider_deps self (some dep ∷ deps) best =
    consider_deps self deps (consider self dep.path (built_version dep.version dep.replaced) best)

unfoldable pub best_module : String → BuildInfo → Best
unfolding consider_deps
best_module self bi =
    consider_deps self bi.deps
      (consider self bi.main.path bi.main.version (record { path = ""; version = "" }))

unfoldable pub gapi_version_from : String → BuildInfo → String
unfolding best_module
gapi_version_from self bi =
    let version = (best_module self bi).version in
    if is_concrete_version version then trim_prefix version "v" else ""

-- `buildInfoReader` answers `none` if there is no build info.
abbrev pub derived_version : String → Option BuildInfo → String
derived_version self none = dev_version
derived_version self (some bi) =
    let v = gapi_version_from self bi in if same v "" then dev_version else v

unfoldable pub kernel_version : String → Stamps → Option BuildInfo → String
unfolding is_concrete_version gapi_version_from
kernel_version self stamps info =
    if is_concrete_version stamps.gapi_version
    then stamps.gapi_version
    else derived_version self info

unfoldable pub adk_version : String → Stamps → Option BuildInfo → String → String
unfolding kernel_version
adk_version self stamps info stamped =
    if is_concrete_version stamped then stamped else kernel_version self stamps info

-- The first setting of the key.
unfoldable pub find_setting : String → List (String × String) → String
find_setting key [] = ""
find_setting key ((k, v) ∷ settings) = if same k key then v else find_setting key settings

abbrev pub vcs_setting : Option BuildInfo → String → String
vcs_setting none key = ""
vcs_setting (some info) key = find_setting key info.settings

unfoldable pub is_concrete_value : String → Bool
is_concrete_value s =
    let t = trim_space s in
    not (same t "") && not (same t dev_version) && not (same t unknown_value)

abbrev pub or_unknown : String → String
or_unknown v = if same v "" then unknown_value else v

unfoldable pub resolve_commit : Stamps → Option BuildInfo → String
unfolding is_concrete_value find_setting
resolve_commit stamps info =
    if is_concrete_value stamps.commit
    then stamps.commit
    else or_unknown (vcs_setting info "vcs.revision")

unfoldable pub resolve_source_date : Stamps → Option BuildInfo → String
unfolding is_concrete_value find_setting
resolve_source_date stamps info =
    if is_concrete_value stamps.source_date
    then stamps.source_date
    else or_unknown (vcs_setting info "vcs.time")
