-- ===== src/Schema.antt =====
-- core/schema/validator.go: what makes an agent's declaration valid, and the schema's version.
--
-- `time.ParseDuration` and Go's `float64` are parameters. An error is what is wrong, without its text.
pub mod Accepted
mod Samples
use Prim.Native.String.{◌∷◌ as chars, [] as no_chars, len}
use Prim.Native.Char.{code}
use text.Mathlib.Text.{starts_with}
use gapi.Prelude.{
  ℕ, ◌≤◌, String, Bool, true, false, not, ◌&&◌, ◌||◌, List, [], ◌∷◌, Option, none, some, ltb, leb,
  ◌==◌, same, if◌then◌else◌, length,
}
use gapi.Prelude.Int.{ℤ, pos, negsuc, leb_int}
use gapi.Prelude.Text.{trim_space, trim_prefix, lower_is, contains, split_on, codes}
use gapi.Prelude.Decimal.{parse_int, parse_uint}
use gapi.Limits.{Floats, Limit, limit, bad, LimitError, parse_resource_spec}
use gapi.Budget.{Parsed, refused, parsed, BudgetError, parse_readiness_budget}

pub record Version : Type 0 where
  pub major : ℕ
  pub minor : ℕ
  pub patch : ℕ

abbrev pub current_version : Version
current_version = record { major = 1; minor = 0; patch = 0 }

-- The fields of `AgentDescribe` that are validated.
pub record AgentDescribe : Type 0 where
  pub id : String
  pub agent_type : String
  pub cpu_limit : String
  pub memory_limit : String
  pub schedule : String
  pub listen_stream : String
  pub requires : List String
  pub wants : List String
  pub wanted_by : List String
  pub required_by : List String
  pub capabilities : List String
  pub readiness_budget : Option String

pub data SchemaError : Type 0 where
  bad_id bad_type bad_dependency bad_capability bad_cpu_limit bad_memory_limit bad_schedule
        bad_listen_stream bad_version too_new :
      SchemaError
  bad_budget : BudgetError → SchemaError

-- One check after the other: the first error.
infixr 40 ◌and_then◌
unfoldable pub ◌and_then◌ : Option SchemaError → Option SchemaError → Option SchemaError
some err and_then rest = some err
none and_then rest = rest

unfoldable pub require : SchemaError → Bool → Option SchemaError
require err true = none
require err false = some err

-- The regular expression `^[a-zA-Z0-9_-]+$`.
abbrev pub is_id_char : ℕ → Bool
is_id_char n =
    (leb 97 n && leb n 122)
    || (leb 65 n && leb n 90)
    || (leb 48 n && leb n 57)
    || n == 95
    || n == 45

unfoldable pub all_id_chars : String → Bool
all_id_chars no_chars = true
all_id_chars (chars c s) = is_id_char (code c) && all_id_chars s

unfoldable pub is_id : String → Bool
unfolding all_id_chars
is_id s = not (same s "") && all_id_chars s

unfoldable pub validate_id : String → Option SchemaError
unfolding require is_id
validate_id s = require bad_id (is_id s)

unfoldable pub validate_dependencies : List String → Option SchemaError
unfolding require is_id
validate_dependencies [] = none
validate_dependencies (dep ∷ deps) =
    require bad_dependency (is_id dep) and_then validate_dependencies deps

-- The length is in bytes.
unfoldable pub validate_capabilities : List String → Option SchemaError
unfolding require
validate_capabilities [] = none
validate_capabilities (c ∷ cs) =
    require bad_capability (not (len c == 0) && leb (len c) 64) and_then validate_capabilities cs

abbrev pub valid_agent_types : List String
valid_agent_types = "service" ∷ "timer" ∷ "socket" ∷ "pipe" ∷ "event" ∷ "init" ∷ "oneshot" ∷ []

unfoldable pub is_one_of : List String → String → Bool
is_one_of [] typ = false
is_one_of (valid ∷ rest) typ = lower_is typ valid || is_one_of rest typ

unfoldable pub validate_type : String → Option SchemaError
unfolding require is_one_of
validate_type typ = require bad_type (not (same typ "") && is_one_of valid_agent_types typ)

-- `strconv.Atoi` of the port, and its range.
unfoldable pub is_port : Option ℤ → Bool
is_port none = false
is_port (some (negsuc n)) = false
is_port (some (pos n)) = leb 1 n && leb n 65535

unfoldable pub has_port : List String → Bool
unfolding is_port
has_port [] = false
has_port (host ∷ []) = false
has_port (host ∷ port ∷ []) = is_port (parse_int (codes port))
has_port (host ∷ port ∷ more ∷ rest) = false

unfoldable pub is_listen_stream : String → Bool
unfolding has_port
is_listen_stream addr = not (same addr "") && contains 58 addr && has_port (split_on 58 addr)

unfoldable pub validate_listen_stream : String → Option SchemaError
unfolding require is_listen_stream
validate_listen_stream addr = require bad_listen_stream (is_listen_stream (trim_space addr))

-- A field that is not required: an empty string is absent.
unfoldable pub optional : String → Option SchemaError → Option SchemaError
optional s check = if same s "" then none else check

-- `ParseVersion`.
unfoldable pub version_of : Option ℕ → Option ℕ → Option ℕ → Option Version
version_of (some major) (some minor) (some patch) =
    some (record { major = major; minor = minor; patch = patch })
version_of none minor patch = none
version_of (some major) none patch = none
version_of (some major) (some minor) none = none

unfoldable pub parse_parts : List String → Option Version
unfolding version_of
parse_parts (major ∷ minor ∷ patch ∷ []) =
    version_of (parse_uint 32 (codes major)) (parse_uint 32 (codes minor))
      (parse_uint 32 (codes patch))
parse_parts [] = none
parse_parts (major ∷ []) = none
parse_parts (major ∷ minor ∷ []) = none
parse_parts (major ∷ minor ∷ patch ∷ more ∷ rest) = none

unfoldable pub parse_version : String → Option Version
unfolding parse_parts
parse_version v = parse_parts (split_on 46 v)

unfoldable pub check_schema_version : Version → Option SchemaError
check_schema_version v =
    if not (v.major == current_version.major)
    then some bad_version
    else if ltb current_version.minor v.minor
    then some too_new
    else none

unfoldable pub budget_error : Parsed → Option SchemaError
budget_error (refused err) = some (bad_budget err)
budget_error (parsed d) = none

unfoldable pub is_duration : Option ℤ → Bool
is_duration none = false
is_duration (some d) = true

module _ (fl : Floats) where
  -- `ValidateCPULimit` and `ValidateMemoryLimit`, of what `ParseResourceSpec` answers.
  unfoldable pub cpu_positive : Limit (fl.float × ℕ) → Bool
  cpu_positive (bad err) = false
  cpu_positive (limit (c, n)) = not (fl.is_not_positive c)

  unfoldable pub memory_positive : Limit (fl.float × ℕ) → Bool
  memory_positive (bad err) = false
  memory_positive (limit (c, n)) = not (n == 0)

  unfoldable pub validate_cpu_limit : String → Option SchemaError
  unfolding require cpu_positive
  validate_cpu_limit text = require bad_cpu_limit (cpu_positive (parse_resource_spec fl text ""))

  unfoldable pub validate_memory_limit : String → Option SchemaError
  unfolding require memory_positive
  validate_memory_limit text =
      require bad_memory_limit (memory_positive (parse_resource_spec fl "" text))

module _ (parse_duration : String → Option ℤ) where
  -- A prefix and a duration, a duration, or anything else without a `=`.
  unfoldable pub is_schedule : String → Bool
  unfolding is_duration
  is_schedule s =
      not (same s "")
      && (if starts_with s "OnUnitActiveSec="
            || starts_with s "OnBootSec="
            || starts_with s "OnStartupSec="
          then is_duration (
              parse_duration (
                trim_prefix (trim_prefix (trim_prefix s "OnUnitActiveSec=") "OnBootSec=")
                  "OnStartupSec="))
          else (is_duration (parse_duration s) || not (contains 61 s)))

  unfoldable pub validate_schedule : String → Option SchemaError
  unfolding require is_schedule
  validate_schedule s = require bad_schedule (is_schedule (trim_space s))

module _ (parse_duration : String → Option ℤ) (fl : Floats) where
  unfoldable pub validate_agent_describe : AgentDescribe → Option SchemaError
  unfolding validate_id validate_type validate_dependencies validate_capabilities optional
      validate_cpu_limit validate_memory_limit validate_schedule validate_listen_stream budget_error
  validate_agent_describe desc =
      validate_id desc.id
      and_then validate_type desc.agent_type
      and_then validate_dependencies desc.requires
      and_then validate_dependencies desc.wants
      and_then validate_dependencies desc.wanted_by
      and_then validate_dependencies desc.required_by
      and_then validate_capabilities desc.capabilities
      and_then optional desc.cpu_limit (validate_cpu_limit fl desc.cpu_limit)
      and_then optional desc.memory_limit (validate_memory_limit fl desc.memory_limit)
      and_then optional desc.schedule (validate_schedule parse_duration desc.schedule)
      and_then optional desc.listen_stream (validate_listen_stream desc.listen_stream)
      and_then budget_error (parse_readiness_budget parse_duration desc.readiness_budget)
