-- ===== src/Schema/Samples.antt =====
-- A declaration that is accepted, ones that are not, and what the theorem says of the first.
use gapi.Prelude.{ℕ, ◌≤◌, ◌<◌, ◌≡◌, refl, String, false, [], ◌∷◌, Option, none, some, same}
use gapi.Prelude.Int.{ℤ, pos}
use gapi.Prelude.Text.{
  trim_space, trim_left, trim_right, is_blank, lower_is, contains, split_on, codes,
}
use gapi.Prelude.Decimal.{
  parse_int, parse_uint, parse_digits, in_range, all_digits, value, value_from, positive,
}
use gapi.Limits.{
  Floats, limit, max_int64, parse_resource_spec, parse_memory, cut_suffix, same_codes, or_next,
  find_unit, to_upper, parse_number, scaled, both, cpu_field, memory_field,
}
use gapi.Budget.{
  parse_readiness_budget, check_parsed, checked, check_declared, resolve_readiness_budget,
}
use gapi.Schema.{
  AgentDescribe, bad_type, ◌and_then◌, require, is_id, all_id_chars, validate_id,
  validate_dependencies, validate_type, is_one_of, validate_capabilities, optional, memory_positive,
  validate_memory_limit, validate_listen_stream, is_listen_stream, has_port, is_port, budget_error,
  validate_agent_describe, parse_version, parse_parts, version_of,
}
use gapi.Schema.Accepted.{validate_agent_describe-memory, validate_agent_describe-resolve}

-- Durations that are all one second, and floats that are all one.
abbrev toy_duration : String → Option ℤ
toy_duration text = some (pos 1000000000)

abbrev toy_floats : Floats
toy_floats = record {
  float = Unit {0};
  zero_float = tt;
  parse_float = λ _. none;
  from_millis = λ _. tt;
  is_nan = λ _. false;
  is_inf = λ _. false;
  is_not_positive = λ v. false;
  is_above_quota = λ _. false;
}

abbrev web : AgentDescribe
web = record {
  id = "web-1";
  agent_type = "Socket";
  cpu_limit = "";
  memory_limit = "64KB";
  schedule = "";
  listen_stream = ":8080";
  requires = "db" ∷ [];
  wants = [];
  wanted_by = [];
  required_by = [];
  capabilities = [];
  readiness_budget = some "1s";
}

program : Unit {0}
unfolding validate_agent_describe validate_id validate_type validate_dependencies
    validate_capabilities optional validate_memory_limit validate_listen_stream budget_error require
    ◌and_then◌ is_id all_id_chars is_one_of lower_is memory_positive is_listen_stream has_port
    is_port contains split_on codes parse_int parse_digits all_digits value value_from positive same
    trim_space trim_left trim_right is_blank parse_resource_spec both cpu_field memory_field
    parse_memory find_unit cut_suffix same_codes or_next to_upper parse_number scaled
    parse_readiness_budget check_parsed checked check_declared
program = tt

web-accepted : validate_agent_describe toy_duration toy_floats web ≡ none
unfolding program
web-accepted = refl

web-bad_type :
    validate_agent_describe toy_duration toy_floats (record web { agent_type = "sock" })
    ≡ some bad_type
unfolding program
web-bad_type = refl

version-too_new : parse_version "1.2.3" ≡ some (record { major = 1; minor = 2; patch = 3 })
unfolding program parse_version parse_parts version_of parse_uint in_range
version-too_new = refl

validate_agent_describe-memory_example :
    (c : Unit {0}) × (n : ℕ) × (parse_resource_spec toy_floats "" "64KB" ≡ limit (c, n))
    × (0 < n)
    × (n ≤ max_int64)
unfolding same
validate_agent_describe-memory_example =
    validate_agent_describe-memory toy_duration toy_floats web web-accepted refl

validate_agent_describe-resolve_example :
    (resolve_readiness_budget toy_duration (some "1s") "go").1 ≡ none
validate_agent_describe-resolve_example =
    validate_agent_describe-resolve toy_duration toy_floats web "go" web-accepted
