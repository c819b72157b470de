-- ===== src/Timer/Schedule.antt =====
-- core/agentmgr/schedule.go: schedules, and the texts that they are read from.
--
-- An instant is a number of nanoseconds, and the zero time is `none`. `time.ParseDuration` and the
-- cron parser are parameters.
use gapi.Prelude.{
  ℕ, ◌*◌, String, Bool, true, false, List, [], ◌∷◌, Option, none, some, if◌then◌else◌,
}
use text.Mathlib.Text.{starts_with}
use gapi.Prelude.Int.{ℤ, pos, leb_int, ◌+ℤ◌, ◌-ℤ◌}
use gapi.Prelude.Text.{trim_space, trim_prefix}

pub data Schedule (Cron : Type 0) : Type 0 where
  interval : ℤ → Schedule Cron
  -- The instant, and whether it has fired.
  once : ℤ → Bool → Schedule Cron
  cron : Cron → Schedule Cron

pub data ScheduleError : Type 0 where
  invalid_duration not_positive invalid_format : ScheduleError

pub data Parsed (Cron : Type 0) : Type 0 where
  parsed : Schedule Cron → Parsed Cron
  refused : ScheduleError → Parsed Cron

-- What a prefix makes of its duration.
pub data Anchor : Type 0 where
  repeating from_now from_boot : Anchor

pub record Prefix : Type 0 where
  pub prefix : String
  pub anchor : Anchor

unfoldable pub systemd_prefixes : List Prefix
systemd_prefixes =
    record { prefix = "OnUnitActiveSec="; anchor = repeating }
    ∷ record { prefix = "OnStartupSec="; anchor = from_now }
    ∷ record { prefix = "OnBootSec="; anchor = from_boot }
    ∷ []

-- The functions of the libraries that a schedule calls.
pub record Library (Cron : Type 0) : Type 0 where
  pub parse_duration : String → Option ℤ
  pub parse_cron : String → Option Cron
  -- `none` is the zero time.
  pub next_cron : Cron → ℤ → Option ℤ

module _ {Cron : Type 0} where
  -- `usableInterval`
  abbrev pub usable : ℤ → Parsed Cron
  usable d = if leb_int d (pos 0) then refused not_positive else parsed (interval d)

  abbrev pub anchored : Anchor → ℤ → ℤ → ℤ → Parsed Cron
  anchored repeating now boot d = usable d
  anchored from_now now boot d = parsed (once (now +ℤ d) false)
  anchored from_boot now boot d = parsed (once (boot +ℤ d) false)

  abbrev pub with_duration : Anchor → ℤ → ℤ → Option ℤ → Parsed Cron
  with_duration anchor now boot none = refused invalid_duration
  with_duration anchor now boot (some d) = anchored anchor now boot d

module _ {Cron : Type 0} (lib : Library Cron) where
  unfoldable pub is_systemd_from : List Prefix → String → Bool
  is_systemd_from [] s = false
  is_systemd_from (p ∷ ps) s = if starts_with s p.prefix then true else is_systemd_from ps s

  unfoldable pub is_systemd_schedule : String → Bool
  unfolding is_systemd_from systemd_prefixes
  is_systemd_schedule s = is_systemd_from systemd_prefixes s

  unfoldable pub parse_systemd_from : List Prefix → String → ℤ → ℤ → Parsed Cron
  parse_systemd_from [] s now boot = refused invalid_format
  parse_systemd_from (p ∷ ps) s now boot =
      if starts_with s p.prefix
      then with_duration p.anchor now boot (lib.parse_duration (trim_prefix s p.prefix))
      else parse_systemd_from ps s now boot

  unfoldable pub parse_systemd_schedule : String → ℤ → ℤ → Parsed Cron
  unfolding parse_systemd_from systemd_prefixes
  parse_systemd_schedule s now boot = parse_systemd_from systemd_prefixes s now boot

  abbrev pub as_cron : Option Cron → Parsed Cron
  as_cron none = refused invalid_format
  as_cron (some c) = parsed (cron c)

  abbrev pub as_interval : String → Option ℤ → Parsed Cron
  as_interval s none = as_cron (lib.parse_cron s)
  as_interval s (some d) = usable d

  unfoldable pub parse_trimmed : String → ℤ → ℤ → Parsed Cron
  unfolding is_systemd_schedule parse_systemd_schedule
  parse_trimmed s now boot =
      if is_systemd_schedule s
      then parse_systemd_schedule s now boot
      else as_interval s (lib.parse_duration s)

  -- `ParseScheduleAt`
  unfoldable pub parse_schedule_at : String → ℤ → ℤ → Parsed Cron
  unfolding parse_trimmed
  parse_schedule_at s now boot = parse_trimmed (trim_space s) now boot

  -- `Next` of each schedule, with the schedule as it is afterwards.
  unfoldable pub next : Schedule Cron → ℤ → Option ℤ × Schedule Cron
  next (interval d) t = (some (t +ℤ d), interval d)
  next (once at true) t = (none, once at true)
  next (once at false) t = (some at, once at true)
  next (cron c) t = (lib.next_cron c t, cron c)

  -- `BootTime`, by the seconds since the boot, which may be unknown: then it is the present.
  unfoldable pub boot_time : ℤ → Option ℕ → ℤ
  boot_time now none = now
  boot_time now (some uptime) = now -ℤ pos (uptime * 1000000000)

  -- `ParseSchedule`
  unfoldable pub parse_schedule : String → ℤ → Option ℕ → Parsed Cron
  unfolding parse_schedule_at boot_time
  parse_schedule s now uptime = parse_schedule_at s now (boot_time now uptime)
