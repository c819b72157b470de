-- ===== src/Timer/Accepted.antt =====
-- What an accepted schedule is, and the two places that accept one.
use gapi.Prelude.{
  ◌≡◌, refl, ap, ◌∙◌, String, Bool, true, false, Option, none, some, arith, if◌then◌else◌, same,
  ◌⊎◌, inl, inr,
}
use mathlib.Core.Path.{subst}
use text.Mathlib.Text.{starts_with}
use gapi.Prelude.Int.{ℤ, pos, ◌<ℤ◌, ◌≤ℤ◌, leb_int, ◌+ℤ◌}
use gapi.Prelude.Text.{trim_space, trim_prefix}
use gapi.Schema.{validate_schedule}
use gapi.Timer.Schedule.{
  Schedule, interval, once, cron, invalid_format, not_positive, Parsed, parsed, refused, repeating,
  from_now, from_boot, Library, usable, with_duration, is_systemd_schedule, parse_systemd_schedule,
  as_cron, as_interval, parse_trimmed, parse_schedule_at,
}

module _ {Cron : Type 0} (lib : Library Cron) where
  -- What a schedule is that comes out.
  abbrev pub IsUsable : String → ℤ → ℤ → Schedule Cron → Type 0
  IsUsable s now boot (interval d) = pos 0 <ℤ d
  IsUsable s now boot (once at fired) =
      (fired ≡ false)
      × (d : ℤ) × (((starts_with s "OnStartupSec=" ≡ true)
            × (lib.parse_duration (trim_prefix s "OnStartupSec=") ≡ some d)
            × (at ≡ now +ℤ d))
          ⊎ ((starts_with s "OnBootSec=" ≡ true)
              × (lib.parse_duration (trim_prefix s "OnBootSec=") ≡ some d)
              × (at ≡ boot +ℤ d)))
  IsUsable s now boot (cron c) = lib.parse_cron s ≡ some c

  abbrev IsFine : String → ℤ → ℤ → Parsed Cron → Type 0
  IsFine s now boot (parsed schedule) = IsUsable s now boot schedule
  IsFine s now boot (refused e) = Unit

  usable-IsFine : (s : String) (now boot d : ℤ) → IsFine s now boot (usable d)
  usable-IsFine s now boot d = by (leb_int d (pos 0)) refl
    where
      by :
          (b : Bool)
          → leb_int d (pos 0) ≡ b
          → IsFine s now boot (if b then refused not_positive else parsed (interval d))
      by true h = tt
      by false h = ground (arith, h)

  startup-IsFine :
      (s : String) (now boot : ℤ)
      → starts_with s "OnStartupSec=" ≡ true
      → IsFine s now boot
          (with_duration from_now now boot (lib.parse_duration (trim_prefix s "OnStartupSec=")))
  startup-IsFine s now boot h = by (lib.parse_duration (trim_prefix s "OnStartupSec=")) refl
    where
      by :
          (o : Option ℤ)
          → lib.parse_duration (trim_prefix s "OnStartupSec=") ≡ o
          → IsFine s now boot (with_duration from_now now boot o)
      by none e = tt
      by (some d) e = (refl, d, inl (h, e, refl))

  boot-IsFine :
      (s : String) (now boot : ℤ)
      → starts_with s "OnBootSec=" ≡ true
      → IsFine s now boot
          (with_duration from_boot now boot (lib.parse_duration (trim_prefix s "OnBootSec=")))
  boot-IsFine s now boot h = by (lib.parse_duration (trim_prefix s "OnBootSec=")) refl
    where
      by :
          (o : Option ℤ)
          → lib.parse_duration (trim_prefix s "OnBootSec=") ≡ o
          → IsFine s now boot (with_duration from_boot now boot o)
      by none e = tt
      by (some d) e = (refl, d, inr (h, e, refl))

  repeating-IsFine :
      (s : String) (now boot : ℤ) (o : Option ℤ)
      → IsFine s now boot (with_duration repeating now boot o)
  repeating-IsFine s now boot none = tt
  repeating-IsFine s now boot (some d) = usable-IsFine s now boot d

  plain-IsFine :
      (s : String) (now boot : ℤ) (o : Option ℤ) → IsFine s now boot (as_interval lib s o)
  plain-IsFine s now boot (some d) = usable-IsFine s now boot d
  plain-IsFine s now boot none = by (lib.parse_cron s) refl
    where
      by : (o : Option Cron) → lib.parse_cron s ≡ o → IsFine s now boot (as_cron lib o)
      by none e = tt
      by (some c) e = e

  parse_trimmed-IsFine :
      (s : String) (now boot : ℤ) → IsFine s now boot (parse_trimmed lib s now boot)
  unfolding parse_trimmed
  parse_trimmed-IsFine s now boot =
      by (starts_with s "OnUnitActiveSec=") (starts_with s "OnStartupSec=")
        (starts_with s "OnBootSec=") refl refl
    where
      by :
          (u t b : Bool)
          → starts_with s "OnStartupSec=" ≡ t
          → starts_with s "OnBootSec=" ≡ b
          → IsFine s now boot (
              if (if u then true else if t then true else if b then true else false)
              then (if u
                  then with_duration repeating now boot
                      (lib.parse_duration (trim_prefix s "OnUnitActiveSec="))
                  else if t
                  then with_duration from_now now boot
                      (lib.parse_duration (trim_prefix s "OnStartupSec="))
                  else if b
                  then with_duration from_boot now boot
                      (lib.parse_duration (trim_prefix s "OnBootSec="))
                  else refused invalid_format)
              else as_interval lib s (lib.parse_duration s))
      by true t b ht hb =
          repeating-IsFine s now boot (lib.parse_duration (trim_prefix s "OnUnitActiveSec="))
      by false true b ht hb = startup-IsFine s now boot ht
      by false false true ht hb = boot-IsFine s now boot hb
      by false false false ht hb = plain-IsFine s now boot (lib.parse_duration s)

  -- A schedule that `ParseScheduleAt` accepts repeats with a positive interval, or fires once, at its
  -- duration after the present or after the boot, whichever its prefix says, or is what the cron
  -- parser read.
  pub parse_schedule_at-IsUsable :
      (s : String) (now boot : ℤ) (schedule : Schedule Cron)
      → parse_schedule_at lib s now boot ≡ parsed schedule
      → IsUsable (trim_space s) now boot schedule
  unfolding parse_schedule_at
  parse_schedule_at-IsUsable s now boot schedule h =
      subst (IsFine (trim_space s) now boot) h (parse_trimmed-IsFine (trim_space s) now boot)

  -- A repeating text whose duration is not positive passes the check of declarations, and is refused
  -- when the timer starts.
  pub refused-not_positive :
      (s : String) (now boot d : ℤ)
      → same (trim_space s) "" ≡ false
      → is_systemd_schedule lib (trim_space s) ≡ false
      → lib.parse_duration (trim_space s) ≡ some d
      → d ≤ℤ pos 0
      → (validate_schedule lib.parse_duration s ≡ none)
        × (parse_schedule_at lib s now boot ≡ refused not_positive)
  unfolding parse_schedule_at is_systemd_schedule validate_schedule
  refused-not_positive s now boot d filled plain is_d le = (
    ground (arith, filled, plain, is_d),
    ap
          (λ c.
            if c
            then parse_systemd_schedule lib (trim_space s) now boot
            else as_interval lib (trim_space s) (lib.parse_duration (trim_space s)))
          plain
        ∙ ap (λ o. as_interval lib (trim_space s) o) is_d
        ∙ ap (λ c. if c then refused not_positive else parsed (interval d)) low,
  )
    where
      low : leb_int d (pos 0) ≡ true
      low = ground (arith, le)
