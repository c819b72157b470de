-- ===== src/Addresses/Samples.antt =====
-- Two directories; in the second, the files of a daemon that runs and of one that does not.
use gapi.Prelude.{
  ℕ, ◌≤◌, ◌≡◌, refl, String, false, not, ◌&&◌, List, [], ◌∷◌, some, ◌==◌, ltb, inl, inr, same, elem,
  sort_strings, if◌then◌else◌,
}
use gapi.Prelude.Text.{trim_space, trim_left, trim_right, is_blank, codes}
use gapi.Prelude.Decimal.{parse_int, parse_digits, all_digits, value, value_from, positive}
use gapi.Limits.{cut_suffix, same_codes}
use gapi.Addresses.{
  Killed, not_permitted, no_process, holds, Entry, absent, entries, Tier, ControlAddr, stem, names,
  contents_of, seen, pid_alive, live_in, live_from, live_control_addrs, found, read_control_addr,
}
use gapi.Addresses.Live.{published, published-live_control_addrs}
use gapi.Addresses.Complete.{read_control_addr-found}

abbrev running : ℕ → Killed
running pid = if pid == 41 then not_permitted else no_process

abbrev file : String → String → Entry
file name text = record { name = name; is_dir = false; contents = holds text }

abbrev files : List Entry
files = file "7.addr" "h:1" ∷ file "41.addr" "h:2 " ∷ []

abbrev run_dir : Tier
run_dir = record { dir = "/run/gapi/control"; listing = entries files }

abbrev tiers : List Tier
tiers = record { dir = "/x/gapi/control"; listing = absent } ∷ run_dir ∷ []

abbrev published_one : ControlAddr
published_one = record { addr = "h:2"; pid = 41; from = "/run/gapi/control/41.addr" }

program : Unit {0}
unfolding read_control_addr live_control_addrs live_from live_in stem names contents_of seen
    pid_alive codes trim_space trim_left trim_right is_blank parse_int parse_digits all_digits value
    value_from positive cut_suffix same_codes same elem sort_strings published
program = tt

live_one : live_control_addrs running tiers ≡ some (published_one ∷ [])
unfolding program
live_one = refl

read_one : read_control_addr running tiers ≡ found "h:2" "/run/gapi/control/41.addr"
unfolding program
read_one = refl

published-live_control_addrs_example :
    (published 41 (published_one ∷ []) ≤ 1)
    × ((ltb 0 (published 41 (published_one ∷ [])) && not (pid_alive running 41)) ≡ false)
published-live_control_addrs_example =
    published-live_control_addrs running 41 tiers (published_one ∷ []) live_one

read_control_addr-found_example : live_control_addrs running tiers ≡ some (published_one ∷ [])
unfolding program
read_control_addr-found_example =
    read_control_addr-found running 41 "41.addr" "h:2 " files refl refl refl refl run_dir tiers
      "h:2" "/run/gapi/control/41.addr" (inr (inl refl)) refl refl read_one
