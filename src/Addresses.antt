-- ===== src/Addresses.antt =====
-- core/config/control_addr.go: which daemons have published the address of their control plane.
--
-- A tier is one of the candidate directories, as it is listed and as its files can be read at the time.
use gapi.Prelude.{
  ℕ, ◌≤◌, ◌≡◌, refl, sym, ap, ◌∙◌, String, Bool, true, false, not, ◌&&◌, ◌||◌, List, [], ◌∷◌, ◌++◌,
  Option, none, some, is_some, ◌==◌, ltb, arith, count_p, if◌then◌else◌, same, sort_strings,
}
use gapi.Prelude.Int.{ℤ, pos, negsuc}
use gapi.Prelude.Text.{codes, trim_space}
use gapi.Prelude.Decimal.{parse_int}
use gapi.Limits.{cut_suffix}
use Prim.Native.String.{◌++◌ as str_append}
pub mod Live
pub mod Complete
mod Samples

-- What a file holds; it may be gone between the listing and the read.
pub data Contents : Type 0 where
  gone unreadable : Contents
  holds : String → Contents

pub record Entry : Type 0 where
  pub name : String
  pub is_dir : Bool
  pub contents : Contents

pub data Listing : Type 0 where
  absent denied : Listing
  entries : List Entry → Listing

pub record Tier : Type 0 where
  pub dir : String
  pub listing : Listing

pub record ControlAddr : Type 0 where
  pub addr : String
  pub pid : ℕ
  pub from : String

abbrev control_addr_ext : String
control_addr_ext = ".addr"

-- The stem of a name that has the suffix.
unfoldable pub stem : String → Option (List ℕ)
stem name = cut_suffix (codes control_addr_ext) (codes name)

unfoldable pub names : List Entry → List String
unfolding stem
names [] = []
names (e ∷ es) =
    let rest = names es in if not e.is_dir && is_some (stem e.name) then e.name ∷ rest else rest

-- The file of a name, in a directory that was listed with it.
unfoldable pub contents_of : String → List Entry → Contents
contents_of name [] = gone
contents_of name (e ∷ es) =
    let rest = contents_of name es in if same e.name name then e.contents else rest

-- `strconv.Atoi` of a stem.
abbrev pub as_pid : Option ℤ → Option ℕ
as_pid none = none
as_pid (some (pos n)) = some n
as_pid (some (negsuc n)) = none

abbrev pub of_stem : Option (List ℕ) → Option ℕ
of_stem none = none
of_stem (some ds) = as_pid (parse_int ds)

unfoldable pub seen : ℕ → List ControlAddr → Bool
seen pid [] = false
seen pid (c ∷ cs) = c.pid == pid || seen pid cs

-- `/` between the two parts.
abbrev pub join : String → String → String
join dir name = str_append dir (str_append "/" name)

-- What `kill(2)` answers to signal 0.
pub data Killed : Type 0 where
  delivered not_permitted no_process : Killed

abbrev pub is_alive : Killed → Bool
is_alive delivered = true
is_alive not_permitted = true
is_alive no_process = false

module _ (running : ℕ → Killed) where
  -- `pidAlive`; a process that may not be signalled is alive.
  unfoldable pub pid_alive : ℕ → Bool
  pid_alive pid = not (pid == 0) && is_alive (running pid)

  abbrev pub take : String → ℕ → Contents → List ControlAddr → Option (List ControlAddr)
  take path pid gone out = some out
  take path pid unreadable out = none
  take path pid (holds raw) out =
      let addr = trim_space raw in
      if same addr ""
      then some out
      else some (out ++ record { addr = addr; pid = pid; from = path } ∷ [])

  abbrev pub take_live : String → Option ℕ → Contents → List ControlAddr → Option (List ControlAddr)
  take_live path none c out = some out
  take_live path (some pid) c out =
      if seen pid out || not (pid_alive pid) then some out else take path pid c out

  abbrev pub then_names :
      Option (List ControlAddr)
      → (List ControlAddr → Option (List ControlAddr))
      → Option (List ControlAddr)
  then_names none rest = none
  then_names (some out) rest = rest out

  -- The loop over the names of a directory, and the one over the directories.
  unfoldable pub live_in :
      String → List Entry → List String → List ControlAddr → Option (List ControlAddr)
  unfolding seen pid_alive contents_of stem
  live_in dir es [] out = some out
  live_in dir es (name ∷ ns) out =
      then_names (take_live (join dir name) (of_stem (stem name)) (contents_of name es) out)
        (λ o. live_in dir es ns o)

  abbrev pub of_listing : String → Listing → List ControlAddr → Option (List ControlAddr)
  of_listing dir absent out = some out
  of_listing dir denied out = none
  of_listing dir (entries es) out = live_in dir es (sort_strings (names es)) out

  unfoldable pub live_from : List Tier → List ControlAddr → Option (List ControlAddr)
  unfolding live_in names
  live_from [] out = some out
  live_from (t ∷ ts) out = then_names (of_listing t.dir t.listing out) (λ o. live_from ts o)

  unfoldable pub live_control_addrs : List Tier → Option (List ControlAddr)
  unfolding live_from
  live_control_addrs tiers = live_from tiers []

pub data Answer : Type 0 where
  failed nothing : Answer
  -- The address, and the file that it comes from.
  found : String → String → Answer
  ambiguous : List ControlAddr → Answer

abbrev pub answer : Option (List ControlAddr) → Answer
answer none = failed
answer (some []) = nothing
answer (some (c ∷ [])) = found c.addr c.from
answer (some (c ∷ d ∷ cs)) = ambiguous (c ∷ d ∷ cs)

unfoldable pub read_control_addr : (ℕ → Killed) → List Tier → Answer
unfolding live_control_addrs
read_control_addr running tiers = answer (live_control_addrs running tiers)
