-- ===== src/Boot/Mounts.antt =====
-- core/mounts/mounts.go and mounts_linux.go: the early mounts, by a `Mounter` over the state `S` of the
-- kernel, and the program's own one. The system calls and the file that it reads are parameters.
use gapi.Prelude.{
  ℕ, ◌+◌, ◌^◌, ◌≡◌, refl, ◌∙◌, ap, String, Bool, true, false, ◌||◌, List, [], ◌∷◌, Option, none,
  some, same, arith, if◌then◌else◌,
}

pub record MountSpec : Type 0 where
  pub source : String
  pub target : String
  pub fs_type : String
  pub flags : ℕ
  pub options : String

-- `IsMounted` answers nothing where it fails; the others whether they succeed, and the state.
pub record Mounter (S : Type 0) : Type 0 where
  pub mounts : MountSpec → S → Bool × S
  pub is_mounted : String → S → Option Bool
  pub mkdir_all : String → S → Bool × S

pub data MountError : Type 0 where
  checking creating mounting : String → MountError

-- `EarlyMounts`, with the flags of `mount(2)`: nosuid 2, nodev 4, noexec 8, relatime 2 ^ 21.
abbrev pub early_mount : String → String → String → ℕ → String → MountSpec
early_mount source target fs_type flags options = record {
  source = source;
  target = target;
  fs_type = fs_type;
  flags = flags;
  options = options;
}

abbrev pub early_mounts : List MountSpec
early_mounts =
    early_mount "devtmpfs" "/dev" "devtmpfs" 2 ""
    ∷ early_mount "proc" "/proc" "proc" (2 + 4 + 8) ""
    ∷ early_mount "sysfs" "/sys" "sysfs" (2 + 4 + 8) ""
    ∷ early_mount "cgroup2" "/sys/fs/cgroup" "cgroup2" (2 + 4 + 8 + 2 ^ 21) ""
    ∷ early_mount "tmpfs" "/run" "tmpfs" (2 + 4) "mode=0755"
    ∷ early_mount "tmpfs" "/tmp" "tmpfs" (2 + 4) ""
    ∷ []

-- /proc/self/mountinfo as it is read: there is no such file, it cannot be opened, or its lines, each
-- as the fields that `strings.Fields` makes of it, with whether the scan came to their end.
pub data MountInfo : Type 0 where
  missing unreadable : MountInfo
  lines : List (List String) → (complete : Bool) → MountInfo

-- Field 5 of a line is the mount point.
unfoldable pub is_at : String → List String → Bool
is_at target (id ∷ parent ∷ device ∷ root ∷ point ∷ fields) = same point target
is_at target _ = false

unfoldable pub scan_lines : String → Bool → List (List String) → Option Bool
unfolding is_at
scan_lines target complete [] = if complete then some false else none
scan_lines target complete (line ∷ rest) =
    let later = scan_lines target complete rest in if is_at target line then some true else later

-- `SysMounter.IsMounted`
unfoldable pub sys_is_mounted : String → MountInfo → Option Bool
unfolding scan_lines
sys_is_mounted target missing = some false
sys_is_mounted target unreadable = none
sys_is_mounted target (lines ls complete) = scan_lines target complete ls

-- `SysMounter`, over the two system calls and the file.
abbrev pub sys_mounter :
    {S : Type 0}
    → (MountSpec → S → Bool × S)
    → (String → S → Bool × S)
    → (S → MountInfo)
    → Mounter S
sys_mounter mount_call mkdir_call mountinfo = record {
  mounts = mount_call;
  is_mounted = λ target s. sys_is_mounted target (mountinfo s);
  mkdir_all = mkdir_call;
}

-- A line of the file is at the target.
unfoldable pub is_listed : String → MountInfo → Bool
is_listed target (lines (line ∷ ls) complete) =
    is_at target line || is_listed target (lines ls complete)
is_listed target _ = false

-- What `SysMounter` takes for mounted has a line of its own.
pub sys_is_mounted-is_listed :
    (target : String) (info : MountInfo)
    → sys_is_mounted target info ≡ some true
    → is_listed target info ≡ true
unfolding sys_is_mounted is_listed scan_lines
sys_is_mounted-is_listed target missing h = absurd cc
sys_is_mounted-is_listed target unreadable h = absurd cc
sys_is_mounted-is_listed target (lines [] true) h = absurd cc
sys_is_mounted-is_listed target (lines [] false) h = absurd cc
sys_is_mounted-is_listed target (lines (line ∷ ls) complete) h =
    ground (arith, sys_is_mounted-is_listed target (lines ls complete))

module _ {S : Type 0} (m : Mounter S) where
  -- The two calls for a target that is not mounted.
  unfoldable pub mount_made : MountSpec → Bool × S → Option MountError × S
  mount_made spec (true, s) = (none, s)
  mount_made spec (false, s) = (some (mounting spec.target), s)

  unfoldable pub dir_made : MountSpec → Bool × S → Option MountError × S
  unfolding mount_made
  dir_made spec (true, s) = mount_made spec (m.mounts spec s)
  dir_made spec (false, s) = (some (creating spec.target), s)

  unfoldable pub mount_one : MountSpec → S → Option MountError × S
  unfolding dir_made
  mount_one spec s = dir_made spec (m.mkdir_all spec.target s)

  unfoldable pub and_then :
      Option MountError × S → (S → Option MountError × S) → Option MountError × S
  and_then (some err, s) rest = (some err, s)
  and_then (none, s) rest = rest s

  -- One entry of the list, by what `IsMounted` answers, and the entries after it.
  unfoldable pub mount_next :
      MountSpec → Option Bool → S → (S → Option MountError × S) → Option MountError × S
  unfolding mount_one and_then
  mount_next spec none s rest = (some (checking spec.target), s)
  mount_next spec (some true) s rest = rest s
  mount_next spec (some false) s rest = and_then (mount_one spec s) rest

  unfoldable pub mount_early : List MountSpec → S → Option MountError × S
  unfolding mount_next
  mount_early [] s = (none, s)
  mount_early (spec ∷ specs) s =
      mount_next spec (m.is_mounted spec.target s) s (λ s'. mount_early specs s')

  -- `IsMounted` finds every target of the list.
  unfoldable pub AllSeen : List MountSpec → S → Type 0
  AllSeen [] s = Unit
  AllSeen (spec ∷ specs) s = (m.is_mounted spec.target s ≡ some true) × AllSeen specs s

  -- Where everything is seen to be mounted already, `MountEarly` changes nothing and succeeds.
  pub mount_early_again :
      (specs : List MountSpec) (s : S) → AllSeen specs s → mount_early specs s ≡ (none, s)
  unfolding mount_early AllSeen mount_next
  mount_early_again [] s h = refl
  mount_early_again (spec ∷ specs) s (here, rest) =
      ap (λ o. mount_next spec o s (λ s'. mount_early specs s')) here
      ∙ mount_early_again specs s rest

module _ {S : Type 0} (m : Mounter S) (mounted : String → S → Bool) where
  -- What the kernel documents, of the mounts that it has (`mounted`), whatever `IsMounted` sees of
  -- them: what was mounted with success is mounted, making a directory or mounting something takes
  -- no mount away, and `IsMounted` finds nothing that is not there. It may miss what is there.
  abbrev pub IsKernel : Type 0
  IsKernel =
      ((spec : MountSpec) (s : S)
        → (m.mounts spec s).0 ≡ true
        → mounted spec.target (m.mounts spec s).1 ≡ true)
      × ((spec : MountSpec) (t : String) (s : S)
          → mounted t s ≡ true
          → mounted t (m.mounts spec s).1 ≡ true)
      × ((target t : String) (s : S)
          → mounted t s ≡ true
          → mounted t (m.mkdir_all target s).1 ≡ true)
      × ((t : String) (s : S) → m.is_mounted t s ≡ some true → mounted t s ≡ true)

  -- Every target of the list is mounted.
  unfoldable pub AllMounted : List MountSpec → S → Type 0
  AllMounted [] s = Unit
  AllMounted (spec ∷ specs) s = (mounted spec.target s ≡ true) × AllMounted specs s

  -- A target that stays mounted.
  abbrev IsStill : String → Option MountError × S → Type 0
  IsStill t r = mounted t r.1 ≡ true

  mount_one-keeps :
      (spec : MountSpec) (t : String) (s : S)
      → IsKernel
      → mounted t s ≡ true
      → IsStill t (mount_one m spec s)
  unfolding mount_one dir_made mount_made
  mount_one-keeps spec t s (_, keeps, makes, _) h =
      dir (m.mkdir_all spec.target s) (makes spec.target t s h)
    where
      made : (r : Bool × S) → mounted t r.1 ≡ true → IsStill t (mount_made m spec r)
      made (true, s2) e = e
      made (false, s2) e = e

      dir : (r : Bool × S) → mounted t r.1 ≡ true → IsStill t (dir_made m spec r)
      dir (true, s1) e = made (m.mounts spec s1) (keeps spec t s1 e)
      dir (false, s1) e = e

  mount_one-mounted :
      (spec : MountSpec) (s : S)
      → IsKernel
      → (mount_one m spec s).0 ≡ none
      → IsStill spec.target (mount_one m spec s)
  unfolding mount_one dir_made mount_made
  mount_one-mounted spec s (lands, _, _, _) h = dir (m.mkdir_all spec.target s) h
    where
      made :
          (r : Bool × S)
          → (r.0 ≡ true → mounted spec.target r.1 ≡ true)
          → (mount_made m spec r).0 ≡ none
          → IsStill spec.target (mount_made m spec r)
      made (true, s2) law e = law refl
      made (false, s2) law e = cc

      dir : (r : Bool × S) → (dir_made m spec r).0 ≡ none → IsStill spec.target (dir_made m spec r)
      dir (true, s1) e = made (m.mounts spec s1) (lands spec s1) e
      dir (false, s1) e = cc

  -- Mounts are not taken away by the later ones.
  mount_early-keeps :
      (specs : List MountSpec) (t : String) (s : S)
      → IsKernel
      → mounted t s ≡ true
      → IsStill t (mount_early m specs s)
  unfolding mount_early mount_next and_then
  mount_early-keeps [] t s kernel h = h
  mount_early-keeps (spec ∷ specs) t s kernel h =
      next (m.is_mounted spec.target s) (λ s'. mount_early-keeps specs t s' kernel)
    where
      then_rest :
          (r : Option MountError × S)
          → IsStill t r
          → ((s' : S) → mounted t s' ≡ true → IsStill t (mount_early m specs s'))
          → IsStill t (and_then m r (λ s'. mount_early m specs s'))
      then_rest (some err, s1) e rest = e
      then_rest (none, s1) e rest = rest s1 e

      next :
          (o : Option Bool)
          → ((s' : S) → mounted t s' ≡ true → IsStill t (mount_early m specs s'))
          → IsStill t (mount_next m spec o s (λ s'. mount_early m specs s'))
      next none rest = h
      next (some true) rest = rest s h
      next (some false) rest =
          then_rest (mount_one m spec s) (mount_one-keeps spec t s kernel h) rest

  -- If `MountEarly` returns no error, every target of the list is mounted in the kernel then,
  -- whether or not `IsMounted` could see the mounts while it worked.
  pub mount_early-AllMounted :
      (specs : List MountSpec) (s : S)
      → IsKernel
      → (mount_early m specs s).0 ≡ none
      → AllMounted specs (mount_early m specs s).1
  unfolding mount_early AllMounted mount_next and_then
  mount_early-AllMounted [] s kernel h = tt
  mount_early-AllMounted (spec ∷ specs) s kernel h =
      next (m.is_mounted spec.target s) refl (λ s'. mount_early-AllMounted specs s' kernel) h
    where
      then_rest :
          (r : Option MountError × S)
          → (r.0 ≡ none → IsStill spec.target r)
          → ((s' : S)
              → (mount_early m specs s').0 ≡ none
              → AllMounted specs (mount_early m specs s').1)
          → (and_then m r (λ s'. mount_early m specs s')).0 ≡ none
          → AllMounted (spec ∷ specs) (and_then m r (λ s'. mount_early m specs s')).1
      then_rest (some err, s1) e rest none_failed = cc
      then_rest (none, s1) e rest none_failed =
          (mount_early-keeps specs spec.target s1 kernel (e refl), rest s1 none_failed)

      next :
          (o : Option Bool)
          → m.is_mounted spec.target s ≡ o
          → ((s' : S)
              → (mount_early m specs s').0 ≡ none
              → AllMounted specs (mount_early m specs s').1)
          → (mount_next m spec o s (λ s'. mount_early m specs s')).0 ≡ none
          → AllMounted (spec ∷ specs) (mount_next m spec o s (λ s'. mount_early m specs s')).1
      next none e rest none_failed = cc
      next (some true) e rest none_failed = (
        mount_early-keeps specs spec.target s kernel (kernel.3 spec.target s e),
        rest s none_failed,
      )
      next (some false) e rest none_failed =
          then_rest (mount_one m spec s) (mount_one-mounted spec s kernel) rest none_failed
