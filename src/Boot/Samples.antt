-- ===== src/Boot/Samples.antt =====
-- A boot that fails, a mount table over a toy kernel, and a teardown.
use gapi.Prelude.{
  ℕ, ◌≡◌, refl, sym, ◌∙◌, map, String, Bool, if◌then◌else◌, true, false, List, [], ◌∷◌, none, some,
  same, same_refl, elem, arith,
}
use gapi.Boot.Phase0.{
  Phase0Deps, require_pidfd, subreaper, run_phase0, until_failure, obligations, try_then, call_then,
  before, run_phase0_lem,
}
use gapi.Boot.Mounts.{
  Mounter, MountInfo, lines, missing, sys_mounter, sys_is_mounted, sys_is_mounted-is_listed,
  scan_lines, is_at, is_listed, early_mounts, IsKernel, AllMounted, mount_early, mount_next,
  mount_one, dir_made, mount_made, and_then, mount_early-AllMounted,
}

abbrev no_subreaper : Phase0Deps ℕ
no_subreaper = record {
  pidfd_dep = some none;
  subreaper_dep = some (some 22);
  has_signal = true;
  has_reap = true;
  mount_dep = some none;
  skip_mounts = false;
}

run-no_subreaper : run_phase0 no_subreaper ≡ (require_pidfd ∷ subreaper ∷ [], some 22)
unfolding run_phase0 try_then call_then before
run-no_subreaper = refl

run_phase0_lem_example : run_phase0 no_subreaper ≡ until_failure (obligations no_subreaper)
run_phase0_lem_example = run_phase0_lem no_subreaper

-- The kernel's state: the targets that are mounted. Without /proc none of them can be seen.
abbrev shown : List String → MountInfo
shown s =
    if elem "/proc" s then lines (map (λ t. "24" ∷ "1" ∷ "0:5" ∷ "/" ∷ t ∷ []) s) true else missing

abbrev toy_kernel : Mounter (List String)
toy_kernel = sys_mounter (λ spec s. (true, spec.target ∷ s)) (λ t s. (true, s)) shown

is_listed-elem :
    (t : String) (s : List String)
    → is_listed t (lines (map (λ p. "24" ∷ "1" ∷ "0:5" ∷ "/" ∷ p ∷ []) s) true) ≡ elem t s
unfolding is_listed is_at elem
is_listed-elem t [] = refl
is_listed-elem t (p ∷ s) = rw (is_listed-elem t s)

shown_sound : (t : String) (s : List String) → is_listed t (shown s) ≡ true → elem t s ≡ true
unfolding is_listed
shown_sound t s h = by (elem "/proc" s) h
  where
    by :
        (seen : Bool)
        → is_listed t
            (if seen then lines (map (λ p. "24" ∷ "1" ∷ "0:5" ∷ "/" ∷ p ∷ []) s) true else missing)
          ≡ true
        → elem t s ≡ true
    by true e = sym (is_listed-elem t s) ∙ e
    by false e = absurd cc

toy_kernel-IsKernel : IsKernel toy_kernel elem
unfolding elem
toy_kernel-IsKernel = (
  λ spec s h. ground (arith, same_refl spec.target),
  λ spec t s h. ground (arith, h),
  λ target t s h. h,
  λ t s h. shown_sound t s (sys_is_mounted-is_listed t (shown s) h),
)

-- A cold boot: nothing is mounted, and /dev comes before /proc.
mount_early-AllMounted_example :
    AllMounted toy_kernel elem early_mounts (mount_early toy_kernel early_mounts []).1
unfolding mount_early mount_next mount_one dir_made mount_made and_then elem same sys_is_mounted
    scan_lines is_at
mount_early-AllMounted_example =
    mount_early-AllMounted toy_kernel elem early_mounts [] toy_kernel-IsKernel refl

-- A second run leaves everything alone.
mounted_again :
    mount_early toy_kernel early_mounts (mount_early toy_kernel early_mounts []).1
    ≡ mount_early toy_kernel early_mounts []
unfolding mount_early mount_next mount_one dir_made mount_made and_then elem same sys_is_mounted
    scan_lines is_at
mounted_again = refl
