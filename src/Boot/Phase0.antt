-- ===== src/Boot/Phase0.antt =====
-- core/supervisor/boot.go: the obligations before userspace, in the order that the kernel requires.
use gapi.Prelude.{
  ◌≡◌, refl, sym, ◌∙◌, ap, Bool, true, false, List, [], ◌∷◌, ◌++◌, Option, none, some,
  if◌then◌else◌,
}

pub data Obligation : Type 0 where
  require_pidfd subreaper install_signal start_reap mount : Obligation

-- `Phase0Deps`: a nil function is `none`; of the functions that can fail, the error that this boot
-- meets, if any, of type `E`.
pub record Phase0Deps (E : Type 0) : Type 0 where
  pub pidfd_dep : Option (Option E)
  pub subreaper_dep : Option (Option E)
  pub has_signal : Bool
  pub has_reap : Bool
  pub mount_dep : Option (Option E)
  pub skip_mounts : Bool

-- What was called, in order, and the error that `RunPhase0` returns.
abbrev pub Run : Type 0 → Type 0
Run E = List Obligation × Option E

module _ {E : Type 0} where
  unfoldable pub before : List Obligation → Run E → Run E
  before done (rest, err) = (done ++ rest, err)

  -- A call that can fail, and what follows it.
  unfoldable pub try_then : Obligation → Option (Option E) → Run E → Run E
  unfolding before
  try_then o none rest = rest
  try_then o (some none) rest = before (o ∷ []) rest
  try_then o (some (some err)) rest = (o ∷ [], some err)

  unfoldable pub call_then : Obligation → Bool → Run E → Run E
  unfolding before
  call_then o false rest = rest
  call_then o true rest = before (o ∷ []) rest

  unfoldable pub run_phase0 : Phase0Deps E → Run E
  unfolding try_then call_then
  run_phase0 d = try_then require_pidfd d.pidfd_dep (
      try_then subreaper d.subreaper_dep (
        call_then install_signal d.has_signal (
          call_then start_reap d.has_reap
            (try_then mount (if d.skip_mounts then none else d.mount_dep) ([], none)))))

  -- The specification: of a list of obligations with their errors, all up to the first that fails.
  unfoldable pub until_failure : List (Obligation × Option E) → Run E
  until_failure [] = ([], none)
  until_failure ((o, some err) ∷ rest) = (o ∷ [], some err)
  until_failure ((o, none) ∷ rest) = let (done, err) = until_failure rest in (o ∷ done, err)

  abbrev pub fallible : Obligation → Option (Option E) → List (Obligation × Option E)
  fallible o none = []
  fallible o (some outcome) = (o, outcome) ∷ []

  abbrev pub certain : Obligation → Bool → List (Obligation × Option E)
  certain o present = if present then (o, none) ∷ [] else []

  abbrev pub obligations : Phase0Deps E → List (Obligation × Option E)
  obligations d =
      fallible require_pidfd d.pidfd_dep
      ++ (fallible subreaper d.subreaper_dep
          ++ (certain install_signal d.has_signal
              ++ (certain start_reap d.has_reap
                  ++ fallible mount (if d.skip_mounts then none else d.mount_dep))))

  until_failure-fallible :
      (o : Obligation) (dep : Option (Option E)) (rest : List (Obligation × Option E))
      → until_failure (fallible o dep ++ rest) ≡ try_then o dep (until_failure rest)
  unfolding until_failure try_then before
  until_failure-fallible o none rest = refl
  until_failure-fallible o (some none) rest = refl
  until_failure-fallible o (some (some err)) rest = refl

  until_failure-certain :
      (o : Obligation) (present : Bool) (rest : List (Obligation × Option E))
      → until_failure (certain o present ++ rest) ≡ call_then o present (until_failure rest)
  unfolding until_failure call_then before
  until_failure-certain o true rest = refl
  until_failure-certain o false rest = refl

  until_failure-last :
      (dep : Option (Option E)) → until_failure (fallible mount dep) ≡ try_then mount dep ([], none)
  unfolding until_failure try_then before
  until_failure-last none = refl
  until_failure-last (some none) = refl
  until_failure-last (some (some err)) = refl

  -- `RunPhase0` does the obligations that are given, in the order pidfd, subreaper, signals, reaping,
  -- mounts (these not with `SkipMounts`), up to the first that fails, and returns its error.
  pub run_phase0_lem : (d : Phase0Deps E) → run_phase0 d ≡ until_failure (obligations d)
  unfolding run_phase0
  run_phase0_lem d =
      let mounting : Option (Option E) = if d.skip_mounts then none else d.mount_dep in
      sym (
        until_failure-fallible require_pidfd d.pidfd_dep _
        ∙ ap (λ r. try_then require_pidfd d.pidfd_dep r)
            (until_failure-fallible subreaper d.subreaper_dep _
              ∙ ap (λ r. try_then subreaper d.subreaper_dep r)
                  (until_failure-certain install_signal d.has_signal _
                    ∙ ap (λ r. call_then install_signal d.has_signal r)
                        (until_failure-certain start_reap d.has_reap _
                          ∙ ap (λ r. call_then start_reap d.has_reap r)
                              (until_failure-last mounting)))))
