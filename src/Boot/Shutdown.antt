-- ===== src/Boot/Shutdown.antt =====
-- core/shutdown/shutdown.go: the phased teardown. The system calls and the agent manager are
-- interfaces: what they answer is a parameter; `StopAll` ends, fails, or exceeds the grace.
use mathlib.Core.List.{reverse, append_assoc, append-nil, reverse-cons}
use gapi.Prelude.{
  ℕ, zero, suc, ◌≡◌, refl, sym, ◌∙◌, ap, String, Bool, true, false, List, [], ◌∷◌, ◌++◌, Option,
  none, some, length,
}
use gapi.Boot.Mounts.{MountSpec}

pub data Action : Type 0 where
  power_off reboot halt : Action

pub data StopEnd : Type 0 where
  stopped stop_failed grace_exceeded : StopEnd

-- What the teardown does, in order; a failure of `StopAll` or of an unmount is logged.
pub data Deed : Type 0 where
  warned_stop warned_grace syncs : Deed
  unmounts : String → Deed
  warned_unmount : String → Deed
  reboots : Action → Deed

unfoldable pub get_at : ℕ → List MountSpec → Option MountSpec
get_at i [] = none
get_at zero (x ∷ xs) = some x
get_at (suc i) (x ∷ xs) = get_at i xs

unfoldable pub stop_agents : StopEnd → List Deed
stop_agents stopped = []
stop_agents stop_failed = warned_stop ∷ []
stop_agents grace_exceeded = warned_grace ∷ []

module _ (unmount_ok : String → Bool) (reboot_ok : Action → Bool) where
  unfoldable pub unmount_one : Option MountSpec → List Deed
  unmount_one none = []
  unmount_one (some spec) =
      unmounts spec.target
      ∷ (elim (unmount_ok spec.target) [ true ↦ [] | false ↦ warned_unmount spec.target ∷ [] ])

  -- The loop from the index `i - 1` down to 0.
  unfoldable pub unmount_down : ℕ → List MountSpec → List Deed
  unfolding unmount_one get_at
  unmount_down zero table = []
  unmount_down (suc i) table = unmount_one (get_at i table) ++ unmount_down i table

  -- `SystemShutdown`: what it does, and whether the last call succeeds.
  unfoldable pub system_shutdown : List MountSpec → Action → StopEnd → List Deed × Bool
  unfolding unmount_down stop_agents
  system_shutdown table action ended = (
    stop_agents ended ++ syncs ∷ unmount_down (length table) table ++ reboots action ∷ [],
    reboot_ok action,
  )

  unmount_down-cons :
      (i : ℕ) (x : MountSpec) (xs : List MountSpec)
      → unmount_down (suc i) (x ∷ xs) ≡ unmount_down i xs ++ unmount_one (some x)
  unfolding unmount_down get_at
  unmount_down-cons zero x xs = append-nil (unmount_one (some x))
  unmount_down-cons (suc i) x xs =
      ap (λ ds. unmount_one (get_at i xs) ++ ds) (unmount_down-cons i x xs)
      ∙ sym (append_assoc (unmount_one (get_at i xs)) (unmount_down i xs) (unmount_one (some x)))

  -- The unmounts of a list of mounts, in its order.
  unfoldable pub unmount_all : List MountSpec → List Deed
  unfolding unmount_one
  unmount_all [] = []
  unmount_all (x ∷ xs) = unmount_one (some x) ++ unmount_all xs

  unmount_all-append :
      (xs ys : List MountSpec) → unmount_all (xs ++ ys) ≡ unmount_all xs ++ unmount_all ys
  unfolding unmount_all
  unmount_all-append [] ys = refl
  unmount_all-append (x ∷ xs) ys =
      ap (λ ds. unmount_one (some x) ++ ds) (unmount_all-append xs ys)
      ∙ sym (append_assoc (unmount_one (some x)) (unmount_all xs) (unmount_all ys))

  unmount_down-length :
      (table : List MountSpec) → unmount_down (length table) table ≡ unmount_all (reverse table)
  unfolding unmount_down unmount_all
  unmount_down-length [] = refl
  unmount_down-length (x ∷ xs) =
      unmount_down-cons (length xs) x xs
      ∙ ap (λ ds. ds ++ unmount_one (some x)) (unmount_down-length xs)
      ∙ ap (λ ds. unmount_all (reverse xs) ++ ds) (sym (append-nil (unmount_one (some x))))
      ∙ sym (unmount_all-append (reverse xs) (x ∷ []))
      ∙ ap unmount_all (sym (reverse-cons x xs))

  -- The teardown always goes through its phases: however the stop of the agents ends and whichever
  -- unmounts fail, it then syncs, unmounts the table from its last entry to its first, each once, and
  -- asks the kernel for the action, whose answer it returns.
  pub system_shutdown_lem :
      (table : List MountSpec) (action : Action) (ended : StopEnd)
      → system_shutdown table action ended ≡ (
        stop_agents ended ++ syncs ∷ unmount_all (reverse table) ++ reboots action ∷ [],
        reboot_ok action,
      )
  unfolding system_shutdown
  system_shutdown_lem table action ended =
      ap (λ ds. (stop_agents ended ++ syncs ∷ ds ++ reboots action ∷ [], reboot_ok action))
        (unmount_down-length table)
