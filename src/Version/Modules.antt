-- ===== src/Version/Modules.antt =====
-- Which module's version a binary without a stamp reports.
use gapi.Prelude.{
  ◌<◌, ◌≤◌, ◌≡◌, refl, sym, ap, ◌∙◌, String, Bool, true, false, not, ◌||◌, List, [], ◌∷◌, Option,
  none, some, leb, arith, if◌then◌else◌, same, ◌⊎◌, inl, inr,
}
use Prim.Native.String.{len, ◌∷◌ as cons_char, [] as no_chars}
use Prim.Native.String.len as length_of
use text.Mathlib.TextPositions.{len_utf8-pos}
use gapi.Prelude.Text.{trim_prefix}
use gapi.Version.Resolve.{
  Stamps, Module, BuildInfo, Best, dev_version, is_concrete_version, module_contains, consider,
  built_version, consider_deps, best_module, gapi_version_from, kernel_version,
}

pub len_pos : (s : String) → same s "" ≡ false → 0 < len s
unfolding same
len_pos no_chars h = absurd cc
len_pos (cons_char c s) h =
    let (k, width) = len_utf8-pos c in omega (arith, length_of.cons c s, width)

-- The modules of a build, each with the version that was built.
unfoldable pub built_deps : List (Option Module) → List Best
built_deps [] = []
built_deps (none ∷ deps) = built_deps deps
built_deps (some dep ∷ deps) =
    record { path = dep.path; version = built_version dep.version dep.replaced } ∷ built_deps deps

unfoldable pub modules : BuildInfo → List Best
unfolding built_deps
modules bi = record { path = bi.main.path; version = bi.main.version } ∷ built_deps bi.deps

abbrev pub In : Best → List Best → Type 0
In m [] = ⊥
In m (x ∷ xs) = (x ≡ m) ⊎ In m xs

-- The fold over the modules that the two calls of `consider` make.
considered : String → List Best → Best → Best
considered self [] best = best
considered self (m ∷ ms) best = considered self ms (consider self m.path m.version best)

considered-deps :
    (self : String) (deps : List (Option Module)) (best : Best)
    → consider_deps self deps best ≡ considered self (built_deps deps) best
unfolding consider_deps built_deps considered
considered-deps self [] best = refl
considered-deps self (none ∷ deps) best = considered-deps self deps best
considered-deps self (some dep ∷ deps) best =
    considered-deps self deps (consider self dep.path (built_version dep.version dep.replaced) best)

-- The best so far is the first or contains the package, and it never gets shorter.
considered-from :
    (self : String) (ms : List Best) (best : Best)
    → (considered self ms best ≡ best)
      ⊎ (In (considered self ms best) ms
          × (module_contains (considered self ms best).path self ≡ true))
unfolding considered consider
considered-from self [] best = inl refl
considered-from self (m ∷ ms) best =
    by (not (module_contains m.path self) || leb (len m.path) (len best.path)) refl
      (λ b. considered-from self ms b)
  where
    by :
        (skip : Bool)
        → (not (module_contains m.path self) || leb (len m.path) (len best.path)) ≡ skip
        → ((b : Best)
            → (considered self ms b ≡ b)
              ⊎ (In (considered self ms b) ms
                  × (module_contains (considered self ms b).path self ≡ true)))
        → (considered self ms (if skip then best else m) ≡ best)
          ⊎ (((m ≡ considered self ms (if skip then best else m))
                ⊎ In (considered self ms (if skip then best else m)) ms)
              × (module_contains (considered self ms (if skip then best else m)).path self ≡ true))
    by true h rest = elim (rest best) [
      | inl same_best ↦ inl same_best
      | inr (there, holds) ↦ inr (inr there, holds)
    ]
    by false h rest = elim (rest m) [
      | inl is_m ↦
          inr (
            inl (sym is_m),
            ap (λ (b : Best). module_contains b.path self) is_m ∙ ground (arith, h),
          )
      | inr (there, holds) ↦ inr (inr there, holds)
    ]

considered-le :
    (self : String) (ms : List Best) (best : Best)
    → len best.path ≤ len (considered self ms best).path
unfolding considered consider
considered-le self [] best = omega arith
considered-le self (m ∷ ms) best =
    by (not (module_contains m.path self) || leb (len m.path) (len best.path)) refl
      (λ b. considered-le self ms b)
  where
    by :
        (skip : Bool)
        → (not (module_contains m.path self) || leb (len m.path) (len best.path)) ≡ skip
        → ((b : Best) → len b.path ≤ len (considered self ms b).path)
        → len best.path ≤ len (considered self ms (if skip then best else m)).path
    by true h rest = rest best
    by false h rest = ground (arith, h, rest m)

consider-le :
    (self path version : String) (best : Best)
    → module_contains path self ≡ true
    → len path ≤ len (consider self path version best).path
unfolding consider
consider-le self path version best h = ground (arith, h)

-- No module that contains the package is longer than the best.
considered-longest :
    (self : String) (ms : List Best) (best m : Best)
    → In m ms
    → module_contains m.path self ≡ true
    → len m.path ≤ len (considered self ms best).path
unfolding considered
considered-longest self [] best m there holds = absurd there
considered-longest self (x ∷ ms) best m (inr there) holds =
    considered-longest self ms (consider self x.path x.version best) m there holds
considered-longest self (x ∷ ms) best m (inl is_m) holds =
    let next : Best = consider self x.path x.version best in
    let at_x =
      consider-le self x.path x.version best
        (ap (λ (y : Best). module_contains y.path self) is_m ∙ holds) in
    omega (arith, at_x, considered-le self ms next, ap (λ (y : Best). len y.path) is_m)

module_contains-ne : (path self : String) → module_contains path self ≡ true → same path "" ≡ false
unfolding module_contains
module_contains-ne path self h = ground (arith, h)

no_module : Best
no_module = record { path = ""; version = "" }

best_module-considered :
    (self : String) (bi : BuildInfo) → best_module self bi ≡ considered self (modules bi) no_module
unfolding best_module modules considered no_module
best_module-considered self bi = considered-deps self bi.deps _

-- The module that is found is the one that contains the package and is longer than any other.
best_module_lem :
    (self : String) (bi : BuildInfo) (m : Best)
    → In m (modules bi)
    → module_contains m.path self ≡ true
    → ((other : Best)
        → In other (modules bi)
        → module_contains other.path self ≡ true
        → (other ≡ m) ⊎ (len other.path < len m.path))
    → best_module self bi ≡ m
unfolding no_module
best_module_lem self bi m there holds longest =
    best_module-considered self bi ∙ elim (considered-from self (modules bi) no_module) [
      | inl unchanged ↦
          let empty : len (considered self (modules bi) no_module).path ≡ 0 =
            ap (λ (b : Best). len b.path) unchanged in
          absurd (
            omega (
              arith,
              empty,
              considered-longest self (modules bi) no_module m there holds,
              len_pos m.path (module_contains-ne m.path self holds),
            ))
      | inr (there', holds') ↦ elim (longest _ there' holds') [
        | inl equal ↦ equal
        | inr shorter ↦
            absurd
              (omega (arith, shorter, considered-longest self (modules bi) no_module m there holds))
      ]
    ]

-- The kernel's version is the stamp if there is one. If not, and one module that contains the package
-- is longer than every other that does, and its version, or that of its replacement where this is a
-- concrete one, is concrete and more than a `v`, the kernel's version is that without the `v` before
-- it.
pub kernel_version_lem :
    (self : String) (stamps : Stamps) (bi : BuildInfo) (m : Best)
    → In m (modules bi)
    → module_contains m.path self ≡ true
    → ((other : Best)
        → In other (modules bi)
        → module_contains other.path self ≡ true
        → (other ≡ m) ⊎ (len other.path < len m.path))
    → is_concrete_version m.version ≡ true
    → same (trim_prefix m.version "v") "" ≡ false
    → kernel_version self stamps (some bi) ≡ (
        if is_concrete_version stamps.gapi_version
        then stamps.gapi_version
        else trim_prefix m.version "v")
unfolding kernel_version gapi_version_from
kernel_version_lem self stamps bi m there holds longest concrete filled =
    let best = best_module_lem self bi m there holds longest in
    let found : gapi_version_from self bi ≡ trim_prefix m.version "v" =
      ap (λ (b : Best). if is_concrete_version b.version then trim_prefix b.version "v" else "")
        best
      ∙ ap (λ c. if c then trim_prefix m.version "v" else "") concrete in
    ap
      (λ v.
        if is_concrete_version stamps.gapi_version
        then stamps.gapi_version
        else (if same v "" then dev_version else v))
      found
    ∙ ap
        (λ c.
          if is_concrete_version stamps.gapi_version
          then stamps.gapi_version
          else (if c then dev_version else trim_prefix m.version "v"))
        filled
