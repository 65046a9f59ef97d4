-- ===== src/DevSetup/Packages/Commands.antt =====
-- Which commands install packages (packages/dev-setup/src/pkg.rs).
use epistl.Prelude.{
  ◌≡◌, refl, Bool, true, false, ◌&&◌, Option, none, some, subst, List, [], ◌∷◌, ◌++◌, if◌then◌else◌,
  codes, Bool-cases, inl, inr,
}
use epistl.Text.{Text}
use epistl.DevSetup.{
  Executor, World, Call, Step, fine, bad, M, ◌>>=◌, pure, run, Host, OsKind, macos, linux,
  DistroFamily, apt, dnf, pacman,
}
use epistl.DevSetup.Packages.{
  PackageSpec, or_stop, brew_failed, install_each, install_brew, install_apt, install_pacman,
  install_on, install_packages,
}

taken : {A : Type 0} (a b : A) → some a ≡ some b → a ≡ b
taken a b h = cc h

module _ (exec : Executor) where
  -- Whether a command, run after others, succeeds.
  abbrev pub succeeds : List Call → Call → Bool
  succeeds before c = (exec before c).status_ok

  -- Whether all commands of a list succeed, each run after those before it.
  abbrev pub all_succeed : List Call → List Call → Bool
  all_succeed before [] = true
  all_succeed before (c ∷ cs) = succeeds before c && all_succeed (c ∷ before) cs

  -- The commands run by then, the last one first, if a failure ends the run.
  abbrev pub ran : List Call → List Call → List Call
  ran before [] = before
  ran before (c ∷ cs) =
      let rest = ran (c ∷ before) cs in if succeeds before c then rest else c ∷ before

  abbrev pub is_fine : Step → Bool
  is_fine fine = true
  is_fine (bad message) = false

  -- That a step runs the commands of a list in order until one fails, and succeeds if none does.
  abbrev pub Runs : M Step → List Call → Type 0
  Runs m cs =
      (w : World) → (is_fine (m w).0 ≡ all_succeed w.calls cs) × ((m w).1.calls ≡ ran w.calls cs)

  or_stop-Runs :
      (program : Text) (args : List Text) (message : Text) (later : M Step) (cs : List Call)
      → Runs later cs
      → Runs (run exec program args >>= λ r. or_stop exec message r later) ((program, args) ∷ cs)
  unfolding run
  or_stop-Runs program args message later cs h w =
      elim (Bool-cases (succeeds w.calls (program, args))) [
        | inl done ↦ rw done (h (record w { calls = (program, args) ∷ w.calls }))
        | inr broken ↦ rw broken (refl, refl)
      ]

  -- The commands that install each of some names.
  abbrev pub brew_calls : List Text → List Text → List Call → List Call
  brew_calls args [] later = later
  brew_calls args (name ∷ names) later =
      (codes "brew", args ++ name ∷ []) ∷ brew_calls args names later

  each-Runs :
      (args names : List Text) (later : M Step) (cs : List Call)
      → Runs later cs
      → Runs (install_each exec args names later) (brew_calls args names cs)
  unfolding install_each
  each-Runs args [] later cs h = h
  each-Runs args (name ∷ names) later cs h =
      or_stop-Runs (codes "brew") (args ++ name ∷ []) (brew_failed exec args name)
        (install_each exec args names later) (brew_calls args names cs)
        (each-Runs args names later cs h)

  abbrev pub apt_install : List Text → Call
  apt_install names =
      (codes "sudo", codes "apt-get" ∷ codes "install" ∷ codes "-y" ∷ codes "-qq" ∷ names)

  -- The commands for Homebrew, apt and pacman; those for dnf depend on what a first one answers.
  abbrev pub script_for : PackageSpec → Option DistroFamily → Option (List Call)
  script_for spec none = none
  script_for spec (some apt) = some (
      (codes "sudo", codes "apt-get" ∷ codes "update" ∷ codes "-qq" ∷ [])
      ∷ apt_install spec.apt_names
      ∷ [])
  script_for spec (some dnf) = none
  script_for spec (some pacman) = some (
      (
        codes "sudo",
        codes "pacman" ∷ codes "-Sy" ∷ codes "--needed" ∷ codes "--noconfirm" ∷ spec.pacman_names,
      )
      ∷ [])

  abbrev pub script_on : OsKind → Option DistroFamily → PackageSpec → Option (List Call)
  script_on macos distro spec = some (
      (codes "brew", codes "--version" ∷ [])
      ∷ brew_calls (codes "install" ∷ []) spec.brew_names
          (brew_calls (codes "install" ∷ codes "--cask" ∷ []) spec.cask_names []))
  script_on linux distro spec = script_for spec distro

  nothing-Runs : Runs (pure fine) []
  nothing-Runs w = (refl, refl)

  on-Runs :
      (os : OsKind) (distro : Option DistroFamily) (spec : PackageSpec) {cs : List Call}
      → script_on os distro spec ≡ some cs
      → Runs (install_on exec os distro spec) cs
  unfolding install_brew install_apt install_pacman
  on-Runs macos distro spec h = subst (Runs (install_brew exec spec)) (taken _ _ h) (
      or_stop-Runs (codes "brew") (codes "--version" ∷ []) _ _ _ (
        each-Runs (codes "install" ∷ []) spec.brew_names _ _
          (each-Runs (codes "install" ∷ codes "--cask" ∷ []) spec.cask_names _ _ nothing-Runs)))
  on-Runs linux none spec h = cc
  on-Runs linux (some apt) spec h = subst (Runs (install_apt exec spec.apt_names)) (taken _ _ h) (
      or_stop-Runs (codes "sudo") _ _ _ (apt_install spec.apt_names ∷ [])
        (or_stop-Runs (codes "sudo") _ _ _ [] nothing-Runs))
  on-Runs linux (some dnf) spec h = cc
  on-Runs linux (some pacman) spec h =
      subst (Runs (install_pacman exec spec.pacman_names)) (taken _ _ h)
        (or_stop-Runs (codes "sudo") _ _ _ [] nothing-Runs)

  -- With Homebrew, apt or pacman, install_packages runs the commands for the host in order until one
  -- fails, and no other, and it succeeds exactly if none of them fails.
  pub install_packages-Runs :
      (host : Host) (spec : PackageSpec) (cs : List Call)
      → script_on host.os host.distro spec ≡ some cs
      → Runs (install_packages exec host spec) cs
  unfolding install_packages
  install_packages-Runs host spec cs h = on-Runs host.os host.distro spec h
