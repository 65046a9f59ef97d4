-- ===== src/DevSetup/Packages.antt =====
-- Installing packages with the host's package manager (packages/dev-setup/src/pkg.rs).
use epistl.Prelude.{Bool, true, false, Option, none, some, List, [], ◌∷◌, ◌++◌, codes}
use epistl.Text.{Text}
use epistl.DevSetup.{
  Executor, Step, fine, bad, M, ◌>>=◌, ◌>>◌, pure, run, OsKind, macos, linux, DistroFamily, apt,
  dnf, pacman, Host,
}
pub mod Commands

pub record PackageSpec : Type 0 where
  pub apt_names : List Text
  pub dnf_names : List Text
  pub pacman_names : List Text
  pub brew_names : List Text
  pub cask_names : List Text

-- `names.join(" ")`.
unfoldable pub join_spaces : List Text → Text
join_spaces [] = []
join_spaces (a ∷ []) = a
join_spaces (a ∷ b ∷ rest) = a ++ b' ' ∷ join_spaces (b ∷ rest)

module _ (exec : Executor) where
  -- What follows runs if the command has succeeded.
  abbrev pub or_stop : Text → Option Text → M Step → M Step
  or_stop message none later = pure (bad message)
  or_stop message (some out) later = later

  abbrev pub brew_failed : List Text → Text → Text
  brew_failed args name = codes "`brew " ++ (join_spaces args ++ b' ' ∷ (name ++ codes "` failed"))

  unfoldable pub install_each : List Text → List Text → M Step → M Step
  unfolding run join_spaces
  install_each args [] later = later
  install_each args (name ∷ names) later = do
    r ← run exec (codes "brew") (args ++ name ∷ [])
    or_stop (brew_failed args name) r (install_each args names later)

  unfoldable pub install_brew : PackageSpec → M Step
  unfolding run install_each
  install_brew spec = do
    r ← run exec (codes "brew") (codes "--version" ∷ [])
    or_stop (codes "Homebrew is not installed; install from https://brew.sh") r (
        install_each (codes "install" ∷ []) spec.brew_names
          (install_each (codes "install" ∷ codes "--cask" ∷ []) spec.cask_names (pure fine)))

  unfoldable pub install_apt : List Text → M Step
  unfolding run join_spaces
  install_apt names = do
    updated ← run exec (codes "sudo") (codes "apt-get" ∷ codes "update" ∷ codes "-qq" ∷ [])
    or_stop (codes "`sudo apt-get update` failed") updated (do
      r ←
          run exec (codes "sudo")
            (codes "apt-get" ∷ codes "install" ∷ codes "-y" ∷ codes "-qq" ∷ names)
      or_stop (codes "`sudo apt-get install " ++ (join_spaces names ++ codes "` failed")) r
          (pure fine))

  abbrev pub manager : Option Text → Text
  manager none = codes "yum"
  manager (some version) = codes "dnf"

  unfoldable pub install_dnf : List Text → M Step
  unfolding run join_spaces
  install_dnf names = do
    found ← run exec (codes "dnf") (codes "--version" ∷ [])
    r ← run exec (codes "sudo") (manager found ∷ codes "install" ∷ codes "-y" ∷ names)
    or_stop
        (codes "`sudo "
          ++ (manager found ++ (codes " install " ++ (join_spaces names ++ codes "` failed"))))
        r (pure fine)

  unfoldable pub install_pacman : List Text → M Step
  unfolding run join_spaces
  install_pacman names = do
    r ←
        run exec (codes "sudo")
          (codes "pacman" ∷ codes "-Sy" ∷ codes "--needed" ∷ codes "--noconfirm" ∷ names)
    or_stop (codes "`sudo pacman -Sy " ++ (join_spaces names ++ codes "` failed")) r (pure fine)

  abbrev pub install_for : PackageSpec → Option DistroFamily → M Step
  install_for spec none = pure (bad (codes "Linux distro family unknown"))
  install_for spec (some apt) = install_apt spec.apt_names
  install_for spec (some dnf) = install_dnf spec.dnf_names
  install_for spec (some pacman) = install_pacman spec.pacman_names

  abbrev pub install_on : OsKind → Option DistroFamily → PackageSpec → M Step
  install_on macos distro spec = install_brew spec
  install_on linux distro spec = install_for spec distro

  unfoldable pub install_packages : Host → PackageSpec → M Step
  unfolding install_brew install_apt install_dnf install_pacman
  install_packages host spec = install_on host.os host.distro spec
