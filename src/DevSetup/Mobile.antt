-- ===== src/DevSetup/Mobile.antt =====
-- The mobile toolchains (packages/dev-setup/src/tools/android.rs and ios.rs, environment.rs, the paths of
-- platform.rs): what their parts share.
use epistl.Prelude.{
  Bool, true, false, ◌||◌, Option, none, some, [], ◌∷◌, ◌++◌, ◌==◌, if◌then◌else◌, codes, List,
}
use epistl.Text.{Text, is_empty}
use epistl.DevSetup.{
  Executor, Call, Step, fine, bad, M, ◌>>=◌, pure, run, OsKind, macos, linux, Host, ToolOutcome,
  installed, failed,
}
use epistl.DevSetup.Paths.{join}
use epistl.DevSetup.Packages.{PackageSpec, install_packages}
pub mod Jdk
pub mod Sdk
pub mod Studio
pub mod Ios
pub mod Majors
pub mod Versions
pub mod Probes

-- The variables of the process, and which paths exist after the commands that were run so far.
pub record Environment : Type 0 where
  pub var : Text → Option Text
  pub path_exists : List Call → Text → Bool

unfoldable pub exists : Environment → Text → M Bool
exists env path w = (env.path_exists w.calls path, w)

-- `home` is the variable `HOME`.
abbrev pub sdk_below : OsKind → Text → Text
sdk_below macos home = join home (codes "Library/Android/sdk")
sdk_below linux home = join home (codes "Android/Sdk")

unfoldable pub android_sdk_root : Host → Text → Text
unfolding join
android_sdk_root host home = sdk_below host.os home

abbrev pub installed_or_failed : Text → Step → ToolOutcome
installed_or_failed done fine = installed done
installed_or_failed done (bad e) = failed e

unfoldable pub install_with : Executor → Host → PackageSpec → Text → M ToolOutcome
unfolding install_packages
install_with exec host spec done = do
  step ← install_packages exec host spec
  pure (installed_or_failed done step)
