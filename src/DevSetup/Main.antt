-- ===== src/DevSetup/Main.antt =====
-- The whole run (packages/dev-setup/src/main.rs): the env files, the tools, the stack, and the exit status.
-- What is printed is not modelled.
use epistl.Prelude.{
  Bool, true, false, not, ◌&&◌, ◌||◌, Option, none, some, List, [], ◌∷◌, any, find, if◌then◌else◌,
  codes,
}
use epistl.Text.{Text, same}
use epistl.DevSetup.{
  Executor, World, M, ◌>>=◌, pure, Host, ToolOutcome, is_blocking_failure, is_failed, Flags,
  PromptPolicy, from_flags,
}
use epistl.DevSetup.Paths.{join}
use epistl.DevSetup.Profile.{ProfileIo}
use epistl.DevSetup.EnvFile.{EnvFileOutcome, Files, Writes, ensure_env_files}
use epistl.DevSetup.Tools.{core_tools, ensure_mobile_deps}
use epistl.DevSetup.Tools.Node.{Disk, install_node}
use epistl.DevSetup.Mobile.{Environment}
use epistl.DevSetup.Mobile.Studio.{Launcher, ensure_android, ensure_native_built_android}
use epistl.DevSetup.Mobile.Ios.{ensure_ios}
use epistl.DevSetup.Start.{
  StepOutcome, success, failure, is_ready, start_requested, maybe_run_start,
}
pub mod Checked

abbrev pub any_failed : List (Text × ToolOutcome) → Bool
any_failed outcomes = any (λ x. is_failed x.1) outcomes

unfoldable pub android_sdk_ok : List (Text × ToolOutcome) → Bool
unfolding same is_ready
android_sdk_ok outcomes = any (λ x. same x.0 (codes "android-sdk") && is_ready x.1) outcomes

abbrev pub step_failed : StepOutcome → Bool
step_failed (success m) = false
step_failed (failure m) = true

abbrev pub any_step_failed : Option (List StepOutcome) → Bool
any_step_failed none = false
any_step_failed (some outcomes) = any step_failed outcomes

abbrev pub core_failed : List ToolOutcome → Bool
core_failed outcomes = any (is_blocking_failure true) outcomes

abbrev pub ready_at : List ToolOutcome → Bool
ready_at [] = false
ready_at (outcome ∷ outcomes) = is_ready outcome

abbrev pub rest_of : List ToolOutcome → List ToolOutcome
rest_of [] = []
rest_of (outcome ∷ outcomes) = outcomes

-- The outcomes of moon and docker are the last two of the core tools.
unfoldable pub moon_ok : List ToolOutcome → Bool
unfolding is_ready
moon_ok outcomes = ready_at (rest_of (rest_of (rest_of outcomes)))

unfoldable pub docker_ok : List ToolOutcome → Bool
unfolding is_ready
docker_ok outcomes = ready_at (rest_of (rest_of (rest_of (rest_of outcomes))))

-- What the run finds: how commands answer, the process' variables and the disk, the writes that succeed, and
-- the paths of the user's home and of the repository.
pub record Setting : Type 0 where
  pub exec : Executor
  pub launcher : Launcher
  pub env : Environment
  pub disk : Disk
  pub io : ProfileIo
  pub writes : Writes
  pub home : Text
  pub user : Text
  pub repo_root : Text

module _ (s : Setting) (policy : PromptPolicy) (check_only : Bool) (host : Host) where
  abbrev pub mobile : Text
  mobile = join s.repo_root (codes "apps/mobile")

  unfoldable pub mobile_deps : M ToolOutcome
  unfolding join ensure_mobile_deps
  mobile_deps w =
      ensure_mobile_deps s.exec policy check_only
        (s.disk.is_dir w.calls (join mobile (codes "node_modules"))) mobile w

  abbrev pub native_step : Bool → M Bool
  native_step sdk_ok =
      if sdk_ok && not check_only
      then (do
        native ← ensure_native_built_android s.exec s.launcher s.env s.repo_root
        pure (is_failed native))
      else pure false

  abbrev pub native_and_ios : List (Text × ToolOutcome) → M Bool
  native_and_ios android = do
    native_failed ← native_step (android_sdk_ok android)
    ios ← ensure_ios s.exec policy check_only s.env host
    pure (any_failed android || native_failed || any_failed ios)

  -- Whether an install of the mobile toolchains has failed.
  unfoldable pub mobile_toolchains : Bool → M Bool
  unfolding is_failed android_sdk_ok ensure_android ensure_native_built_android ensure_ios
  mobile_toolchains skip_mobile = if skip_mobile then pure false else (do
    android ← ensure_android s.exec policy check_only s.env s.io host s.home
    native_and_ios android)

  -- The outcomes of the core tools, and whether anything has failed so far.
  abbrev pub core : M (List ToolOutcome)
  core =
      core_tools s.exec policy check_only host s.user s.io
        (install_node s.exec policy check_only s.disk s.io host s.home)

  abbrev pub mobile_after : Bool → List ToolOutcome → M (List ToolOutcome × Bool)
  mobile_after skip_mobile outcomes = do
    npm ← mobile_deps
    mobile_failed ← mobile_toolchains skip_mobile
    pure (outcomes, core_failed outcomes || is_failed npm || mobile_failed)

  unfoldable pub all_tools : Bool → M (List ToolOutcome × Bool)
  unfolding core_tools install_node mobile_deps mobile_toolchains is_failed is_blocking_failure
  all_tools skip_mobile = do outcomes ← core; mobile_after skip_mobile outcomes

  abbrev pub started : Flags → List ToolOutcome × Bool → M Bool
  started f (outcomes, tools_failed) = do
    steps ←
        maybe_run_start s.exec (start_requested f policy (docker_ok outcomes) (moon_ok outcomes))
          (docker_ok outcomes) (moon_ok outcomes) s.repo_root
    pure (tools_failed || any_step_failed steps)

  -- Whether the run fails, from the tools on.
  unfoldable pub tools_and_start : Flags → M Bool
  unfolding all_tools maybe_run_start start_requested docker_ok moon_ok
  tools_and_start f = do tools ← all_tools f.skip_mobile; started f tools

pub data ExitCode : Type 0 where
  exit_success : ExitCode
  exit_failure : ExitCode

abbrev pub exit_of : Bool → ExitCode
exit_of failed_run = if failed_run then exit_failure else exit_success

abbrev pub finish : Files → Bool × World → ExitCode × Files × World
finish files (failed_run, w) = (exit_of failed_run, files, w)

abbrev pub with_files :
    Setting
    → PromptPolicy
    → Flags
    → Host
    → Option (EnvFileOutcome × EnvFileOutcome) × Files
    → World
    → ExitCode × Files × World
with_files s policy f host (none, files) w = (exit_failure, files, w)
with_files s policy f host (some created, files) w =
    finish files (tools_and_start s policy f.check host f w)

-- `detected` is what `Platform::detect` gives, `is_tty` and `typed` what the input is.
abbrev pub on_host :
    Setting → PromptPolicy → Flags → Option Host → Files → World → ExitCode × Files × World
on_host s policy f none files w = (exit_failure, files, w)
on_host s policy f (some host) files w =
    with_files s policy f host (ensure_env_files s.writes files) w

unfoldable pub main :
    Setting
    → Bool
    → (Text → Option Text)
    → Flags
    → Option Host
    → Files
    → World
    → ExitCode × Files × World
unfolding tools_and_start ensure_env_files from_flags
main s is_tty typed f detected files w =
    on_host s (from_flags f.yes_flag is_tty typed) f detected files w
