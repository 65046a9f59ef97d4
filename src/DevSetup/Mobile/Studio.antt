-- ===== src/DevSetup/Mobile/Studio.antt =====
-- Android Studio, the Android section, and the build of the native libraries
-- (packages/dev-setup/src/tools/android.rs).
use epistl.Prelude.{
  Bool, true, Option, none, some, List, [], ◌∷◌, ◌++◌, if◌then◌else◌, is_some, codes,
}
use epistl.Text.{Text}
use epistl.DevSetup.{
  Executor, Call, M, ◌>>=◌, pure, run, OsKind, macos, linux, Host, ToolOutcome, present, absent,
  guided, skipped, failed, PromptPolicy, confirm_optional,
}
use epistl.DevSetup.Paths.{join}
use epistl.DevSetup.Packages.{PackageSpec}
use epistl.DevSetup.Profile.{ProfileIo}
use epistl.DevSetup.Mobile.{Environment, exists, install_with}
use epistl.DevSetup.Mobile.Jdk.{ensure_jdk}
use epistl.DevSetup.Mobile.Sdk.{ensure_sdk}

unfoldable pub studio_spec : PackageSpec
studio_spec = record {
  apt_names = [];
  dnf_names = [];
  pacman_names = [];
  brew_names = [];
  cask_names = codes "android-studio" ∷ [];
}

module _ (exec : Executor) where
  -- `||`: what stands to its right is done only if this is false.
  abbrev pub or_look : Bool → M Bool → M Bool
  or_look here later = if here then pure true else later

  abbrev pub on_path : Text → M Bool
  on_path program = do path ← run exec (codes "which") (program ∷ []); pure (is_some path)

  abbrev pub which_studio : M Bool
  which_studio = do
    studio ← on_path (codes "studio")
    or_look studio (on_path (codes "android-studio"))

  abbrev pub at_home_or_on_path : Environment → Text → M Bool
  at_home_or_on_path env home = do
    at_home ← exists env (join home (codes "android-studio"))
    or_look at_home which_studio

  abbrev pub studio_on : OsKind → Environment → Text → M Bool
  studio_on macos env home = exists env (codes "/Applications/Android Studio.app")
  studio_on linux env home = do
    in_opt ← exists env (codes "/opt/android-studio")
    or_look in_opt (at_home_or_on_path env home)

module _ (exec : Executor) (policy : PromptPolicy) (check_only : Bool) where
  abbrev pub install_studio : OsKind → Host → M ToolOutcome
  install_studio macos host =
      install_with exec host studio_spec (codes "Android Studio installed via Homebrew cask")
  install_studio linux host = pure (
      guided (
        codes
          "Download Android Studio from https://developer.android.com/studio and unpack to ~/android-studio (or install the Flatpak/Snap if you prefer)"))

  abbrev pub studio_after : Host → Bool → M ToolOutcome
  studio_after host is_present =
      if is_present
      then pure (present (codes "Android Studio IDE found"))
      else if check_only
      then pure
          (absent (codes "Android Studio IDE not found (optional — SDK alone is enough to build)"))
      else if confirm_optional policy (
          codes
            "Install Android Studio IDE? (optional; SDK/NDK alone is enough for `expo run:android`)")
      then install_studio host.os host
      else pure (skipped (codes "skipped Android Studio IDE"))

  unfoldable pub ensure_studio : Environment → Host → Text → M ToolOutcome
  unfolding run exists join confirm_optional install_with studio_spec
  ensure_studio env host home = do
    is_present ← studio_on exec host.os env home
    studio_after host is_present

  unfoldable pub ensure_android :
      Environment → ProfileIo → Host → Text → M (List (Text × ToolOutcome))
  unfolding ensure_jdk ensure_sdk ensure_studio
  ensure_android env io host home = do
    jdk ← ensure_jdk exec policy check_only host
    sdk ← ensure_sdk exec policy check_only env io host home
    studio ← ensure_studio env host home
    pure ((codes "jdk", jdk) ∷ (codes "android-sdk", sdk) ∷ (codes "android-studio", studio) ∷ [])

-- `Command::status`: how a command that keeps the terminal has ended, with the texts of its status and of
-- the error.
pub data Launch : Type 0 where
  success : Launch
  exited : Text → Launch
  not_launched : Text → Launch

abbrev pub Launcher : Type 0
Launcher = List Call → Call → Launch

unfoldable pub launch_status : Launcher → Text → List Text → M Launch
launch_status launcher program args w =
    (launcher w.calls (program, args), record w { calls = (program, args) ∷ w.calls })

abbrev pub built : Launch → ToolOutcome
built success = present (codes "quic-relay-client native .a built for all Android ABIs")
built (exited status) = failed (
    codes "ensure-native-built.js exited with "
    ++ (status ++ codes "; check output above for details"))
built (not_launched e) = failed (codes "failed to launch node ensure-native-built.js: " ++ e)

module _ (exec : Executor) (launcher : Launcher) where
  abbrev pub build_with : Text → Option Text → M ToolOutcome
  build_with script none = pure (
      skipped (
        codes
          "node not found on PATH — skipping Android native pre-build (run `node scripts/ensure-native-built.js` manually from apps/mobile/modules/quic-relay-client once node is installed)"))
  build_with script (some version) = do
    status ← launch_status launcher (codes "node") (script ∷ [])
    pure (built status)

  abbrev pub native_script : Text → Text
  native_script repo_root =
      join
        (join
          (join (join (join (join repo_root (codes "apps")) (codes "mobile")) (codes "modules"))
            (codes "quic-relay-client"))
          (codes "scripts"))
        (codes "ensure-native-built.js")

  abbrev pub with_script : Text → Bool → M ToolOutcome
  with_script script is_file =
      if is_file
      then (do
        version ← run exec (codes "node") (codes "--version" ∷ [])
        build_with script version)
      else pure (
          skipped (
            codes "ensure-native-built.js not found at "
            ++ (script ++ codes " — skipping native pre-build")))

  unfoldable pub ensure_native_built_android : Environment → Text → M ToolOutcome
  unfolding run exists join launch_status
  ensure_native_built_android env repo_root = do
    is_file ← exists env (native_script repo_root)
    with_script (native_script repo_root) is_file
