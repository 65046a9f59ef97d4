-- ===== src/DevSetup/Mobile/Ios.antt =====
-- The iOS toolchain (packages/dev-setup/src/tools/ios.rs).
use epistl.Prelude.{Bool, Option, none, some, List, [], ◌∷◌, ◌++◌, if◌then◌else◌, codes}
use epistl.Text.{Text}
use epistl.DevSetup.{
  Executor, M, ◌>>=◌, pure, run, OsKind, macos, linux, Host, ToolOutcome, present, absent, guided,
  PromptPolicy, confirm_required,
}
use epistl.DevSetup.Packages.{PackageSpec}
use epistl.DevSetup.Tools.{missing}
use epistl.DevSetup.Mobile.{Environment, exists, install_with}

abbrev pub clt_note : Option Text → Text
clt_note (some p) = codes "; CLT at " ++ p
clt_note none =
    codes "; Command Line Tools not selected — run `sudo xcode-select -s /Applications/Xcode.app`"

abbrev pub clt_report : Option Text → Text
clt_report (some p) =
    codes "Xcode.app not found (CLT present — full Xcode required for iOS simulator builds)"
clt_report none = codes "Xcode.app and Command Line Tools not found"

abbrev pub xcode_outcome : Bool → Bool → Option Text → ToolOutcome
xcode_outcome check_only app_present clt =
    if app_present
    then present (codes "Xcode.app found" ++ clt_note clt)
    else if check_only
    then absent (clt_report clt)
    else guided (
        codes
          "Install Xcode from the Mac App Store (or https://developer.apple.com/xcode/), then run `sudo xcode-select -s /Applications/Xcode.app` and `sudo xcodebuild -license accept`")

unfoldable pub cocoapods_spec : PackageSpec
cocoapods_spec = record {
  apt_names = [];
  dnf_names = [];
  pacman_names = [];
  brew_names = codes "cocoapods" ∷ [];
  cask_names = [];
}

module _ (exec : Executor) (policy : PromptPolicy) (check_only : Bool) where
  unfoldable pub ensure_xcode : Environment → M ToolOutcome
  unfolding run exists
  ensure_xcode env = do
    app_present ← exists env (codes "/Applications/Xcode.app")
    clt ← run exec (codes "xcode-select") (codes "-p" ∷ [])
    pure (xcode_outcome check_only app_present clt)

  abbrev pub pods_found : Option Text → M ToolOutcome → M ToolOutcome
  pods_found none later = later
  pods_found (some version) later = pure (present (codes "CocoaPods " ++ version))

  unfoldable pub ensure_cocoapods : Host → M ToolOutcome
  unfolding run confirm_required install_with cocoapods_spec
  ensure_cocoapods host = do
    version ← run exec (codes "pod") (codes "--version" ∷ [])
    pods_found version (
        missing exec policy check_only (codes "CocoaPods (`pod`) not found")
          (codes "CocoaPods missing. Install via Homebrew?")
          (codes "user declined CocoaPods install")
          (install_with exec host cocoapods_spec (codes "CocoaPods installed via Homebrew")))

  abbrev pub section : Environment → Host → M (List (Text × ToolOutcome))
  section env host = do
    xcode ← ensure_xcode env
    pods ← ensure_cocoapods host
    pure ((codes "xcode", xcode) ∷ (codes "cocoapods", pods) ∷ [])

  abbrev pub section_on : OsKind → Environment → Host → M (List (Text × ToolOutcome))
  section_on linux env host = pure []
  section_on macos env host = section env host

  unfoldable pub ensure_ios : Environment → Host → M (List (Text × ToolOutcome))
  unfolding ensure_xcode ensure_cocoapods
  ensure_ios env host = section_on host.os env host
