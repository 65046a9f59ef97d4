-- ===== src/DevSetup/Mobile/Sdk.antt =====
-- The Android SDK and NDK (packages/dev-setup/src/tools/android.rs).
use epistl.Prelude.{Bool, ◌&&◌, Option, none, some, [], ◌∷◌, ◌++◌, if◌then◌else◌, codes}
use epistl.Text.{Text}
use epistl.DevSetup.{
  Executor, Step, fine, bad, M, ◌>>=◌, pure, run, OsKind, macos, linux, Host, ToolOutcome, present,
  installed, failed, PromptPolicy, confirm_required,
}
use epistl.DevSetup.Paths.{join}
use epistl.DevSetup.Packages.{PackageSpec, install_packages}
use epistl.DevSetup.Profile.{ProfileIo, ensure_profile_block}
use epistl.DevSetup.Tools.{missing, write_profile}
use epistl.DevSetup.Mobile.{Environment, exists, android_sdk_root}

abbrev pub ndk_version : Text
ndk_version = codes "27.1.12297006"

abbrev pub build_tools : Text
build_tools = codes "36.0.0"

abbrev pub compile_sdk : Text
compile_sdk = codes "36"

abbrev pub cmake_version : Text
cmake_version = codes "3.22.1"

abbrev pub first_set : Option Text → Option Text → Text → Text
first_set (some v) other root = v
first_set none (some v) root = v
first_set none none root = root

unfoldable pub resolve_sdk_root : Host → Environment → Text → Text
unfolding android_sdk_root
resolve_sdk_root host env home =
    first_set (env.var (codes "ANDROID_HOME")) (env.var (codes "ANDROID_SDK_ROOT"))
      (android_sdk_root host home)

unfoldable pub ndk_path : Text → Text
unfolding join
ndk_path sdk_root = join (join sdk_root (codes "ndk")) ndk_version

unfoldable pub platform_path : Text → Text
unfolding join
platform_path sdk_root = join (join sdk_root (codes "platforms")) (codes "android-" ++ compile_sdk)

abbrev pub os_tag : OsKind → Text
os_tag macos = codes "mac"
os_tag linux = codes "linux"

abbrev pub zip_url : OsKind → Text
zip_url os =
    codes "https://dl.google.com/android/repository/commandlinetools-"
    ++ (os_tag os ++ codes "-11076708_latest.zip")

-- The script, for the paths of the SDK and of its cmdline-tools.
unfoldable pub setup : OsKind → Text → Text → Text
setup os sdk cmdline =
    codes "\nset -euo pipefail\nmkdir -p \""
    ++ (sdk
        ++ (codes "\"\nTMP=\"$(mktemp -d)\"\ncurl -fsSL \""
            ++ (zip_url os
                ++ (codes
                      "\" -o \"$TMP/cmdtools.zip\"\nunzip -q \"$TMP/cmdtools.zip\" -d \"$TMP\"\nmkdir -p \""
                    ++ (cmdline
                        ++ (codes
                              "/latest\"\n# The zip contains a top-level `cmdline-tools/` directory.\nif [ -d \"$TMP/cmdline-tools\" ]; then\n  cp -R \"$TMP/cmdline-tools/.\" \""
                            ++ (cmdline
                                ++ (codes "/latest/\"\nelse\n  cp -R \"$TMP/.\" \""
                                    ++ (cmdline ++ setup_rest sdk cmdline)))))))))
  where
    setup_rest : Text → Text → Text
    setup_rest sdk cmdline =
        codes "/latest/\"\nfi\nrm -rf \"$TMP\"\nexport ANDROID_HOME=\""
        ++ (sdk
            ++ (codes "\"\nexport PATH=\""
                ++ (cmdline
                    ++ (codes "/latest/bin:$PATH\"\nyes | sdkmanager --sdk_root=\""
                        ++ (sdk
                            ++ (codes "\" --licenses >/dev/null || true\nsdkmanager --sdk_root=\""
                                ++ (sdk
                                    ++ (codes
                                          "\" \\\n  \"platform-tools\" \\\n  \"platforms;android-"
                                        ++ (compile_sdk
                                            ++ (codes "\" \\\n  \"build-tools;"
                                                ++ (build_tools
                                                    ++ (codes "\" \\\n  \"ndk;"
                                                        ++ (ndk_version
                                                            ++ (codes "\" \\\n  \"cmake;"
                                                            ++ (cmake_version
                                                            ++ codes "\"\n")))))))))))))))

unfoldable pub unzip_spec : PackageSpec
unzip_spec = record {
  apt_names = codes "unzip" ∷ [];
  dnf_names = codes "unzip" ∷ [];
  pacman_names = codes "unzip" ∷ [];
  brew_names = codes "unzip" ∷ [];
  cask_names = [];
}

module _ (exec : Executor) where
  abbrev pub unzip_found : Option Text → Step
  unzip_found none = bad (codes "unzip is required to install Android cmdline-tools")
  unzip_found (some path) = fine

  -- `or_else`: unzip may be there although the package manager has failed.
  abbrev pub or_which : Step → M Step
  or_which fine = pure fine
  or_which (bad e) = do
    path ← run exec (codes "which") (codes "unzip" ∷ [])
    pure (unzip_found path)

  abbrev pub unzip_or_install : Host → Option Text → M Step
  unzip_or_install host (some out) = pure fine
  unzip_or_install host none = do step ← install_packages exec host unzip_spec; or_which step

  unfoldable pub ensure_unzip : Host → M Step
  unfolding run install_packages unzip_spec
  ensure_unzip host = do
    version ← run exec (codes "unzip") (codes "-v" ∷ [])
    unzip_or_install host version

  abbrev pub setup_result : Option Text → Step
  setup_result none = bad (codes "Android cmdline-tools / sdkmanager install failed")
  setup_result (some out) = fine

  abbrev pub setup_after : Host → Text → Step → M Step
  setup_after host sdk_root (bad e) = pure (bad e)
  setup_after host sdk_root fine = do
    out ←
        run exec (codes "bash")
          (codes "-c" ∷ setup host.os sdk_root (join sdk_root (codes "cmdline-tools")) ∷ [])
    pure (setup_result out)

  unfoldable pub install_cmdline_tools_and_packages : Host → Text → M Step
  unfolding run ensure_unzip setup join
  install_cmdline_tools_and_packages host sdk_root = do
    unzip ← ensure_unzip host
    setup_after host sdk_root unzip

abbrev pub sdk_present : Text → Text
sdk_present sdk_root =
    codes "SDK at "
    ++ (sdk_root
        ++ (codes " (NDK " ++ (ndk_version ++ (codes ", platform " ++ (compile_sdk ++ codes ")")))))

abbrev pub sdk_report : Text → Text
sdk_report sdk_root =
    codes "Android SDK/NDK incomplete (want NDK "
    ++ (ndk_version
        ++ (codes " + platforms;android-"
            ++ (compile_sdk ++ (codes " under " ++ (sdk_root ++ codes ")")))))

abbrev pub sdk_question : Text → Text
sdk_question sdk_root =
    codes "Android SDK/NDK missing. Install cmdline-tools + platform-tools, platforms;android-"
    ++ (compile_sdk
        ++ (codes ", build-tools;"
            ++ (build_tools
                ++ (codes ", ndk;"
                    ++ (ndk_version
                        ++ (codes ", cmake;"
                            ++ (cmake_version ++ (codes " into " ++ (sdk_root ++ codes "?")))))))))

abbrev pub sdk_profile : Text → Text
sdk_profile sdk_root =
    codes "export ANDROID_HOME=\""
    ++ (sdk_root
        ++ (codes
              "\"\nexport ANDROID_SDK_ROOT=\"$ANDROID_HOME\"\nexport ANDROID_NDK_HOME=\"$ANDROID_HOME/ndk/"
            ++ (ndk_version
                ++ codes
                    "\"\nexport PATH=\"$ANDROID_HOME/cmdline-tools/latest/bin:$ANDROID_HOME/platform-tools:$PATH\"")))

abbrev pub sdk_done : Text → Text
sdk_done sdk_root =
    codes "Android SDK installed at "
    ++ (sdk_root
        ++ (codes " (NDK " ++ (ndk_version ++ codes "). Restart shell to pick up ANDROID_HOME.")))

module _ (exec : Executor) (policy : PromptPolicy) (check_only : Bool) where
  abbrev pub sdk_after : ProfileIo → Text → Step → M ToolOutcome
  sdk_after io sdk_root (bad e) = pure (failed e)
  sdk_after io sdk_root fine = do
    ignored ← write_profile exec policy check_only io (sdk_profile sdk_root)
    pure (installed (sdk_done sdk_root))

  unfoldable pub install_sdk : ProfileIo → Host → Text → M ToolOutcome
  unfolding install_cmdline_tools_and_packages ensure_profile_block
  install_sdk io host sdk_root = do
    step ← install_cmdline_tools_and_packages exec host sdk_root
    sdk_after io sdk_root step

  abbrev pub sdk_found : Bool → Text → M ToolOutcome → M ToolOutcome
  sdk_found complete sdk_root later =
      if complete then pure (present (sdk_present sdk_root)) else later

  abbrev pub sdk_at : Environment → ProfileIo → Host → Text → M ToolOutcome
  sdk_at env io host sdk_root = do
    ndk ← exists env (ndk_path sdk_root)
    platform ← exists env (platform_path sdk_root)
    sdk_found (ndk && platform) sdk_root (
        missing exec policy check_only (sdk_report sdk_root) (sdk_question sdk_root)
          (codes "user declined Android SDK install") (install_sdk io host sdk_root))

  unfoldable pub ensure_sdk : Environment → ProfileIo → Host → Text → M ToolOutcome
  unfolding exists ndk_path platform_path resolve_sdk_root confirm_required install_sdk
  ensure_sdk env io host home = sdk_at env io host (resolve_sdk_root host env home)
