-- ===== src/DevSetup/Mobile/Probes.antt =====
-- That `--check` only looks for the mobile toolchains, and is not ended by them (packages/dev-setup/src/tools).
use epistl.Prelude.{
  ◌≡◌, refl, Bool, true, false, ◌&&◌, ◌||◌, Option, none, some, [], ◌∷◌, codes, any, Bool-cases,
  inl, inr,
}
use epistl.Text.{Text}
use epistl.DevSetup.{
  Executor, World, M, pure, run, OsKind, macos, linux, Host, ToolOutcome, absent, is_failed,
  PromptPolicy,
}
use epistl.DevSetup.Profile.{ProfileIo}
use epistl.DevSetup.Tools.Probes.{HasOnlyAsked, run-HasOnlyAsked, asks}
use epistl.DevSetup.Paths.{join}
use epistl.DevSetup.Mobile.{Environment, exists}
use epistl.DevSetup.Mobile.Jdk.{ensure_jdk, jdk_found, mentions, java_major_ok}
use epistl.DevSetup.Mobile.Sdk.{
  ensure_sdk, sdk_found, sdk_report, resolve_sdk_root, ndk_path, platform_path,
}
use epistl.DevSetup.Mobile.Studio.{
  ensure_studio, ensure_android, studio_on, studio_after, or_look, on_path, which_studio,
  at_home_or_on_path,
}
use epistl.DevSetup.Mobile.Ios.{
  ensure_ios, ensure_xcode, ensure_cocoapods, xcode_outcome, pods_found, section_on,
}

-- That a tool was only asked for, and did not come out as failed.
pub record IsProbed (p : Option Text × Text) (r : ToolOutcome × World) : Type 0 where
  pub only_asked : HasOnlyAsked p r.1
  pub not_failed : is_failed r.0 ≡ false

module _ (exec : Executor) (p : Option Text × Text) (policy : PromptPolicy) where
  jdk-IsProbed :
      (host : Host) (w : World) → HasOnlyAsked p w → IsProbed p (ensure_jdk exec policy true host w)
  unfolding ensure_jdk asks is_failed
  jdk-IsProbed host w h =
      found (run exec (codes "java") (codes "-version" ∷ []) w).0 _
        (run-HasOnlyAsked exec p (codes "java") (codes "-version" ∷ []) w refl h)
    where
      found :
          (o : Option Text) (v : World)
          → HasOnlyAsked p v
          → IsProbed p (jdk_found exec policy true o (pure (absent (codes "JDK 17+ not found"))) v)
      found none v k = record { only_asked = k; not_failed = refl }
      found (some version) v k = elim (Bool-cases (mentions version || java_major_ok version)) [
        | inl fits ↦ rw fits (record { only_asked = k; not_failed = refl })
        | inr old ↦ rw old (record { only_asked = k; not_failed = refl })
      ]

  sdk-IsProbed :
      (env : Environment) (io : ProfileIo) (host : Host) (home : Text) (w : World)
      → HasOnlyAsked p w
      → IsProbed p (ensure_sdk exec policy true env io host home w)
  unfolding ensure_sdk exists is_failed
  sdk-IsProbed env io host home w h = complete (
      env.path_exists w.calls (ndk_path (resolve_sdk_root host env home))
      && env.path_exists w.calls (platform_path (resolve_sdk_root host env home)))
    where
      complete :
          (b : Bool)
          → IsProbed p (
              sdk_found exec policy true b
                (resolve_sdk_root host env home)
                (pure (absent (sdk_report (resolve_sdk_root host env home))))
                w)
      complete true = record { only_asked = h; not_failed = refl }
      complete false = record { only_asked = h; not_failed = refl }

  on_path-HasOnlyAsked :
      (program : Text) (w : World)
      → asks (codes "which", program ∷ []) ≡ true
      → HasOnlyAsked p w
      → HasOnlyAsked p (on_path exec program w).1
  on_path-HasOnlyAsked program w a h = run-HasOnlyAsked exec p (codes "which") (program ∷ []) w a h

  or_look-HasOnlyAsked :
      (here : Bool) (later : M Bool) (w : World)
      → HasOnlyAsked p w
      → HasOnlyAsked p (later w).1
      → HasOnlyAsked p (or_look exec here later w).1
  or_look-HasOnlyAsked true later w h k = h
  or_look-HasOnlyAsked false later w h k = k

  which_studio-HasOnlyAsked :
      (w : World) → HasOnlyAsked p w → HasOnlyAsked p (which_studio exec w).1
  unfolding asks
  which_studio-HasOnlyAsked w h =
      let v = (on_path exec (codes "studio") w).1 in
      let k = on_path-HasOnlyAsked (codes "studio") w refl h in
      or_look-HasOnlyAsked (on_path exec (codes "studio") w).0
        (on_path exec (codes "android-studio")) v k
        (on_path-HasOnlyAsked (codes "android-studio") v refl k)

  studio_on-HasOnlyAsked :
      (os : OsKind) (env : Environment) (home : Text) (w : World)
      → HasOnlyAsked p w
      → HasOnlyAsked p (studio_on exec os env home w).1
  unfolding exists
  studio_on-HasOnlyAsked macos env home w h = h
  studio_on-HasOnlyAsked linux env home w h =
      or_look-HasOnlyAsked (env.path_exists w.calls (codes "/opt/android-studio"))
        (at_home_or_on_path exec env home) w h
        (or_look-HasOnlyAsked (env.path_exists w.calls (join home (codes "android-studio")))
          (which_studio exec) w h (which_studio-HasOnlyAsked w h))

  studio-IsProbed :
      (env : Environment) (host : Host) (home : Text) (w : World)
      → HasOnlyAsked p w
      → IsProbed p (ensure_studio exec policy true env host home w)
  unfolding ensure_studio is_failed
  studio-IsProbed env host home w h =
      after (studio_on exec host.os env home w).0 _ (studio_on-HasOnlyAsked host.os env home w h)
    where
      after :
          (b : Bool) (v : World)
          → HasOnlyAsked p v
          → IsProbed p (studio_after exec policy true host b v)
      after true v k = record { only_asked = k; not_failed = refl }
      after false v k = record { only_asked = k; not_failed = refl }

  xcode-IsProbed :
      (env : Environment) (w : World)
      → HasOnlyAsked p w
      → IsProbed p (ensure_xcode exec policy true env w)
  unfolding ensure_xcode asks exists is_failed
  xcode-IsProbed env w h = record {
    only_asked = run-HasOnlyAsked exec p (codes "xcode-select") (codes "-p" ∷ []) w refl h;
    not_failed = outcome (env.path_exists w.calls (codes "/Applications/Xcode.app")) _;
  }
    where
      outcome : (b : Bool) (clt : Option Text) → is_failed (xcode_outcome true b clt) ≡ false
      outcome true clt = refl
      outcome false clt = refl

  cocoapods-IsProbed :
      (host : Host) (w : World)
      → HasOnlyAsked p w
      → IsProbed p (ensure_cocoapods exec policy true host w)
  unfolding ensure_cocoapods asks is_failed
  cocoapods-IsProbed host w h =
      found (run exec (codes "pod") (codes "--version" ∷ []) w).0 _
        (run-HasOnlyAsked exec p (codes "pod") (codes "--version" ∷ []) w refl h)
    where
      found :
          (o : Option Text) (v : World)
          → HasOnlyAsked p v
          → IsProbed p (
              pods_found exec policy true o (pure (absent (codes "CocoaPods (`pod`) not found"))) v)
      found none v k = record { only_asked = k; not_failed = refl }
      found (some version) v k = record { only_asked = k; not_failed = refl }

  module _ (env : Environment) (host : Host) (w : World) (h : HasOnlyAsked p w) where
    -- Under `--check` no part of the Android section fails, and none does more than ask.
    pub ensure_android-IsProbed :
        (io : ProfileIo) (home : Text)
        → HasOnlyAsked p (ensure_android exec policy true env io host home w).1
          × (any (λ x. is_failed x.1) (ensure_android exec policy true env io host home w).0
              ≡ false)
    unfolding ensure_android
    ensure_android-IsProbed io home =
        let jdk = jdk-IsProbed host w h in
        let sdk =
          sdk-IsProbed env io host home (ensure_jdk exec policy true host w).1 jdk.only_asked in
        let studio = studio-IsProbed env host home _ sdk.only_asked in
        (studio.only_asked, rw (jdk.not_failed, sdk.not_failed, studio.not_failed) refl)

    -- Nor does any of the iOS section.
    pub ensure_ios-IsProbed :
        HasOnlyAsked p (ensure_ios exec policy true env host w).1
        × (any (λ x. is_failed x.1) (ensure_ios exec policy true env host w).0 ≡ false)
    unfolding ensure_ios
    ensure_ios-IsProbed = on host.os
      where
        on :
            (os : OsKind)
            → HasOnlyAsked p (section_on exec policy true os env host w).1
              × (any (λ x. is_failed x.1) (section_on exec policy true os env host w).0 ≡ false)
        on linux = (h, refl)
        on macos =
            let xcode = xcode-IsProbed env w h in
            let pods = cocoapods-IsProbed host _ xcode.only_asked in
            (pods.only_asked, rw (xcode.not_failed, pods.not_failed) refl)
