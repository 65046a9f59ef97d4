-- ===== src/DevSetup/Mobile/Jdk.antt =====
-- The JDK (packages/dev-setup/src/tools/android.rs): which versions of Java are accepted.
use epistl.Prelude.{
  ℕ, Bool, false, not, ◌&&◌, ◌||◌, Option, none, some, List, [], ◌∷◌, any, is_some, leb, ltb, ◌==◌,
  if◌then◌else◌, codes,
}
use epistl.Text.{Text, split_by, cut, is_empty, is_whitespace, trim_start_by, trim_end_by}
use epistl.Text.Lines.{lines}
use epistl.Text.Numbers.{parse_u32}
use epistl.DevSetup.{
  Executor, M, ◌>>=◌, pure, run, Host, ToolOutcome, present, PromptPolicy, confirm_required,
}
use epistl.DevSetup.Packages.{PackageSpec}
use epistl.DevSetup.Tools.{missing}
use epistl.DevSetup.Mobile.{install_with}

-- The texts that `ensure_jdk` looks for.
abbrev pub accepted : List Text
accepted =
    codes "17"
    ∷ codes "18"
    ∷ codes "19"
    ∷ codes "20"
    ∷ codes "21"
    ∷ codes "22"
    ∷ codes "23"
    ∷ codes "24"
    ∷ codes "25"
    ∷ []

-- `version.contains("17") || ..`.
unfoldable pub mentions : Text → Bool
unfolding cut
mentions version = any (λ m. is_some (cut m version)) accepted

abbrev pub trim_matches : ℕ → Text → Text
trim_matches c s = trim_end_by (λ d. d == c) (trim_start_by (λ d. d == c) s)

abbrev pub is_accepted : Option ℕ → Bool
is_accepted none = false
is_accepted (some n) = leb 17 n && ltb n 100

-- `t.split_once('.')`, and the number before the dot.
abbrev pub dotted : Option (Text × Text) → Bool
dotted none = false
dotted (some (maj, rest)) = is_accepted (parse_u32 maj)

abbrev pub major_ok : Text → Bool
major_ok t = dotted (cut (b'.' ∷ []) t) || is_accepted (parse_u32 t)

unfoldable pub token_ok : Text → Bool
unfolding cut parse_u32 trim_start_by trim_end_by
token_ok token = major_ok (trim_matches b'\'' (trim_matches b'"' token))

-- `split_whitespace` leaves the empty parts out.
unfoldable pub java_major_ok : Text → Bool
unfolding is_empty split_by token_ok
java_major_ok version_output =
    any (λ token. not (is_empty token) && token_ok token) (split_by is_whitespace version_output)

abbrev pub head_or : Text → List Text → Text
head_or version [] = version
head_or version (line ∷ rest) = line

unfoldable pub jdk_spec : PackageSpec
jdk_spec = record {
  apt_names = codes "openjdk-17-jdk" ∷ [];
  dnf_names = codes "java-17-openjdk-devel" ∷ [];
  pacman_names = codes "jdk17-openjdk" ∷ [];
  brew_names = [];
  cask_names = codes "temurin@17" ∷ [];
}

module _ (exec : Executor) (policy : PromptPolicy) (check_only : Bool) where
  abbrev pub jdk_found : Option Text → M ToolOutcome → M ToolOutcome
  jdk_found none later = later
  jdk_found (some version) later =
      if mentions version || java_major_ok version
      then pure (present (head_or version (lines version)))
      else later

  unfoldable pub ensure_jdk : Host → M ToolOutcome
  unfolding run mentions java_major_ok lines confirm_required install_with jdk_spec
  ensure_jdk host = do
    version ← run exec (codes "java") (codes "-version" ∷ [])
    jdk_found version (
        missing exec policy check_only (codes "JDK 17+ not found")
          (codes "JDK 17+ missing (needed for Android builds). Install?")
          (codes "user declined JDK install")
          (install_with exec host jdk_spec (codes "JDK 17 installed")))
