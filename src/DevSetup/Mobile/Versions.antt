-- ===== src/DevSetup/Mobile/Versions.antt =====
-- Which outputs of `java -version` pass for a JDK 17 (packages/dev-setup/src/tools/android.rs).
use epistl.Prelude.{◌≡◌, Bool, [], ◌∷◌, codes}
use epistl.Text.{Text}
use epistl.Text.Lines.{lines}
use epistl.DevSetup.{Executor, Call, World, Host, present, PromptPolicy}
use epistl.DevSetup.Mobile.Jdk.{head_or, ensure_jdk}

module _ (exec : Executor) (policy : PromptPolicy) (check_only : Bool) (host : Host)
    (w : World) where
  abbrev pub java_call : Call
  java_call = (codes "java", codes "-version" ∷ [])

  -- That Java counts as present, its output's first line as its version, after nothing but that one command.
  pub record IsAccepted (version : Text) : Type 0 where
    pub outcome :
        (ensure_jdk exec policy check_only host w).0 ≡ present (head_or version (lines version))
    pub asked : (ensure_jdk exec policy check_only host w).1.calls ≡ java_call ∷ w.calls
