-- ===== src/DevSetup/Main/Checked.antt =====
-- What a run with `--check` does, and which exit status it has (packages/dev-setup/src/main.rs).
use epistl.Prelude.{◌≡◌, Bool, true, false, not, ◌||◌, Option, is_some}
use epistl.Text.{Text}
use epistl.DevSetup.{World, Host, Flags, PromptPolicy}
use epistl.DevSetup.EnvFile.{EnvFileOutcome, Files}
use epistl.DevSetup.Tools.Probes.{HasOnlyAsked}
use epistl.DevSetup.Main.{Setting, core, core_failed, ExitCode, exit_of}

module _ (s : Setting) (policy : PromptPolicy) (host : Host) (p : Option Text × Text) where
  -- That a step has only asked, and gives no failure.
  abbrev IsQuiet : Bool × World → Type 0
  IsQuiet r = HasOnlyAsked p r.1 × (r.0 ≡ false)

module _ (s : Setting) (policy : PromptPolicy) (f : Flags) (host : Host) (w : World) where
  -- What a run with `--check` comes to: the env files are made as ever, no command is run that does more
  -- than ask, and the exit status says whether the env files and all the core tools are there.
  pub record IsChecked (env_files : Option (EnvFileOutcome × EnvFileOutcome) × Files)
      (r : ExitCode × Files × World) : Type 0 where
    pub only_asked : HasOnlyAsked (w.profile, w.path) r.2
    pub same_files : r.1 ≡ env_files.1
    pub status :
        r.0 ≡ exit_of (not (is_some env_files.0) || core_failed (core s policy true host w).0)
