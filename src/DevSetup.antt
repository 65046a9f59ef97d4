-- ===== src/DevSetup.antt =====
-- The local toolchain installer (packages/dev-setup): how it runs commands and asks questions, and the
-- types that its parts share (checks.rs, platform.rs, flags.rs, prompt.rs, tools/mod.rs).
use epistl.Prelude.{
  ℕ, ◌+◌, Bool, true, false, not, ◌&&◌, ◌||◌, Option, none, some, List, [], ◌∷◌, ◌++◌, map, leb,
  ltb, ◌==◌, if◌then◌else◌, codes,
}
use epistl.Text.{Text, ascii_lower, same, is_empty, trim, strip_prefix, cut}
use epistl.Text.Lines.{lines}
pub mod Packages
pub mod Docker
pub mod Start
pub mod Profile
pub mod Tools
pub mod EnvFile
pub mod Platform
pub mod Checks
pub mod Mobile
pub mod Paths
pub mod Main

pub record CommandOutput : Type 0 where
  pub status_ok : Bool
  pub stdout : Text
  pub stderr : Text

abbrev pub or_nonempty : Text → Text → Text
or_nonempty first second = if is_empty first then second else first

unfoldable pub failure_detail : CommandOutput → Text
unfolding trim is_empty
failure_detail o = or_nonempty (trim o.stderr) (or_nonempty (trim o.stdout) (codes "no output"))

unfoldable pub text : CommandOutput → Text
unfolding trim is_empty
text o = or_nonempty (trim o.stdout) (trim o.stderr)

-- Success, or the message of a failure.
pub data Step : Type 0 where
  fine : Step
  bad : Text → Step

-- A program and its arguments.
abbrev pub Call : Type 0
Call = Text × List Text

-- What a command answers, after the commands that were run before it, the last one first.
abbrev pub Executor : Type 0
Executor = List Call → Call → CommandOutput

-- What the run changes: the commands that it has run, the last one first, how often it has slept, the
-- variable `PATH` of the process, and the text of the shell profile, if the file is there.
pub record World : Type 0 where
  pub calls : List Call
  pub sleeps : ℕ
  pub path : Text
  pub profile : Option Text

abbrev pub M : Type 0 → Type 0
M A = World → A × World

infixl 5 ◌>>=◌ ◌>>◌
abbrev pub ◌>>=◌ : {A B : Type 0} → M A → (A → M B) → M B
◌>>=◌ m f w = f (m w).0 (m w).1

abbrev pub ◌>>◌ : {A B : Type 0} → M A → M B → M B
◌>>◌ m k w = k (m w).1

abbrev pub pure : {A : Type 0} → A → M A
pure a w = (a, w)

module _ (exec : Executor) where
  -- `SystemExecutor::run_output` and `SystemExecutor::run`.
  unfoldable pub run_output : Text → List Text → M CommandOutput
  run_output program args w =
      (exec w.calls (program, args), record w { calls = (program, args) ∷ w.calls })

  abbrev pub success_text : CommandOutput → Option Text
  success_text o = if o.status_ok then some (text o) else none

  unfoldable pub run : Text → List Text → M (Option Text)
  unfolding run_output text
  run program args = do output ← run_output program args; pure (success_text output)

pub data OsKind : Type 0 where
  macos : OsKind
  linux : OsKind

pub data DistroFamily : Type 0 where
  apt : DistroFamily
  dnf : DistroFamily
  pacman : DistroFamily

pub record Host : Type 0 where
  pub os : OsKind
  pub distro : Option DistroFamily
  pub is_wsl : Bool

pub data ToolOutcome : Type 0 where
  present : Text → ToolOutcome
  absent : Text → ToolOutcome
  installed : Text → ToolOutcome
  guided : Text → ToolOutcome
  skipped : Text → ToolOutcome
  failed : Text → ToolOutcome

unfoldable pub is_blocking_failure : Bool → ToolOutcome → Bool
is_blocking_failure required (present m) = false
is_blocking_failure required (absent m) = required
is_blocking_failure required (installed m) = false
is_blocking_failure required (guided m) = required
is_blocking_failure required (skipped m) = required
is_blocking_failure required (failed m) = true

-- `matches!(outcome, ToolOutcome::Failed(_))`.
unfoldable pub is_failed : ToolOutcome → Bool
is_failed (present m) = false
is_failed (absent m) = false
is_failed (installed m) = false
is_failed (guided m) = false
is_failed (skipped m) = false
is_failed (failed m) = true

pub record Flags : Type 0 where
  pub check : Bool
  pub yes_flag : Bool
  pub start : Bool
  pub no_start : Bool
  pub skip_mobile : Bool

abbrev pub no_flags : Flags
no_flags = record {
  check = false;
  yes_flag = false;
  start = false;
  no_start = false;
  skip_mobile = false;
}

unfoldable pub flag : Flags → Text → Flags
unfolding same
flag f arg =
    if same arg (codes "--check")
    then record f { check = true }
    else if same arg (codes "--yes") || same arg (codes "-y")
    then record f { yes_flag = true }
    else if same arg (codes "--start")
    then record f { start = true }
    else if same arg (codes "--no-start")
    then record f { no_start = true }
    else if same arg (codes "--skip-mobile")
    then record f { skip_mobile = true }
    else f

unfoldable pub parse_from : Flags → List Text → Flags
unfolding flag
parse_from f [] = f
parse_from f (arg ∷ args) = parse_from (flag f arg) args

unfoldable pub parse : List Text → Flags
unfolding parse_from
parse args = parse_from no_flags args

-- Whether `--yes` holds, whether the input is a terminal, and the line that is typed there at a
-- question, if one can be read.
pub record PromptPolicy : Type 0 where
  pub assume_yes : Bool
  pub is_tty : Bool
  pub typed : Text → Option Text

unfoldable pub from_flags : Bool → Bool → (Text → Option Text) → PromptPolicy
from_flags yes_flag is_tty typed = record {
  assume_yes = yes_flag || not is_tty;
  is_tty = is_tty;
  typed = typed;
}

abbrev pub accepts : Bool → Text → Bool
accepts default_yes answer =
    if is_empty answer then default_yes else same answer (codes "y") || same answer (codes "yes")

abbrev pub reply_of : Bool → Option Text → Bool
reply_of default_yes none = default_yes
reply_of default_yes (some line) = accepts default_yes (map ascii_lower (trim line))

unfoldable pub confirm : PromptPolicy → Text → Bool → Bool → Bool
unfolding ascii_lower is_empty same trim
confirm p question default_yes accept_under_yes =
    if p.assume_yes
    then accept_under_yes
    else if not p.is_tty
    then default_yes
    else reply_of default_yes (p.typed question)

unfoldable pub confirm_required : PromptPolicy → Text → Bool
unfolding confirm
confirm_required p question = confirm p question true true

unfoldable pub confirm_optional : PromptPolicy → Text → Bool
unfolding confirm
confirm_optional p question = confirm p question false false
