-- ===== src/DevSetup/Tools/Node.antt =====
-- How node is installed by fnm (packages/dev-setup/src/tools/node.rs).
use epistl.Prelude.{
  Bool, not, Option, none, some, List, [], ◌∷◌, ◌++◌, map, any, find, retain, is_some,
  if◌then◌else◌, codes,
}
use epistl.Text.{Text, trim, is_empty}
use epistl.Text.Lines.{lines}
use epistl.DevSetup.{
  Executor, Call, CommandOutput, Step, fine, bad, M, ◌>>=◌, pure, run, run_output, failure_detail,
  OsKind, macos, linux, Host, ToolOutcome, installed, failed, PromptPolicy,
}
use epistl.DevSetup.Paths.{join, parent, same_path, reverse_onto}
use epistl.DevSetup.Packages.{PackageSpec, install_packages}
use epistl.DevSetup.Profile.{ProfileIo, ensure_profile_block}
use epistl.DevSetup.Tools.{write_profile}

-- Which files and which directories are there, after the commands that were run so far.
pub record Disk : Type 0 where
  pub is_file : List Call → Text → Bool
  pub is_dir : List Call → Text → Bool

abbrev pub node_major : Text
node_major = codes "22"

unfoldable pub fnm_candidate_dirs : Text → List Text
unfolding join
fnm_candidate_dirs home = join home (codes ".local/share/fnm") ∷ join home (codes ".fnm") ∷ []

unfoldable pub resolve_fnm_dir : Disk → Text → M (Option Text)
unfolding fnm_candidate_dirs join
resolve_fnm_dir disk home w =
    (find (λ d. disk.is_file w.calls (join d (codes "fnm"))) (fnm_candidate_dirs home), w)

abbrev pub activate : Text
activate =
    codes "eval \"$(fnm env)\" && fnm install "
    ++ (node_major
        ++ (codes " && fnm default "
            ++ (node_major ++ codes " && command -v node && command -v fnm")))

unfoldable pub fnm_install_and_capture_cmd : Text → Text
fnm_install_and_capture_cmd fnm_dir =
    codes "export PATH=\"" ++ (fnm_dir ++ (codes ":$PATH\" && " ++ activate))

-- `join(":")`.
unfoldable pub join_colons : List Text → Text
join_colons [] = []
join_colons (a ∷ []) = a
join_colons (a ∷ b ∷ rest) = a ++ b':' ∷ join_colons (b ∷ rest)

abbrev pub in_front : Text → Text → Text
in_front prefix old = if is_empty old then prefix else prefix ++ b':' ∷ old

abbrev pub path_after : List Text → Text → Text
path_after [] old = old
path_after (d ∷ dirs) old = in_front (join_colons (d ∷ dirs)) old

unfoldable pub prepend_process_path : List Text → M (Unit {0})
unfolding is_empty join_colons
prepend_process_path dirs w = (tt, record w { path = path_after dirs w.path })

-- The lines that are printed, without the blank ones.
unfoldable pub printed_paths : Text → List Text
unfolding lines trim is_empty
printed_paths stdout = retain (λ l. not (is_empty l)) (map trim (lines stdout))

abbrev pub add_dir : Option Text → List Text → List Text
add_dir none dirs = dirs
add_dir (some dir) dirs = if any (λ d. same_path d dir) dirs then dirs else dirs ++ dir ∷ []

-- The parents of the last printed path and of the one before it, from the paths in reverse.
abbrev pub add_parents : List Text → List Text → List Text
add_parents [] dirs = dirs
add_parents (fnm ∷ []) dirs = add_dir (parent fnm) dirs
add_parents (fnm ∷ node ∷ rest) dirs = add_dir (parent node) (add_dir (parent fnm) dirs)

abbrev pub own_dir : Text → List Text
own_dir fnm_dir = if is_empty fnm_dir then [] else fnm_dir ∷ []

abbrev pub alias_of : Disk → List Call → Text → List Text
alias_of disk calls fnm_dir =
    if is_empty fnm_dir
    then []
    else if disk.is_dir calls (join fnm_dir (codes "aliases/default/bin"))
    then join fnm_dir (codes "aliases/default/bin") ∷ []
    else []

unfoldable pub path_dirs : Disk → Text → Text → M (List Text)
unfolding is_empty join parent same_path reverse_onto printed_paths
path_dirs disk fnm_dir stdout w = (
  add_parents (reverse_onto [] (printed_paths stdout)) (own_dir fnm_dir)
      ++ alias_of disk w.calls fnm_dir,
  w,
)

abbrev pub fnm_profile : Text
fnm_profile =
    codes
      "export PATH=\"$HOME/.local/share/fnm:$HOME/.fnm:$PATH\"\neval \"$(fnm env)\"\nexport PATH=\"$HOME/.local/bin:$PATH\""

unfoldable pub fnm_spec : PackageSpec
fnm_spec = record {
  apt_names = [];
  dnf_names = [];
  pacman_names = [];
  brew_names = codes "fnm" ∷ [];
  cask_names = [];
}

module _ (exec : Executor) where
  unfoldable pub brew_available : M Bool
  unfolding run
  brew_available = do
    version ← run exec (codes "brew") (codes "--version" ∷ [])
    pure (is_some version)

  abbrev pub script_step : CommandOutput → Step
  script_step output =
      if output.status_ok
      then fine
      else bad (codes "fnm install script failed: " ++ failure_detail output)

  abbrev pub with_brew : Host → Bool → M Step
  with_brew host available =
      if not available
      then pure (bad (codes "Homebrew required to install fnm on macOS"))
      else install_packages exec host fnm_spec

  abbrev pub install_fnm_on : OsKind → Host → M Step
  install_fnm_on macos host = do available ← brew_available; with_brew host available
  install_fnm_on linux host = do
    output ← run_output exec (codes "bash") (
        codes "-c"
        ∷ codes "curl -fsSL https://fnm.vercel.app/install | bash -s -- --skip-shell"
        ∷ [])
    pure (script_step output)

  unfoldable pub install_fnm : Host → M Step
  unfolding brew_available install_packages run_output failure_detail fnm_spec
  install_fnm host = install_fnm_on host.os host

  abbrev pub fnm_unless : Host → Option Text → M Step
  fnm_unless host none = install_fnm host
  fnm_unless host (some version) = pure fine

  -- An empty directory for an fnm that is on PATH and in none of the usual ones.
  abbrev pub empty_if : Option Text → Option Text
  empty_if none = none
  empty_if (some version) = some []

  abbrev pub or_on_path : Option Text → M (Option Text)
  or_on_path (some dir) = pure (some dir)
  or_on_path none = do
    version ← run exec (codes "fnm") (codes "--version" ∷ [])
    pure (empty_if version)

  abbrev pub install_cmd : Text → Text
  install_cmd fnm_dir = if is_empty fnm_dir then activate else fnm_install_and_capture_cmd fnm_dir

  module _ (policy : PromptPolicy) (check_only : Bool) (disk : Disk) (io : ProfileIo) where
    abbrev pub node_installed : Text → CommandOutput → M ToolOutcome
    node_installed fnm_dir output =
        if not output.status_ok
        then pure (failed (codes "fnm install/default failed: " ++ failure_detail output))
        else (do
          dirs ← path_dirs disk fnm_dir output.stdout
          prepended ← prepend_process_path dirs
          ignored ← write_profile exec policy check_only io fnm_profile
          pure (
              installed (
                codes "fnm + Node "
                ++ (node_major ++ codes " installed (restart shell or: eval \"$(fnm env)\")"))))

    abbrev pub install_in : Option Text → M ToolOutcome
    install_in none =
        pure
          (failed (codes "fnm installed but binary not found under ~/.local/share/fnm or ~/.fnm"))
    install_in (some fnm_dir) = do
      output ← run_output exec (codes "bash") (codes "-c" ∷ install_cmd fnm_dir ∷ [])
      node_installed fnm_dir output

    abbrev pub after_fnm : Text → Step → M ToolOutcome
    after_fnm home (bad e) = pure (failed e)
    after_fnm home fine = do
      candidate ← resolve_fnm_dir disk home
      fnm_dir ← or_on_path candidate
      install_in fnm_dir

    -- `ensure_node` from the user's consent on.
    unfoldable pub install_node : Host → Text → M ToolOutcome
    unfolding run run_output install_fnm resolve_fnm_dir fnm_install_and_capture_cmd failure_detail
        path_dirs prepend_process_path ensure_profile_block is_empty
    install_node host home = do
      version ← run exec (codes "fnm") (codes "--version" ∷ [])
      step ← fnm_unless host version
      after_fnm home step
