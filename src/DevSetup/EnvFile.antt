-- ===== src/DevSetup/EnvFile.antt =====
-- Making the `.env` files (packages/dev-setup/src/env_file.rs). The files are the texts at four paths below
-- the repository's root; whether a write succeeds is a parameter.
use epistl.Prelude.{
  Bool, true, false, Option, none, some, List, [], ◌∷◌, ◌++◌, map, if◌then◌else◌, codes,
}
use epistl.Text.{Text, strip_prefix}
use epistl.Text.Lines.{lines, unlines}
pub mod Rewriting

pub data EnvFileOutcome : Type 0 where
  created : EnvFileOutcome
  already_present : EnvFileOutcome

pub record Files : Type 0 where
  pub root_example : Option Text
  pub root_env : Option Text
  pub mobile_example : Option Text
  pub mobile_env : Option Text

abbrev pub internal_endpoint : Text
internal_endpoint = codes "SEAWEEDFS_INTERNAL_ENDPOINT="

abbrev pub local_endpoint : Text
local_endpoint = codes "SEAWEEDFS_INTERNAL_ENDPOINT=http://localhost:8333"

abbrev pub localised : Text → Option Text → Text
localised line none = line
localised line (some rest) = local_endpoint

unfoldable pub rewrite_line : Text → Text
unfolding strip_prefix
rewrite_line line = localised line (strip_prefix internal_endpoint line)

unfoldable pub rewrite_seaweedfs_internal : Text → Text
unfolding rewrite_line unlines lines
rewrite_seaweedfs_internal contents = unlines (map rewrite_line (lines contents))

-- Whether each of the two writes succeeds, and what one that fails leaves at its path.
pub record Writes : Type 0 where
  pub root_ok : Bool
  pub mobile_ok : Bool
  pub broken : Option Text

-- `none` is an error.
abbrev pub root_from : Writes → Option Text → Files → Option EnvFileOutcome × Files
root_from io none f = (none, f)
root_from io (some contents) f =
    if io.root_ok
    then (some created, record f { root_env = some (rewrite_seaweedfs_internal contents) })
    else (none, record f { root_env = io.broken })

abbrev pub root_for : Writes → Option Text → Files → Option EnvFileOutcome × Files
root_for io (some env) f = (some already_present, f)
root_for io none f = root_from io f.root_example f

unfoldable pub ensure_root_env : Writes → Files → Option EnvFileOutcome × Files
unfolding rewrite_seaweedfs_internal
ensure_root_env io f = root_for io f.root_env f

abbrev pub copy_from : Writes → Option Text → Files → Option EnvFileOutcome × Files
copy_from io none f = (some already_present, f)
copy_from io (some contents) f =
    if io.mobile_ok
    then (some created, record f { mobile_env = some contents })
    else (none, record f { mobile_env = io.broken })

abbrev pub copy_for : Writes → Option Text → Files → Option EnvFileOutcome × Files
copy_for io (some env) f = (some already_present, f)
copy_for io none f = copy_from io f.mobile_example f

unfoldable pub ensure_copy : Writes → Files → Option EnvFileOutcome × Files
ensure_copy io f = copy_for io f.mobile_env f

abbrev pub both :
    EnvFileOutcome
    → Option EnvFileOutcome × Files
    → Option (EnvFileOutcome × EnvFileOutcome) × Files
both root (none, f) = (none, f)
both root (some mobile, f) = (some (root, mobile), f)

abbrev pub then_copy :
    Writes → Option EnvFileOutcome × Files → Option (EnvFileOutcome × EnvFileOutcome) × Files
then_copy io (none, f) = (none, f)
then_copy io (some root, f) = both root (ensure_copy io f)

unfoldable pub ensure_env_files : Writes → Files → Option (EnvFileOutcome × EnvFileOutcome) × Files
unfolding ensure_root_env ensure_copy
ensure_env_files io f = then_copy io (ensure_root_env io f)
