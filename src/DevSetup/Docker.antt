-- ===== src/DevSetup/Docker.antt =====
-- Reaching Docker, directly or by `sg docker`, and installing it
-- (packages/dev-setup/src/tools/docker.rs).
use epistl.Prelude.{
  ℕ, Bool, true, false, not, ◌&&◌, ◌||◌, Option, none, some, List, [], ◌∷◌, ◌++◌, map, all, any,
  leb, ◌==◌, if◌then◌else◌, codes, is_some,
}
use epistl.Text.{Text, is_empty, trim, trim_start_by, is_whitespace, strip_prefix}
use epistl.Text.Lines.{lines}
use epistl.DevSetup.{
  CommandOutput, failure_detail, Executor, Step, fine, bad, M, ◌>>=◌, ◌>>◌, pure, run, run_output,
  OsKind, macos, linux, Host, ToolOutcome, present, absent, installed, guided, skipped, failed,
  PromptPolicy, confirm_required,
}
use epistl.DevSetup.Packages.{PackageSpec, join_spaces, install_packages}
pub mod Quoting

pub data DockerAccess : Type 0 where
  ambient : DockerAccess
  via_sg : DockerAccess

unfoldable pub is_plain : ℕ → Bool
is_plain c =
    (leb b'a' c && leb c b'z')
    || (leb b'A' c && leb c b'Z')
    || (leb b'0' c && leb c b'9')
    || any (λ d. d == c) (codes "-_./:=@,")

-- A quote ends the quoted text, stands escaped, and a new one begins.
unfoldable pub escape_quotes : Text → Text
escape_quotes [] = []
escape_quotes (c ∷ s) = (if c == b'\'' then codes "'\\''" else c ∷ []) ++ escape_quotes s

unfoldable pub shell_word : Text → Text
unfolding is_plain escape_quotes
shell_word a = if all is_plain a then a else b'\'' ∷ (escape_quotes a ++ b'\'' ∷ [])

unfoldable pub shell_join : List Text → Text
unfolding shell_word join_spaces
shell_join args = join_spaces (map shell_word args)

-- The text behind the first `Server Version:` that begins a line, but for blanks.
abbrev pub or_first : Option Text → Option Text → Option Text
or_first (some v) later = some v
or_first none later = later

unfoldable pub server_version : List Text → Option Text
unfolding strip_prefix trim_start_by is_whitespace
server_version [] = none
server_version (line ∷ rest) =
    or_first (strip_prefix (codes "Server Version:") (trim_start_by is_whitespace line))
      (server_version rest)

abbrev pub version_or : Text → Option Text → Text
version_or fallback none = fallback
version_or fallback (some v) = trim v

unfoldable pub version_from_info : Text → Text → Text
unfolding server_version lines trim
version_from_info output fallback = version_or fallback (server_version (lines output))

unfoldable pub present_message : Host → DockerAccess → Text → Text
present_message host ambient version =
    version ++ (if host.is_wsl then codes " (WSL — Docker Desktop socket OK)" else [])
present_message host via_sg version =
    version
    ++ ((if host.is_wsl then codes " (WSL — Docker Desktop socket OK)" else [])
        ++ codes " [session uses sg docker]")

abbrev pub util_linux : PackageSpec
util_linux = record {
  apt_names = codes "util-linux-extra" ∷ [];
  dnf_names = codes "util-linux" ∷ [];
  pacman_names = codes "util-linux" ∷ [];
  brew_names = [];
  cask_names = [];
}

module _ (exec : Executor) where
  abbrev pub is_path : Option Text → Bool
  is_path none = false
  is_path (some out) = not (is_empty (trim out))

  unfoldable pub sg_on_path : M Bool
  unfolding run is_empty trim
  sg_on_path = do
    out ← run exec (codes "bash") (codes "-c" ∷ codes "command -v sg" ∷ [])
    pure (is_path out)

  abbrev pub sg_after : Bool → Step
  sg_after true = fine
  sg_after false =
      bad (
        codes "`sg`/`newgrp` still missing after package install (need util-linux-extra on Ubuntu)")

  abbrev pub recheck_sg : Step → M Step
  recheck_sg (bad e) = pure (bad e)
  recheck_sg fine = do found ← sg_on_path; pure (sg_after found)

  abbrev pub install_sg : OsKind → Host → M Step
  install_sg macos host = pure fine
  install_sg linux host = do step ← install_packages exec host util_linux; recheck_sg step

  unfoldable pub ensure_sg_available : Host → M Step
  unfolding sg_on_path install_packages
  ensure_sg_available host = do
    found ← sg_on_path
    if found then pure fine else install_sg host.os host

  abbrev pub docker_info : Text × List Text
  docker_info = (codes "docker", codes "info" ∷ [])

  abbrev pub sg_docker_info : Text × List Text
  sg_docker_info = (codes "sg", codes "docker" ∷ codes "-c" ∷ codes "docker info" ∷ [])

  abbrev pub access_by_sg : Option Text → Option DockerAccess
  access_by_sg none = none
  access_by_sg (some out) = some via_sg

  abbrev pub probe_sg : Bool → M (Option DockerAccess)
  probe_sg false = pure none
  probe_sg true = do out ← run exec sg_docker_info.0 sg_docker_info.1; pure (access_by_sg out)

  abbrev pub probe_rest : Option Text → M (Option DockerAccess)
  probe_rest (some out) = pure (some ambient)
  probe_rest none = do found ← sg_on_path; probe_sg found

  unfoldable pub probe_docker_access : M (Option DockerAccess)
  unfolding run sg_on_path
  probe_docker_access = do out ← run exec docker_info.0 docker_info.1; probe_rest out

  unfoldable pub run_docker : DockerAccess → List Text → M CommandOutput
  unfolding run_output shell_join
  run_docker ambient args = run_output exec (codes "docker") args
  run_docker via_sg args =
      run_output exec (codes "sg")
        (codes "docker" ∷ codes "-c" ∷ (codes "docker " ++ shell_join args) ∷ [])

  abbrev pub info_of : DockerAccess → M (Option Text)
  info_of ambient = run exec docker_info.0 docker_info.1
  info_of via_sg = run exec sg_docker_info.0 sg_docker_info.1

  abbrev pub reachable : DockerAccess → Text
  reachable ambient = codes "daemon reachable"
  reachable via_sg = codes "daemon reachable via sg"

  abbrev pub version_of : DockerAccess → Option Text → Text
  version_of access none = reachable access
  version_of access (some out) = version_from_info out (reachable access)

  abbrev pub present_by : Host → Option DockerAccess → M (Option ToolOutcome)
  present_by host none = pure none
  present_by host (some access) = do
    out ← info_of access
    pure (some (present (present_message host access (version_of access out))))

  unfoldable pub try_present : Host → M (Option ToolOutcome)
  unfolding run probe_docker_access present_message version_from_info
  try_present host = do access ← probe_docker_access; present_by host access

  abbrev pub or_continue : Option ToolOutcome → M ToolOutcome → M ToolOutcome
  or_continue (some outcome) later = pure outcome
  or_continue none later = later

  abbrev pub unless_bad : (Text → ToolOutcome) → Step → M ToolOutcome → M ToolOutcome
  unless_bad outcome (bad e) later = pure (outcome e)
  unless_bad outcome fine later = later

  abbrev pub sg_hint : Bool → Text
  sg_hint true = codes "Log out and back in (or `newgrp docker`)"
  sg_hint false =
      codes "Install util-linux-extra (provides `sg`/`newgrp`), then log out and back in"

  abbrev pub installed_with : Text → Option DockerAccess → M ToolOutcome
  installed_with user (some ambient) = pure (
      installed (
        codes "Docker Engine installed. User `"
        ++ (user ++ codes "` was added to the docker group.")))
  installed_with user (some via_sg) = pure (
      installed (
        codes "Docker Engine installed. User `"
        ++ (user
            ++ codes
                "` was added to the docker group; this session will use `sg docker` until you log out/in (or `newgrp docker`).")))
  installed_with user none = do
    found ← sg_on_path
    pure (
        failed (
          codes "Docker Engine installed and user `"
          ++ (user
              ++ (codes
                    "` added to the docker group, but the daemon is not reachable in this session. "
                  ++ (sg_hint found
                      ++ codes ", verify with `docker info`, then re-run with --start.")))))

  abbrev pub script_failed : CommandOutput → M ToolOutcome → M ToolOutcome
  script_failed out later =
      if out.status_ok
      then later
      else pure (failed (codes "get.docker.com install script failed: " ++ failure_detail out))

  -- `user` is the variable `USER`, or `USER` itself.
  unfoldable pub install_docker : Text → Host → M ToolOutcome
  unfolding run run_output ensure_sg_available probe_docker_access failure_detail
  install_docker user host = do
    sg ← ensure_sg_available host
    unless_bad
        (λ e. failed (codes "need `sg`/`newgrp` for same-session docker group access: " ++ e)) sg
        (do
          out ←
              run_output exec (codes "sh")
                (codes "-c" ∷ codes "curl -fsSL https://get.docker.com | sh" ∷ [])
          script_failed out (do
            ignored ←
                run exec (codes "sh") (codes "-c" ∷ (codes "sudo usermod -aG docker " ++ user) ∷ [])
            started ←
                run exec (codes "sudo")
                  (codes "systemctl" ∷ codes "enable" ∷ codes "--now" ∷ codes "docker" ∷ [])
            access ← probe_docker_access
            installed_with user access))

  abbrev pub docker_question : Bool → Text
  docker_question true =
      codes
        "Docker daemon not reachable in WSL. Install Docker Engine via get.docker.com? (prefer enabling Docker Desktop WSL integration if you use Desktop)"
  docker_question false =
      codes "Docker missing. Install via get.docker.com and add your user to the docker group?"

  abbrev pub install_docker_on : OsKind → PromptPolicy → Text → Host → M ToolOutcome
  install_docker_on macos policy user host = pure (
      guided (
        codes
          "Install Docker Desktop for Mac from https://www.docker.com/products/docker-desktop/ then re-run"))
  install_docker_on linux policy user host =
      if confirm_required policy (docker_question host.is_wsl)
      then install_docker user host
      else pure (skipped (codes "user declined Docker install"))

  abbrev pub docker_missing : Bool → PromptPolicy → Text → Host → M ToolOutcome
  docker_missing check_only policy user host =
      if check_only
      then pure (absent (codes "docker daemon not reachable (is Docker installed and running?)"))
      else install_docker_on host.os policy user host

  abbrev pub retry_present : Step → Host → M (Option ToolOutcome)
  retry_present (bad e) host = pure none
  retry_present fine host = try_present host

  abbrev pub after_sg : Bool → OsKind → Host → M (Option ToolOutcome)
  after_sg true os host = pure none
  after_sg false macos host = pure none
  after_sg false linux host = do sg ← ensure_sg_available host; retry_present sg host

  unfoldable pub ensure_docker : PromptPolicy → Bool → Text → Host → M ToolOutcome
  unfolding try_present ensure_sg_available confirm_required install_docker
  ensure_docker policy check_only user host = do
    first ← try_present host
    or_continue first (do
      second ← after_sg check_only host.os host
      or_continue second (docker_missing check_only policy user host))
