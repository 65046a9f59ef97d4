-- ===== src/DevSetup/Tools.antt =====
-- The tools that the installer sees to (packages/dev-setup/src/tools: rust.rs, sccache.rs, moon.rs, npm.rs,
-- node.rs), and the core of them in the order of packages/dev-setup/src/main.rs.
use epistl.Prelude.{
  ℕ, ◌+◌, Bool, true, false, not, ◌&&◌, ◌||◌, Option, none, some, List, [], ◌∷◌, ◌++◌, leb, ltb,
  ◌==◌, filter_map, if◌then◌else◌, codes,
}
use epistl.Text.{Text, split_by, trim, trim_start_by}
use epistl.Text.Numbers.{parse_u32}
use epistl.DevSetup.{
  Executor, World, Step, fine, bad, M, ◌>>=◌, ◌>>◌, pure, run, OsKind, macos, linux, Host,
  ToolOutcome, present, absent, installed, guided, skipped, failed, PromptPolicy, confirm_required,
  is_blocking_failure,
}
use epistl.DevSetup.Packages.{PackageSpec, install_packages}
use epistl.DevSetup.Docker.{ensure_docker}
use epistl.DevSetup.Profile.{ProfileIo, ensure_profile_block}
pub mod Probes
pub mod Node

abbrev pub or_zero : List ℕ → ℕ
or_zero [] = 0
or_zero (n ∷ ns) = n

abbrev pub later_parts : List ℕ → List ℕ
later_parts [] = []
later_parts (n ∷ ns) = ns

unfoldable pub version_ok : ℕ → ℕ → ℕ → Bool
version_ok major minor patch =
    if major == 20
    then ltb 19 minor || (minor == 19 && leb 4 patch)
    else if major == 22
    then leb 13 minor
    else if major == 24
    then leb 3 minor
    else leb 25 major

abbrev pub parts_ok : List ℕ → Bool
parts_ok [] = false
parts_ok (major ∷ rest) = version_ok major (or_zero rest) (or_zero (later_parts rest))

-- Parts that are no numbers are left out.
unfoldable pub node_version_ok : Text → Bool
unfolding trim trim_start_by split_by parse_u32 version_ok
node_version_ok version = parts_ok (
    filter_map parse_u32
      (split_by (λ c. c == b'.') (trim_start_by (λ c. c == b'v') (trim version))))

module _ (exec : Executor) (policy : PromptPolicy) (check_only : Bool) where
  -- How each tool that is missing goes on: it is reported, or it is installed if the user agrees.
  abbrev pub missing : Text → Text → Text → M ToolOutcome → M ToolOutcome
  missing report question declined install =
      if check_only
      then pure (absent report)
      else if confirm_required policy question
      then install
      else pure (skipped declined)

  abbrev pub script_outcome : Text → Text → Option Text → ToolOutcome
  script_outcome done broken none = failed broken
  script_outcome done broken (some out) = installed done

  unfoldable pub install_script : Text → Text → Text → M ToolOutcome
  unfolding run
  install_script command done broken = do
    out ← run exec (codes "sh") (codes "-c" ∷ command ∷ [])
    pure (script_outcome done broken out)

  abbrev pub rust_present : Option Text → Option Text → Option Text → M ToolOutcome → M ToolOutcome
  rust_present none ca rc later = later
  rust_present (some ru) none rc later = later
  rust_present (some ru) (some ca) none later = later
  rust_present (some ru) (some ca) (some rc) later =
      pure (present (ru ++ (codes "; " ++ (ca ++ (codes "; " ++ rc)))))

  unfoldable pub ensure_rust : M ToolOutcome
  unfolding run install_script confirm_required
  ensure_rust = do
    rustup ← run exec (codes "rustup") (codes "--version" ∷ [])
    cargo ← run exec (codes "cargo") (codes "--version" ∷ [])
    rustc ← run exec (codes "rustc") (codes "--version" ∷ [])
    rust_present rustup cargo rustc (
        missing
          (codes
            "rustup/cargo/rustc not found (run bootstrap.sh or pass without --check to install)")
          (codes "rustup/cargo/rustc missing. Install via rustup?")
          (codes "user declined rustup install")
          (install_script
            (codes
              "curl --proto '=https' --tlsv1.2 -sSf https://sh.rustup.rs | sh -s -- -y --default-toolchain stable --component rustfmt,clippy")
            (codes "rustup installed (restart shell if cargo is not on PATH)")
            (codes "rustup install script failed")))

  abbrev pub found : Option Text → M ToolOutcome → M ToolOutcome
  found none later = later
  found (some version) later = pure (present version)

  unfoldable pub ensure_sccache : M ToolOutcome
  unfolding run install_script confirm_required
  ensure_sccache = do
    version ← run exec (codes "sccache") (codes "--version" ∷ [])
    found version (
        missing (codes "sccache not found (required by .cargo/config.toml rustc-wrapper)")
          (codes "sccache missing (required). Install via cargo?")
          (codes "user declined sccache install")
          (install_script (codes "RUSTC_WRAPPER= cargo install sccache --locked --version 0.18.0")
            (codes "sccache 0.18.0 installed") (codes "cargo install sccache failed")))

  -- The result of writing the profile is ignored.
  abbrev pub write_profile : ProfileIo → Text → M (Unit {0})
  write_profile io body w = (tt, record w { profile = (ensure_profile_block io body w.profile).1 })

  abbrev pub moon_profile : Text
  moon_profile = codes "export PATH=\"$HOME/.moon/bin:$HOME/.local/bin:$PATH\""

  abbrev pub moon_installed : ProfileIo → Option Text → M ToolOutcome
  moon_installed io none = pure (failed (codes "moon install script failed"))
  moon_installed io (some out) = do
    ignored ← write_profile io moon_profile
    pure (installed (codes "moon installed to ~/.moon/bin (restart shell or export PATH)"))

  unfoldable pub install_moon : ProfileIo → M ToolOutcome
  unfolding run ensure_profile_block
  install_moon io = do
    out ←
        run exec (codes "bash")
          (codes "-c" ∷ codes "curl -fsSL https://moonrepo.dev/install/moon.sh | bash" ∷ [])
    moon_installed io out

  unfoldable pub ensure_moon : ProfileIo → M ToolOutcome
  unfolding run install_moon confirm_required
  ensure_moon io = do
    version ← run exec (codes "moon") (codes "--version" ∷ [])
    found version (
        missing (codes "moon not found")
          (codes "moon missing. Install via moonrepo install script?")
          (codes "user declined moon install") (install_moon io))

  abbrev pub usable : Option Text → M ToolOutcome → M ToolOutcome → M ToolOutcome
  usable none unfound old = unfound
  usable (some version) unfound old =
      if node_version_ok version then pure (present version) else old

  abbrev pub old_report : Option Text → Text
  old_report none = []
  old_report (some version) =
      codes "node " ++ (version ++ codes " does not satisfy ^20.19.4 || ^22.13 || ^24.3 || >=25")

  abbrev pub node_question : Text
  node_question = codes "Node.js 22+ missing/too-old. Install via fnm?"

  -- `install_node` is what follows the user's consent (DevSetup.Tools.Node.install_node).
  unfoldable pub ensure_node : M ToolOutcome → M ToolOutcome
  unfolding run node_version_ok confirm_required
  ensure_node install_node = do
    version ← run exec (codes "node") (codes "--version" ∷ [])
    usable version
        (missing (codes "node not found") node_question (codes "user declined fnm/node install")
          install_node)
        (missing (old_report version) node_question (codes "user declined fnm/node install")
          install_node)

  abbrev pub npm_ready : Option Text → Text → M ToolOutcome
  npm_ready none mobile = pure (failed (codes "node not on PATH; cannot run npm ci"))
  npm_ready (some version) mobile =
      if confirm_required policy (codes "apps/mobile dependencies missing. Run `npm ci`?")
      then install_script (codes "cd '" ++ (mobile ++ codes "' && npm ci"))
          (codes "npm ci completed in apps/mobile") (codes "npm ci failed in apps/mobile")
      else pure (skipped (codes "user declined npm ci"))

  -- `mobile` is the path of apps/mobile, and `has_modules` whether node_modules is a directory there.
  unfoldable pub ensure_mobile_deps : Bool → Text → M ToolOutcome
  unfolding run install_script confirm_required
  ensure_mobile_deps has_modules mobile =
      if has_modules
      then pure (present (codes "apps/mobile/node_modules present"))
      else if check_only
      then pure (absent (codes "apps/mobile/node_modules missing (run npm ci)"))
      else (do version ← run exec (codes "node") (codes "--version" ∷ []); npm_ready version mobile)

  -- The five core tools, in the order in which they are seen to, with their outcomes.
  unfoldable pub core_tools : Host → Text → ProfileIo → M ToolOutcome → M (List ToolOutcome)
  unfolding ensure_rust ensure_sccache ensure_node ensure_moon ensure_docker
  core_tools host user io install_node = do
    rust ← ensure_rust
    sccache ← ensure_sccache
    node ← ensure_node install_node
    moon ← ensure_moon io
    docker ← ensure_docker exec policy check_only user host
    pure (rust ∷ sccache ∷ node ∷ moon ∷ docker ∷ [])
