-- ===== src/Tests/DevSetup.antt =====
-- Concrete runs of packages/dev-setup.
use epistl.Prelude.{
  ℕ, ◌≡◌, ◌+◌, ◌≤◌, refl, true, false, Option, none, some, [], ◌∷◌, any, codes, length, suc,
}
use epistl.Text.{Text}
use epistl.Text.Lines.{lines}
use epistl.DevSetup.{Executor, World, Host, macos, PromptPolicy}
use epistl.DevSetup.Packages.{PackageSpec}
use epistl.DevSetup.Docker.{ambient, shell_join}
use epistl.DevSetup.Start.{wait_for_healthy, run_start, maybe_run_start}
use epistl.DevSetup.Start.Polling.{EndsAt, wait_for_healthy-EndsAt}
use epistl.DevSetup.Start.Reports.{Reported, run_start-Reported, maybe_run_start_idle}
use epistl.DevSetup.Profile.{ProfileIo, already_present, updated, find_block, updated_text}
use epistl.DevSetup.Profile.Again.{updated_text_again}
use epistl.DevSetup.EnvFile.{Files, Writes, rewrite_seaweedfs_internal}
use epistl.DevSetup.Platform.{parse_distro_family}
use epistl.DevSetup.Platform.Quotes.{is_none, bad_line, parse_distro_family-bad_line}

-- Every command succeeds and prints `healthy`.
abbrev obliging : Executor
obliging calls c = record { status_ok = true; stdout = codes "healthy\n"; stderr = [] }

abbrev pub fresh : World
fresh = record { calls = []; sleeps = 0; path = []; profile = none }

abbrev mac : Host
mac = record { os = macos; distro = none; is_wsl = false }

abbrev wget : PackageSpec
wget = record {
  apt_names = codes "wget" ∷ [];
  dnf_names = [];
  pacman_names = [];
  brew_names = codes "wget" ∷ [];
  cask_names = [];
}

quoted_words : shell_join (codes "a b" ∷ codes "it's" ∷ []) ≡ codes "'a b' 'it'\\''s'"
unfolding shell_join
quoted_words = refl

wait_for_healthy-EndsAt_example :
    (n : ℕ) × (n ≤ 29)
    × EndsAt obliging ambient
        (codes "/repo")
        (codes "nats")
        fresh
        (wait_for_healthy obliging ambient (codes "/repo") (codes "nats") fresh)
        n
    × ((wait_for_healthy obliging ambient (codes "/repo") (codes "nats") fresh).1.sleeps
        ≡ fresh.sleeps + n)
    × (length (wait_for_healthy obliging ambient (codes "/repo") (codes "nats") fresh).1.calls
        ≡ length fresh.calls + suc n)
wait_for_healthy-EndsAt_example =
    wait_for_healthy-EndsAt obliging ambient (codes "/repo") (codes "nats") fresh

run_start-Reported_example :
    Reported obliging (codes "/repo") (run_start obliging true true (codes "/repo") fresh)
run_start-Reported_example = run_start-Reported obliging (codes "/repo") true true fresh

maybe_run_start_idle_example :
    (maybe_run_start obliging true false true (codes "/repo") fresh).1 ≡ fresh
maybe_run_start_idle_example =
    maybe_run_start_idle obliging (codes "/repo") true false true fresh refl

abbrev pub nothing_typed : Text → Option Text
nothing_typed question = none

abbrev at_terminal : PromptPolicy
at_terminal = record { assume_yes = false; is_tty = true; typed = nothing_typed }

abbrev pub io : ProfileIo
io = record { readable = true; writable = true; left = [] }

abbrev env_example : Text
env_example = codes "A=1\nSEAWEEDFS_INTERNAL_ENDPOINT=http://seaweedfs:8333\n"

rewritten :
    rewrite_seaweedfs_internal env_example
    ≡ codes "A=1\nSEAWEEDFS_INTERNAL_ENDPOINT=http://localhost:8333\n"
unfolding rewrite_seaweedfs_internal
rewritten = refl

abbrev pub checkout : Files
checkout = record {
  root_example = some env_example;
  root_env = none;
  mobile_example = none;
  mobile_env = some (codes "B=2\n");
}

abbrev pub writes : Writes
writes = record { root_ok = true; mobile_ok = true; broken = none }

parse_distro_family-bad_line_example :
    is_none (parse_distro_family (codes "NAME=x\nID=\"\n"))
    ≡ any bad_line (lines (codes "NAME=x\nID=\"\n"))
parse_distro_family-bad_line_example = parse_distro_family-bad_line (codes "NAME=x\nID=\"\n")

abbrev profile_example : Text
profile_example =
    codes
      "alias l=ls\n# >>> epistl dev-setup >>>\nexport A=1\n# <<< epistl dev-setup <<<\nset -o vi\n"

abbrev export_b : Text
export_b = codes "export B=2\n\nexport A=1  \n"

profile_merged : updated_text profile_example export_b ≡ (
  updated,
  codes
      "alias l=ls\n# >>> epistl dev-setup >>>\nexport A=1\nexport B=2\n# <<< epistl dev-setup <<<\nset -o vi\n",
)
unfolding updated_text
profile_merged = refl

updated_text_again_example :
    updated_text (updated_text profile_example export_b).1 export_b
    ≡ (already_present, (updated_text profile_example export_b).1)
unfolding find_block updated_text
updated_text_again_example = updated_text_again profile_example export_b (λ h. cc) refl refl refl

-- A begin mark with no end mark: the second run takes what follows it for lines of the block.
dangling_is_swallowed :
    updated_text
      (updated_text (codes "# >>> epistl dev-setup >>>\n\nset -o vi\n") (codes "B\n")).1
      (codes "B\n")
    ≡ (
      updated,
      codes
          "# >>> epistl dev-setup >>>\nset -o vi\n# >>> epistl dev-setup >>>\nB\n# <<< epistl dev-setup <<<\n",
    )
unfolding updated_text
dangling_is_swallowed = refl
