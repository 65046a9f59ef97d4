-- ===== src/DevSetup/Checks.antt =====
-- The report of which tools are there (packages/dev-setup/src/checks.rs).
use epistl.Prelude.{
  ◌≡◌, refl, Bool, true, false, ◌&&◌, Option, none, some, List, [], ◌∷◌, ◌++◌, all, codes,
  if◌then◌else◌, Bool-cases, inl, inr,
}
use epistl.Text.{Text, is_empty, trim}
use epistl.Text.Lines.{lines}
use epistl.DevSetup.{Executor, World, Call, M, ◌>>=◌, pure, run}
use epistl.DevSetup.Docker.{server_version}

pub data ToolStatus : Type 0 where
  present : Option Text → ToolStatus
  absent : ToolStatus

abbrev pub is_present : ToolStatus → Bool
is_present (present version) = true
is_present absent = false

pub record ToolCheck : Type 0 where
  pub name : Text
  pub status : ToolStatus

abbrev pub status_of : Option Text → ToolStatus
status_of none = absent
status_of (some version) = if is_empty version then present none else present (some version)

abbrev pub both_found : Option Text → Option Text → ToolStatus
both_found (some cargo) (some rustc) = present (some (cargo ++ (codes "; " ++ rustc)))
both_found (some cargo) none = absent
both_found none rustc = absent

abbrev pub trimmed : Option Text → Option Text
trimmed none = none
trimmed (some v) = some (trim v)

abbrev pub docker_status : Option Text → ToolStatus
docker_status none = absent
docker_status (some output) = present (trimmed (server_version (lines output)))

module _ (exec : Executor) where
  abbrev pub check_simple_tool : Text → M ToolCheck
  check_simple_tool program = do
    version ← run exec program (codes "--version" ∷ [])
    pure (record { name = program; status = status_of version })

  abbrev pub check_toolchain : M ToolCheck
  check_toolchain = do
    cargo_version ← run exec (codes "cargo") (codes "--version" ∷ [])
    rustc_version ← run exec (codes "rustc") (codes "--version" ∷ [])
    pure (record { name = codes "cargo/rustc"; status = both_found cargo_version rustc_version })

  abbrev pub check_docker : M ToolCheck
  check_docker = do
    info ← run exec (codes "docker") (codes "info" ∷ [])
    pure (record { name = codes "docker"; status = docker_status info })

  unfoldable pub run_all_checks : M (List ToolCheck)
  unfolding run is_empty trim server_version lines
  run_all_checks = do
    rustup ← check_simple_tool (codes "rustup")
    toolchain ← check_toolchain
    node ← check_simple_tool (codes "node")
    moon ← check_simple_tool (codes "moon")
    docker ← check_docker
    sccache ← check_simple_tool (codes "sccache")
    pure (rustup ∷ toolchain ∷ node ∷ moon ∷ docker ∷ sccache ∷ [])

-- The commands of the report, in order.
abbrev pub version_of : Text → Call
version_of program = (program, codes "--version" ∷ [])

abbrev pub report_calls : List Call
report_calls =
    version_of (codes "rustup")
    ∷ version_of (codes "cargo")
    ∷ version_of (codes "rustc")
    ∷ version_of (codes "node")
    ∷ version_of (codes "moon")
    ∷ (codes "docker", codes "info" ∷ [])
    ∷ version_of (codes "sccache")
    ∷ []

-- Whether every command succeeds, after those that were run before it; and the list afterwards.
abbrev pub all_succeed : Executor → List Call → List Call → Bool
all_succeed exec [] before = true
all_succeed exec (c ∷ calls) before =
    (exec before c).status_ok && all_succeed exec calls (c ∷ before)

abbrev pub after_calls : List Call → List Call → List Call
after_calls [] before = before
after_calls (c ∷ calls) before = after_calls calls (c ∷ before)

status_of-found : (b : Bool) (t : Text) → is_present (status_of (if b then some t else none)) ≡ b
status_of-found false t = refl
status_of-found true t = elim (Bool-cases (is_empty t)) [ inl e ↦ rw e refl | inr e ↦ rw e refl ]

both_found-all :
    (b c : Bool) (t u : Text)
    → is_present (both_found (if b then some t else none) (if c then some u else none)) ≡ (b && c)
both_found-all true true t u = refl
both_found-all true false t u = refl
both_found-all false c t u = refl

docker_status-found :
    (b : Bool) (t : Text) → is_present (docker_status (if b then some t else none)) ≡ b
docker_status-found true t = refl
docker_status-found false t = refl

and_assoc : (a b c : Bool) → ((a && b) && c) ≡ (a && (b && c))
and_assoc true b c = refl
and_assoc false b c = refl

-- The report runs its seven commands in order and no other, and changes nothing else; every tool is
-- reported as present exactly if all seven succeed.
pub run_all_checks-all_succeed :
    (exec : Executor) (w : World)
    → ((run_all_checks exec w).1 ≡ record w { calls = after_calls report_calls w.calls })
      × (all (λ (c : ToolCheck). is_present c.status) (run_all_checks exec w).0
          ≡ all_succeed exec report_calls w.calls)
unfolding run_all_checks
run_all_checks-all_succeed exec w =
    (refl, simp (status_of-found, both_found-all, docker_status-found, and_assoc))
