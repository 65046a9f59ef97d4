-- ===== src/DevSetup/Start.antt =====
-- Bringing up the local stack (packages/dev-setup/src/start.rs), and when the installer does so
-- (packages/dev-setup/src/main.rs).
use epistl.Prelude.{
  ℕ, zero, suc, ◌+◌, ◌*◌, Bool, true, false, not, ◌&&◌, ◌||◌, Option, none, some, List, [], ◌∷◌,
  ◌++◌, map, if◌then◌else◌, codes,
}
use epistl.Text.{Text, same, trim}
use epistl.DevSetup.{
  CommandOutput, failure_detail, text, Executor, World, Step, fine, bad, M, ◌>>=◌, ◌>>◌, pure, run,
  Flags, PromptPolicy, confirm_required, ToolOutcome, present, installed, absent, guided, skipped,
  failed,
}
use epistl.DevSetup.Docker.{DockerAccess, ambient, via_sg, probe_docker_access, run_docker}
pub mod Polling
pub mod Reports

pub data StepOutcome : Type 0 where
  success : Text → StepOutcome
  failure : Text → StepOutcome

abbrev pub health_max_attempts : ℕ
health_max_attempts = 30

abbrev pub compose_services : List Text
compose_services = codes "postgres" ∷ codes "nats" ∷ codes "seaweedfs" ∷ []

-- `HEALTH_POLL_INTERVAL` is one second.
unfoldable pub sleep : M (Unit {0})
sleep w = (tt, record w { sleeps = suc w.sleeps })

module _ (exec : Executor) (access : DockerAccess) (project_dir : Text) where
  unfoldable pub health : Text → M CommandOutput
  unfolding run_docker
  health service = run_docker exec access (
      codes "compose"
      ∷ codes "--project-directory"
      ∷ project_dir
      ∷ codes "ps"
      ∷ service
      ∷ codes "--format"
      ∷ codes "{{.Health}}"
      ∷ [])

  unfoldable pub is_healthy : CommandOutput → Bool
  unfolding text same trim
  is_healthy status = status.status_ok && same (trim (text status)) (codes "healthy")

  abbrev pub not_healthy : Text → Text
  not_healthy service =
      service
      ++ (codes " did not become healthy within 30s -- check `docker compose logs "
          ++ (service ++ codes "`."))

  -- The attempts of `wait_for_healthy` after the first one, each after a sleep.
  unfoldable pub poll : Text → ℕ → CommandOutput → M Step
  unfolding health is_healthy sleep
  poll service zero status w = (if is_healthy status then fine else bad (not_healthy service), w)
  poll service (suc left) status w =
      let again = health service (sleep w).1 in
      let later = poll service left again.0 again.1 in
      if is_healthy status then (fine, w) else later

  unfoldable pub wait_for_healthy : Text → M Step
  unfolding poll health
  wait_for_healthy service = do status ← health service; poll service 29 status

  abbrev pub healthy_message : Text → Text
  healthy_message service = service ++ codes " is healthy"

  abbrev pub after_wait : Text → Step → M (List StepOutcome) → M (List StepOutcome)
  after_wait service (bad message) later = pure (failure message ∷ [])
  after_wait service fine later = do rest ← later; pure (success (healthy_message service) ∷ rest)

  -- What is reported from here on; `later` follows once all services are healthy.
  unfoldable pub wait_for_each : List Text → M (List StepOutcome) → M (List StepOutcome)
  unfolding wait_for_healthy
  wait_for_each [] later = later
  wait_for_each (service ∷ services) later = do
    step ← wait_for_healthy service
    after_wait service step (wait_for_each services later)

  abbrev pub migrate_call : Text × List Text
  migrate_call = (codes "moon", codes "run" ∷ codes "api:migrate" ∷ [])

  abbrev pub migrated : Option Text → List StepOutcome
  migrated none =
      failure (codes "moon run api:migrate failed -- see moon's own output above for details.") ∷ []
  migrated (some out) = success (codes "moon run api:migrate succeeded") ∷ []

  unfoldable pub migrate : M (List StepOutcome)
  unfolding run
  migrate = do out ← run exec migrate_call.0 migrate_call.1; pure (migrated out)

  abbrev pub via : DockerAccess → Text
  via ambient = []
  via via_sg = codes " (via sg docker)"

  abbrev pub after_up : CommandOutput → M (List StepOutcome)
  after_up up =
      if up.status_ok
      then (do
        rest ← wait_for_each compose_services migrate
        pure (success (codes "docker compose up -d succeeded" ++ via access) ∷ rest))
      else pure (failure (codes "docker compose up -d failed: " ++ failure_detail up) ∷ [])

  unfoldable pub bring_up : M (List StepOutcome)
  unfolding run_docker wait_for_each migrate failure_detail
  bring_up = do
    up ←
        run_docker exec access (
          codes "compose"
          ∷ codes "--project-directory"
          ∷ project_dir
          ∷ codes "up"
          ∷ codes "-d"
          ∷ [])
    after_up up

module _ (exec : Executor) where
  abbrev pub start_with : Text → Option DockerAccess → M (List StepOutcome)
  start_with project_dir none = pure (
      failure (
        codes
          "docker daemon not reachable in this session (tried ambient `docker info` and `sg docker -c 'docker info'`). Log out and back in (or `newgrp docker`), then re-run with --start.")
      ∷ [])
  start_with project_dir (some access) = bring_up exec access project_dir

  unfoldable pub run_start : Bool → Bool → Text → M (List StepOutcome)
  unfolding probe_docker_access bring_up
  run_start docker_present moon_present project_dir =
      if not docker_present
      then pure (
          failure (
            codes
              "docker is Absent -- skipping --start (nothing was run). Install Docker, then re-run with --start.")
          ∷ [])
      else if not moon_present
      then pure (
          failure (
            codes
              "moon is Absent -- skipping --start (nothing was run). Install moon, then re-run with --start.")
          ∷ [])
      else (do access ← probe_docker_access exec; start_with project_dir access)

  abbrev pub some_outcomes : M (List StepOutcome) → M (Option (List StepOutcome))
  some_outcomes m = do outcomes ← m; pure (some outcomes)

  unfoldable pub maybe_run_start : Bool → Bool → Bool → Text → M (Option (List StepOutcome))
  unfolding run_start
  maybe_run_start start_requested docker_present moon_present project_dir =
      if not start_requested
      then pure none
      else some_outcomes (run_start docker_present moon_present project_dir)

-- Whether a tool can be used, by its outcome.
unfoldable pub is_ready : ToolOutcome → Bool
is_ready (present m) = true
is_ready (absent m) = false
is_ready (installed m) = true
is_ready (guided m) = false
is_ready (skipped m) = false
is_ready (failed m) = false

unfoldable pub start_requested : Flags → PromptPolicy → Bool → Bool → Bool
unfolding confirm_required
start_requested f policy docker_ok moon_ok =
    if f.check || f.no_start
    then false
    else if f.start
    then true
    else if not docker_ok || not moon_ok
    then false
    else confirm_required policy
        (codes "Bring up docker compose (postgres/nats/seaweedfs) and run migrations?")
