-- ===== src/DevSetup/Start/Reports.antt =====
-- What the installer reports of the stack, and what it has run by then (packages/dev-setup/src/start.rs).
use epistl.Prelude.{
  ◌≡◌, refl, ap, ◌⊎◌, inl, inr, Bool, true, false, not, ◌&&◌, ◌||◌, Option, none, some, List, [],
  ◌∷◌, ◌++◌, arith, Bool-cases, all, map, codes,
}
use epistl.Text.{Text}
use epistl.DevSetup.{Executor, World, Call, CommandOutput, Step, fine, bad, run, Flags, from_flags}
use epistl.DevSetup.Docker.{DockerAccess, probe_docker_access, run_docker}
use epistl.DevSetup.Start.{
  StepOutcome, success, failure, wait_for_each, wait_for_healthy, after_wait, healthy_message,
  compose_services, migrate_call, migrate, via, bring_up, after_up, start_with, run_start,
  maybe_run_start, start_requested,
}

abbrev pub is_success : StepOutcome → Bool
is_success (success m) = true
is_success (failure m) = false

-- Whether nothing follows a failure.
abbrev pub ends_at_failure : List StepOutcome → Bool
ends_at_failure [] = true
ends_at_failure (success m ∷ rest) = ends_at_failure rest
ends_at_failure (failure m ∷ []) = true
ends_at_failure (failure m ∷ o ∷ rest) = false

module _ (exec : Executor) (access : DockerAccess) (dir : Text) where
  -- What holds of the result of the steps that are left: it ends at a failure, or all its steps succeeded, the
  -- services are reported as healthy, and the migration was run last and succeeded.
  abbrev Left : List Text → List StepOutcome × World → Type 0
  Left services r =
      (ends_at_failure r.0 ≡ true)
      × ((all is_success r.0 ≡ false)
          ⊎ ((r.0
                ≡ map (λ s. success (healthy_message exec access dir s)) services
                  ++ success (codes "moon run api:migrate succeeded") ∷ [])
              × ((earlier : List Call) × (r.1.calls ≡ migrate_call exec access dir ∷ earlier)
                  × ((exec earlier (migrate_call exec access dir)).status_ok ≡ true))))

  migrate-Left : (w : World) → Left [] (migrate exec access dir w)
  unfolding migrate run
  migrate-Left w = elim (Bool-cases (exec w.calls (migrate_call exec access dir)).status_ok) [
    | inl ok ↦ rw ok (refl, inr (refl, (w.calls, refl, ok)))
    | inr failed ↦ rw failed (refl, inl refl)
  ]

  grow :
      (s : Text) (services : List Text) (r : List StepOutcome × World)
      → Left services r
      → Left (s ∷ services) (success (healthy_message exec access dir s) ∷ r.0, r.1)
  grow s services r (ends, inl stopped) = (ends, inl stopped)
  grow s services r (ends, inr (same_report, migrated_last)) = (
    ends,
    inr (ap (λ l. success (healthy_message exec access dir s) ∷ l) same_report, migrated_last),
  )

  each-Left :
      (services : List Text) (w : World)
      → Left services (wait_for_each exec access dir services (migrate exec access dir) w)
  unfolding wait_for_each
  each-Left [] w = migrate-Left w
  each-Left (s ∷ services) w =
      after (wait_for_healthy exec access dir s w) (λ v. each-Left services v)
    where
      after :
          (r : Step × World)
          → ((v : World)
              → Left services (wait_for_each exec access dir services (migrate exec access dir) v))
          → Left (s ∷ services) (
              after_wait exec access dir s r.0
                (wait_for_each exec access dir services (migrate exec access dir))
                r.1)
      after (bad m, v) later = (refl, inl refl)
      after (fine, v) later =
          grow s services (wait_for_each exec access dir services (migrate exec access dir) v)
            (later v)

module _ (exec : Executor) (dir : Text) where
  -- What a report and the state after it say of the access that was found.
  abbrev pub Reported : List StepOutcome × World → Type 0
  Reported r =
      (ends_at_failure r.0 ≡ true)
      × ((all is_success r.0 ≡ false)
          ⊎ ((access : DockerAccess) × (r.0
                ≡ success (codes "docker compose up -d succeeded" ++ via exec access dir access)
                  ∷ success (codes "postgres is healthy")
                  ∷ success (codes "nats is healthy")
                  ∷ success (codes "seaweedfs is healthy")
                  ∷ success (codes "moon run api:migrate succeeded")
                  ∷ [])
              × ((earlier : List Call) × (r.1.calls
                    ≡ (codes "moon", codes "run" ∷ codes "api:migrate" ∷ []) ∷ earlier)
                  × ((exec earlier (codes "moon", codes "run" ∷ codes "api:migrate" ∷ [])).status_ok
                      ≡ true))))

  up-Reported : (access : DockerAccess) (w : World) → Reported (bring_up exec access dir w)
  unfolding bring_up
  up-Reported access w = by_up (
      run_docker exec access
        (codes "compose" ∷ codes "--project-directory" ∷ dir ∷ codes "up" ∷ codes "-d" ∷ []) w)
    where
      all_up :
          (r : List StepOutcome × World)
          → Left exec access dir compose_services r
          → Reported (
            success (codes "docker compose up -d succeeded" ++ via exec access dir access) ∷ r.0,
            r.1,
          )
      all_up r (ends, inl stopped) = (ends, inl stopped)
      all_up r (ends, inr (same_report, last)) = (
        ends,
        inr (
          access,
          ap
              (λ l.
                success (codes "docker compose up -d succeeded" ++ via exec access dir access) ∷ l)
              same_report,
          last,
        ),
      )

      by_up : (o : CommandOutput × World) → Reported (after_up exec access dir o.0 o.1)
      by_up (o, v) = elim (Bool-cases o.status_ok) [
        | inl up ↦ rw up (
            all_up (wait_for_each exec access dir compose_services (migrate exec access dir) v)
              (each-Left exec access dir compose_services v))
        | inr down ↦ rw down (refl, inl refl)
      ]

  -- A report ends at the first failure. If it has none, it says that the stack is up, that each of the
  -- three services is healthy and that the migration succeeded, which was the last command run and did.
  pub run_start-Reported :
      (docker_present moon_present : Bool) (w : World)
      → Reported (run_start exec docker_present moon_present dir w)
  unfolding run_start
  run_start-Reported false moon_present w = (refl, inl refl)
  run_start-Reported true false w = (refl, inl refl)
  run_start-Reported true true w = by_access (probe_docker_access exec w)
    where
      by_access : (r : Option DockerAccess × World) → Reported (start_with exec dir r.0 r.1)
      by_access (none, v) = (refl, inl refl)
      by_access (some access, v) = up-Reported access v

  -- Unless it is requested and both tools are there, nothing is run.
  pub maybe_run_start_idle :
      (requested docker_present moon_present : Bool) (w : World)
      → (requested && (docker_present && moon_present)) ≡ false
      → (maybe_run_start exec requested docker_present moon_present dir w).1 ≡ w
  unfolding maybe_run_start run_start
  maybe_run_start_idle false d m w h = refl
  maybe_run_start_idle true false m w h = refl
  maybe_run_start_idle true true false w h = refl
  maybe_run_start_idle true true true w h = cc

-- The stack is never started under `--check` or `--no-start`. Otherwise, if the input is no terminal, it
-- is started exactly if `--start` is given or docker and moon are both ready, whether or not
-- anybody asked for it.
pub start_requested-unattended :
    (f : Flags) (typed : Text → Option Text) (docker_ok moon_ok : Bool)
    → start_requested f (from_flags f.yes_flag false typed) docker_ok moon_ok
      ≡ (not (f.check || f.no_start) && (f.start || (docker_ok && moon_ok)))
unfolding start_requested from_flags
start_requested-unattended f typed docker_ok moon_ok = ground arith
