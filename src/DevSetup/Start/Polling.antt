-- ===== src/DevSetup/Start/Polling.antt =====
-- How long the installer waits for a service (packages/dev-setup/src/start.rs).
use epistl.Prelude.{
  ℕ, zero, suc, ◌+◌, ◌≤◌, ◌≡◌, refl, ◌⊎◌, inl, inr, Bool, true, false, not, ◌&&◌, arith, Bool-cases,
  length,
}
use epistl.Text.{Text}
use epistl.DevSetup.{Executor, World, CommandOutput, Step, fine, bad}
use epistl.DevSetup.Docker.{DockerAccess, ambient, via_sg}
use epistl.DevSetup.Start.{health, is_healthy, not_healthy, sleep, poll, wait_for_healthy}

module _ (exec : Executor) (access : DockerAccess) (project_dir service : Text) (w : World) where
  -- What the attempt after `n` others answers, each after a sleep, and the state after it.
  abbrev pub attempt : ℕ → CommandOutput × World
  attempt zero = health exec access project_dir service w
  attempt (suc n) = health exec access project_dir service (sleep (attempt n).1).1

  abbrev pub healthy_at : ℕ → Bool
  healthy_at n = is_healthy exec access project_dir (attempt n).0

  abbrev pub none_before : ℕ → Bool
  none_before zero = true
  none_before (suc n) = none_before n && not (healthy_at n)

  abbrev pub message : Step
  message = bad (not_healthy exec access project_dir service)

  -- The result and the state after some attempt, if none before it was healthy: success if it is
  -- healthy, and otherwise the message, and then it is the thirtieth.
  abbrev pub EndsAt : Step × World → ℕ → Type 0
  EndsAt r n =
      (r.1 ≡ (attempt n).1)
      × (none_before n ≡ true)
      × (((r.0 ≡ fine) × (healthy_at n ≡ true))
          ⊎ ((r.0 ≡ message) × (n ≡ 29) × (healthy_at n ≡ false)))

  poll-EndsAt :
      (left n : ℕ)
      → n + left ≡ 29
      → none_before n ≡ true
      → (m : ℕ) × (m ≤ 29)
        × EndsAt (poll exec access project_dir service left (attempt n).0 (attempt n).1) m
  unfolding poll
  poll-EndsAt zero n e h = elim (Bool-cases (healthy_at n)) [
    | inl up ↦ (n, omega arith, (refl, h, inl (rw up refl, up)))
    | inr down ↦ (n, omega arith, (refl, h, inr (rw down refl, omega arith, down)))
  ]
  poll-EndsAt (suc left) n e h = elim (Bool-cases (healthy_at n)) [
    | inl up ↦ (n, omega arith, (rw up refl, h, inl (rw up refl, up)))
    | inr down ↦ rw down (poll-EndsAt left (suc n) (omega arith) (rw (h, down) refl))
  ]

  Counted : World → ℕ → Type 0
  Counted v n = (v.sleeps ≡ w.sleeps + n) × (length v.calls ≡ length w.calls + suc n)

  one_call :
      (v : World)
      → ((health exec access project_dir service v).1.sleeps ≡ v.sleeps)
        × (length (health exec access project_dir service v).1.calls ≡ suc (length v.calls))
  unfolding health
  one_call v = by_access access
    where
      by_access :
          (a : DockerAccess)
          → ((health exec a project_dir service v).1.sleeps ≡ v.sleeps)
            × (length (health exec a project_dir service v).1.calls ≡ suc (length v.calls))
      by_access ambient = (refl, refl)
      by_access via_sg = (refl, refl)

  attempt-Counted : (n : ℕ) → Counted (attempt n).1 n
  unfolding Counted sleep
  attempt-Counted zero = omega (arith, one_call w)
  attempt-Counted (suc n) = omega (arith, one_call (sleep (attempt n).1).1, attempt-Counted n)

  -- wait_for_healthy returns after some attempt of at most 30, having slept once between any two: at the
  -- first one that is healthy with success, and otherwise after the thirtieth with the message that
  -- names the service.
  pub wait_for_healthy-EndsAt :
      (n : ℕ) × (n ≤ 29)
      × EndsAt (wait_for_healthy exec access project_dir service w) n
      × ((wait_for_healthy exec access project_dir service w).1.sleeps ≡ w.sleeps + n)
      × (length (wait_for_healthy exec access project_dir service w).1.calls
          ≡ length w.calls + suc n)
  unfolding wait_for_healthy Counted
  wait_for_healthy-EndsAt =
      let (n, bound, ends) = poll-EndsAt 29 0 (omega arith) refl in
      let (slept, ran) = attempt-Counted n in (n, bound, ends, rw ends.0 slept, rw ends.0 ran)
