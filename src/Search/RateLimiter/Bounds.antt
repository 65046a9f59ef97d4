-- ===== src/Search/RateLimiter/Bounds.antt =====
-- What the counter lets through.
use epistl.Prelude.{
  ℕ, ◌+◌, ◌-◌, ◌*◌, ◌≤◌, ◌<◌, ◌≡◌, Bool, true, List, [], ◌∷◌, length, arith, if◌then◌else◌,
}
use Prim.Native.Nat.{min}
use native.Mathlib.Decide.{dec_lt}
use epistl.Search.RateLimiter.{
  rate_limit_max_requests, rate_limit_window, Window, try_acquire, passed,
}

-- The count never passes the budget, so that the u32 never wraps.
abbrev pub IsValid : Window → Type 0
IsValid w = w.count ≤ rate_limit_max_requests

pub try_acquire-IsValid : (now : ℕ) (w : Window) → IsValid w → IsValid (try_acquire now w).1
unfolding try_acquire
try_acquire-IsValid now w v = ground arith

abbrev pub AllBelow : ℕ → List ℕ → Type 0
AllBelow b [] = Unit
AllBelow b (t ∷ ts) = (t < b) × AllBelow b ts

abbrev pub AllFrom : ℕ → List ℕ → Type 0
AllFrom b [] = Unit
AllFrom b (t ∷ ts) = (b ≤ t) × AllFrom b ts

AllBelow-mono : (b c : ℕ) (ts : List ℕ) → b ≤ c → AllBelow b ts → AllBelow c ts
AllBelow-mono b c [] h a = tt
AllBelow-mono b c (t ∷ ts) h a = (omega arith, AllBelow-mono b c ts h a.1)

abbrev granted : Bool → ℕ
granted ok = if ok then 1 else 0

module _ (t : ℕ) (w : Window) (v : IsValid w) where
  step_within :
      t < w.started_at + rate_limit_window
      → ((try_acquire t w).1.started_at ≡ w.started_at)
        × (granted (try_acquire t w).0 + w.count ≡ (try_acquire t w).1.count)
        × (granted (try_acquire t w).0 ≡ min 1 (rate_limit_max_requests - w.count))
  unfolding try_acquire
  step_within h = ground arith

  step_reset :
      w.started_at + rate_limit_window ≤ t
      → ((try_acquire t w).0 ≡ true)
        × ((try_acquire t w).1.started_at ≡ t)
        × ((try_acquire t w).1.count ≡ 1)
  unfolding try_acquire
  step_reset h = ground arith

-- Of requests that come to a valid counter before its window ends, exactly as many pass as come,
-- up to what is left of the budget of 30.
pub passed_within :
    (w : Window) (ts : List ℕ)
    → IsValid w
    → AllBelow (w.started_at + rate_limit_window) ts
    → passed w ts ≡ min (length ts) (rate_limit_max_requests - w.count)
unfolding passed
passed_within w [] v a = omega arith
passed_within w (t ∷ ts) v (h, a) =
    let w' = (try_acquire t w).1 in
    let same = step_within t w v h in
    let b : AllBelow (w'.started_at + rate_limit_window) ts =
      AllBelow-mono _ _ ts (omega arith) a in
    omega (arith, passed_within w' ts (try_acquire-IsValid t w v) b)

-- Of requests that come to a valid counter within one stretch of a window's length, wherever it
-- begins, those that pass, together with those counted before, are at most twice the budget of 30.
pub passed_any_stretch :
    (w : Window) (from : ℕ) (ts : List ℕ)
    → IsValid w
    → AllFrom from ts
    → AllBelow (from + rate_limit_window) ts
    → passed w ts + w.count ≤ 2 * rate_limit_max_requests
unfolding passed
passed_any_stretch w from [] v f a = omega arith
passed_any_stretch w from (t ∷ ts) v (g, f) (h, a) =
    let w' = (try_acquire t w).1 in
    let v' = try_acquire-IsValid t w v in
    elim (dec_lt t (w.started_at + rate_limit_window)) [
      | yes early ↦
          let same = step_within t w v early in omega (arith, passed_any_stretch w' from ts v' f a)
      | no late ↦
          let fresh = step_reset t w v (omega arith) in
          let b : AllBelow (w'.started_at + rate_limit_window) ts =
            AllBelow-mono _ _ ts (omega arith) a in
          let rest = passed_within w' ts v' b in ground (arith, fresh, rest)
    ]

-- A request that comes at least a whole window after the start of a valid counter's window passes,
-- and starts a new window at its own instant.
pub try_acquire_after_window :
    (now : ℕ) (w : Window)
    → IsValid w
    → w.started_at + rate_limit_window ≤ now
    → ((try_acquire now w).0 ≡ true) × ((try_acquire now w).1.started_at ≡ now)
try_acquire_after_window now w v h = let r = step_reset now w v h in (r.0, r.1)
