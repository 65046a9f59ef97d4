-- ===== src/Search/RateLimiter.antt =====
-- The fixed-window request counter of apps/api/src/search.rs. An `Instant` is a number of
-- nanoseconds; `duration_since` is 0 for a later instant, as `-` is here. The counter is a u32.
pub mod Bounds
use Prim.Native.Nat.{◌^◌, ◌%◌}
use epistl.Prelude.{ℕ, ◌+◌, ◌-◌, Bool, true, false, List, [], ◌∷◌, leb, if◌then◌else◌}

abbrev pub rate_limit_max_requests : ℕ
rate_limit_max_requests = 30

-- `Duration::from_secs(60)`
abbrev pub rate_limit_window : ℕ
rate_limit_window = 60_000_000_000

pub record Window : Type 0 where
  pub started_at : ℕ
  pub count : ℕ

-- `SearchRateLimiter::new` at an instant
unfoldable pub new : ℕ → Window
new now = record { started_at = now; count = 0 }

unfoldable pub refresh : ℕ → Window → Window
refresh now window =
    if leb rate_limit_window (now - window.started_at)
    then record { started_at = now; count = 0 }
    else window

unfoldable pub try_acquire : ℕ → Window → Bool × Window
unfolding refresh
try_acquire now window =
    let w = refresh now window in
    if leb rate_limit_max_requests w.count
    then (false, w)
    else (true, record w { count = (w.count + 1) % 2 ^ 32 })

-- How many requests pass, of those that come at these instants one after the other.
unfoldable pub passed : Window → List ℕ → ℕ
passed window [] = 0
passed window (now ∷ later) =
    let (ok, w) = try_acquire now window in (if ok then 1 else 0) + passed w later

-- The window after them.
unfoldable pub after : Window → List ℕ → Window
after window [] = window
after window (now ∷ later) = after (try_acquire now window).1 later
