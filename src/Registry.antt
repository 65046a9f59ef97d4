-- ===== src/Registry.antt =====
-- apps/api/src/registry.rs: the registry of live connections, and the channels that it holds.
-- A channel is a number, so that `same_channel` is equality. A send on an unbounded channel
-- fails exactly when its receiver is gone; what was sent stays in the order of sending.
pub mod Lookups
pub mod Table
use epistl.Prelude.{
  ℕ, String, ◌==◌, Bool, true, false, Option, none, some, List, [], ◌∷◌, ◌++◌, any, if◌then◌else◌,
}

pub data Frame (T : Type 0) : Type 0 where
  text : T → Frame T
  close : ℕ → String → Frame T

-- The map of `ConnectionRegistry`.
abbrev pub Entries : Type 0
Entries = List (ℕ × ℕ)

-- `HashMap::get`
abbrev pub lookup : ℕ → Entries → Option ℕ
lookup u [] = none
lookup u ((j, c) ∷ es) = if j == u then some c else lookup u es

-- `HashMap::insert`
abbrev pub put : ℕ → ℕ → Entries → Entries
put u c [] = (u, c) ∷ []
put u c ((j, d) ∷ es) = if j == u then (u, c) ∷ es else (j, d) ∷ put u c es

-- `HashMap::remove`
abbrev pub erase : ℕ → Entries → Entries
erase u [] = []
erase u ((j, d) ∷ es) = let rest = erase u es in if j == u then rest else (j, d) ∷ rest

pub record Hub (T : Type 0) : Type 0 where
  pub entries : Entries
  -- the channels whose receiver is gone
  pub gone : List ℕ
  -- the frames that were sent, each with its channel
  pub sent : List (ℕ × Frame T)

module _ {T : Type 0} where
  unfoldable pub is_gone : Hub T → ℕ → Bool
  is_gone h c = any (λ d. d == c) h.gone

  -- `tx.send(frame)`: the flag is `is_ok()`.
  unfoldable pub send : ℕ → Frame T → Hub T → Bool × Hub T
  unfolding is_gone
  send c f h = if is_gone h c then (false, h) else (true, record h { sent = h.sent ++ (c, f) ∷ [] })

  unfoldable pub insert : ℕ → ℕ → Hub T → Option ℕ × Hub T
  insert u c h = (lookup u h.entries, record h { entries = put u c h.entries })

  unfoldable pub get : ℕ → Hub T → Option ℕ
  get u h = lookup u h.entries

  clear_if_same : Option ℕ → ℕ → ℕ → Hub T → Hub T
  clear_if_same none u c h = h
  clear_if_same (some existing) u c h =
      if existing == c then record h { entries = erase u h.entries } else h

  unfoldable pub remove_if_current : ℕ → ℕ → Hub T → Hub T
  unfolding clear_if_same
  remove_if_current u c h = clear_if_same (lookup u h.entries) u c h
