-- ===== src/Registry/Lookups.antt =====
-- What a lookup finds after each operation of the registry (apps/api/src/registry.rs).
use epistl.Prelude.{
  ℕ, ◌≡◌, ◌≢◌, refl, ◌==◌, Bool, false, Option, none, some, [], ◌∷◌, ◌&&◌, if◌then◌else◌, arith,
  inl, inr, Bool-cases, ==_refl,
}
use epistl.Registry.{
  Hub, Entries, lookup, put, erase, insert, get, clear_if_same, remove_if_current,
}

lookup-put :
    (u v c : ℕ) (es : Entries) → lookup u (put v c es) ≡ (if v == u then some c else lookup u es)
lookup-put u v c [] = refl
lookup-put u v c ((j, d) ∷ es) = ground (arith, lookup-put u v c es)

lookup-erase :
    (u v : ℕ) (es : Entries) → lookup u (erase v es) ≡ (if v == u then none else lookup u es)
lookup-erase u v [] = ground arith
lookup-erase u v ((j, d) ∷ es) = ground (arith, lookup-erase u v es)

-- the value is this channel
abbrev pub is_at : ℕ → Option ℕ → Bool
is_at c none = false
is_at c (some d) = d == c

module _ {T : Type 0} where
  -- After `insert` the user has the new connection and every other user what they had; the value
  -- returned is the connection that was there before.
  pub get-insert :
      (u v c : ℕ) (h : Hub T)
      → (get u (insert v c h).1 ≡ (if v == u then some c else get u h))
        × ((insert v c h).0 ≡ get v h)
  unfolding get insert
  get-insert u v c h = (lookup-put u v c h.entries, refl)

  get-clear :
      (u v c : ℕ) (o : Option ℕ) (h : Hub T)
      → get u (clear_if_same o v c h) ≡ (if is_at c o && (v == u) then none else get u h)
  unfolding get clear_if_same
  get-clear u v c none h = refl
  get-clear u v c (some d) h = elim (Bool-cases (d == c)) [
    | inl e ↦ rw e (lookup-erase u v h.entries)
    | inr e ↦ rw e refl
  ]

  -- `remove_if_current` removes the user's entry exactly if it is at this connection, and no other.
  pub get-remove_if_current :
      (u v c : ℕ) (h : Hub T)
      → get u (remove_if_current v c h) ≡ (if is_at c (get v h) && (v == u) then none else get u h)
  unfolding get remove_if_current
  get-remove_if_current u v c h = get-clear u v c (lookup v h.entries) h

  -- The cleanup of a connection that has been replaced leaves the newer connection registered.
  pub remove_if_current-insert :
      (u old new : ℕ) (h : Hub T)
      → new ≢ old
      → get u (remove_if_current u old (insert u new h).1) ≡ some new
  remove_if_current-insert u old new h ne =
      rw (get-remove_if_current u u old (insert u new h).1, (get-insert u u new h).0, ==_refl u)
        (ground arith)
