-- ===== src/Keys/Stored.antt =====
-- What the upsert of a user's keys stores (apps/api/src/keys.rs).
use epistl.Prelude.{
  ℕ, ◌≡◌, refl, subst, Bool, none, ◌==◌, true, false, Option, some, List, [], ◌∷◌, ◌++◌, any, find,
  map, arith, if◌then◌else◌,
}
use epistl.Db.{UserKeys, Tables}
use epistl.Contacts.Sql.{has_user}
use epistl.Keys.{Bundle, keys_row, upsert_keys}

-- The row of a user in `user_keys`.
abbrev pub keys_of : ℕ → Tables → Option UserKeys
keys_of v t = find (λ (k : UserKeys). k.user_id == v) t.user_keys

-- That the tables `u` are `t` with the user's keys those of the bundle: all four, at this time; the keys of
-- every other user and all other tables are those of `t`.
pub record IsStored (user : ℕ) (b : Bundle) (now : ℕ) (t u : Tables) : Type 0 where
  pub own :
      keys_of user u
      ≡ some (record {
        user_id = user;
        x25519_public_key = b.x25519;
        kyber_public_key = b.kyber;
        dilithium_public_key = b.dilithium;
        prekey_signature = b.prekey_signature;
        updated_at = now;
      })
  pub others : (v : ℕ) → (user == v) ≡ false → keys_of v u ≡ keys_of v t
  pub rest : u ≡ record t { user_keys = u.user_keys }

module _ (user : ℕ) (b : Bundle) (now : ℕ) where
  replaced :
      (ks : List UserKeys)
      → any (λ (k : UserKeys). k.user_id == user) ks ≡ true
      → find
          (λ (k : UserKeys). k.user_id == user)
          (map (λ (k : UserKeys). if k.user_id == user then keys_row user b now else k) ks)
        ≡ some (keys_row user b now)
  replaced [] h = cc
  replaced (k ∷ ks) h = ground (arith, replaced ks)

  replaced_other :
      (v : ℕ) (ks : List UserKeys)
      → (user == v) ≡ false
      → find
          (λ (k : UserKeys). k.user_id == v)
          (map (λ (k : UserKeys). if k.user_id == user then keys_row user b now else k) ks)
        ≡ find (λ (k : UserKeys). k.user_id == v) ks
  replaced_other v [] h = refl
  replaced_other v (k ∷ ks) h = ground (arith, replaced_other v ks)

  appended :
      (ks : List UserKeys)
      → any (λ (k : UserKeys). k.user_id == user) ks ≡ false
      → find (λ (k : UserKeys). k.user_id == user) (ks ++ keys_row user b now ∷ [])
        ≡ some (keys_row user b now)
  appended [] h = ground arith
  appended (k ∷ ks) h = ground (arith, appended ks)

  appended_other :
      (v : ℕ) (ks : List UserKeys)
      → (user == v) ≡ false
      → find (λ (k : UserKeys). k.user_id == v) (ks ++ keys_row user b now ∷ [])
        ≡ find (λ (k : UserKeys). k.user_id == v) ks
  appended_other v [] h = ground arith
  appended_other v (k ∷ ks) h = ground (arith, appended_other v ks)

  abbrev written : ℕ → Tables → Option (ℕ × Tables)
  written at t = some (at, t)

  written-IsStored :
      (t v u : Tables) (at : ℕ)
      → IsStored user b now t v
      → written now v ≡ written at u
      → IsStored user b now t u × (at ≡ now)
  written-IsStored t v u at h e = (subst (λ x. IsStored user b now t x) (cc e) h, cc e)

  if-IsStored :
      (t u : Tables) (at : ℕ) (seen known : Bool)
      → any (λ (k : UserKeys). k.user_id == user) t.user_keys ≡ seen
      → (if seen
          then written now (record t {
            user_keys =
                map
                  (λ (k : UserKeys). if k.user_id == user then keys_row user b now else k)
                  t.user_keys;
          })
          else if known
          then written now (record t { user_keys = t.user_keys ++ keys_row user b now ∷ [] })
          else none)
        ≡ written at u
      → IsStored user b now t u × (at ≡ now)
  if-IsStored t u at true known e h =
      written-IsStored t _ u at
        (record {
          own = replaced t.user_keys e;
          others = λ v. replaced_other v t.user_keys;
          rest = refl;
        })
        h
  if-IsStored t u at false true e h =
      written-IsStored t _ u at
        (record {
          own = appended t.user_keys e;
          others = λ v. appended_other v t.user_keys;
          rest = refl;
        })
        h
  if-IsStored t u at false false e h = cc

  -- An upsert that violates no constraint stores the bundle.
  pub upsert_keys-IsStored :
      (t u : Tables) (at : ℕ)
      → upsert_keys user b now t ≡ written at u
      → IsStored user b now t u × (at ≡ now)
  unfolding upsert_keys
  upsert_keys-IsStored t u at =
      if-IsStored t u at (any (λ (k : UserKeys). k.user_id == user) t.user_keys) (has_user user t)
        refl
