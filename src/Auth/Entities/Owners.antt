-- ===== src/Auth/Entities/Owners.antt =====
-- That sessions and accounts keep the user that they are made for (apps/api/src/auth.rs).
use epistl.Prelude.{ℕ, ◌≡◌, ◌↔◌, refl, ap, sym, ◌∙◌, String, true, Option, none, some}
use epistl.Wire.{Wire}
use epistl.Auth.Entities.{set, ok, parsed_or}
use epistl.Auth.Entities.Users
use epistl.Auth.Entities.Sessions
use epistl.Auth.Entities.Accounts

module _ (w : Wire) where
  -- A user id that `AuthUser` gives.
  abbrev pub NamesUser : String → Users.Model → Type 0
  NamesUser user_id user = user_id ≡ (Users.auth_user w user).id

  parse_id-id : (user : Users.Model) → Users.parse_id w (Users.auth_user w user).id ≡ ok user.id
  unfolding Users.parse_id Users.auth_user
  parse_id-id user = ap (parsed_or "Invalid user id") (w.parse_uuid-uuid_text user.id)

  pub record IsSessionOf (user : Users.Model) (token : String) (create : Sessions.CreateSession)
      (made : Option Sessions.ActiveModel) : Type 0 where
    pub active : Sessions.ActiveModel
    pub is_made : made ≡ some active
    pub is_active : active.active ≡ set true
    pub same_token : active.token ≡ set token
    pub same_expiry : active.expires_at ≡ set create.expires_at
    -- the user id of each row that such a model is the insertion of
    pub owner :
        (row : Sessions.Model)
        → active.user_id ≡ set row.user_id
        → Users.parse_id w (Sessions.auth_session w row).user_id ≡ ok user.id

  pub record IsAccountOf (user : Users.Model) (create : Accounts.CreateAccount)
      (made : Option Accounts.ActiveModel) : Type 0 where
    pub active : Accounts.ActiveModel
    pub is_made : made ≡ some active
    pub same_provider : active.provider_id ≡ set create.provider_id
    pub same_password : active.password ≡ set create.values.password
    pub owner :
        (row : Accounts.Model)
        → active.user_id ≡ set row.user_id
        → Users.parse_id w (Accounts.auth_account w row).user_id ≡ ok user.id

  -- The id text of a row's user, if the row's column was set to this id.
  parse_id-owner :
      (id other : ℕ) → set id ≡ set other → Users.parse_id w (w.uuid_text other) ≡ ok id
  unfolding Users.parse_id
  parse_id-owner id other e =
      ap (parsed_or "Invalid user id") (w.parse_uuid-uuid_text other) ∙ ap ok (sym (cc e))

  -- A session and an account that are made for a user, by the id text that the user gives, never panic;
  -- the session is active and has the token and the time of expiry, the account the provider and the
  -- password that were given, and the user id of a row made from either is read back as that user's.
  pub new_active-owner :
      (user : Users.Model) (new_v4 now : ℕ) (id : Option ℕ) (token : String)
      (session : Sessions.CreateSession) (account : Accounts.CreateAccount)
      → NamesUser session.user_id user
      → NamesUser account.user_id user
      → IsSessionOf user token session (Sessions.new_active w new_v4 id token session now)
        × IsAccountOf user account (Accounts.new_active w new_v4 id account now)
  unfolding Sessions.new_active Accounts.new_active Users.auth_user Sessions.auth_session
      Accounts.auth_account
  new_active-owner user new_v4 now id token session account e f = (
    record {
      active = Sessions.filled new_v4 id token session now user.id;
      is_made = ap (Sessions.active_for new_v4 id token session now) (known session.user_id e);
      is_active = refl;
      same_token = refl;
      same_expiry = refl;
      owner = λ row. parse_id-owner user.id row.user_id;
    },
    record {
      active = Accounts.filled new_v4 id account now user.id;
      is_made = ap (Accounts.active_for new_v4 id account now) (known account.user_id f);
      same_provider = refl;
      same_password = refl;
      owner = λ row. parse_id-owner user.id row.user_id;
    },
  )
    where
      known : (text : String) → NamesUser text user → w.parse_uuid text ≡ some user.id
      known text g = ap w.parse_uuid g ∙ w.parse_uuid-uuid_text user.id

  -- Either panics exactly if the user id that it is given is no UUID.
  pub new_active_panics :
      (new_v4 now : ℕ) (id : Option ℕ) (token : String) (session : Sessions.CreateSession)
      → (Sessions.new_active w new_v4 id token session now ≡ none)
        ↔ (w.parse_uuid session.user_id ≡ none)
  unfolding Sessions.new_active
  new_active_panics new_v4 now id token session = by_id (w.parse_uuid session.user_id)
    where
      by_id :
          (o : Option ℕ) → (Sessions.active_for new_v4 id token session now o ≡ none) ↔ (o ≡ none)
      by_id none = (λ e. refl, λ e. refl)
      by_id (some u) = (λ e. cc, λ e. cc)
