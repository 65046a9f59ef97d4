-- ===== src/Auth/Entities/Updates.antt =====
-- That updates of users and accounts merge (apps/api/src/auth.rs).
use epistl.Prelude.{ℕ, ◌≡◌, refl, Option, none, some, get_or}
use epistl.Wire.{Wire}
use epistl.Auth.Entities.{ActiveValue, set, set_some, set_present}
use epistl.Auth.Entities.Users
use epistl.Auth.Entities.Accounts

-- A later update's value, or the earlier one's.
abbrev pub over : {A : Type 0} → Option A → Option A → Option A
over none earlier = earlier
over (some a) earlier = some a

set_some-over :
    {A : Type 0} (later earlier : Option A) (column : ActiveValue A)
    → set_some later (set_some earlier column) ≡ set_some (over later earlier) column
set_some-over none earlier column = refl
set_some-over (some a) earlier column = refl

set_present-over :
    {A : Type 0} (later earlier : Option A) (column : ActiveValue (Option A))
    → set_present later (set_present earlier column) ≡ set_present (over later earlier) column
set_present-over none earlier column = refl
set_present-over (some a) earlier column = refl

abbrev pub merge_users : Users.CreateUser → Users.CreateUser → Users.CreateUser
merge_users v u = record {
  email = over v.email u.email;
  name = over v.name u.name;
  image = over v.image u.image;
  email_verified = over v.email_verified u.email_verified;
  username = over v.username u.username;
  display_username = over v.display_username u.display_username;
}

abbrev pub merge_accounts : Accounts.UpdateAccount → Accounts.UpdateAccount → Accounts.UpdateAccount
merge_accounts v u = record {
  access_token = over v.access_token u.access_token;
  refresh_token = over v.refresh_token u.refresh_token;
  id_token = over v.id_token u.id_token;
  access_token_expires_at = over v.access_token_expires_at u.access_token_expires_at;
  refresh_token_expires_at = over v.refresh_token_expires_at u.refresh_token_expires_at;
  scope = over v.scope u.scope;
  password = over v.password u.password;
}

-- Two updates of a user or of an account come to one: each column takes the later update's value if it
-- has one, else the earlier one's, else stays as it was; the time is that of the later update.
pub apply_update_twice :
    (user : Users.ActiveModel) (u v : Users.CreateUser) (account : Accounts.ActiveModel)
    (x y : Accounts.UpdateAccount) (earlier now : ℕ)
    → (Users.apply_update (Users.apply_update user u earlier) v now
        ≡ Users.apply_update user (merge_users v u) now)
      × (Accounts.apply_update (Accounts.apply_update account x earlier) y now
          ≡ Accounts.apply_update account (merge_accounts y x) now)
unfolding Users.apply_update Accounts.apply_update
apply_update_twice user u v account x y earlier now =
    (simp (set_some-over, set_present-over), simp (set_present-over))

set_present-set :
    {A : Type 0} (later earlier : Option A)
    → set_present later (set earlier) ≡ set (over later earlier)
set_present-set none earlier = refl
set_present-set (some a) earlier = refl

set_some-set :
    {A : Type 0} (later earlier : Option A) (default : A)
    → set_some later (set (get_or earlier default)) ≡ set (get_or (over later earlier) default)
set_some-set none earlier default = refl
set_some-set (some a) earlier default = refl

abbrev pub on_made : {A : Type 0} → (A → A) → Option A → Option A
on_made f none = none
on_made f (some a) = some (f a)

-- To create a user or an account and then to update it is to create it with the merged values, but for the
-- time of the update; an account is not made either way if its user id is no UUID.
pub apply_update-new_active :
    (w : Wire) (new_v4 : ℕ) (id : Option ℕ) (create update : Users.CreateUser)
    (account : Accounts.CreateAccount) (change : Accounts.UpdateAccount) (earlier now : ℕ)
    → (Users.apply_update (Users.new_active new_v4 id create earlier) update now
        ≡ record (Users.new_active new_v4 id (merge_users update create) earlier) {
          updated_at = set now;
        })
      × (on_made
            (λ a. Accounts.apply_update a change now)
            (Accounts.new_active w new_v4 id account earlier)
          ≡ on_made
              (λ a. record a { updated_at = set now })
              (Accounts.new_active w new_v4 id
                (record account { values = merge_accounts change account.values })
                earlier))
unfolding Users.apply_update Users.new_active Accounts.apply_update Accounts.new_active
apply_update-new_active w new_v4 id create update account change earlier now =
    (simp (set_some-set, set_present-set), made (w.parse_uuid account.user_id))
  where
    made :
        (o : Option ℕ)
        → on_made
            (λ a. Accounts.apply_update a change now)
            (Accounts.active_for new_v4 id account earlier o)
          ≡ on_made
              (λ a. record a { updated_at = set now })
              (Accounts.active_for new_v4 id
                (record account { values = merge_accounts change account.values })
                earlier
                o)
    made none = refl
    made (some u) = simp (set_present-set)
