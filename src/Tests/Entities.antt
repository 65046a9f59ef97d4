-- ===== src/Tests/Entities.antt =====
-- Concrete runs of the entities of apps/api/src/auth.rs.
use epistl.Prelude.{◌≡◌, refl, false, none, some}
use epistl.Auth.Entities.{set}
use epistl.Auth.Entities.Users
use epistl.Auth.Entities.Sessions
use epistl.Auth.Entities.Accounts
use epistl.Auth.Entities.Updates.{merge_users, merge_accounts, on_made, apply_update-new_active}
use epistl.Auth.Entities.Owners.{IsSessionOf, IsAccountOf, new_active-owner}
use epistl.Tests.SampleWire.{sample_wire}

abbrev ann : Users.Model
ann = record {
  id = 1;
  email = "ann@x";
  email_verified = false;
  name = some "Ann";
  image = none;
  username = "ann";
  display_username = none;
  created_at = 3;
  updated_at = 3;
}

abbrev ann_create : Users.CreateUser
ann_create = record {
  email = some "ann@x";
  name = some "Ann";
  image = none;
  email_verified = none;
  username = some "ann";
  display_username = none;
}

abbrev ann_active : Users.ActiveModel
ann_active = Users.new_active 1 none ann_create 3

abbrev to_name : Users.CreateUser
to_name = record {
  email = none;
  name = some "Annie";
  image = none;
  email_verified = none;
  username = none;
  display_username = none;
}

abbrev to_image : Users.CreateUser
to_image = record to_name { name = none; image = some "/a" }

abbrev hashed : Accounts.UpdateAccount
hashed = record {
  access_token = none;
  refresh_token = none;
  id_token = none;
  access_token_expires_at = none;
  refresh_token_expires_at = none;
  scope = none;
  password = some "hash";
}

abbrev for_ann : Accounts.CreateAccount
for_ann = record {
  user_id = sample_wire.uuid_text 1;
  account_id = "ann@x";
  provider_id = "credential";
  values = hashed;
}

apply_update-new_active_example :
    (Users.apply_update (Users.new_active 9 none ann_create 3) to_name 4
      ≡ record (Users.new_active 9 none (merge_users to_name ann_create) 3) { updated_at = set 4 })
    × (on_made
          (λ a. Accounts.apply_update a hashed 4)
          (Accounts.new_active sample_wire 9 none for_ann 3)
        ≡ on_made
            (λ a. record a { updated_at = set 4 })
            (Accounts.new_active sample_wire 9 none
              (record for_ann { values = merge_accounts hashed hashed })
              3))
apply_update-new_active_example =
    apply_update-new_active sample_wire 9 none ann_create to_name for_ann hashed 3 4

abbrev her_session : Sessions.CreateSession
her_session = record {
  user_id = sample_wire.uuid_text 1;
  expires_at = 99;
  ip_address = none;
  user_agent = none;
}

new_active-owner_example :
    IsSessionOf sample_wire ann "secret" her_session
      (Sessions.new_active sample_wire 9 none "secret" her_session 3)
    × IsAccountOf sample_wire ann for_ann (Accounts.new_active sample_wire 9 none for_ann 3)
unfolding Users.auth_user
new_active-owner_example =
    new_active-owner sample_wire ann 9 3 none "secret" her_session for_ann refl refl

-- The image is set and the name kept from the earlier update.
both_kept :
    (Users.apply_update (Users.apply_update ann_active to_name 4) to_image 5).name
    ≡ set (some "Annie")
unfolding Users.apply_update Users.new_active
both_kept = refl
