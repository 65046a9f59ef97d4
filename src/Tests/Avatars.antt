-- ===== src/Tests/Avatars.antt =====
-- Concrete runs of apps/api/src/avatars.rs.
use epistl.Prelude.{ℕ, ◌≡◌, refl, false, none, some, ◌==◌, if◌then◌else◌, arith}
use epistl.Avatars.{Bucket, Store, confirm_upload, request_upload_url}
use epistl.Avatars.Confirming.{IsRefused, confirm_upload-IsRefused}
use epistl.Http.{bad_request}
use epistl.Tests.SampleWire.{sample_wire}
use epistl.Tests.Contacts.{calm, app, bob}

abbrev working : Store
working = record { head_fails = false; delete_fails = false; delete_lands = false }

-- Bob has uploaded so many bytes.
abbrev uploaded : ℕ → Bucket
uploaded size u = if u == 2 then some size else none

confirm_upload-IsRefused_example :
    IsRefused sample_wire bob calm app working
      (uploaded 6_000_000)
      (confirm_upload sample_wire working bob calm app (uploaded 6_000_000))
confirm_upload-IsRefused_example =
    confirm_upload-IsRefused sample_wire bob calm app working (uploaded 6_000_000) 6_000_000 refl
      refl (omega arith)

wrong_type :
    request_upload_url sample_wire (λ content_type. some "https://s3/put") (some "image/gif")
    ≡ bad_request sample_wire "invalid_content_type"
unfolding request_upload_url
wrong_type = refl
