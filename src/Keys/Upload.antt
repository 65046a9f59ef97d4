-- ===== src/Keys/Upload.antt =====
-- What an upload of keys leaves behind (apps/api/src/keys.rs).
use epistl.Prelude.{
  ℕ, String, ◌≡◌, refl, ap, none, ◌==◌, true, false, not, Option, some, List, [], ◌∷◌, length,
  arith,
}
use epistl.Wire.{Wire}
use epistl.Http.{Response, json, succeeded, internal_error}
use epistl.Db.{Tables}
use epistl.Db.Session.{Env, App, start, run, drift, ◌>>=◌, pure, autocommit, or_return}
use epistl.Db.Session.Rules.{
  Ends, Ends-or_return, Ends-return_if, Ends-autocommit_or, Ends-pure, run-Ends,
}
use epistl.Contacts.Handlers.{Caller}
use epistl.Keys.Stored.{IsStored, upsert_keys-IsStored}
use epistl.Keys.{UploadKeysPayload, Bundle, upsert_keys, decode_field, upload_keys}

-- The field is there, and is base64 of these bytes, of which there are `len`.
abbrev pub IsPart : Wire → Option String → List ℕ → ℕ → Type 0
IsPart w field bytes len =
    (text : String) × (field ≡ some text)
    × (w.base64_decode text ≡ some bytes)
    × (length bytes ≡ len)

-- Every field of the payload decodes to that part of the bundle, of the length of its kind.
pub record IsBundle (w : Wire) (p : UploadKeysPayload) (b : Bundle) : Type 0 where
  pub x25519 : IsPart w p.x25519_public_key_b64 b.x25519 32
  pub kyber : IsPart w p.kyber_public_key_b64 b.kyber 1184
  pub dilithium : IsPart w p.dilithium_public_key_b64 b.dilithium 1952
  pub prekey_signature : IsPart w p.prekey_signature_b64 b.prekey_signature 3309

decode_field-IsPart :
    (w : Wire) (field : Option String) (bytes : List ℕ) (len : ℕ)
    → decode_field w field ≡ some bytes
    → length bytes ≡ len
    → IsPart w field bytes len
unfolding decode_field
decode_field-IsPart w none bytes len h k = cc
decode_field-IsPart w (some text) bytes len h k = (text, refl, h, k)

undecoded :
    (w : Wire) (field : Option String) (bytes : List ℕ) (len : ℕ)
    → decode_field w field ≡ none
    → ¬ IsPart w field bytes len
unfolding decode_field
undecoded w field bytes len h (text, e, decoded, _) = cc (ap (decode_field w) e, h, decoded)

no_len : (n k : ℕ) → not (n == k) ≡ true → ¬ (n ≡ k)
no_len n k h e = ground arith

ill_sized :
    (w : Wire) (field : Option String) (x bytes : List ℕ) (len : ℕ)
    → decode_field w field ≡ some x
    → not (length x == len) ≡ true
    → ¬ IsPart w field bytes len
unfolding decode_field
ill_sized w field x bytes len h wrong (text, e, decoded, sized) =
    let same : some x ≡ some bytes = cc (ap (decode_field w) e, h, decoded) in
    no_len _ _ wrong (cc (same, sized))

is_len : (n k : ℕ) → not (n == k) ≡ false → n ≡ k
is_len n k h = ground arith

module _ (w : Wire) (user : Caller) (p : UploadKeysPayload) (env : Env) (a : App w.Text) where
  abbrev pub uploaded : Response w.Value
  uploaded = json w 200 (
      w.obj (
        ("user_id", w.str (w.uuid_text user.id))
        ∷ ("updated_at", w.str (w.timestamp (env.now 0)))
        ∷ []))

  -- How an upload ends: nothing is changed and it fails, for a payload as it should be with an internal
  -- error; or the bundle is stored, and it succeeds, or reports an internal error as the database has lost
  -- its answer.
  pub data IsUpload (r : Response w.Value) (b : App w.Text) : Type 0 where
    unchanged :
        (k : ℕ)
        → b.db ≡ drift env k a.db
        → b.hub ≡ a.hub
        → succeeded r ≡ false
        → ((q : Bundle) → IsBundle w p q → r ≡ internal_error w)
        → IsUpload r b
    unseen :
        (q : Bundle)
        → IsBundle w p q
        → IsStored user.id q (env.now 0) (drift env 1 a.db) b.db
        → b.hub ≡ a.hub
        → r ≡ internal_error w
        → IsUpload r b
    stored :
        (q : Bundle)
        → IsBundle w p q
        → IsStored user.id q (env.now 0) (drift env 1 a.db) b.db
        → b.hub ≡ a.hub
        → r ≡ uploaded
        → IsUpload r b

  refused :
      (r : Response w.Value)
      → succeeded r ≡ false
      → ((q : Bundle) → ¬ IsBundle w p q)
      → IsUpload r (record { db = drift env 0 a.db; hub = a.hub })
  refused r failed unsound = unchanged 0 refl refl failed (λ q ok. absurd (unsound q ok))

  -- A write that the database makes without an answer, or that violates a constraint.
  landed-IsUpload :
      (q : Bundle) (o : Option (ℕ × Tables))
      → IsBundle w p q
      → upsert_keys user.id q (env.now 0) (drift env 1 a.db) ≡ o
      → IsUpload
          (internal_error w)
          (record { db = elim o [ none ↦ drift env 1 a.db | some (_, t) ↦ t ]; hub = a.hub })
  landed-IsUpload q none ok e = unchanged 1 refl refl refl (λ q ok. refl)
  landed-IsUpload q (some (at, t)) ok e =
      unseen q ok (upsert_keys-IsStored user.id q (env.now 0) (drift env 1 a.db) t at e).0 refl refl

  checked-IsUpload :
      (q : Bundle)
      → IsBundle w p q
      → Ends IsUpload
          (do
            upserted ← autocommit (λ _. upsert_keys user.id q)
            updated_at ← or_return upserted (internal_error w)
            pure (
                json w 200 (
                  w.obj (
                    ("user_id", w.str (w.uuid_text user.id))
                    ∷ ("updated_at", w.str (w.timestamp updated_at))
                    ∷ []))))
          env
          (start a)
  checked-IsUpload q ok =
      let db = drift env 1 a.db in
      Ends-autocommit_or _ _ _ (unchanged 1 refl refl refl (λ q ok. refl))
        (landed-IsUpload q (upsert_keys user.id q (env.now 0) db) ok refl)
        (λ at t wrote.
          let (is_stored, same_time) = upsert_keys-IsStored user.id q (env.now 0) db t at wrote in
          Ends-pure (
            stored q ok is_stored refl (
              ap
                (λ n. json w 200 (
                  w.obj (
                    ("user_id", w.str (w.uuid_text user.id))
                    ∷ ("updated_at", w.str (w.timestamp n))
                    ∷ [])))
                same_time)))

  -- An upload stores the bundle or changes nothing. It stores it, all four keys and signatures as they were
  -- decoded, in place of what the user had, and changes no other user's keys and no other table; it does so
  -- only if every field is base64 of exactly the number of bytes of its kind: 32, 1184, 1952 and 3309. If it
  -- reports failure, nothing has changed, except that with an internal error the bundle may have been
  -- stored; and where every field is as it should be, no failure but an internal error is reported.
  pub upload_keys-IsUpload :
      IsUpload (run (upload_keys w user p) env a).0 (run (upload_keys w user p) env a).1
  unfolding upload_keys
  upload_keys-IsUpload = run-Ends IsUpload (upload_keys w user p) env a (
      Ends-or_return _ _ _ (λ e. refused _ refl (λ q ok. undecoded w _ _ _ e ok.x25519))
        λ x ex.
          Ends-or_return _ _ _ (λ e. refused _ refl (λ q ok. undecoded w _ _ _ e ok.kyber))
            λ k ek.
              Ends-or_return _ _ _ (λ e. refused _ refl (λ q ok. undecoded w _ _ _ e ok.dilithium))
                λ d ed.
                  Ends-or_return _ _ _
                    (λ e. refused _ refl (λ q ok. undecoded w _ _ _ e ok.prekey_signature))
                    λ s es.
                      Ends-return_if _ _ _
                        (λ e. refused _ refl (λ q ok. ill_sized w _ _ _ _ ex e ok.x25519))
                        λ lx.
                          Ends-return_if _ _ _
                            (λ e. refused _ refl (λ q ok. ill_sized w _ _ _ _ ek e ok.kyber))
                            λ lk.
                              Ends-return_if _ _ _
                                (λ e.
                                  refused _ refl (λ q ok. ill_sized w _ _ _ _ ed e ok.dilithium))
                                λ ld.
                                  Ends-return_if _ _ _
                                    (λ e.
                                      refused _ refl
                                        (λ q ok. ill_sized w _ _ _ _ es e ok.prekey_signature))
                                    λ ls.
                                      checked-IsUpload
                                        (record {
                                          x25519 = x;
                                          kyber = k;
                                          dilithium = d;
                                          prekey_signature = s;
                                        })
                                        (record {
                                          x25519 = decode_field-IsPart w _ _ _ ex (is_len _ _ lx);
                                          kyber = decode_field-IsPart w _ _ _ ek (is_len _ _ lk);
                                          dilithium =
                                              decode_field-IsPart w _ _ _ ed (is_len _ _ ld);
                                          prekey_signature =
                                              decode_field-IsPart w _ _ _ es (is_len _ _ ls);
                                        }))
