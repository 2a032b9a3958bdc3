-- ===== src/Application/Auth/OneTime.antt =====
-- The one-time tokens of src/temis_sso/application/auth.py: each is consumed at most once, in its
-- time and for its purpose.
use temis_sso_lab.Base.{
  inr, inl, Option-cases, ℕ, ◌≡◌, refl, ◌∙◌, String, true, false, Option, some, ok, err,
  invalid_one_time_token, ◌==◌, eq_refl, arith, find, find-update_where,
}
use temis_sso_lab.Persistence.{OneTimeToken, Db, is_one_time}
use temis_sso_lab.Application.Auth.{
  activate, modify_user, get_user, User, verify_email, update_where, is_usable, mark_consumed,
  consume_one_time,
}

module _ (sha256_hex : String → String) (raw purpose : String) where
  abbrev row : Db → Option OneTimeToken
  row db = find (is_one_time (sha256_hex raw) purpose) db.one_time_tokens

  -- What consuming a token has found and done.
  pub record Consumed (now stamp : ℕ) (db : Db) (user_id : String) (db' : Db) : Type 0 where
    pub token : OneTimeToken
    pub found : row db ≡ some token
    pub usable : is_usable now token ≡ true
    pub owner : user_id ≡ token.user_id
    pub found_after : row db' ≡ some (mark_consumed stamp token)
    pub users : db'.users ≡ db.users

  found_marked :
      (stamp : ℕ) (db : Db) (t : OneTimeToken)
      → row db ≡ some t
      → find
          (is_one_time (sha256_hex raw) purpose)
          (update_where (λ x. x.digest == t.digest) (mark_consumed stamp) db.one_time_tokens)
        ≡ some (mark_consumed stamp t)
  found_marked stamp db t e =
      find-update_where (λ (x : OneTimeToken). x.digest == t.digest)
        (is_one_time (sha256_hex raw) purpose) (mark_consumed stamp) db.one_time_tokens (λ x. refl)
      ∙ rw (e, eq_refl)

  pub consume_one_time-ok :
      (now stamp : ℕ) (db : Db) (user_id : String) (db' : Db)
      → consume_one_time sha256_hex raw purpose now stamp db ≡ (ok user_id, db')
      → Consumed now stamp db user_id db'
  unfolding consume_one_time
  consume_one_time-ok now stamp db user_id db' h = elim (Option-cases (row db)) [
    | inl e ↦ absurd (ground arith)
    | inr (t, e) ↦ record {
      token = t;
      found = e;
      usable = ground arith;
      owner = ground arith;
      found_after = ground (arith, found_marked stamp db t e);
      users = ground arith;
    }
  ]

  -- A token that is missing, consumed or expired is refused, and nothing changes.
  pub consume_one_time_refused :
      (now stamp : ℕ) (db : Db)
      → ((t : OneTimeToken) → row db ≡ some t → is_usable now t ≡ false)
      → consume_one_time sha256_hex raw purpose now stamp db ≡ (err invalid_one_time_token, db)
  unfolding consume_one_time
  consume_one_time_refused now stamp db bad = elim (Option-cases (row db)) [
    | inl e ↦ ground arith
    | inr (t, e) ↦ ground (arith, bad t e)
  ]

  -- A token is consumed at most once: after it was, every further try with the same token and
  -- purpose is refused at whatever time, and changes nothing.
  pub consume_one_time_once :
      (now stamp now' stamp' : ℕ) (db : Db) (user_id : String) (db' : Db)
      → consume_one_time sha256_hex raw purpose now stamp db ≡ (ok user_id, db')
      → consume_one_time sha256_hex raw purpose now' stamp' db' ≡ (err invalid_one_time_token, db')
  consume_one_time_once now stamp now' stamp' db user_id db' h =
      let done = consume_one_time-ok now stamp db user_id db' h in
      consume_one_time_refused now' stamp' db' (λ t e. ground (arith, e, done.found_after))

abbrev pub marked : OneTimeToken → ℕ → Db → Db
marked t stamp db = record db {
  one_time_tokens =
      update_where (λ x. x.digest == t.digest) (mark_consumed stamp) db.one_time_tokens;
}

module _ (sha256_hex : String → String) (raw : String) (now stamp : ℕ) (db : Db)
    (t : OneTimeToken) where
  pub consume_one_time_usable :
      (purpose : String)
      → find (is_one_time (sha256_hex raw) purpose) db.one_time_tokens ≡ some t
      → is_usable now t ≡ true
      → consume_one_time sha256_hex raw purpose now stamp db ≡ (ok t.user_id, marked t stamp db)
  unfolding consume_one_time
  consume_one_time_usable purpose e u = ground (arith, e, u)

  -- A usable verification token makes the account active, whatever its status was.
  pub verify_email_usable :
      (u : User)
      → find (is_one_time (sha256_hex raw) "verify") db.one_time_tokens ≡ some t
      → is_usable now t ≡ true
      → get_user t.user_id db ≡ some u
      → verify_email sha256_hex raw now stamp db
        ≡ (ok tt, modify_user t.user_id activate (marked t stamp db))
  unfolding verify_email
  verify_email_usable u e usable owner =
      ground (arith, consume_one_time_usable "verify" e usable, owner)
