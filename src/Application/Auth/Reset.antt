-- ===== src/Application/Auth/Reset.antt =====
-- Password reset, and what the tokens do to accounts that are not open
-- (src/temis_sso/application/auth.py).
use temis_sso_lab.Base.{ℕ, ◌≡◌, refl, ap, ◌∙◌, String, true, some, Result, ok, eq_refl, arith, find}
use temis_sso_lab.Persistence.{User, OneTimeToken, Db, by_email, get_user, modify_user, is_one_time}
use temis_sso_lab.Persistence.Laws.{get_user-modify_user_self, by_email-modify_user}
use temis_sso_lab.Application.Admin.Calls.{suspend, perform}
use temis_sso_lab.Application.Admin.Revocation.{perform-Invalidated}
use temis_sso_lab.Application.Auth.OneTime.{consume_one_time_usable, verify_email_usable, marked}
use temis_sso_lab.Application.Auth.Lockout.{authenticate_accepted}
use temis_sso_lab.Application.Auth.{
  Hasher, AuthenticatedUser, identity, set_password, activate, is_usable, reset_password,
  authenticate, verify_email,
}

module _ (hasher : Hasher) (sha256_hex : String → String) (raw password salt : String)
    (now stamp : ℕ) (db : Db) (t : OneTimeToken) where
  reset_password_usable :
      (u : User)
      → find (is_one_time (sha256_hex raw) "reset") db.one_time_tokens ≡ some t
      → is_usable now t ≡ true
      → get_user t.user_id db ≡ some u
      → reset_password sha256_hex hasher raw password salt now stamp db ≡ (
        ok tt,
        modify_user t.user_id (set_password (hasher.hash salt password)) (marked t stamp db),
      )
  unfolding reset_password
  reset_password_usable u e usable owner =
      ground (arith, consume_one_time_usable sha256_hex raw now stamp db t "reset" e usable, owner)

  -- A usable reset token of an active account sets the password: with the new one the account logs in
  -- at once, at any time, also if it was locked.
  pub reset_password-authenticate :
      (email : String) (u : User) (later : ℕ)
      → find (is_one_time (sha256_hex raw) "reset") db.one_time_tokens ≡ some t
      → is_usable now t ≡ true
      → t.user_id ≡ u.id
      → get_user u.id db ≡ some u
      → by_email email db ≡ some u
      → u.status ≡ "active"
      → let (result, db') = reset_password sha256_hex hasher raw password salt now stamp db in
        (result ≡ ok tt) × ((authenticate hasher email password later db').0 ≡ ok (identity u))
  reset_password-authenticate email u later e usable owner by_id by_address status =
      let hash = hasher.hash salt password in
      let reset = modify_user t.user_id (set_password hash) (marked t stamp db) in
      let done = reset_password_usable u e usable (rw owner by_id) in
      let found : by_email email reset ≡ some (set_password hash u) =
        by_email-modify_user t.user_id (set_password hash) (marked t stamp db) email (λ x. refl)
        ∙ rw (by_address, owner, eq_refl) in
      (
        ap (λ (r : Result (Unit {0}) × Db). r.0) done,
        ap (λ (r : Result (Unit {0}) × Db). (authenticate hasher email password later r.1).0) done
            ∙ ap (λ (r : Result AuthenticatedUser × Db). r.0)
                (authenticate_accepted hasher email password later reset (set_password hash u) hash
                  found refl refl (hasher.verify-hash salt password) status),
      )

-- `verify_email` does not look at the status: a verification token of the account that is still
-- usable after `suspend_user` has succeeded makes the suspended account active again.
pub verify_email-suspend :
    (sha256_hex : String → String) (actor_id target_id reason raw : String)
    (suspended audited now stamp : ℕ) (db db' : Db) (t : OneTimeToken)
    → perform (suspend reason) actor_id target_id suspended audited db ≡ (ok tt, db')
    → find (is_one_time (sha256_hex raw) "verify") db'.one_time_tokens ≡ some t
    → is_usable now t ≡ true
    → t.user_id ≡ target_id
    → let (result, db'') = verify_email sha256_hex raw now stamp db' in
      (result ≡ ok tt) × ((u : User) × (get_user target_id db'' ≡ some u) × (u.status ≡ "active"))
verify_email-suspend sha256_hex actor_id target_id reason raw suspended audited now stamp db db' t h
      e usable owner =
    let over = perform-Invalidated (suspend reason) actor_id target_id suspended audited db db' h in
    let done =
      verify_email_usable sha256_hex raw now stamp db' t over.after e usable
        (rw owner over.found_after) in
    let found : get_user t.user_id (marked t stamp db') ≡ some over.after =
      rw owner over.found_after in
    (
      ap (λ (r : Result (Unit {0}) × Db). r.0) done,
      (
        activate over.after,
        ap (λ (r : Result (Unit {0}) × Db). get_user target_id r.1) done
            ∙ rw (← owner) (
                get_user-modify_user_self t.user_id activate (marked t stamp db') (λ x. refl)
                  found),
        refl,
      ),
    )
