-- ===== src/Tests/Accounts.antt =====
-- Registration, login, one-time tokens and token bundles at concrete inputs.
use temis_sso_lab.Base.{
  ok, err, none, some, invalid_credentials, verification_required, ◌≡◌, refl, find, any, arith,
}
use temis_sso_lab.Base.Text.{lower, strip}
use temis_sso_lab.Persistence.{by_email, modify_user, User, Db, normal_email, get_user, add_audit}
use temis_sso_lab.Application.Admin.{suspend_user}
use temis_sso_lab.Application.Admin.Calls.{perform, suspend}
use temis_sso_lab.Application.Auth.{
  after_success, State, identity, authenticate, consume_one_time, verify_email, reset_password,
  register,
}
use temis_sso_lab.Application.Auth.Lockout.{
  attempt, authenticate_lockout, authenticate_unlocked, ThreeFailures, failed_thrice,
}
use temis_sso_lab.Application.Auth.Enrol.{newcomer, register-verify-authenticate}
use temis_sso_lab.Application.Auth.Reset.{reset_password-authenticate, verify_email-suspend}
use temis_sso_lab.Tests.Fixtures.{toy_sha, toy_hasher, small_db, account, token_of}

abbrev thrice : Db
thrice = attempt toy_hasher "ann@lab.invalid" "c" 30 (
    attempt toy_hasher "ann@lab.invalid" "b" 20
      (attempt toy_hasher "ann@lab.invalid" "a" 10 small_db))

abbrev ann : User
ann = account "ann" "ann@lab.invalid" "active"

ann_failures :
    ThreeFailures toy_hasher "ann@lab.invalid" "a" "b" "c" small_db ann "argon:correct horse"
unfolding find lower strip
ann_failures = record {
  found = refl;
  has_hash = refl;
  zero_failures = refl;
  unlocked = refl;
  first_wrong = refl;
  second_wrong = refl;
  third_wrong = refl;
}

authenticate_lockout_example :
    authenticate toy_hasher "ann@lab.invalid" "correct horse" 1000 thrice
    ≡ (err invalid_credentials, thrice)
authenticate_lockout_example =
    authenticate_lockout toy_hasher "ann@lab.invalid" "a" "b" "c" "correct horse" 10 20 30 1000
      small_db ann "argon:correct horse" ann_failures (omega arith)

authenticate_unlocked_example :
    (authenticate toy_hasher "ann@lab.invalid" "correct horse" 300000030 thrice
      ≡ (ok (identity ann), modify_user "ann" after_success thrice))
    × (by_email "ann@lab.invalid" (modify_user "ann" after_success thrice)
        ≡ some (after_success (failed_thrice toy_hasher "ann@lab.invalid" 10 20 30 ann)))
authenticate_unlocked_example =
    authenticate_unlocked toy_hasher "ann@lab.invalid" "a" "b" "c" "correct horse" 10 20 30
      300000030 small_db ann "argon:correct horse" ann_failures refl refl (omega arith)

abbrev consumed_db : Db
consumed_db = (consume_one_time toy_sha "ann-verify" "verify" 10 11 small_db).1

abbrev start : State
start = record { db = small_db; mailbox = λ email purpose. none }

register-verify-authenticate_example :
    let (result, s') =
      register toy_sha toy_hasher "Eve@Lab.invalid " "a long password" "eve" "salt" "raw" 100
        start in
    let (confirmed, db') = verify_email toy_sha "raw" 200 201 s'.db in
    (result
      ≡ ok (
          identity (
            newcomer toy_hasher toy_sha "Eve@Lab.invalid " "a long password" "eve" "salt" "raw"
              100)))
    × (s'.mailbox (normal_email "Eve@Lab.invalid ") "verify" ≡ some "raw")
    × ((authenticate toy_hasher "Eve@Lab.invalid " "a long password" 300 s'.db).0
        ≡ err verification_required)
    × (confirmed ≡ ok tt)
    × ((authenticate toy_hasher "Eve@Lab.invalid " "a long password" 300 db').0
        ≡ ok (
            identity (
              newcomer toy_hasher toy_sha "Eve@Lab.invalid " "a long password" "eve" "salt" "raw"
                100)))
unfolding any lower strip
register-verify-authenticate_example =
    register-verify-authenticate toy_hasher toy_sha "Eve@Lab.invalid " "a long password" "eve"
      "salt" "raw" 100 start 200 201 300 refl refl (omega arith)

reset_password-authenticate_example :
    let (result, db') =
      reset_password toy_sha toy_hasher "ann-reset" "new password" "salt" 10 11 small_db in
    (result ≡ ok tt)
    × ((authenticate toy_hasher "ann@lab.invalid" "new password" 20 db').0
        ≡ ok (identity (account "ann" "ann@lab.invalid" "active")))
unfolding find lower strip
reset_password-authenticate_example =
    reset_password-authenticate toy_hasher toy_sha "ann-reset" "new password" "salt" 10 11 small_db
      (token_of "ann-reset" "ann" "reset") "ann@lab.invalid"
      (account "ann" "ann@lab.invalid" "active") 20 refl refl refl refl refl refl

abbrev suspended_db : Db
suspended_db = (perform (suspend "left the lab") "root" "ann" 50 51 small_db).1

verify_email-suspend_example :
    let (result, db') = verify_email toy_sha "ann-verify" 60 61 suspended_db in
    (result ≡ ok tt) × ((u : User) × (get_user "ann" db' ≡ some u) × (u.status ≡ "active"))
unfolding perform suspend_user find any add_audit
verify_email-suspend_example =
    verify_email-suspend toy_sha "root" "ann" "left the lab" "ann-verify" 50 51 60 61 small_db
      suspended_db (token_of "ann-verify" "ann" "verify") refl refl refl refl
