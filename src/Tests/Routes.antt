-- ===== src/Tests/Routes.antt =====
-- The routes for accounts, users and administrators at concrete inputs.
use temis_sso_lab.Base.{
  update_where, ok, err, some, http_exception, ◌≡◌, refl, [], ◌∷◌, arith, String, ◌*◌, find, any,
  inr, eq_iff, ◌≢◌, select_where,
}
use temis_sso_lab.Base.Text.{starts_with, remove_prefix, has_text, length, lower, strip}
use temis_sso_lab.Persistence.{Db, add_grant}
use temis_sso_lab.KeyRing.{minimum_overlap, second, run_events, configure, sign_claims}
use temis_sso_lab.Tokens.Access.{issue_access}
use temis_sso_lab.Tokens.Refresh.{issue_refresh}
use temis_sso_lab.Application.Auth.{AuthenticatedUser, authenticate}
use temis_sso_lab.Application.Auth.Lockout.{LoggedIn}
use temis_sso_lab.Application.Admin.Calls.{perform, suspend}
use temis_sso_lab.Api.Tokens.{TokenBundle, issue_bundle}
use temis_sso_lab.Api.Tokens.Issue.{Issued}
use temis_sso_lab.Api.Users.{current_subject}
use temis_sso_lab.Api.Users.Bearer.{current_subject-issue_access}
use temis_sso_lab.Api.Accounts.{login}
use temis_sso_lab.Api.Accounts.Answers.{login_stranger, login-LoggedIn}
use temis_sso_lab.Tests.Fixtures.{SignedClaims, toy_jose, toy_sha, toy_hasher, small_db, account}
use temis_sso_lab.Tests.Keys.{ring, rotation, k2_not_k1}
use temis_sso_lab.Tests.Bundles.{bundle_or}

current_subject-issue_access_example :
    current_subject toy_jose
      (run_events toy_jose minimum_overlap rotation ring)
      (some "Bearer ann-token")
      (500 * second)
    ≡ ok "ann"
unfolding configure find issue_access sign_claims starts_with remove_prefix
current_subject-issue_access_example =
    current_subject-issue_access toy_jose minimum_overlap minimum_overlap 0 (500 * second) ring
      rotation "ann" "temis-web" "Bearer ann-token" ("temis:user" ∷ [])
      ("profile:read" ∷ "reports:read" ∷ []) 1 refl refl refl refl refl refl refl refl (omega arith)
      (omega arith) (k2_not_k1, tt)

abbrev suspended_db : Db
suspended_db = (perform (suspend "left the lab") "root" "ann" 50 51 small_db).1

bearer : current_subject toy_jose ring (some "Bearer ann-token") 9 ≡ ok "ann"
unfolding configure find issue_access sign_claims starts_with remove_prefix run_events
bearer =
    current_subject-issue_access toy_jose minimum_overlap minimum_overlap 0 9 ring [] "ann"
      "temis-web" "Bearer ann-token" ("temis:user" ∷ []) ("profile:read" ∷ "reports:read" ∷ []) 1
      refl refl refl refl refl refl refl refl (omega arith) (omega arith) tt

ann_not_root : ◌≢◌ {A = String} "ann" "root"
ann_not_root = ground (arith, eq_iff "ann" "root")

login_stranger_example :
    (login toy_sha toy_hasher toy_jose ring "ann@lab.invalid" "a wrong password" "r1" 60 61 62
      small_db).0
    ≡ err (http_exception 401 "invalid credentials")
unfolding has_text length find lower strip
login_stranger_example =
    login_stranger toy_sha toy_hasher toy_jose ring "ann@lab.invalid" "a wrong password" "r1" 60 61
      62 small_db refl
      (inr
        (account "ann" "ann@lab.invalid" "active", refl, inr ("argon:correct horse", refl, refl)))

abbrev login_db : Db
login_db =
    (login toy_sha toy_hasher toy_jose ring "ann@lab.invalid" "correct horse" "r1" 60 61 62
      small_db).1

abbrev login_bundle : TokenBundle SignedClaims
login_bundle =
    elim (login toy_sha toy_hasher toy_jose ring "ann@lab.invalid" "correct horse" "r1" 60 61 62
      small_db).0 [ ok b ↦ b | err e ↦ bundle_or ]

login-LoggedIn_example :
    (who : AuthenticatedUser) × (db₁ : Db) × LoggedIn toy_hasher "ann@lab.invalid" "correct horse"
      60 small_db who db₁
    × Issued toy_sha toy_jose ring who.user_id "temis-lab" 62 db₁ login_bundle login_db
unfolding update_where login authenticate has_text length find lower strip issue_bundle any
    select_where add_grant issue_access sign_claims issue_refresh
login-LoggedIn_example =
    login-LoggedIn toy_sha toy_hasher toy_jose ring "ann@lab.invalid" "correct horse" "r1" 60 61 62
      small_db login_bundle login_db refl
