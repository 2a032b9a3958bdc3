-- ===== src/Tests/Bundles.antt =====
-- Token bundles and their status at concrete inputs.
use temis_sso_lab.Base.{ok, err, none, some, false, refl, [], ◌∷◌, find, any, arith}
use temis_sso_lab.Base.Json.{end}
use temis_sso_lab.Persistence.{Db}
use temis_sso_lab.KeyRing.{active, Ring, write}
use temis_sso_lab.Application.Admin.{suspend_user}
use temis_sso_lab.Application.Admin.Calls.{perform, suspend}
use temis_sso_lab.Tokens.Refresh.SingleUse.{IsKeyed}
use temis_sso_lab.Api.Tokens.{TokenBundle, authorization_status, issue_bundle, refresh}
use temis_sso_lab.Api.Tokens.Revoked.{IsReported, authorization_status-perform}
use temis_sso_lab.Tests.Fixtures.{SignedClaims, toy_jose, toy_sha, small_db, account}

abbrev pub ring : Ring toy_jose
ring = record {
  records =
      (record {
        kid = "k1";
        state = active;
        published_at = 0;
        activated_at = some 0;
        retiring_at = none;
      })
      ∷ [];
  private_pem = write "k1" 1 (λ name. none);
  public_pem = write "k1" 1 (λ name. none);
}

abbrev suspended_db : Db
suspended_db = (perform (suspend "left the lab") "root" "ann" 50 51 small_db).1

authorization_status-perform_example :
    IsReported false (authorization_status "key" (some "key") "ann" 1 suspended_db).0
unfolding perform suspend_user find any
authorization_status-perform_example =
    authorization_status-perform "key" (suspend "left the lab") "root" "ann" 50 51 1 small_db
      suspended_db (account "ann" "ann@lab.invalid" "active") refl (omega arith) refl

abbrev issued_db : Db
issued_db = (issue_bundle toy_sha toy_jose ring "ann" "temis-lab" none "r1" 60 61 small_db).1

abbrev pub bundle_or : TokenBundle SignedClaims
bundle_or = elim (issue_bundle toy_sha toy_jose ring "ann" "temis-lab" none "r1" 60 61 small_db).0 [
  | ok b ↦ b
  | err e ↦ record {
    user_id = "";
    access_token = record { claims = end; key = 0; kid = "" };
    refresh_token = "";
    token_type = "";
  }
]

abbrev refreshed_db : Db
refreshed_db =
    (refresh toy_sha toy_jose ring "ann-refresh" "next" "unused" 60 61 62 63 64 small_db).1

abbrev refreshed_bundle : TokenBundle SignedClaims
refreshed_bundle =
    elim (refresh toy_sha toy_jose ring "ann-refresh" "next" "unused" 60 61 62 63 64 small_db).0 [
      | ok b ↦ b
      | err e ↦ bundle_or
    ]

small_db-IsKeyed : IsKeyed small_db.grants
unfolding any
small_db-IsKeyed = (refl, (refl, tt))
