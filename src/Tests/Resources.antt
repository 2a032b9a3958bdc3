-- ===== src/Tests/Resources.antt =====
-- The resource service at concrete inputs.
use temis_sso_lab.Jose.{agrees, is_timely, is_plain}
use temis_sso_lab.Tokens.Access.{access_claims}
use temis_sso_lab.Base.{inl, arith, all, ◌==◌, ok, some, true, ◌≡◌, refl, [], ◌∷◌, find, any, All}
use temis_sso_lab.Base.Json.{has_key, Fields, field, end, str, arr, obj, nil, cons, get}
use temis_sso_lab.Base.Text.{join, split, starts_with, remove_prefix}
use temis_sso_lab.ResourceApi.Verifier.{
  Settings, Principal, Cache, Services, read_keys, safe_refresh, refresh_due,
}
use temis_sso_lab.ResourceApi.Verifier.Authenticate.{
  signing_key, check_status, authenticate, texts_of,
}
use temis_sso_lab.ResourceApi.Verifier.Status.{IsConfirmed, IsCurrent, check_status-IsCurrent}
use temis_sso_lab.ResourceApi.Verifier.Accepted.{Accepted}
use temis_sso_lab.ResourceApi.Reports.{reports, is_allowed}
use temis_sso_lab.ResourceApi.Reports.Granted.{reports-Accepted}
use temis_sso_lab.ResourceApi.Verifier.Stale.{IsSound}
use temis_sso_lab.ResourceApi.Verifier.Bounded.{Recent, signing_key-Recent}
use temis_sso_lab.Tests.Fixtures.{toy_jose, issued}

abbrev settings : Settings
settings = record {
  issuer = "https://auth.lab.invalid";
  audience = "temis-lab";
  authorized_party = "temis-web";
  jwks_ttl = 300;
  jwks_stale_ttl = 600;
  status_ttl = 30;
  refresh_cooldown = 1;
  half_minute = 30;
}

abbrev document : Fields
document =
    field "keys" (arr (cons (obj (field "alg" (str "RS256") (field "kid" (str "k1") end))) nil)) end

abbrev services : Services toy_jose
services = record {
  clock = λ n. n;
  fetch_jwks = λ n. ok document;
  status_check = λ n subject version. ok true;
  from_jwk = λ fields. ok (some 1);
  show_value = λ v. "";
}

abbrev cold : Cache toy_jose
cold = record {
  keys = [];
  jwks_until = 0;
  jwks_stale_until = 0;
  status = [];
  negative_kids = [];
  unknown_refresh_after = 0;
  refresh_error_until = 0;
  readings = 0;
}

abbrev ann : Principal
ann = record {
  subject = "ann";
  scopes = "profile:read" ∷ "reports:read" ∷ [];
  roles = "temis:user" ∷ [];
  authz_version = 1;
}

abbrev warm : Cache toy_jose
warm = (authenticate toy_jose settings services issued 9 cold).1

abbrev checked : Cache toy_jose
checked = (check_status toy_jose settings services "ann" 1 cold).1

check_status-IsCurrent_example :
    IsCurrent toy_jose settings services 0 checked.readings "ann" 1
    × All (IsConfirmed toy_jose settings services) checked.status
unfolding check_status find
check_status-IsCurrent_example =
    check_status-IsCurrent toy_jose settings services "ann" 1 cold checked tt refl

reports-Accepted_example :
    (starts_with "Bearer ann-token" "Bearer " ≡ true)
    × ((p : Principal) × Accepted toy_jose settings services issued 9 cold p warm
        × ("ann" ≡ p.subject)
        × (any (λ s. s == "reports:read") p.scopes ≡ true)
        × (is_allowed p ≡ true))
unfolding reports starts_with remove_prefix authenticate signing_key refresh_due safe_refresh
    read_keys check_status split texts_of find any get agrees all has_key access_claims is_timely
    is_plain join
reports-Accepted_example =
    reports-Accepted toy_jose settings services "Bearer ann-token" 9 cold warm "ann" refl

abbrev with_key : Cache toy_jose
with_key = (signing_key toy_jose settings services "k1" cold).1

signing_key-Recent_example :
    IsSound toy_jose settings services with_key
    × Recent toy_jose settings services 0 "k1" 1 with_key
unfolding signing_key refresh_due safe_refresh read_keys find get agrees
signing_key-Recent_example =
    signing_key-Recent toy_jose settings services "k1" cold 1 with_key (λ n. omega arith) (inl refl)
      refl
