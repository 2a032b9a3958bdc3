-- ===== src/Tests/Providers.antt =====
-- Logins with the external providers at concrete inputs.
use temis_sso_lab.Base.{
  arith, true, false, none, some, ok, err, [], ◌∷◌, refl, ◌≡◌, ◌==◌, if◌then◌else◌, find, any,
  delete_where, update_where, select_where, Result,
}
use temis_sso_lab.Base.Text.{append, length, lower, strip}
use temis_sso_lab.Base.Json.{Value, str, obj, field, end, get, has_key}
use temis_sso_lab.Persistence.{add_grant, add_role, add_link, create}
use temis_sso_lab.KeyRing.{sign_claims}
use temis_sso_lab.Tokens.Access.{issue_access}
use temis_sso_lab.Tokens.Refresh.{issue_refresh}
use temis_sso_lab.ExternalIdp.Flows.{has_token_chars, consume}
use temis_sso_lab.ExternalIdp.Models.{ExternalIdentity}
use temis_sso_lab.ExternalIdp.Stores.{resolve_link, link_account}
use temis_sso_lab.Http.{Http, Request, Response}
use temis_sso_lab.ExternalIdp.Naver.{NaverAdapter, token_url, exchange_code, fetch_identity}
use temis_sso_lab.Api.Tokens.{issue_bundle}
use temis_sso_lab.Api.Identities.{State, TokenRedirect, new_account, account_user, unlink_account}
use temis_sso_lab.Api.Identities.Owner.{Owned, account_user-Owned}
use temis_sso_lab.Api.Identities.Unlink.{Closed, unlink_account-Closed}
use temis_sso_lab.Api.Naver.{naver_user, naver_session, naver_callback}
use temis_sso_lab.Api.Naver.Callback.{LoggedIn, naver_callback-LoggedIn}
use temis_sso_lab.Api.Identities.Taken.{account_user-unlink_account_taken}
use temis_sso_lab.Base.{integrity_error}
use temis_sso_lab.Tests.Fixtures.{account, SignedClaims, toy_jose, toy_sha, small_db}
use temis_sso_lab.Tests.Bundles.{ring}
use temis_sso_lab.Tests.Externals.{flow, linked_db}
use temis_sso_lab.Persistence.{Db, User, new_user}
use temis_sso_lab.ExternalIdp.Flows.{Drawn, new_flow, issue}
use temis_sso_lab.ExternalIdp.Naver.{authorization_request}
use temis_sso_lab.Api.Oauth.{set_active}
use temis_sso_lab.Api.Tokens.{TokenBundle, bundle}
use temis_sso_lab.Api.Identities.{LoginRedirect, login_redirect, token_redirect}
use temis_sso_lab.Api.Naver.{naver_login}
use temis_sso_lab.Api.Naver.Flow.{naver_callback-naver_login}

abbrev pub page : Value → Response
page v = record { status_code = 200; cache_control = "no-store"; json = ok v }

abbrev naver_answer : Request → Result Response
naver_answer r =
    if r.url == token_url
    then ok (page (obj (field "access_token" (str "t") end)))
    else ok (
        page (
          obj (
            field "resultcode" (str "00") (
              field "response"
                (obj (field "id" (str "n-1") (field "email" (str "ann@lab.invalid") end))) end))))

abbrev pub http_of : (Request → Result Response) → Http
http_of answer = record {
  answer = λ n r. answer r;
  show_value = λ v. "value";
  show_error = λ e. "error";
}

abbrev naver : NaverAdapter
naver = record { client_id = "c"; client_secret = "s"; http = http_of naver_answer }

abbrev started : State
started = record { db = small_db; flows = flow ∷ []; requests = 0 }

-- The address is `ann`'s, and the account is a new one.
abbrev identity : ExternalIdentity
identity = record {
  provider = "naver";
  subject = "n-1";
  email = some "ann@lab.invalid";
  email_verified = false;
}

account_user-Owned_example :
    Owned identity "new-1" "new-1" small_db
      (account_user "@naver.lab.invalid" identity "new-1" 201 small_db).1
unfolding account_user resolve_link find new_account create any update_where add_role add_link lower
    strip append
account_user-Owned_example =
    account_user-Owned "@naver.lab.invalid" identity "new-1" 201 small_db "new-1"
      (account_user "@naver.lab.invalid" identity "new-1" 201 small_db).1 refl

abbrev done : Result (TokenRedirect SignedClaims) × State
done =
    naver_callback naver toy_sha toy_jose ring "s1" "code" (some "browser-binding-1") 200 "new-1"
      201 "r9" 202 203 started

abbrev answer_or : Result (TokenRedirect SignedClaims) → TokenRedirect SignedClaims
answer_or (ok r) = r
answer_or (err e) = record {
  url = "";
  access_token = record { claims = end; key = 0; kid = "" };
  refresh_token = "";
  token_type = "";
}

naver_callback-LoggedIn_example :
    LoggedIn naver toy_sha toy_jose ring "s1" "code"
      (some "browser-binding-1")
      200
      "new-1"
      203
      started
      done.1
unfolding naver_callback naver_session naver_user consume has_token_chars length exchange_code
    fetch_identity has_key get account_user resolve_link find new_account create any update_where
    add_role add_link lower strip issue_bundle select_where add_grant issue_access sign_claims
    issue_refresh delete_where append
naver_callback-LoggedIn_example =
    naver_callback-LoggedIn naver toy_sha toy_jose ring "s1" "code" (some "browser-binding-1") 200
      "new-1" 201 "r9" 202 203 started done.1 (answer_or done.0) refl

unlink_account-Closed_example :
    Closed "google" "ann"
      (λ n. (ok true, n))
      (record started { db = linked_db })
      (ok tt)
      (unlink_account "google" "ann" "missing" "refused"
        (λ n. (ok true, n))
        (record started { db = linked_db })).1
unfolding unlink_account find any add_link link_account
unlink_account-Closed_example =
    unlink_account-Closed "google" "ann" (λ n. (ok true, n)) (record started { db = linked_db })
      "missing" "refused"

abbrev joined_db : Db
joined_db = (account_user "@naver.lab.invalid" identity "new-1" 201 small_db).1

-- The identity with another email.
abbrev moved : ExternalIdentity
moved = record identity { email = some "bob@lab.invalid" }

abbrev joined : State
joined = record started { db = joined_db }

-- The identity with an email that is nobody's.
abbrev fresh : ExternalIdentity
fresh = record identity { email = some "eve@lab.invalid" }

abbrev settled_db : Db
settled_db = (account_user "@naver.lab.invalid" fresh "new-1" 201 small_db).1

abbrev settled : State
settled = record started { db = settled_db }

abbrev withdrawn : State
withdrawn = (unlink_account "naver" "new-1" "missing" "refused" (λ n. (ok true, n)) settled).1

abbrev rejoined_db : Db
rejoined_db = (account_user "@naver.lab.invalid" fresh "new-2" 401 withdrawn.db).1

abbrev newcomer : User
newcomer = set_active (new_user "new-1" "eve@lab.invalid" none)

abbrev drawn : Drawn
drawn = record { state = "s2"; nonce = "n2"; verifier = "v2" }

abbrev begun : Result LoginRedirect × State
begun = naver_login naver toy_sha "browser-binding-1" 300 drawn joined

abbrev login : LoginRedirect
login = login_redirect "naver_browser_binding" "browser-binding-1" (
    authorization_request naver
      (new_flow toy_sha "http://localhost:8000/oauth/naver/callback" 300 "browser-binding-1" drawn))

abbrev bundle_of : Result (TokenBundle SignedClaims) → TokenBundle SignedClaims
bundle_of (ok b) = b
bundle_of (err e) = bundle "" (record { claims = end; key = 0; kid = "" }) ""

abbrev made : Result (TokenBundle SignedClaims) × Db
made = issue_bundle toy_sha toy_jose ring "new-1" "lab-client" none "r12" 402 403 begun.1.db

abbrev returned : Result (TokenRedirect SignedClaims) × State
returned =
    naver_callback naver toy_sha toy_jose ring "s2" "code" (some "browser-binding-1") 400 "new-2"
      401 "r12" 402 403 begun.1

naver_callback-naver_login_example :
    (returned.0 ≡ ok (token_redirect (bundle_of made.0))) × (returned.1.db ≡ made.1)
unfolding naver_login issue authorization_request find has_token_chars length exchange_code has_key
    get fetch_identity strip resolve_link account_user new_account create any lower append add_role
    add_link update_where delete_where issue_bundle select_where issue_access sign_claims
    issue_refresh add_grant naver_callback naver_session naver_user consume
naver_callback-naver_login_example =
    naver_callback-naver_login naver toy_sha toy_jose ring toy_sha "browser-binding-1" 300 drawn
      joined login begun.1 "s2" "code" 400 "t" identity "new-1" "new-2" 401 "r12" 402 403
      (bundle_of made.0) made.1 refl refl (omega arith) refl refl refl refl refl

abbrev left : State
left = (unlink_account "naver" "new-1" "missing" "refused" (λ n. (ok true, n)) joined).1

abbrev ann_row : User
ann_row = account "ann" "ann@lab.invalid" "active"

account_user-unlink_account_taken_example :
    account_user "@naver.lab.invalid" identity "new-2" 401 left.db ≡ (err integrity_error, left.db)
unfolding account_user resolve_link find new_account create any update_where add_role add_link lower
    strip append unlink_account
account_user-unlink_account_taken_example =
    account_user-unlink_account_taken "@naver.lab.invalid" identity "new-1" "new-2" 201 401 small_db
      ann_row "new-1" "missing" "refused" (λ n. (ok true, n)) joined left refl refl refl refl refl
