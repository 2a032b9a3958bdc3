-- ===== src/Api/Users/Bearer.antt =====
-- Whom a bearer token stands for (src/temis_sso/api/users.py).
use Prim.Native.Nat.{◌/◌}
use temis_sso_lab.Base.{
  ℕ, ◌+◌, ◌<◌, String, true, Option, some, List, ok, err, ◌≡◌, refl, ap, ◌∙◌, find, http_exception,
}
use temis_sso_lab.Base.Json.{get}
use temis_sso_lab.Base.Text.{starts_with, remove_prefix}
use temis_sso_lab.Persistence.{Db, get_user}
use temis_sso_lab.Jose.{Jose}
use temis_sso_lab.KeyRing.{
  KeyRecord, Ring, Event, run_events, configure, has_kid, is_active, second,
}
use temis_sso_lab.KeyRing.Overlap.{IsOrdered, IsFresh}
use temis_sso_lab.Tokens.Access.{access_claims, default_audience, issue_access}
use temis_sso_lab.Tokens.RoundTrip.{verify_access-issue_access}
use temis_sso_lab.Application.Admin.Calls.{suspend, perform}
use temis_sso_lab.Application.Admin.Outcome.{perform-ok}
use temis_sso_lab.Application.Admin.Revocation.{get_user-outcome}
use temis_sso_lab.Api.Users.{current_subject, subject_of, me}

module _ (jose : Jose) where
  open jose use {PrivateKey, Token, read, public_key}

  sub-access_claims :
      (user_id : String) (roles : List String) (audience client_id : String) (scopes : List String)
      (version now : ℕ)
      → subject_of (ok (access_claims user_id roles audience client_id scopes version now))
        ≡ ok user_id
  unfolding access_claims get
  sub-access_claims user_id roles audience client_id scopes version now = refl

  -- The bearer of an access token that was issued for a user at `t` is that user, at every `t'` of
  -- the token's ten minutes, after any key rotation in between, under the hypotheses of
  -- `verify_access-issue_access` on the ring and its events.
  pub current_subject-issue_access :
      (asked overlap t t' : ℕ) (ring : Ring jose) (events : List (ℕ × Event jose))
      (user_id client_id authorization : String) (roles scopes : List String) (version : ℕ)
      {r : KeyRecord} {key : PrivateKey} {token : Token}
      → configure asked ≡ ok overlap
      → find (λ x. is_active x.state) ring.records ≡ some r
      → find (has_kid r.kid) ring.records ≡ some r
      → ring.private_pem r.kid ≡ some key
      → ring.public_pem r.kid ≡ some (public_key key)
      → issue_access jose ring user_id roles default_audience client_id scopes version t ≡ ok token
      → starts_with authorization "Bearer " ≡ true
      → read (remove_prefix authorization "Bearer ") ≡ token
      → IsOrdered t events t'
      → t' / second < t / second + 600
      → IsFresh jose r.kid events
      → current_subject jose (run_events jose overlap events ring) (some authorization) t'
        ≡ ok user_id
  unfolding current_subject
  current_subject-issue_access asked overlap t t' ring events user_id client_id authorization roles
        scopes version conf signs found private public issued bearer carried order until fresh =
      let verified =
        verify_access-issue_access jose asked overlap t t' ring events user_id default_audience
          client_id roles scopes version conf signs found private public issued order until fresh in
      rw (bearer, carried, verified)
        (sub-access_claims user_id roles default_audience client_id scopes version t)

  -- After a suspension has succeeded, `/users/me` refuses whoever bears a token of the target that
  -- still verifies.
  pub me-perform :
      (reason actor_id target_id : String) (now audited checked : ℕ) (ring : Ring jose)
      (authorization : Option String) (db db' : Db)
      → perform (suspend reason) actor_id target_id now audited db ≡ (ok tt, db')
      → current_subject jose ring authorization checked ≡ ok target_id
      → me jose ring authorization checked db'
        ≡ (err (http_exception 403 "user is not active"), db')
  unfolding me
  me-perform reason actor_id target_id now audited checked ring authorization db db' h who =
      let done = perform-ok (suspend reason) actor_id target_id now audited db db' h in
      let found =
        ap (get_user target_id) done.after
        ∙ get_user-outcome (suspend reason) actor_id target_id now audited db done.found in
      rw (who, found) refl
