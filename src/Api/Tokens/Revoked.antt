-- ===== src/Api/Tokens/Revoked.antt =====
-- Tokens after a change of authorization, and refresh tokens that were used
-- (src/temis_sso/api/auth.py).
use temis_sso_lab.Base.{
  resume, subst, find, ℕ, ◌≤◌, String, Bool, true, false, Option, none, some, Result, ok, err, ◌≡◌,
  refl, ap, ◌∙◌, arith, eq_refl, http_exception,
}
use temis_sso_lab.Persistence.{settle, is_user, User, Db, get_user}
use temis_sso_lab.Jose.{Jose}
use temis_sso_lab.KeyRing.{Ring}
use temis_sso_lab.Application.Admin.Calls.{Operation, perform}
use temis_sso_lab.Application.Admin.Revocation.{perform-Invalidated}
use temis_sso_lab.Tokens.Refresh.{rotate_refresh}
use temis_sso_lab.Tokens.Refresh.SingleUse.{
  IsKeyed, IsSpent, rotate_refresh-IsSpent, rotate_refresh-spent,
}
use temis_sso_lab.Api.Tokens.{
  TokenBundle, StatusResult, authorization_status, issue_bundle, refreshed, refresh,
}
use temis_sso_lab.Api.Tokens.Issue.{issue_bundle-ok, issue_bundle-IsSpent}

abbrev pub IsReported : Bool → Result StatusResult → Type 0
IsReported active (ok s) = s.active ≡ active
IsReported active (err e) = ⊥

-- `/auth/status` calls a token's version inactive from the moment that an administrative operation on
-- its user has succeeded, for every version up to the one that the user had.
pub authorization_status-perform :
    (key : String) (op : Operation) (actor_id target_id : String) (now audited version : ℕ)
    (db db' : Db) (u : User)
    → get_user target_id db ≡ some u
    → version ≤ u.authz_version
    → perform op actor_id target_id now audited db ≡ (ok tt, db')
    → IsReported false (authorization_status key (some key) target_id version db').0
unfolding authorization_status
authorization_status-perform key op actor_id target_id now audited version db db' u found le h =
    let over = perform-Invalidated op actor_id target_id now audited db db' h in
    rw (eq_refl, over.found_after) (ground (arith, found, over.found, over.raised))

module _ (sha256_hex : String → String) (jose : Jose) (ring : Ring jose) where
  -- The version of the user for whom a bundle was made is active by `/auth/status` in the database
  -- that the bundle left.
  pub authorization_status-issue_bundle :
      (key user_id audience raw : String) (token : Option String) (granted now : ℕ) (db : Db)
      (b : TokenBundle jose.Token) (db' : Db) (u : User)
      → get_user user_id db ≡ some u
      → issue_bundle sha256_hex jose ring user_id audience token raw granted now db ≡ (ok b, db')
      → IsReported true (authorization_status key (some key) user_id u.authz_version db').0
  unfolding authorization_status
  authorization_status-issue_bundle key user_id audience raw token granted now db b db' u found h =
      let made =
        issue_bundle-ok sha256_hex jose ring user_id audience raw token granted now db b db' h in
      let same : get_user user_id db' ≡ some u = ap (find (is_user user_id)) made.users ∙ found in
      rw (eq_refl, same) (ground (arith, found, made.found, made.active))

  refreshed-IsSpent :
      (digest raw : String) (granted now : ℕ) (r : Option (String × String × String)) (db : Db)
      → IsSpent digest db.grants
      → IsSpent digest (refreshed sha256_hex jose ring raw granted now r db).1.grants
  refreshed-IsSpent digest raw granted now none db s = s
  refreshed-IsSpent digest raw granted now (some (user_id, audience, new_refresh)) db s =
      issue_bundle-IsSpent sha256_hex jose ring digest user_id audience raw (some new_refresh)
        granted now db s

  -- The rotation behind an answer.
  abbrev Behind :
      String
      → ℕ
      → ℕ
      → TokenBundle jose.Token
      → Db
      → Result (Option (String × String × String)) × Db
      → Type 0
  Behind raw granted now b db' out =
      (x : String × String × String) × (db₁ : Db) × (out ≡ (ok (some x), db₁))
      × (refreshed sha256_hex jose ring raw granted now (some x) db₁ ≡ (ok b, db'))

  behind :
      (raw : String) (granted now : ℕ) (db : Db) (b : TokenBundle jose.Token) (db' : Db)
      (r : Result (Option (String × String × String))) (d : Db)
      → resume (settle db (r, d)) (refreshed sha256_hex jose ring raw granted now) ≡ (ok b, db')
      → Behind raw granted now b db' (r, d)
  behind raw granted now db b db' (ok none) d h = absurd (ground arith)
  behind raw granted now db b db' (ok (some x)) d h = (x, d, refl, h)
  behind raw granted now db b db' (err e) d h = absurd (ground arith)

  refresh-ok :
      (token new_raw raw : String) (checked stamp issued granted now : ℕ) (db : Db)
      (b : TokenBundle jose.Token) (db' : Db)
      → refresh sha256_hex jose ring token new_raw raw checked stamp issued granted now db
        ≡ (ok b, db')
      → Behind raw granted now b db'
          (rotate_refresh sha256_hex token new_raw checked stamp issued db)
  unfolding refresh
  refresh-ok token new_raw raw checked stamp issued granted now db b db' h =
      let (r, d) = rotate_refresh sha256_hex token new_raw checked stamp issued db in
      behind raw granted now db b db' r d h

  -- A refresh token buys at most one bundle: after `/auth/refresh` has answered with a bundle, every
  -- further request with the same token is a 401 that changes nothing, whatever it would draw.
  pub refresh_once :
      (token new_raw raw second_raw second : String)
      (checked stamp issued granted now checked' stamp' issued' granted' now' : ℕ) (db : Db)
      (b : TokenBundle jose.Token) (db' : Db)
      → IsKeyed db.grants
      → refresh sha256_hex jose ring token new_raw raw checked stamp issued granted now db
        ≡ (ok b, db')
      → refresh sha256_hex jose ring token second_raw second checked' stamp' issued' granted' now'
          db'
        ≡ (err (http_exception 401 "invalid refresh token"), db')
  unfolding refresh
  refresh_once token new_raw raw second_raw second checked stamp issued granted now checked' stamp'
        issued' granted' now' db b db' keyed h =
      let (x, db₁, rotated, rest) =
        refresh-ok token new_raw raw checked stamp issued granted now db b db' h in
      let digest = sha256_hex token in
      let spent₁ =
        rotate_refresh-IsSpent sha256_hex token new_raw checked stamp issued db keyed rotated in
      let spent : IsSpent digest db'.grants =
        subst (λ (r : Result (TokenBundle jose.Token) × Db). IsSpent digest r.1.grants) rest
          (refreshed-IsSpent digest raw granted now (some x) db₁ spent₁) in
      rw (rotate_refresh-spent sha256_hex token second_raw checked' stamp' issued' db' spent)
