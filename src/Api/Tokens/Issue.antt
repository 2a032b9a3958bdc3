-- ===== src/Api/Tokens/Issue.antt =====
-- `issue_bundle` of src/temis_sso/api/auth.py: for whom tokens are made, and what they say.
use temis_sso_lab.Base.{
  inr, inl, Bool-cases, Option-cases, ℕ, String, true, Option, none, some, map, ok, ◌≡◌, arith,
  ◌==◌,
}
use temis_sso_lab.Persistence.{User, Db, get_user, add_grant}
use temis_sso_lab.Jose.{Jose}
use temis_sso_lab.KeyRing.{Ring}
use temis_sso_lab.Tokens.Access.{default_client, issue_access}
use temis_sso_lab.Tokens.Refresh.{issue_refresh}
use temis_sso_lab.Tokens.Refresh.SingleUse.{IsSpent, issue_refresh-IsSpent}
use temis_sso_lab.Api.Tokens.{
  TokenBundle, roles_of, scopes_of, role_name, refresh_or_issue, issue_bundle,
}

module _ (sha256_hex : String → String) (jose : Jose) (ring : Ring jose) where
  users-issue_refresh :
      (raw user_id audience : String) (now : ℕ) (db : Db)
      → (issue_refresh sha256_hex raw user_id audience now db).1.users ≡ db.users
  unfolding issue_refresh add_grant
  users-issue_refresh raw user_id audience now db = ground arith

  users-refresh_or_issue :
      (token : Option String) (raw user_id audience : String) (now : ℕ) (db : Db)
      → (refresh_or_issue sha256_hex jose token raw user_id audience now db).1.users ≡ db.users
  users-refresh_or_issue none raw user_id audience now db =
      users-issue_refresh raw user_id audience now db
  users-refresh_or_issue (some token) raw user_id audience now db =
      ground (arith, users-issue_refresh raw user_id audience now db)

  IsSpent-refresh_or_issue :
      (digest : String) (token : Option String) (raw user_id audience : String) (now : ℕ) (db : Db)
      → IsSpent digest db.grants
      → IsSpent digest (refresh_or_issue sha256_hex jose token raw user_id audience now db).1.grants
  IsSpent-refresh_or_issue digest none raw user_id audience now db s =
      issue_refresh-IsSpent sha256_hex digest raw user_id audience now db s
  IsSpent-refresh_or_issue digest (some token) raw user_id audience now db s =
      elim (Bool-cases (token == "")) [
        | inl e ↦ rw e (issue_refresh-IsSpent sha256_hex digest raw user_id audience now db s)
        | inr e ↦ rw e s
      ]

  -- What a bundle that was made rests on.
  pub record Issued (user_id audience : String) (now : ℕ) (db : Db) (b : TokenBundle jose.Token)
      (db' : Db) : Type 0 where
    pub user : User
    pub found : get_user user_id db ≡ some user
    pub active : (user.status == "active") ≡ true
    pub owner : b.user_id ≡ user_id
    pub signed :
        issue_access jose ring user_id
          (map role_name (roles_of user_id db))
          audience
          default_client
          (scopes_of (roles_of user_id db))
          user.authz_version
          now
        ≡ ok b.access_token
    pub users : db'.users ≡ db.users

  -- A bundle is made only for an active user; its access token carries the version and the roles of
  -- the database at that moment, and no account is changed.
  pub issue_bundle-ok :
      (user_id audience raw : String) (token : Option String) (granted now : ℕ) (db : Db)
      (b : TokenBundle jose.Token) (db' : Db)
      → issue_bundle sha256_hex jose ring user_id audience token raw granted now db ≡ (ok b, db')
      → Issued user_id audience now db b db'
  unfolding issue_bundle
  issue_bundle-ok user_id audience raw token granted now db b db' h =
      elim (Option-cases (get_user user_id db)) [
        | inl e ↦ absurd (ground arith)
        | inr (u, e) ↦ record {
          user = u;
          found = e;
          active = ground arith;
          owner = ground arith;
          signed = ground arith;
          users = ground (arith, users-refresh_or_issue token raw user_id audience granted db);
        }
      ]

  pub issue_bundle-IsSpent :
      (digest user_id audience raw : String) (token : Option String) (granted now : ℕ) (db : Db)
      → IsSpent digest db.grants
      → IsSpent digest
          (issue_bundle sha256_hex jose ring user_id audience token raw granted now db).1.grants
  unfolding issue_bundle
  issue_bundle-IsSpent digest user_id audience raw token granted now db s =
      let kept = IsSpent-refresh_or_issue digest token raw user_id audience granted db s in
      record {
        known = ground (arith, s.known, kept.known);
        closed = ground (arith, s.closed, kept.closed);
      }
