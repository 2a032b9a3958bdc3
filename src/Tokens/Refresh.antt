-- ===== src/Tokens/Refresh.antt =====
-- The refresh grants of src/temis_sso/tokens.py. `sha256_hex` is the SHA-256 of a token in
-- hexadecimal, and a new raw token is an argument, as are the readings of the clock.
pub mod SingleUse
use temis_sso_lab.Base.{
  ℕ, ◌+◌, ◌*◌, String, Bool, true, false, Option, none, some, ◌&&◌, ◌==◌, ltb, if◌then◌else◌, find,
  any, update_where, ok, ◌>>=◌, pure,
}
use temis_sso_lab.Persistence.{User, RefreshGrant, Db, Session, has_digest, add_grant}

abbrev pub days : ℕ → ℕ
days n = n * 86400000000

abbrev pub is_null {ℓ} : {A : Type ℓ} → Option A → Bool
is_null none = true
is_null (some _) = false

-- `user_id IN (SELECT id FROM users WHERE status = 'active')`
abbrev pub is_active_user : String → Db → Bool
is_active_user user_id db = any (λ u. u.id == user_id && u.status == "active") db.users

-- The condition of the UPDATE in `rotate_refresh`.
abbrev pub is_live : String → ℕ → Db → RefreshGrant → Bool
is_live digest now db g =
    has_digest digest g
    && is_null g.consumed_at
    && ltb now g.expires_at
    && is_active_user g.user_id db

-- The condition of the UPDATE in `revoke_refresh`.
abbrev pub is_open : String → RefreshGrant → Bool
is_open digest g = has_digest digest g && is_null g.consumed_at

abbrev pub consume : ℕ → RefreshGrant → RefreshGrant
consume now g = record g { consumed_at = some now }

abbrev pub new_grant : String → String → String → ℕ → RefreshGrant
new_grant digest user_id audience now = record {
  digest = digest;
  user_id = user_id;
  audience = audience;
  expires_at = now + days 14;
  consumed_at = none;
}

module _ (sha256_hex : String → String) where
  unfoldable pub issue_refresh : String → String → String → ℕ → Session String
  issue_refresh raw user_id audience now = do
    added ← add_grant (new_grant (sha256_hex raw) user_id audience now)
    pure raw

  abbrev pub spend : String → ℕ → ℕ → Db → Db
  spend digest now stamp db = record db {
    grants = update_where (is_live digest now db) (consume stamp) db.grants;
  }

  -- The row that the UPDATE returns, at most one since the digest is the key.
  rotated :
      String
      → String
      → ℕ
      → ℕ
      → ℕ
      → Option RefreshGrant
      → Session (Option (String × String × String))
  unfolding issue_refresh
  rotated raw new_raw now stamp issued none db = (ok none, db)
  rotated raw new_raw now stamp issued (some g) db =
      (do
        fresh ← issue_refresh new_raw g.user_id g.audience issued
        pure (some (g.user_id, g.audience, fresh)))
        (spend (sha256_hex raw) now stamp db)

  -- `rotate_refresh`: the clock is read for the condition, for `consumed_at` and for the expiry of
  -- the new grant.
  unfoldable pub rotate_refresh :
      String → String → ℕ → ℕ → ℕ → Session (Option (String × String × String))
  unfolding rotated
  rotate_refresh raw new_raw now stamp issued db =
      rotated raw new_raw now stamp issued (find (is_live (sha256_hex raw) now db) db.grants) db

  unfoldable pub revoke_refresh : String → ℕ → Session Bool
  revoke_refresh raw stamp db =
      let digest = sha256_hex raw in
      (
        ok (any (is_open digest) db.grants),
        record db { grants = update_where (is_open digest) (consume stamp) db.grants },
      )
