-- ===== src/Bff/Sessions.antt =====
-- src/temis_bff/sessions.py: the sessions of browsers, under the digest of their id.
use temis_sso_lab.Base.{ℕ, String, Option, ok, Action}
use temis_sso_lab.Base.Text.{append}
use temis_sso_lab.OauthState.{Redis, set, peek, remove}

pub record BffSession : Type 0 where
  pub user_id : String
  pub access_token : String
  pub refresh_token : String
  pub csrf_token : String

module _ (sha256_hex : String → String) where
  abbrev pub session_key : String → String
  unfolding append
  session_key session_id = append "temis-bff:session:" (sha256_hex session_id)

  -- `create`, with the id and the token that are drawn.
  unfoldable pub create_session :
      ℕ → String → String → String → String → String → ℕ → Action (Redis BffSession) String
  unfolding set
  create_session ttl_seconds user_id access_token refresh_token session_id csrf_token now redis = (
    ok session_id,
    set (session_key session_id)
        (record {
          user_id = user_id;
          access_token = access_token;
          refresh_token = refresh_token;
          csrf_token = csrf_token;
        })
        ttl_seconds now redis,
  )

  unfoldable pub get_session : String → ℕ → Redis BffSession → Option BffSession
  unfolding peek
  get_session session_id now redis = peek (session_key session_id) now redis

  unfoldable pub delete_session : String → Redis BffSession → Redis BffSession
  unfolding remove
  delete_session session_id redis = remove (session_key session_id) redis
