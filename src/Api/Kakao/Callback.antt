-- ===== src/Api/Kakao/Callback.antt =====
-- What comes of the callback of src/temis_sso/api/kakao_oauth.py.
use temis_sso_lab.Base.{ℕ, String, some, ok, err, name_error, ◌≡◌, refl}
use temis_sso_lab.Jose.{Jose}
use temis_sso_lab.KeyRing.{Ring}
use temis_sso_lab.ExternalIdp.Flows.{ExternalFlow, consume, consume-is_binding, is_binding-named}
use temis_sso_lab.Http.{Http}
use temis_sso_lab.Api.Identities.{State}
use temis_sso_lab.Api.Kakao.{Settings, ttl_seconds, kakao_session, kakao_callback}

-- A callback whose state and cookie are right uses the state up and then ends with a `NameError`: no
-- browser is logged in by Kakao, whatever the provider would answer, and the database is as it was.
pub kakao_callback_name_error :
    (settings : Settings) (http : Http) (sha256_hex : String → String) (jose : Jose)
    (ring : Ring jose) (state binding : String) (now : ℕ) (raw : String) (granted signed : ℕ)
    (s : State) (flow : ExternalFlow)
    → (consume ttl_seconds state now binding s.flows).0 ≡ ok flow
    → kakao_callback settings http sha256_hex jose ring state
        (some binding)
        now
        raw
        granted
        signed
        s
      ≡ (err name_error, record s { flows = (consume ttl_seconds state now binding s.flows).1 })
unfolding kakao_callback kakao_session
kakao_callback_name_error settings http sha256_hex jose ring state binding now raw granted signed s
      flow h =
    let named =
      is_binding-named binding (consume-is_binding ttl_seconds state now binding s.flows h) in
    rw (named, h) refl
