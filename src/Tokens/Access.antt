-- ===== src/Tokens/Access.antt =====
-- `RingTokenCodec` of src/temis_sso/tokens.py: access tokens over the key ring. A time is a number
-- of microseconds; the claims hold seconds.
use Prim.Native.Nat.{◌/◌}
use temis_sso_lab.Base.{
  ℕ, ◌+◌, ◌*◌, String, Option, none, some, List, [], ◌∷◌, ◌==◌, Result, ok, err, Exception,
  invalid_token, value_error, if◌then◌else◌,
}
use temis_sso_lab.Base.Json.{Items, Fields, nil, cons, str, int, arr, end, field}
use temis_sso_lab.Base.Text.{join}
use temis_sso_lab.Jose.{Jose, Checks}
use temis_sso_lab.KeyRing.{Ring, second, sign_claims, verification_key}

abbrev pub issuer : String
issuer = "https://auth.lab.invalid"

abbrev pub default_audience : String
default_audience = "temis-lab"

abbrev pub role_claim : String
role_claim = "https://temis.lab/roles"

abbrev pub default_client : String
default_client = "temis-web"

abbrev texts : List String → Items
texts [] = nil
texts (s ∷ ss) = cons (str s) (texts ss)

-- `scopes or ["profile:read"]`
abbrev scopes_or : List String → List String
scopes_or [] = "profile:read" ∷ []
scopes_or scopes = scopes

unfoldable pub access_claims : String → List String → String → String → List String → ℕ → ℕ → Fields
access_claims user_id roles audience client_id scopes authz_version now = field "iss" (str issuer) (
    field "aud" (str audience) (
      field "sub" (str user_id) (
        field "azp" (str client_id) (
          field "scope" (str (join " " (scopes_or scopes))) (
            field role_claim (arr (texts roles)) (
              field "authz_version" (int authz_version) (
                field "auth_time" (int (now / second)) (
                  field "iat" (int (now / second))
                    (field "exp" (int ((now + 600 * second) / second)) end)))))))))

abbrev pub access_checks : String → Checks
access_checks audience = record {
  issuer = some issuer;
  audience = audience;
  required = "iss" ∷ "aud" ∷ "sub" ∷ "exp" ∷ [];
}

-- The `except ValueError`: a key that is not published makes the token invalid.
abbrev retired_key : Exception → Exception
retired_key (value_error _) = invalid_token "signing key is retired"
retired_key e = e

abbrev or_invalid : Option Fields → Result Fields
or_invalid none = err (invalid_token "invalid")
or_invalid (some claims) = ok claims

module _ (jose : Jose) where
  open jose use {PublicKey, Token, header, decode}

  unfoldable pub issue_access :
      Ring jose → String → List String → String → String → List String → ℕ → ℕ → Result Token
  issue_access ring user_id roles audience client_id scopes authz_version now =
      sign_claims jose ring
        (access_claims user_id roles audience client_id scopes authz_version now)

  abbrev decode_with : Token → String → ℕ → Result PublicKey → Result Fields
  decode_with token audience now (err e) = err (retired_key e)
  decode_with token audience now (ok key) =
      or_invalid (decode token key (access_checks audience) (now / second))

  abbrev verify_header : Ring jose → Token → String → ℕ → String → Option String → Result Fields
  verify_header ring token audience now alg none = err (invalid_token "RS256 kid required")
  verify_header ring token audience now alg (some kid) =
      if alg == "RS256"
      then decode_with token audience now (verification_key jose ring kid)
      else err (invalid_token "RS256 kid required")

  unfoldable pub verify_access : Ring jose → Token → String → ℕ → Result Fields
  verify_access ring token audience now = elim (header token) [
    | none ↦ err (invalid_token "invalid")
    | some h ↦ verify_header ring token audience now h.alg h.kid
  ]
