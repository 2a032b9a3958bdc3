-- ===== src/ExternalIdp/Kakao/Oidc.antt =====
-- `KakaoOidcAdapter.verify` of src/temis_sso/external_idp/kakao.py.
use temis_sso_lab.Base.{
  ℕ, String, Option, none, some, [], ◌∷◌, ◌==◌, if◌then◌else◌, Result, ok, err, value_error,
  type_error, Exception, attribute_error, invalid_token, Action, ◌>>=◌, lift,
}
use temis_sso_lab.Base.Json.{
  Value, Fields, Items, nil, cons, str, obj, arr, end, get, has_key, as_str, is_true,
}
use temis_sso_lab.Jose.{Jose, Header, Checks, is_text}
use temis_sso_lab.ExternalIdp.Models.{ExternalIdentity}
use temis_sso_lab.Http.{Http, get_of, send, as_dict, as_name}

abbrev pub issuer : String
issuer = "https://kauth.kakao.com"

abbrev pub jwks_uri : String
jwks_uri = "https://kauth.kakao.com/.well-known/jwks.json"

abbrev pub invalid : Exception
invalid = value_error "invalid"

-- `if not kid`
abbrev pub kid_of : Option Header → Result String
kid_of none = err (invalid_token "header")
kid_of (some header) = elim header.kid [
  | none ↦ err invalid
  | some kid ↦ if kid == "" then err invalid else ok kid
]

-- The items of `keys`, for a loop that calls `get` on each.
abbrev pub key_items : Value → Result Items
key_items (arr items) = ok items
key_items (str s) = if s == "" then ok nil else err attribute_error
key_items (obj end) = ok nil
key_items (obj _) = err attribute_error
key_items _ = err (type_error "object is not iterable")

abbrev pub keys_of : Fields → Result Items
keys_of payload = if has_key payload "keys" then key_items (get payload "keys") else ok nil

-- `next((k for k in keys if k.get("kid") == kid), None)`, and the check that there is one.
unfoldable pub target_jwk : String → Items → Result Fields
target_jwk kid nil = err invalid
target_jwk kid (cons (obj key) keys) =
    if is_text (get key "kid") kid then ok key else target_jwk kid keys
target_jwk kid (cons _ keys) = err attribute_error

abbrev pub checks : String → Checks
checks client_id = record {
  issuer = none;
  audience = client_id;
  required = "exp" ∷ "iat" ∷ "iss" ∷ "aud" ∷ "sub" ∷ [];
}

abbrev pub kakao_subject : Fields → String → ExternalIdentity
kakao_subject claims subject = record {
  provider = "kakao";
  subject = subject;
  email = as_str (get claims "email");
  email_verified = is_true (get claims "email_verified");
}

-- The checks after `jwt.decode`.
abbrev pub identity_of : String → Option Fields → Result ExternalIdentity
identity_of expected_nonce none = err invalid
identity_of expected_nonce (some claims) =
    if is_text (get claims "iss") issuer
    then if is_text (get claims "nonce") expected_nonce
      then elim (as_name (get claims "sub")) [
        | none ↦ err invalid
        | some subject ↦ ok (kakao_subject claims subject)
      ]
      else err (value_error "nonce")
    else err invalid

-- `from_jwk` is `jwt.PyJWK.from_dict(...).key`; `now` is the clock of PyJWT.
module _ (jose : Jose) (from_jwk : Fields → Result jose.PublicKey) (http : Http) where
  open jose use {read, header, decode}

  unfoldable pub verify : String → String → String → ℕ → Action ℕ ExternalIdentity
  verify client_id encoded_id_token expected_nonce now = do
    kid ← lift (kid_of (header (read encoded_id_token)))
    response ← send http (get_of jwks_uri [])
    payload ← lift response.json
    document ← lift (as_dict payload)
    keys ← lift (keys_of document)
    target ← lift (target_jwk kid keys)
    public_key ← lift (from_jwk target)
    lift (
        identity_of expected_nonce
          (decode (read encoded_id_token) public_key (checks client_id) now))
