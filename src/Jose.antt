-- ===== src/Jose.antt =====
-- What the program uses of PyJWT and of `cryptography`, as a parameter: keys, their fingerprints,
-- signing, and the checks that `jwt.decode` documents. A time in a claim is in seconds.
use temis_sso_lab.Base.{
  ℕ, ◌≡◌, String, Bool, true, false, not, Option, none, some, List, ◌&&◌, ◌||◌, ◌==◌, ltb, all,
}
use temis_sso_lab.Base.Json.{Value, Items, Fields, nil, cons, null, str, int, arr, get, has_key}

pub record Header : Type 0 where
  pub alg : String
  pub kid : Option String

-- `jwt.decode(…, algorithms=["RS256"], issuer=…, audience=…, options={"require": …})`
pub record Checks : Type 0 where
  pub issuer : Option String
  pub audience : String
  pub required : List String

abbrev pub is_text : Value → String → Bool
is_text (str s) t = s == t
is_text _ t = false

abbrev has_item : Items → String → Bool
has_item nil t = false
has_item (cons v vs) t = is_text v t || has_item vs t

-- The audience claim is a text or a list of texts.
abbrev pub names : Value → String → Bool
names (arr vs) t = has_item vs t
names v t = is_text v t

abbrev matches : Value → Option String → Bool
matches v none = true
matches v (some t) = is_text v t

-- The claims that are required are there, and the issuer and the audience are those asked for.
unfoldable pub agrees : Checks → Fields → Bool
agrees checks claims =
    all (λ name. has_key claims name) checks.required
    && matches (get claims "iss") checks.issuer
    && names (get claims "aud") checks.audience

abbrev is_later : Value → ℕ → Bool
is_later (int n) now = ltb now n
is_later _ now = false

abbrev is_reached : Value → ℕ → Bool
is_reached (int n) now = not (ltb now n)
is_reached null now = true
is_reached _ now = false

-- The expiry lies ahead and the time of issue does not.
unfoldable pub is_timely : ℕ → Fields → Bool
is_timely now claims = is_later (get claims "exp") now && is_reached (get claims "iat") now

abbrev is_text_or_null : Value → Bool
is_text_or_null (str _) = true
is_text_or_null null = true
is_text_or_null _ = false

-- The other claims that `decode` would look at are absent, or of the type that it wants.
unfoldable pub is_plain : Fields → Bool
is_plain claims =
    is_text_or_null (get claims "sub") && not (has_key claims "nbf") && not (has_key claims "jti")

pub record Jose : Type 1 where
  pub PrivateKey : Type 0
  pub PublicKey : Type 0
  -- A token is a text to the program; `read` is what PyJWT sees in a text.
  pub Token : Type 0
  pub read : String → Token
  pub public_key : PrivateKey → PublicKey
  -- The first 16 digits of the SHA-256 of the public key.
  pub fingerprint : PublicKey → String
  pub encode : Fields → PrivateKey → String → Token
  -- `get_unverified_header`; `none` is a `PyJWTError`.
  pub header : Token → Option Header
  -- `none` is a `PyJWTError`.
  pub decode : Token → PublicKey → Checks → ℕ → Option Fields
  -- A signed token shows the algorithm and the key that were used.
  pub header-encode :
      (claims : Fields) (key : PrivateKey) (kid : String)
      → header (encode claims key kid) ≡ some (record { alg = "RS256"; kid = some kid })
  -- The public half of the key accepts a token that agrees with the checks while it is timely.
  pub decode-encode :
      (claims : Fields) (key : PrivateKey) (kid : String) (checks : Checks) (now : ℕ)
      → agrees checks claims ≡ true
      → is_timely now claims ≡ true
      → is_plain claims ≡ true
      → decode (encode claims key kid) (public_key key) checks now ≡ some claims
  -- What is accepted agrees with the checks.
  pub decode-agrees :
      (token : Token) (key : PublicKey) (checks : Checks) (now : ℕ) {claims : Fields}
      → decode token key checks now ≡ some claims
      → agrees checks claims ≡ true
