-- ===== src/Tests/Fixtures.antt =====
-- Concrete parameters: signing by pairing, hashing by prefixing, and a small database.
use Prim.Native.String.{◌++◌ as append_text}
use temis_sso_lab.Base.{
  ap, Bool, ℕ, String, true, Option, none, some, [], ◌∷◌, ◌≡◌, refl, ◌&&◌, ◌==◌, eq_refl, nat_eq,
  arith, if◌then◌else◌,
}
use temis_sso_lab.Base.Json.{Fields, end}
use temis_sso_lab.Jose.{Jose, Checks, agrees, is_timely, is_plain}
use temis_sso_lab.Persistence.{User, RefreshGrant, OneTimeToken, Db}
use temis_sso_lab.Application.Auth.{Hasher, Verdict, matches, mismatches}
use temis_sso_lab.Tokens.Access.{access_claims}

-- A token that shows its claims, its key and its kid.
pub record SignedClaims : Type 0 where
  pub claims : Fields
  pub key : ℕ
  pub kid : String

abbrev open_token : SignedClaims → ℕ → Checks → ℕ → Option Fields
open_token token key checks now =
    if nat_eq token.key key
      && (agrees checks token.claims && (is_timely now token.claims && is_plain token.claims))
    then some token.claims
    else none

pub open_token-signed :
    (claims : Fields) (key : ℕ) (kid : String) (checks : Checks) (now : ℕ)
    → agrees checks claims ≡ true
    → is_timely now claims ≡ true
    → is_plain claims ≡ true
    → open_token (record { claims = claims; key = key; kid = kid }) key checks now ≡ some claims
open_token-signed claims key kid checks now a t p = ground arith

pub open_token-agrees :
    (token : SignedClaims) (key : ℕ) (checks : Checks) (now : ℕ) {claims : Fields}
    → open_token token key checks now ≡ some claims
    → agrees checks claims ≡ true
open_token-agrees token key checks now {claims} h =
    let opened : token.claims ≡ claims = ground arith in rw (← opened) (ground arith)

abbrev kid_of : ℕ → String
kid_of n = if nat_eq n 1 then "k1" else if nat_eq n 2 then "k2" else "k3"

-- A token of the key `k1` for `ann`, issued at the time zero; its text is `ann-token`.
abbrev pub issued : SignedClaims
issued = record {
  claims =
      access_claims "ann" ("temis:user" ∷ []) "temis-lab" "temis-web"
        ("profile:read" ∷ "reports:read" ∷ []) 1 0;
  key = 1;
  kid = "k1";
}

abbrev pub toy_jose : Jose
toy_jose = record {
  PrivateKey = ℕ;
  PublicKey = ℕ;
  Token = SignedClaims;
  read = λ s. if s == "ann-token" then issued else record { claims = end; key = 0; kid = s };
  public_key = λ key. key;
  fingerprint = kid_of;
  encode = λ claims key kid. record { claims = claims; key = key; kid = kid };
  header = λ token. some (record { alg = "RS256"; kid = some token.kid });
  decode = open_token;
  header-encode = λ claims key kid. refl;
  decode-encode = open_token-signed;
  decode-agrees = open_token-agrees;
}

abbrev pub toy_sha : String → String
toy_sha s = append_text "sha:" s

abbrev toy_verdict : Bool → Verdict
toy_verdict b = if b then matches else mismatches

abbrev pub toy_hasher : Hasher
toy_hasher = record {
  hash = λ salt password. append_text "argon:" password;
  verify = λ hash password. toy_verdict (hash == append_text "argon:" password);
  verify-hash = λ salt password. ap toy_verdict (eq_refl (append_text "argon:" password));
}

abbrev pub account : String → String → String → User
account id email status = record {
  id = id;
  email = email;
  password_hash = some "argon:correct horse";
  status = status;
  authz_version = 1;
  failed_logins = 0;
  locked_until = none;
}

abbrev pub grant_of : String → String → RefreshGrant
grant_of raw user_id = record {
  digest = toy_sha raw;
  user_id = user_id;
  audience = "temis-lab";
  expires_at = 1000;
  consumed_at = none;
}

abbrev pub token_of : String → String → String → OneTimeToken
token_of raw user_id purpose = record {
  digest = toy_sha raw;
  user_id = user_id;
  purpose = purpose;
  expires_at = 1000;
  consumed_at = none;
}

-- An administrator `root`, an active user `ann` with a grant and both one-time tokens, and `bob`,
-- who is pending.
abbrev pub small_db : Db
small_db = record {
  users =
      account "root" "root@lab.invalid" "active"
      ∷ account "ann" "ann@lab.invalid" "active"
      ∷ account "bob" "bob@lab.invalid" "pending"
      ∷ [];
  roles =
      (record { user_id = "root"; role = "admin" })
      ∷ (record { user_id = "ann"; role = "user" })
      ∷ (record { user_id = "bob"; role = "pending" })
      ∷ [];
  grants = grant_of "ann-refresh" "ann" ∷ grant_of "root-refresh" "root" ∷ [];
  one_time_tokens = token_of "ann-verify" "ann" "verify" ∷ token_of "ann-reset" "ann" "reset" ∷ [];
  audit_logs = [];
  links = [];
}
