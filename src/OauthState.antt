-- ===== src/OauthState.antt =====
-- src/temis_sso/oauth_state.py: values in Redis that are taken once, and the PKCE challenge.
-- A Redis database is the list of its entries; `SET` with `EX`, `GET`, `GETDEL` and `DEL` act on it.
-- SHA-256 and base64 are parameters; a value is the dictionary that its JSON text stands for.
pub mod Laws
pub mod Spec
use temis_sso_lab.Base.{
  ℕ, ◌+◌, ◌*◌, String, Bool, Option, none, some, List, [], ◌∷◌, ◌&&◌, ◌==◌, ltb, if◌then◌else◌,
  find, delete_where, Result, ok, err, key_error, Action, ◌>>=◌, lift,
}
use temis_sso_lab.Base.Text.{append}

pub record Entry (V : Type 0) : Type 0 where
  pub key : String
  pub value : V
  pub expires_at : ℕ

abbrev pub Redis : Type 0 → Type 0
Redis V = List (Entry V)

module _ {V : Type 0} where
  abbrev pub has_key : String → Entry V → Bool
  has_key key e = e.key == key

  abbrev pub is_held : String → ℕ → Entry V → Bool
  is_held key now e = e.key == key && ltb now e.expires_at

  abbrev pub value_of : Option (Entry V) → Option V
  value_of none = none
  value_of (some e) = some e.value

  -- `SET key value EX ttl`
  unfoldable pub set : String → V → ℕ → ℕ → Redis V → Redis V
  set key value ttl_seconds now redis =
      (record { key = key; value = value; expires_at = now + ttl_seconds * 1000000 })
      ∷ delete_where (has_key key) redis

  -- `GET key`
  unfoldable pub peek : String → ℕ → Redis V → Option V
  peek key now redis = value_of (find (is_held key now) redis)

  -- `DEL key`
  unfoldable pub remove : String → Redis V → Redis V
  remove key redis = delete_where (has_key key) redis

  -- `GETDEL key`
  unfoldable pub getdel : String → ℕ → Action (Redis V) (Option V)
  unfolding peek remove
  getdel key now redis = (ok (peek key now redis), remove key redis)

-- A `dict[str, str]`, and `d[key]`.
abbrev pub Dict : Type 0
Dict = List (String × String)

unfoldable pub item : Dict → String → Result String
item [] key = err (key_error key)
item ((k, v) ∷ d) key = if k == key then ok v else item d key

pub record OAuthTransaction : Type 0 where
  pub client_id : String
  pub redirect_uri : String
  pub code_challenge : String
  pub provider : String
  pub client_state : String

-- `asdict`
abbrev pub as_dict : OAuthTransaction → Dict
as_dict t =
    ("client_id", t.client_id)
    ∷ ("redirect_uri", t.redirect_uri)
    ∷ ("code_challenge", t.code_challenge)
    ∷ ("provider", t.provider)
    ∷ ("client_state", t.client_state)
    ∷ []

-- `d[key]`, and what is done with it.
abbrev pub with_item : {A : Type 0} → Dict → String → (String → Result A) → Result A
with_item d key f = elim (item d key) [ ok v ↦ f v | err e ↦ err e ]

-- `OAuthTransaction(**value)`
unfoldable pub transaction_of : Dict → Result OAuthTransaction
transaction_of d = with_item d "client_id" (λ client_id. with_item d "redirect_uri" (λ redirect_uri.
    with_item d "code_challenge" (λ code_challenge. with_item d "provider" (λ provider.
      with_item d "client_state" (λ client_state. ok (record {
        client_id = client_id;
        redirect_uri = redirect_uri;
        code_challenge = code_challenge;
        provider = provider;
        client_state = client_state;
      }))))))

-- What the standard library's `hashlib` and `base64` compute: the digest in hexadecimal, and the
-- digest in base64 without its padding.
pub record Digests : Type 0 where
  pub sha256_hex : String → String
  pub sha256_b64url : String → String

module _ (digests : Digests) where
  unfoldable pub pkce_challenge : String → String
  pkce_challenge verifier = digests.sha256_b64url verifier

  -- `_key`
  unfoldable pub store_key : String → String → String
  unfolding append
  store_key namespace raw =
      append "temis-lab:" (append namespace (append ":" (digests.sha256_hex raw)))

  -- `put`, with the raw value that was drawn.
  unfoldable pub put : String → Dict → ℕ → String → ℕ → Action (Redis Dict) String
  unfolding store_key set
  put namespace value ttl_seconds raw now redis =
      (ok raw, set (store_key namespace raw) value ttl_seconds now redis)

  unfoldable pub take : String → String → ℕ → Action (Redis Dict) (Option Dict)
  unfolding store_key getdel
  take namespace raw now = getdel (store_key namespace raw) now

  unfoldable pub begin : OAuthTransaction → String → ℕ → Action (Redis Dict) String
  unfolding put
  begin transaction raw now = put "oauth" (as_dict transaction) 300 raw now

  abbrev pub as_transaction : Option Dict → Result (Option OAuthTransaction)
  as_transaction none = ok none
  as_transaction (some d) = elim (transaction_of d) [ ok t ↦ ok (some t) | err e ↦ err e ]

  unfoldable pub consume_oauth : String → ℕ → Action (Redis Dict) (Option OAuthTransaction)
  unfolding take transaction_of
  consume_oauth state now = do value ← take "oauth" state now; lift (as_transaction value)
