-- ===== src/ClientPolicy.antt =====
-- src/temis_sso/client_policy.py: the clients and where they may send a code.
use temis_sso_lab.Base.{
  not, ◌||◌, ◌++◌, ◌≡◌, refl, String, Bool, Option, none, some, List, [], ◌∷◌, ◌==◌, any,
  if◌then◌else◌, Result, ok, err, value_error,
}
use temis_sso_lab.Base.Sort.{sorted, unique, insert}
use temis_sso_lab.Base.Text.{append}

pub record Policy : Type 0 where
  pub client_id : String
  pub audience : String
  pub redirect_uris : List String
  pub cors_origins : List String
  pub default_role : String

unfoldable pub permits_redirect : Policy → String → Bool
permits_redirect p redirect_uri = any (λ uri. uri == redirect_uri) p.redirect_uris

abbrev pub temis_web : Policy
temis_web = record {
  client_id = "temis-web";
  audience = "temis-lab";
  redirect_uris = "http://localhost:3000/auth/callback" ∷ [];
  cors_origins = "http://localhost:3000" ∷ [];
  default_role = "user";
}

-- `clients.get(client_id)`
unfoldable pub client_of : String → Option Policy
client_of client_id = if client_id == "temis-web" then some temis_web else none

unfoldable pub client_by_id : String → Result Policy
unfolding client_of
client_by_id client_id = elim (client_of client_id) [
  | none ↦ err (value_error "unknown client")
  | some client ↦ ok client
]

unfoldable pub require_client : String → String → Result Policy
unfolding client_of permits_redirect
require_client client_id redirect_uri = elim (client_of client_id) [
  | none ↦ err (value_error "unknown client")
  | some client ↦
      if permits_redirect client redirect_uri
      then ok client
      else err (value_error "redirect URI is not allowed")
]

-- `_origin`: `urlsplit` gives the scheme and the authority of a URL.
unfoldable pub origin : (String → String × String) → String → Result String
origin urlsplit url =
    let (scheme, netloc) = urlsplit url in
    if not (scheme == "http" || scheme == "https") || netloc == ""
    then err (value_error "absolute HTTP URL required")
    else ok (append scheme (append "://" netloc))

-- `clients.values()`
abbrev pub all_clients : List Policy
all_clients = temis_web ∷ []

unfoldable pub origins_of : List Policy → List String
origins_of [] = []
origins_of (client ∷ clients) = client.cors_origins ++ origins_of clients

-- `allowed_origins`
unfoldable pub allowed_origins : List String
allowed_origins = sorted (unique (origins_of all_clients))

allowed_origins_test : allowed_origins ≡ "http://localhost:3000" ∷ []
unfolding allowed_origins origins_of sorted unique insert any
allowed_origins_test = refl
