-- ===== src/Api/Identities.antt =====
-- What src/temis_sso/api/naver_oauth.py and kakao_oauth.py do alike: the account of an external
-- identity, the redirects, and the withdrawal of a link. A state is the database, the flows in
-- progress and the number of requests that were sent.
pub mod Owner
pub mod Unlink
pub mod Later
pub mod Taken
use temis_sso_lab.Base.{
  arith, ◌≡◌, ℕ, String, Bool, not, ◌&&◌, ◌==◌, Option, none, some, List, [], ◌∷◌, find,
  delete_where, if◌then◌else◌, Result, ok, err, Exception, value_error, runtime_error, key_error,
  http_error, http_exception, Action, ◌>>=◌, ◌>>◌, lift, pure, raise, raise_if, modify,
}
use temis_sso_lab.Base.Text.{append}
use temis_sso_lab.Persistence.{
  ExternalIdentityLink, Db, Session, by_email, create, modify_user, add_role, add_link, is_link,
}
use temis_sso_lab.ExternalIdp.Flows.{Flows}
use temis_sso_lab.ExternalIdp.Models.{AuthorizationRequest, ExternalIdentity}
use temis_sso_lab.ExternalIdp.Stores.{resolve_link}
use temis_sso_lab.Http.{Http}
use temis_sso_lab.Api.Tokens.{TokenBundle}
use temis_sso_lab.Api.Oauth.{set_active}

pub record State : Type 0 where
  pub db : Db
  pub flows : Flows
  pub requests : ℕ

abbrev in_db : {A : Type 0} → State → Result A × Db → Result A × State
in_db s (r, db) = (r, record s { db = db })

abbrev pub on_db : {A : Type 0} → Session A → Action State A
on_db m s = in_db s (m s.db)

abbrev in_flows : {A : Type 0} → State → Result A × Flows → Result A × State
in_flows s (r, flows) = (r, record s { flows = flows })

abbrev pub on_flows : {A : Type 0} → Action Flows A → Action State A
on_flows m s = in_flows s (m s.flows)

abbrev in_requests : {A : Type 0} → State → Result A × ℕ → Result A × State
in_requests s (r, n) = (r, record s { requests = n })

abbrev pub on_requests : {A : Type 0} → Action ℕ A → Action State A
on_requests m s = in_requests s (m s.requests)

-- `async with session_scope() as session`, around steps that change the rest of the state too: an
-- exception rolls the database back and nothing else.
abbrev pub roll_back : {A : Type 0} → Db → Result A × State → Result A × State
roll_back before (ok a, s) = (ok a, s)
roll_back before (err e, s) = (err e, record s { db = before })

abbrev pub in_session : {A : Type 0} → Action State A → Action State A
in_session m s = roll_back s.db (m s)

-- `except ValueError`
abbrev pub value_error_401 : Exception → Exception
value_error_401 (value_error message) = http_exception 401 message
value_error_401 e = e

-- `except ValueError` and `except (RuntimeError, httpx.HTTPError, KeyError)`; the text is in front of
-- the error's own.
abbrev pub callback_error : Http → String → Exception → Exception
callback_error http text (value_error message) = http_exception 401 message
callback_error http text (runtime_error message) = http_exception 500 (append text message)
callback_error http text (key_error message) =
    http_exception 500 (append text (http.show_error (key_error message)))
callback_error http text http_error = http_exception 500 (append text (http.show_error http_error))
callback_error http text e = e

-- The text of a `ValueError`.
abbrev pub message_of : Exception → Option String
message_of (value_error message) = some message
message_of _ = none

-- A redirect to a provider, with the cookie that binds the browser.
pub record LoginRedirect : Type 0 where
  pub url : String
  pub query : List (String × String)
  pub cookie : String
  pub browser_binding : String
  pub max_age : ℕ

-- A redirect that carries a bundle of tokens in its query.
pub record TokenRedirect (T : Type 0) : Type 0 where
  pub url : String
  pub access_token : T
  pub refresh_token : String
  pub token_type : String

abbrev pub login_redirect : String → String → AuthorizationRequest → LoginRedirect
login_redirect cookie browser_binding request = record {
  url = request.url;
  query = request.parameters;
  cookie = cookie;
  browser_binding = browser_binding;
  max_age = 300;
}

abbrev pub token_redirect : {T : Type 0} → TokenBundle T → TokenRedirect T
token_redirect bundle = record {
  url = "http://localhost:8000/docs";
  access_token = bundle.access_token;
  refresh_token = bundle.refresh_token;
  token_type = bundle.token_type;
}

-- `if not browser_binding`
abbrev pub require_cookie : Option String → Result String
require_cookie none = err (http_exception 400 "Security browser binding cookie is missing")
require_cookie (some binding) =
    if binding == ""
    then err (http_exception 400 "Security browser binding cookie is missing")
    else ok binding

pub require_cookie-some :
    (cookie : Option String) (binding : String)
    → require_cookie cookie ≡ ok binding
    → cookie ≡ some binding
require_cookie-some none binding h = absurd (ground arith)
require_cookie-some (some shown) binding h = ground arith

-- `identity.email or f"..."`; the domain is what follows the subject.
abbrev pub wanted_email : String → ExternalIdentity → String
wanted_email domain identity = elim identity.email [
  | none ↦ append identity.subject domain
  | some email ↦ if email == "" then append identity.subject domain else email
]

abbrev pub free_email : String → ExternalIdentity → Db → String
free_email domain identity db = elim (by_email (wanted_email domain identity) db) [
  | none ↦ wanted_email domain identity
  | some _ ↦ append identity.subject (append ".changed" domain)
]

abbrev pub link_of : ExternalIdentity → String → ℕ → ExternalIdentityLink
link_of identity user_id now = record {
  provider = identity.provider;
  subject = identity.subject;
  user_id = user_id;
  created_at = now;
}

unfoldable pub new_account : String → ExternalIdentity → String → ℕ → Session String
new_account domain identity new_id now db =
    (do
      user ← create new_id (free_email domain identity db) none
      modify (modify_user user.id set_active)
      added ← add_role user.id "user"
      linked ← add_link (link_of identity user.id now)
      pure user.id)
      db

-- `if existing_link`
abbrev pub linked_or_new : String → ExternalIdentity → String → ℕ → Option String → Session String
linked_or_new domain identity new_id now none = new_account domain identity new_id now
linked_or_new domain identity new_id now (some user_id) =
    if user_id == "" then new_account domain identity new_id now else pure user_id

-- `_naver_oauth_user` and `_kakao_oauth_user`: `new_id` is the id of a new account, and `now` the
-- time of its link.
unfoldable pub account_user : String → ExternalIdentity → String → ℕ → Session String
account_user domain identity new_id now db =
    linked_or_new domain identity new_id now (resolve_link identity.provider identity.subject db) db

abbrev pub is_link_of : String → String → ExternalIdentityLink → Bool
is_link_of provider user_id l = l.provider == provider && l.user_id == user_id

-- `session.delete(link_record)`: its key is the provider with the subject.
abbrev pub delete_link : ExternalIdentityLink → State → State
delete_link link s = record s {
  db = record s.db { links = delete_where (is_link link.provider link.subject) s.db.links };
}

abbrev pub withdraw :
    String → String → Action ℕ Bool → Option ExternalIdentityLink → Action State (Unit {0})
withdraw missing refused call none = raise (http_exception 404 missing)
withdraw missing refused call (some link) = do
  success ← on_requests call
  raise_if (not success) (http_exception 502 refused)
  modify (delete_link link)

-- The session of `naver_revoke` and `kakao_revoke`; `call` is the adapter's method.
unfoldable pub unlink_account :
    String → String → String → String → Action ℕ Bool → Action State (Unit {0})
unlink_account provider user_id missing refused call =
    in_session
      (λ s. withdraw missing refused call (find (is_link_of provider user_id) s.db.links) s)
