-- ===== src/ResourceApi/StatusClient.antt =====
-- `HttpStatusClient` of src/resource_api/auth.py, which asks `/auth/status` of the sign-on service. An
-- action's state is the number of requests that were sent.
use temis_sso_lab.Base.{
  if◌then◌else◌, ℕ, String, Bool, false, not, nat_eq, Option, none, some, [], ◌∷◌, Result, ok, err,
  http_exception, dependency_unavailable, Action, ◌>>=◌, ◌>>◌, lift, pure, raise_if, ◌≡◌, refl,
  Bool-cases, inl, inr, ◌==◌,
}
use temis_sso_lab.Base.Json.{Value, null, bool, int, str, obj, field, end, get}
use temis_sso_lab.Base.{List}
use temis_sso_lab.Base.Text.{lower}
use temis_sso_lab.Base.Json.{as_str, as_int}
use temis_sso_lab.Http.{get_request, Http, Request, Response, post_request, send_only, is_truthy}
use temis_sso_lab.Persistence.{Db, get_user}
use temis_sso_lab.Api.Tokens.{StatusResult, authorization_status, status_of}

abbrev pub status_request : String → String → String → ℕ → Request
status_request endpoint service_key subject version = record {
  method = post_request;
  url = endpoint;
  form = [];
  payload = obj (field "user_id" (str subject) (field "authz_version" (int version) end));
  headers = ("X-Status-Key", service_key) ∷ [];
}

-- `bool(payload.get("active")) if isinstance(payload, dict) else False`
abbrev pub active_of : Value → Bool
active_of (obj fields) = is_truthy (get fields "active")
active_of _ = false

-- `check`
unfoldable pub check : Http → String → String → String → ℕ → Action ℕ Bool
check http endpoint service_key subject version = do
  response ← send_only http (status_request endpoint service_key subject version)
  raise_if (not (nat_eq response.status_code 200))
      (dependency_unavailable "authorization status unavailable")
  payload ← lift response.json
  pure (active_of payload)

abbrev version_of : Option ℕ → Value
version_of none = null
version_of (some n) = int n

abbrev page_of : ℕ → Value → Response
page_of status_code v = record { status_code = status_code; cache_control = ""; json = ok v }

-- How FastAPI sends what the handler of `/auth/status` returns or raises.
abbrev pub sent : Result StatusResult → Result Response
sent (ok status) = ok (
    page_of 200 (
      obj (
        field "active" (bool status.active)
          (field "authz_version" (version_of status.authz_version) end))))
sent (err (http_exception status_code detail)) =
    ok (page_of status_code (obj (field "detail" (str detail) end)))
sent (err e) = ok (page_of 500 null)

-- The header of a request; the case of its name does not count.
abbrev header_value : String → List (String × String) → Option String
header_value name [] = none
header_value name ((key, value) ∷ headers) =
    if lower key == lower name then some value else header_value name headers

abbrev call_status :
    Result Response → String → Option String → Option String → Option ℕ → Db → Result Response
call_status other expected key (some user_id) (some version) db =
    sent (authorization_status expected key user_id version db).0
call_status other expected key user_id version db = other

abbrev read_status : Result Response → String → Option String → Value → Db → Result Response
read_status other expected key (obj fields) db =
    call_status other expected key (as_str (get fields "user_id"))
      (as_int (get fields "authz_version")) db
read_status other expected key _ db = other

-- The route `POST /auth/status`: the handler's arguments are the header `X-Status-Key` and the two
-- fields of the body. What FastAPI makes of another method or body is `other`.
unfoldable pub status_route : (Request → Result Response) → String → Db → Request → Result Response
status_route other expected db request = elim request.method [
  | get_request ↦ other request
  | post_request ↦
      read_status (other request) expected (header_value "X-Status-Key" request.headers)
        request.payload db
]

module _ (http : Http) (other : Request → Result Response)
    (endpoint expected service_key subject : String) (version : ℕ) (db : Db) where
  -- Where the requests to the endpoint are answered by the route of the sign-on service, the client's
  -- answer for a subject and a version is that of the database there: true exactly for an active
  -- account of this version. With another service key the status is unavailable, and never taken for
  -- inactive or active.
  pub check-authorization_status :
      (n : ℕ)
      → ((r : Request) → r.url ≡ endpoint → http.answer n r ≡ status_route other expected db r)
      → (check http endpoint service_key subject version n).0 ≡ (
          if service_key == expected
          then ok (status_of version (get_user subject db)).active
          else err (dependency_unavailable "authorization status unavailable"))
  unfolding check authorization_status get status_route lower
  check-authorization_status n served =
      let h = served (status_request endpoint service_key subject version) refl in
      elim (Bool-cases (service_key == expected)) [
        | inl e ↦
            rw (h, e)
              (elim (Bool-cases (status_of version (get_user subject db)).active) [
                | inl a ↦ rw a refl
                | inr a ↦ rw a refl
              ])
        | inr e ↦ rw (h, e) refl
      ]
