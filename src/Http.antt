-- ===== src/Http.antt =====
-- The HTTP client `httpx` as the services under src use it. The answers are a
-- parameter, a function of the number of requests so far, so that no two need be the same.
use temis_sso_lab.Base.{
  ◌∷◌, ◌≡◌, refl, Result-cases, inl, inr, ◌==◌, ℕ, suc, String, Bool, true, false, not, ◌&&◌, leb,
  nat_eq, Option, none, some, List, if◌then◌else◌, Result, ok, err, Exception, attribute_error,
  type_error, http_error, Action, ◌>>=◌, lift, [],
}
use temis_sso_lab.Base.Text.{append}
use temis_sso_lab.Base.Json.{
  Value, Fields, Items, null, bool, int, str, obj, arr, nil, end, get, has_key,
}

pub data Method : Type 0 where
  get_request post_request : Method

-- A request: its form or its JSON, `null` where there is none, and the headers that are given.
pub record Request : Type 0 where
  pub method : Method
  pub url : String
  pub form : List (String × String)
  pub payload : Value
  pub headers : List (String × String)

-- `json` is the error of a body that is no JSON.
pub record Response : Type 0 where
  pub status_code : ℕ
  pub cache_control : String
  pub json : Result Value

-- `show_value` is `str` of a value that is not a text, and `show_error` is `str` of an exception.
pub record Http : Type 0 where
  pub answer : ℕ → Request → Result Response
  pub show_value : Value → String
  pub show_error : Exception → String

abbrev pub get_of : String → List (String × String) → Request
get_of url headers = record {
  method = get_request;
  url = url;
  form = [];
  payload = null;
  headers = headers;
}

abbrev pub post_of : String → List (String × String) → List (String × String) → Request
post_of url form headers = record {
  method = post_request;
  url = url;
  form = form;
  payload = null;
  headers = headers;
}

-- `{"Authorization": f"Bearer {token}"}`
abbrev pub bearer : String → List (String × String)
bearer token = ("Authorization", append "Bearer " token) ∷ []

-- `{"Accept": "application/json"}`
abbrev pub accept_json : List (String × String)
accept_json = ("Accept", "application/json") ∷ []

-- `response.is_success`
abbrev pub is_success : Response → Bool
is_success r = leb 200 r.status_code && leb r.status_code 299

-- `response.raise_for_status()`
abbrev pub raise_for_status : Response → Result Response
raise_for_status r = if is_success r then ok r else err http_error

module _ (http : Http) where
  -- A request, with no look at the status of its answer; the state is the number of requests.
  abbrev pub send_only : Request → Action ℕ Response
  send_only request n = (http.answer n request, suc n)

  -- A request and `raise_for_status`.
  abbrev pub send : Request → Action ℕ Response
  send request = do response ← send_only request; lift (raise_for_status response)

  -- Every answer takes one request.
  pub requests-send : (request : Request) (n : ℕ) → (send request n).1 ≡ suc n
  requests-send request n = elim (Result-cases (http.answer n request)) [
    | inr (x, a) ↦ rw a refl
    | inl (r, a) ↦ rw a refl
  ]

  -- `str(value)`
  abbrev pub text_of : Value → String
  text_of (str s) = s
  text_of v = http.show_value v

-- `payload.get`, where the payload is no dictionary.
abbrev pub as_dict : Value → Result Fields
as_dict (obj fields) = ok fields
as_dict _ = err attribute_error

-- `"error" in payload`, and then `payload.get`.
abbrev pub as_payload : Value → Result Fields
as_payload (obj fields) = ok fields
as_payload (str _) = err attribute_error
as_payload (arr _) = err attribute_error
as_payload _ = err (type_error "argument is not iterable")

-- `value if isinstance(value, dict) else {}`
abbrev pub dict_or_empty : Value → Fields
dict_or_empty (obj fields) = fields
dict_or_empty _ = end

-- `bool(value)`
abbrev pub is_truthy : Value → Bool
is_truthy null = false
is_truthy (bool b) = b
is_truthy (int n) = not (nat_eq n 0)
is_truthy (str s) = not (s == "")
is_truthy (obj end) = false
is_truthy (obj _) = true
is_truthy (arr nil) = false
is_truthy (arr _) = true

-- `for item in payload.get("keys", [])`, as far as the items can be dictionaries.
abbrev iterate : Value → Result Items
iterate (arr items) = ok items
iterate (str _) = ok nil
iterate (obj _) = ok nil
iterate _ = err (type_error "object is not iterable")

abbrev pub items_of : Fields → String → Result Items
items_of payload key = if has_key payload key then iterate (get payload key) else ok nil

-- The text, where it is one that is not empty.
abbrev pub as_name : Value → Option String
as_name (str s) = if s == "" then none else some s
as_name _ = none
