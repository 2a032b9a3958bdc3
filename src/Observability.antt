-- ===== src/Observability.antt =====
-- src/temis_sso/observability.py: the redaction of log records, the metrics with their closed sets of
-- labels, and what the middleware records of a request.
pub mod Redaction
pub mod Metrics
pub mod Middleware
use temis_sso_lab.Base.{
  ℕ, suc, ◌+◌, String, Bool, true, false, not, ◌&&◌, ◌||◌, ◌==◌, ltb, leb, List, [], ◌∷◌, any, all,
  length, if◌then◌else◌, Option, none, some, Result, ok, err, Exception, value_error, Action,
}
use temis_sso_lab.Base.Json.{
  Value, Items, Fields, null, bool, int, str, arr, obj, nil, cons, end, field,
}
use temis_sso_lab.Base.Text.{lower, has_any, has_text}

abbrev pub sensitive_markers : List String
sensitive_markers =
    "authorization" ∷ "cookie" ∷ "password" ∷ "secret" ∷ "token" ∷ "code" ∷ "email" ∷ []

abbrev pub sensitive_value_markers : List String
sensitive_value_markers =
    "bearer " ∷ "token=" ∷ "password=" ∷ "code=" ∷ "refresh_token" ∷ "cookie:" ∷ "__host-"
    ∷ "session=" ∷ "state=" ∷ "code_verifier=" ∷ "csrf" ∷ []

abbrev pub is_hidden_key : String → Bool
is_hidden_key key = has_any sensitive_markers (lower key)

abbrev pub is_hidden_text : String → Bool
is_hidden_text s = has_any sensitive_value_markers (lower s)

abbrev pub redact_text : String → Value
redact_text s = if is_hidden_text s then str "[REDACTED]" else str s

-- `redact`. The keys of a record are texts, and no two are equal.
unfoldable mutual
  pub redact : Value → Value
  redact null = null
  redact (bool b) = bool b
  redact (int n) = int n
  redact (str s) = redact_text s
  redact (obj fields) = obj (redact_fields fields)
  redact (arr items) = arr (redact_items items)

  pub redact_fields : Fields → Fields
  redact_fields end = end
  redact_fields (field key v fields) =
      field key (if is_hidden_key key then str "[REDACTED]" else redact v) (redact_fields fields)

  pub redact_items : Items → Items
  redact_items nil = nil
  redact_items (cons v items) = cons (redact v) (redact_items items)

-- The labels of a metric and the values of each.
abbrev pub Schema : Type 0
Schema = List (String × List String)

-- `METRIC_LABELS.get(name)`
unfoldable pub metric_labels : String → Option Schema
metric_labels name =
    if name == "temis_auth_requests_total"
    then some (
        (
          "route",
          "authorize" ∷ "token" ∷ "callback" ∷ "refresh" ∷ "login" ∷ "session" ∷ "logout"
              ∷ "reports" ∷ "other" ∷ [],
        )
        ∷ ("outcome", "success" ∷ "rejected" ∷ "error" ∷ [])
        ∷ [])
    else if name == "temis_dependency_health"
    then some
        (("dependency", "postgres" ∷ "redis" ∷ "jwks" ∷ []) ∷ ("state", "up" ∷ "down" ∷ []) ∷ [])
    else none

-- The name of a route by the first fragment in its path.
abbrev pub first_fragment : List String → String → String
first_fragment [] path = "other"
first_fragment (f ∷ fs) path = if has_text path f then f else first_fragment fs path

unfoldable pub route_name : String → String
route_name path =
    first_fragment
      ("authorize" ∷ "token" ∷ "callback" ∷ "refresh" ∷ "login" ∷ "session" ∷ "logout" ∷ "reports"
        ∷ [])
      path
