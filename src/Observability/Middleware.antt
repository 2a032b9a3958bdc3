-- ===== src/Observability/Middleware.antt =====
-- The middleware `observe` of src/temis_sso/observability.py, with the records that it logs. The
-- state is the counters and the documents that went to the sink, the newest last.
pub mod Observed
use Prim.Native.Char.{code}
use Prim.Native.String.{String, [], ◌∷◌}
use temis_sso_lab.Base.{
  ℕ, Bool, true, ◌&&◌, leb, ltb, List, ◌++◌, if◌then◌else◌, Result, ok, err, Exception, Action,
  ◌>>=◌, ◌>>◌, pure, raise, modify,
}
use temis_sso_lab.Base.Text.{length}
use temis_sso_lab.Base.Json.{Value, Fields, str, int, obj, field, end}
use temis_sso_lab.Observability.{redact, route_name}
use temis_sso_lab.Observability.Metrics.{Counter, Labels, increment}

pub record Response : Type 0 where
  pub status_code : ℕ
  pub headers : List (String × String)
  pub body : Value

pub record State : Type 0 where
  pub counters : List Counter
  pub log : List Value

-- `s.isascii()`
unfoldable pub is_ascii : String → Bool
is_ascii [] = true
is_ascii (c ∷ s) = leb (code c) 127 && is_ascii s

-- `request_id`: the one that the client sent, or a new one.
unfoldable pub request_id_of : String → String → String
unfolding length
request_id_of supplied fresh =
    if is_ascii supplied && ltb 0 (length supplied) && leb (length supplied) 64
    then supplied
    else fresh

-- The record of an event.
abbrev pub event_record : String → String → String → String → Fields → Value
event_record service name outcome request_id fields = obj (
    field "service" (str service) (
      field "event" (str name)
        (field "outcome" (str outcome) (field "request_id" (str request_id) fields))))

abbrev log_value : Value → State → State
log_value v s = record s { log = s.log ++ List.◌∷◌ v List.[] }

-- `StructuredLogger.event`: the redacted record goes to the sink, as the text that `json.dumps` makes
-- of it.
unfoldable pub event : String → String → String → String → Fields → Action State (Unit {0})
event service name outcome request_id fields =
    modify (log_value (redact (event_record service name outcome request_id fields)))

abbrev in_counters : {A : Type 0} → State → Result A × List Counter → Result A × State
in_counters s (r, counters) = (r, record s { counters = counters })

abbrev pub on_counters : {A : Type 0} → Action (List Counter) A → Action State A
on_counters m s = in_counters s (m s.counters)

abbrev pub labels_of : String → String → Labels
labels_of route outcome = List.◌∷◌ ("route", route) (List.◌∷◌ ("outcome", outcome) List.[])

abbrev pub outcome_of : Response → String
outcome_of response = if ltb response.status_code 400 then "success" else "rejected"

-- `response.headers[name] = value`
abbrev pub set_header : String → String → Response → Response
set_header name value response = record response {
  headers = List.◌∷◌ (name, value) response.headers;
}

abbrev pub answered : String → String → String → Value → Response → Action State Response
answered service request_id route duration response = do
  on_counters (increment "temis_auth_requests_total" (labels_of route (outcome_of response)))
  event service "http.request" (outcome_of response) request_id (
      field "route" (str route)
        (field "status" (int response.status_code) (field "duration_ms" duration end)))
  pure (set_header "X-Request-ID" request_id response)

abbrev pub failed : String → String → String → Exception → Action State Response
failed service request_id route e = do
  on_counters (increment "temis_auth_requests_total" (labels_of route "error"))
  event service "http.request" "error" request_id (field "route" (str route) end)
  raise e

-- `observe`, with what `call_next` returns or raises, the id that `uuid4` draws and the rounded
-- duration.
unfoldable pub observe :
    String → String → String → String → Value → Result Response → Action State Response
observe service supplied fresh path duration result = elim result [
  | ok response ↦
      answered service (request_id_of supplied fresh) (route_name path) duration response
  | err e ↦ failed service (request_id_of supplied fresh) (route_name path) e
]
