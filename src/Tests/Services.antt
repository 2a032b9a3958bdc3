-- ===== src/Tests/Services.antt =====
-- The stack of the service, its stores and its key files at concrete inputs.
use temis_sso_lab.Observability.{route_name, metric_labels}
use temis_sso_lab.Observability.Metrics.{increment}
use temis_sso_lab.Base.{
  List, ◌⊎◌, ℕ, ◌≡◌, String, true, false, none, some, ok, err, [], ◌∷◌, refl, arith, find, any, all,
  Result,
}
use temis_sso_lab.Base.Json.{int, str, obj, field, end}
use temis_sso_lab.Base.Text.{has_text, length}
use temis_sso_lab.KeyRing.{KeyRecord, active}
use temis_sso_lab.KeyRing.Rotation.{Rotated, rotate-Rotated}
use temis_sso_lab.KeyRing.Storage.{
  Directory, no_file, IsSettled, read_records, save_steps, run_steps, after_crash,
  save_steps-atomic,
}
use temis_sso_lab.Observability.Middleware.{event, Response, State, observe, is_ascii}
use temis_sso_lab.Observability.Middleware.Observed.{IsShort, Observed, observe-Observed}
use temis_sso_lab.Http.{Request, Response as HttpResponse}
use temis_sso_lab.Base.{http_error}
use temis_sso_lab.ResourceApi.StatusClient.{status_route}
use temis_sso_lab.Base.{none}
use temis_sso_lab.Bootstrap.{serve, ready, answer_errors, security_headers}
use temis_sso_lab.Bootstrap.Headers.{Served, serve-Served}
use temis_sso_lab.OauthState.Spec.{Op, puts, takes, run, run_promise, promise_of, run-run_promise}
use temis_sso_lab.Http.{Http}
use temis_sso_lab.ResourceApi.StatusClient.{check, check-authorization_status}
use temis_sso_lab.Tests.Fixtures.{toy_jose, small_db}
use temis_sso_lab.Tests.Bundles.{ring}
use temis_sso_lab.Tests.Flows.{digests}

abbrev quiet : State
quiet = record { counters = []; log = [] }

drawn-IsShort : IsShort "0123456789abcdef"
unfolding is_ascii length
drawn-IsShort = record { ascii = refl; some_text = omega arith; bounded = omega arith }

abbrev not_ready : Result Response
not_ready = ready false

observe-Observed_example :
    Observed "sso" "id with spaces" "0123456789abcdef" "/auth/login"
      (int 3)
      not_ready
      quiet
      (observe "sso" "id with spaces" "0123456789abcdef" "/auth/login" (int 3) not_ready quiet).0
      (observe "sso" "id with spaces" "0123456789abcdef" "/auth/login" (int 3) not_ready quiet).1
observe-Observed_example =
    observe-Observed "sso" "id with spaces" "0123456789abcdef" "/auth/login" (int 3) not_ready quiet
      drawn-IsShort

abbrev framework : ℕ → String → Response
framework status_code detail = record {
  status_code = status_code;
  headers = [];
  body = obj (field "detail" (str detail) end);
}

abbrev served : Result Response × State
served =
    serve framework (record { preflight = none; decorate = λ r. r }) "" "0123456789abcdef" "/readyz"
      (int 3) not_ready quiet

abbrev answer_or : Result Response → Response
answer_or (ok r) = r
answer_or (err e) = framework 500 ""

serve-Served_example : Served none (answer_or served.0)
unfolding serve ready answer_errors security_headers observe increment metric_labels all any
    route_name has_text event
serve-Served_example =
    serve-Served framework (λ r. r) "" "0123456789abcdef" "/readyz" (int 3) not_ready quiet none
      (answer_or served.0) served.1 drawn-IsShort (λ r. refl) (λ r. refl) (λ r. refl) refl

abbrev calls : List (ℕ × Op)
calls =
    (0, puts "oauth" (("a", "1") ∷ []) 300 "s")
    ∷ (5, takes "oauth" "s")
    ∷ (6, takes "oauth" "s")
    ∷ []

run-run_promise_example : run digests calls [] ≡ run_promise digests calls (promise_of [])
run-run_promise_example = run-run_promise digests calls []

abbrev active_record : KeyRecord
active_record = record {
  kid = "k1";
  state = active;
  published_at = 0;
  activated_at = some 0;
  retiring_at = none;
}

rotate-Rotated_example : Rotated toy_jose 960 2 ring active_record 10 20 980
unfolding find
rotate-Rotated_example =
    rotate-Rotated toy_jose 960 2 ring active_record 10 20 980 refl refl refl (omega arith)

abbrev directory : Directory
directory = record { temporary = no_file; metadata = no_file; metadata_on_disk = no_file }

directory-IsSettled : IsSettled [] directory
unfolding read_records
directory-IsSettled = record { read = refl; kept = refl; entered = refl }

save_steps-atomic_example :
    ((read_records (after_crash true (run_steps 3 (save_steps (active_record ∷ [])) directory))
        ≡ ok [])
      ⊎ (read_records (after_crash true (run_steps 3 (save_steps (active_record ∷ [])) directory))
          ≡ ok (active_record ∷ [])))
    × IsSettled (active_record ∷ []) (run_steps 5 (save_steps (active_record ∷ [])) directory)
save_steps-atomic_example =
    save_steps-atomic 3 true [] (active_record ∷ []) directory directory-IsSettled

abbrev refuse : Request → Result HttpResponse
refuse request = err http_error

abbrev status_http : Http
status_http = record {
  answer = λ n request. status_route refuse "key" small_db request;
  show_value = λ v. "value";
  show_error = λ e. "error";
}

check-authorization_status_example :
    (check status_http "https://sso/auth/status" "key" "ann" 1 4).0 ≡ ok true
unfolding find
check-authorization_status_example =
    check-authorization_status status_http refuse "https://sso/auth/status" "key" "key" "ann" 1
      small_db 4 (λ r h. refl)
