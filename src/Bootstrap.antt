-- ===== src/Bootstrap.antt =====
-- src/temis_sso/bootstrap.py with the stack that src/temis_sso/main.py builds on it, and the routes
-- of src/temis_sso/api/system.py. FastAPI's answer to an `HTTPException` and the CORS middleware are
-- parameters.
pub mod Headers
use temis_sso_lab.Base.{
  ℕ, String, Bool, ◌==◌, Option, none, some, List, [], ◌∷◌, find, if◌then◌else◌, Result, ok, err,
  Exception, lab_error, http_exception, Action,
}
use temis_sso_lab.Base.Json.{Value, str, obj, field, end}
use temis_sso_lab.Jose.{Jose}
use temis_sso_lab.KeyRing.{Ring}
use temis_sso_lab.Observability.Middleware.{Response, State, set_header, observe}

abbrev pub ok_page : Value → Response
ok_page body = record { status_code = 200; headers = []; body = body }

-- `/healthz`
abbrev pub health : Value
health = obj (field "status" (str "ok") end)

-- `/readyz`
unfoldable pub ready : Bool → Result Response
ready is_ready =
    if is_ready
    then ok (ok_page (obj (field "status" (str "ready") end)))
    else err (lab_error 503 "not_ready")

-- The handler `lab_error`.
abbrev pub lab_error_answer : ℕ → String → Response
lab_error_answer status_code code = record {
  status_code = status_code;
  headers = [];
  body = obj (field "error" (obj (field "code" (str code) end)) end);
}

-- What the exception handlers make of a route's exception; the others pass.
unfoldable pub answer_errors : (ℕ → String → Response) → Result Response → Result Response
answer_errors framework (ok response) = ok response
answer_errors framework (err (lab_error status_code code)) = ok (lab_error_answer status_code code)
answer_errors framework (err (http_exception status_code detail)) =
    ok (framework status_code detail)
answer_errors framework (err e) = err e

-- `security_headers`
unfoldable pub security_headers : Result Response → Result Response
security_headers (err e) = err e
security_headers (ok response) = ok (
    set_header "X-Frame-Options" "DENY" (
      set_header "X-Content-Type-Options" "nosniff"
        (set_header "Cache-Control" "no-store" response)))

abbrev pub map_answer : (Response → Response) → Result Response → Result Response
map_answer f (ok response) = ok (f response)
map_answer f (err e) = err e

-- What `CORSMiddleware` does with one request: a preflight request is answered by it, and any other
-- answer gets its headers.
pub record Cors : Type 0 where
  pub preflight : Option Response
  pub decorate : Response → Response

abbrev pub cors_or : Option Response → Result Response → Result Response
cors_or none inner = inner
cors_or (some response) inner = ok response

-- `CORSMiddleware`
abbrev pub answer_cors : Cors → Result Response → Result Response
answer_cors cors inner = cors_or cors.preflight (map_answer cors.decorate inner)

-- The stack of `create_app`, the last middleware outside: the exception handlers, `security_headers`,
-- CORS, `observe`.
unfoldable pub serve :
    (ℕ → String → Response)
    → Cors
    → String
    → String
    → String
    → Value
    → Result Response
    → Action State Response
serve framework cors supplied fresh path duration result =
    observe "sso" supplied fresh path duration
      (answer_cors cors (security_headers (answer_errors framework result)))
