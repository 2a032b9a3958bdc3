-- ===== src/Bootstrap/Headers.antt =====
-- The headers of the answers that the stack of src/temis_sso/main.py returns.
use temis_sso_lab.Base.{
  ℕ, String, ◌==◌, Option, none, some, find, Result, ok, ◌≡◌, refl, arith, Result-cases, inl, inr,
}
use temis_sso_lab.Base.Json.{Value}
use temis_sso_lab.Observability.Middleware.{Response, State, set_header, request_id_of}
use temis_sso_lab.Observability.Middleware.Observed.{
  request_id_of-IsShort, IsShort, observe-Observed,
}
use temis_sso_lab.Bootstrap.{answer_errors, security_headers, map_answer, serve}

-- The value of a header.
abbrev pub header_of : String → Response → Option String
header_of name response = elim (find (λ (h : String × String). h.0 == name) response.headers) [
  | none ↦ none
  | some h ↦ some h.1
]

abbrev pub Kept : (Response → Response) → String → Type 0
Kept cors name = (response : Response) → header_of name (cors response) ≡ header_of name response

-- The headers of an answer of the routes.
pub record Protected (response : Response) : Type 0 where
  pub cache : header_of "Cache-Control" response ≡ some "no-store"
  pub sniff : header_of "X-Content-Type-Options" response ≡ some "nosniff"
  pub frame : header_of "X-Frame-Options" response ≡ some "DENY"

-- The id that a response shows.
pub record Named (response : Response) : Type 0 where
  pub request_id : String
  pub short : IsShort request_id
  pub named : header_of "X-Request-ID" response ≡ some request_id

-- What an answer of the service is: to a preflight request that of CORS, with the id, and otherwise
-- one with the headers.
abbrev pub Served : Option Response → Response → Type 0
Served none answer = Named answer × Protected answer
Served (some preflight) answer =
    Named answer × (answer.status_code ≡ preflight.status_code) × (answer.body ≡ preflight.body)

module _ (framework : ℕ → String → Response) (decorate : Response → Response)
    (supplied fresh path : String) (duration : Value) (result : Result Response) (s : State) where
  set_header-Named :
      (response : Response)
      → IsShort fresh
      → Named (set_header "X-Request-ID" (request_id_of supplied fresh) response)
  unfolding find
  set_header-Named response h = record {
    request_id = request_id_of supplied fresh;
    short = request_id_of-IsShort supplied fresh h;
    named = refl;
  }

  -- Every answer that the stack of middlewares returns shows a request id of at most 64 ASCII
  -- characters, as a drawn one is. An answer to anything but a CORS preflight, be it that of a route,
  -- of a `LabError` or of an `HTTPException`, forbids caches to store it, browsers to guess its type
  -- and other sites to frame it, if CORS leaves these headers. A preflight has the status and the
  -- body of the answer of CORS.
  pub serve-Served :
      (preflight : Option Response) (answer : Response) (s' : State)
      → IsShort fresh
      → Kept decorate "Cache-Control"
      → Kept decorate "X-Content-Type-Options"
      → Kept decorate "X-Frame-Options"
      → serve framework
          (record { preflight = preflight; decorate = decorate })
          supplied
          fresh
          path
          duration
          result
          s
        ≡ (ok answer, s')
      → Served preflight answer
  unfolding serve security_headers find
  serve-Served (some response) answer s' h cache sniff frame e =
      let kept =
        (observe-Observed "sso" supplied fresh path duration (ok response) s h).answer_kept in
      let final : set_header "X-Request-ID" (request_id_of supplied fresh) response ≡ answer =
        ground (arith, kept, e) in
      rw (← final) (set_header-Named response h, refl, refl)
  serve-Served none answer s' h cache sniff frame e =
      let mid = map_answer decorate (security_headers (answer_errors framework result)) in
      let kept = (observe-Observed "sso" supplied fresh path duration mid s h).answer_kept in
      elim (Result-cases (answer_errors framework result)) [
        | inr (x, a) ↦ absurd (ground (arith, a, kept, e))
        | inl (response, a) ↦
            let sealed = set_header "X-Frame-Options" "DENY" (
              set_header "X-Content-Type-Options" "nosniff"
                (set_header "Cache-Control" "no-store" response)) in
            let final : set_header "X-Request-ID" (request_id_of supplied fresh) (decorate sealed)
                ≡ answer =
              ground (arith, a, kept, e) in
            rw (← final) (
              set_header-Named (decorate sealed) h,
              record { cache = cache sealed; sniff = sniff sealed; frame = frame sealed },
            )
      ]
