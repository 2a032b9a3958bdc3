-- ===== src/Observability/Middleware/Observed.antt =====
-- What the middleware of src/temis_sso/observability.py does to a request, whatever its path and
-- outcome.
use temis_sso_lab.Base.{
  ◌≤◌, ◌<◌, String, true, ◌&&◌, ◌==◌, List, [], ◌∷◌, ◌++◌, any, all, ok, err, Result, ◌≡◌, refl,
  arith, Bool-cases, inl, inr, eq_refl, ltb, leb,
}
use temis_sso_lab.Base.Text.{length, has_text}
use temis_sso_lab.Base.Json.{Value, Fields}
use temis_sso_lab.Observability.{first_fragment, route_name, metric_labels, redact}
use temis_sso_lab.Observability.Metrics.{Counter, increment, count_up}
use temis_sso_lab.Observability.Middleware.{
  Response, State, is_ascii, request_id_of, labels_of, outcome_of, set_header, event_record, event,
  observe,
}

-- The name of a route is one of the foreseen ones.
first_fragment-foreseen :
    (fragments : List String) (path : String)
    → any (λ v. v == first_fragment fragments path) (fragments ++ "other" ∷ []) ≡ true
unfolding any
first_fragment-foreseen [] path = refl
first_fragment-foreseen (f ∷ fs) path = elim (Bool-cases (has_text path f)) [
  | inl e ↦ ground (arith, e, eq_refl f)
  | inr e ↦ ground (arith, e, first_fragment-foreseen fs path)
]

route_name-foreseen :
    (path : String)
    → any
        (λ v. v == route_name path)
        ("authorize" ∷ "token" ∷ "callback" ∷ "refresh" ∷ "login" ∷ "session" ∷ "logout" ∷ "reports"
          ∷ "other" ∷ [])
      ≡ true
unfolding route_name
route_name-foreseen path =
    first_fragment-foreseen
      ("authorize" ∷ "token" ∷ "callback" ∷ "refresh" ∷ "login" ∷ "session" ∷ "logout" ∷ "reports"
        ∷ [])
      path

-- What is counted is accepted.
increment-observed :
    (path outcome : String) (counters : List Counter)
    → any (λ v. v == outcome) ("success" ∷ "rejected" ∷ "error" ∷ []) ≡ true
    → increment "temis_auth_requests_total" (labels_of (route_name path) outcome) counters
      ≡ (ok tt, count_up "temis_auth_requests_total" (labels_of (route_name path) outcome) counters)
unfolding increment metric_labels any all
increment-observed path outcome counters h = ground (arith, h, route_name-foreseen path)

abbrev pub outcome_with : Result Response → String
outcome_with (ok response) = outcome_of response
outcome_with (err e) = "error"

abbrev pub with_id : String → Result Response → Result Response
with_id request_id (ok response) = ok (set_header "X-Request-ID" request_id response)
with_id request_id (err e) = err e

outcome_with-foreseen :
    (result : Result Response)
    → any (λ v. v == outcome_with result) ("success" ∷ "rejected" ∷ "error" ∷ []) ≡ true
unfolding any
outcome_with-foreseen (ok response) = elim (Bool-cases (ltb response.status_code 400)) [
  | inl e ↦ rw e refl
  | inr e ↦ rw e refl
]
outcome_with-foreseen (err e) = refl

-- An id of a request: ASCII, and between one and 64 characters.
pub record IsShort (request_id : String) : Type 0 where
  pub ascii : is_ascii request_id ≡ true
  pub some_text : 0 < length request_id
  pub bounded : length request_id ≤ 64

pub request_id_of-IsShort :
    (supplied fresh : String) → IsShort fresh → IsShort (request_id_of supplied fresh)
unfolding request_id_of
request_id_of-IsShort supplied fresh h =
    elim (Bool-cases (is_ascii supplied && ltb 0 (length supplied) && leb (length supplied) 64)) [
      | inl e ↦ rw e (record {
        ascii = ground (arith, e);
        some_text = ground (arith, e);
        bounded = ground (arith, e);
      })
      | inr e ↦ rw e h
    ]

module _ (service supplied fresh path : String) (duration : Value) where
  abbrev used_id : String
  used_id = request_id_of supplied fresh

  -- What a request leaves behind.
  pub record Observed (result : Result Response) (s : State) (answer : Result Response) (s' : State)
      : Type 0 where
    pub short : IsShort used_id
    pub answer_kept : answer ≡ with_id used_id result
    pub counted :
        s'.counters
        ≡ count_up "temis_auth_requests_total"
            (labels_of (route_name path) (outcome_with result))
            s.counters
    pub fields : Fields
    pub logged :
        s'.log
        ≡ s.log
          ++ redact (event_record service "http.request" (outcome_with result) used_id fields) ∷ []

  -- The middleware raises no error of its own: it passes on the answer, with the request's id, or the
  -- exception; it counts the request once, under a foreseen route and outcome; it logs one redacted
  -- record; and the id has between one and 64 characters, all ASCII, whatever the client sent, if the
  -- id that is drawn has.
  pub observe-Observed :
      (result : Result Response) (s : State)
      → IsShort fresh
      → Observed result s
          (observe service supplied fresh path duration result s).0
          (observe service supplied fresh path duration result s).1
  unfolding observe event
  observe-Observed (ok response) s h =
      rw
        (increment-observed path (outcome_of response) s.counters
          (outcome_with-foreseen (ok response)))
        (record {
          short = request_id_of-IsShort supplied fresh h;
          answer_kept = refl;
          counted = refl;
          fields = _;
          logged = refl;
        })
  observe-Observed (err e) s h =
      rw (increment-observed path "error" s.counters (outcome_with-foreseen (err e))) (record {
        short = request_id_of-IsShort supplied fresh h;
        answer_kept = refl;
        counted = refl;
        fields = _;
        logged = refl;
      })
