-- ===== src/Tests/Records.antt =====
-- Log records and counters at concrete inputs.
use temis_sso_lab.Base.Json.{obj, arr, str, field, end, cons, nil}
use temis_sso_lab.Observability.{redact}
use temis_sso_lab.Observability.Redaction.{IsClean, redact-IsClean}

redact-IsClean_example : IsClean (
    redact (
      obj (field "access_token" (str "x") (field "notes" (arr (cons (str "Bearer abc") nil)) end))))
redact-IsClean_example =
    redact-IsClean
      (obj (field "access_token" (str "x") (field "notes" (arr (cons (str "Bearer abc") nil)) end)))
