-- ===== src/Observability/Metrics/Render.antt =====
-- `Metrics.render` of src/temis_sso/observability.py: the counters as lines of text.

use temis_sso_lab.Base.{String, List, [], ◌∷◌, map, ◌≡◌, refl}
use temis_sso_lab.Base.Text.{append, join}
use temis_sso_lab.Base.Sort.{sorted_by, insert_by, texts_leb, text_leb}
use temis_sso_lab.Base.Decimal.{decimal, decimal_of}
use temis_sso_lab.Observability.Metrics.{Counter, Labels}

abbrev label_key : String × String → List String
label_key (key, item) = key ∷ item ∷ []

-- `tuple(sorted(labels.items()))`
abbrev pub sorted_labels : Labels → Labels
sorted_labels labels = sorted_by label_key labels

abbrev flat : Labels → List String
flat [] = []
flat ((key, item) ∷ labels) = key ∷ item ∷ flat labels

-- The key of a counter, as the texts in which two keys are compared.
abbrev pub counter_key : Counter → List String
counter_key c = c.name ∷ flat (sorted_labels c.labels)

-- `f'{key}="{item}"'`
abbrev label_text : String × String → String
label_text (key, item) = append key (append "=\"" (append item "\""))

-- `f"{name}{{{encoded}}} {value}"`
abbrev pub line : Counter → String
line c = append c.name (
    append "{"
      (append (join "," (map label_text (sorted_labels c.labels))) (append "} " (decimal c.count))))

abbrev text_of : List String → String
text_of [] = ""
text_of (l ∷ lines) = append (join "\n" (l ∷ lines)) "\n"

unfoldable pub render : List Counter → String
render counters = text_of (map line (sorted_by counter_key counters))

abbrev counters : List Counter
counters =
    (record {
      name = "temis_dependency_health";
      labels = ("state", "up") ∷ ("dependency", "redis") ∷ [];
      count = 3;
    })
    ∷ (record {
      name = "temis_auth_requests_total";
      labels = ("route", "login") ∷ ("outcome", "success") ∷ [];
      count = 12;
    })
    ∷ []

render_test :
    render counters
    ≡ "temis_auth_requests_total{outcome=\"success\",route=\"login\"} 12\ntemis_dependency_health{dependency=\"redis\",state=\"up\"} 3\n"
unfolding render sorted_by insert_by texts_leb text_leb decimal decimal_of join append
render_test = refl
