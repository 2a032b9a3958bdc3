-- ===== src/Observability/Metrics.antt =====
-- `Metrics` of src/temis_sso/observability.py: counters whose labels come from a closed set.
pub mod Render
use temis_sso_lab.Base.{
  ℕ, ◌+◌, String, Bool, true, not, ◌&&◌, ◌==◌, List, [], ◌∷◌, any, all, if◌then◌else◌, Option, none,
  some, ok, err, value_error, Action, ◌≡◌, Bool-cases, Option-cases, inl, inr, All,
}
use temis_sso_lab.Observability.{Schema, metric_labels}

-- A label set as a list of pairs, no label twice.
abbrev pub Labels : Type 0
Labels = List (String × String)

abbrev pub has_label : {V : Type 0} → List (String × V) → String → Bool
has_label entries key = any (λ (e : String × _). e.0 == key) entries

-- `set(labels) == set(allowed)`
abbrev pub same_keys : Labels → Schema → Bool
same_keys labels allowed =
    all (λ (e : String × String). has_label allowed e.0) labels
    && all (λ (e : String × List String). has_label labels e.0) allowed

abbrev pub values_of : String → Schema → List String
values_of key [] = []
values_of key ((k, values) ∷ allowed) = if k == key then values else values_of key allowed

-- `value in allowed[key]`
abbrev pub is_value : Schema → String × String → Bool
is_value allowed (key, value) = any (λ v. v == value) (values_of key allowed)

-- A counter: the metric, its labels and its count.
pub record Counter : Type 0 where
  pub name : String
  pub labels : Labels
  pub count : ℕ

abbrev pub same_labels : Labels → Labels → Bool
same_labels xs ys =
    all (λ (x : String × String). any (λ (y : String × String). y.0 == x.0 && y.1 == x.1) ys) xs
    && all (λ (y : String × String). any (λ (x : String × String). x.0 == y.0 && x.1 == y.1) xs) ys

-- `self._values[(name, tuple(sorted(labels.items())))] += 1`
unfoldable pub count_up : String → Labels → List Counter → List Counter
count_up name labels [] = (record { name = name; labels = labels; count = 1 }) ∷ []
count_up name labels (c ∷ cs) =
    let rest = count_up name labels cs in
    if c.name == name && same_labels c.labels labels
    then (record c { count = c.count + 1 }) ∷ cs
    else c ∷ rest

abbrev increment_in : String → Labels → Option Schema → Action (List Counter) (Unit {0})
increment_in name labels none cs = (err (value_error "unknown metric or label schema"), cs)
increment_in name labels (some allowed) cs =
    if not (same_keys labels allowed)
    then (err (value_error "unknown metric or label schema"), cs)
    else if not (all (is_value allowed) labels)
    then (err (value_error "high-cardinality label value"), cs)
    else (ok tt, count_up name labels cs)

unfoldable pub increment : String → Labels → Action (List Counter) (Unit {0})
increment name labels cs = increment_in name labels (metric_labels name) cs

-- Every counter is of a known metric, with exactly its labels and a value that is foreseen for each.
abbrev pub IsForeseen : Counter → Type 0
IsForeseen c =
    (allowed : Schema) × (metric_labels c.name ≡ some allowed)
    × (same_keys c.labels allowed ≡ true)
    × (all (is_value allowed) c.labels ≡ true)

count_up-IsForeseen :
    (name : String) (labels : Labels) (allowed : Schema) (cs : List Counter)
    → metric_labels name ≡ some allowed
    → same_keys labels allowed ≡ true
    → all (is_value allowed) labels ≡ true
    → All IsForeseen cs
    → All IsForeseen (count_up name labels cs)
unfolding count_up
count_up-IsForeseen name labels allowed [] m k v h = ((allowed, m, k, v), tt)
count_up-IsForeseen name labels allowed (c ∷ cs) m k v (here, later) =
    elim (Bool-cases (c.name == name && same_labels c.labels labels)) [
      | inl same ↦ rw same (here, later)
      | inr differ ↦ rw differ (here, count_up-IsForeseen name labels allowed cs m k v later)
    ]

-- Whatever is to be counted, accepted or refused, the counters stay foreseen: each is of a known
-- metric, with exactly its labels and values from their closed sets.
pub increment-IsForeseen :
    (name : String) (labels : Labels) (cs : List Counter)
    → All IsForeseen cs
    → All IsForeseen (increment name labels cs).1
unfolding increment
increment-IsForeseen name labels cs h = elim (Option-cases (metric_labels name)) [
  | inl unknown ↦ rw unknown h
  | inr (allowed, m) ↦ elim (Bool-cases (same_keys labels allowed)) [
    | inr k ↦ rw (m, k) h
    | inl k ↦ elim (Bool-cases (all (is_value allowed) labels)) [
      | inr v ↦ rw (m, k, v) h
      | inl v ↦ rw (m, k, v) (count_up-IsForeseen name labels allowed cs m k v h)
    ]
  ]
]
