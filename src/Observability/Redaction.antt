-- ===== src/Observability/Redaction.antt =====
-- What is left of a log record in src/temis_sso/observability.py.
use temis_sso_lab.Base.{String, true, false, ◌≡◌, refl, arith, Bool-cases, inl, inr}
use temis_sso_lab.Base.Json.{
  Value, Items, Fields, null, bool, int, str, arr, obj, nil, cons, end, field,
}
use temis_sso_lab.Base.Text.{lower, has_any, has_text}
use temis_sso_lab.Observability.{
  is_hidden_key, is_hidden_text, redact_text, redact, redact_fields, redact_items,
}

-- Nothing sensitive is left: no text with a marker at any depth, and under a sensitive key only the
-- replacement.
unfoldable mutual
  pub IsClean : Value → Type 0
  IsClean null = Unit
  IsClean (bool b) = Unit
  IsClean (int n) = Unit
  IsClean (str s) = is_hidden_text s ≡ false
  IsClean (obj fields) = AreClean fields
  IsClean (arr items) = AllClean items

  pub AreClean : Fields → Type 0
  AreClean end = Unit
  AreClean (field key v fields) =
      IsClean v × (is_hidden_key key ≡ true → v ≡ str "[REDACTED]") × AreClean fields

  pub AllClean : Items → Type 0
  AllClean nil = Unit
  AllClean (cons v items) = IsClean v × AllClean items

replacement : is_hidden_text "[REDACTED]" ≡ false
unfolding has_any lower has_text
replacement = refl

redact_text-IsClean : (s : String) → IsClean (redact_text s)
unfolding IsClean
redact_text-IsClean s = elim (Bool-cases (is_hidden_text s)) [
  | inl hidden ↦ rw hidden replacement
  | inr shown ↦ rw shown shown
]

mutual
  unfolding redact IsClean

  cleaned : (v : Value) → IsClean (redact v)
  cleaned null = tt
  cleaned (bool b) = tt
  cleaned (int n) = tt
  cleaned (str s) = redact_text-IsClean s
  cleaned (obj fields) = redact_fields-AreClean fields
  cleaned (arr items) = redact_items-AllClean items

  redact_fields-AreClean : (fields : Fields) → AreClean (redact_fields fields)
  redact_fields-AreClean end = tt
  redact_fields-AreClean (field key v fields) = elim (Bool-cases (is_hidden_key key)) [
    | inl hidden ↦ rw hidden (replacement, (λ h. refl), redact_fields-AreClean fields)
    | inr shown ↦
        rw shown (cleaned v, (λ h. absurd (ground (arith, h))), redact_fields-AreClean fields)
  ]

  redact_items-AllClean : (items : Items) → AllClean (redact_items items)
  redact_items-AllClean nil = tt
  redact_items-AllClean (cons v items) = (cleaned v, redact_items-AllClean items)

-- The record that is logged is clean at every depth: no text with a marker, and under a sensitive
-- key nothing but the replacement.
pub redact-IsClean : (v : Value) → IsClean (redact v)
redact-IsClean v = cleaned v
