-- ===== src/Application/Admin/Audit.antt =====
-- The audit rows of src/temis_sso/application/admin.py, and the redaction of their details.
use temis_sso_lab.Base.{
  ◌||◌, ◌∙◌, inl, inr, Bool-cases, ◌∙◌, refl, ℕ, suc, String, true, false, ok, arith, ◌≡◌, ap, List,
  [], ◌∷◌, ◌++◌, All, length,
}
use temis_sso_lab.Base.Json.{Value, str}
use temis_sso_lab.Base.Text.{lower, has_any}
use temis_sso_lab.Persistence.{AuditLog, Db, merge_role, delete_role, add_audit}
use temis_sso_lab.Application.Admin.{
  Details, hidden, is_sensitive, redact, redact_entry, invalidate_authorization,
}
use temis_sso_lab.Application.Admin.Calls.{
  Operation, approve, suspend, grant, revoke, end_sessions, perform,
}
use temis_sso_lab.Application.Admin.Outcome.{effect, action, details, perform-ok}

audit_logs-effect :
    (op : Operation) (target_id : String) (db : Db)
    → (effect op target_id db).audit_logs ≡ db.audit_logs
unfolding merge_role delete_role
audit_logs-effect (approve f) target_id db = ground arith
audit_logs-effect (suspend reason) target_id db = refl
audit_logs-effect (grant role) target_id db = ground arith
audit_logs-effect (revoke role) target_id db = refl
audit_logs-effect end_sessions target_id db = refl

abbrev pub entry : Operation → String → String → ℕ → List AuditLog → AuditLog
entry op actor_id target_id audited logs = record {
  id = suc (length logs);
  actor_id = actor_id;
  target_id = target_id;
  action = action op;
  details = redact (details op);
  created_at = audited;
}

-- An operation that succeeds leaves exactly one more audit row: the actor, the target, the action
-- and the redacted details.
pub audit_logs-perform :
    (op : Operation) (actor_id target_id : String) (now audited : ℕ) (db db' : Db)
    → perform op actor_id target_id now audited db ≡ (ok tt, db')
    → db'.audit_logs ≡ db.audit_logs ++ entry op actor_id target_id audited db.audit_logs ∷ []
unfolding add_audit invalidate_authorization
audit_logs-perform op actor_id target_id now audited db db' h =
    ap (λ (d : Db). d.audit_logs) (perform-ok op actor_id target_id now audited db db' h).after
    ∙ ap (λ (l : List AuditLog). l ++ entry op actor_id target_id audited l ∷ [])
        (audit_logs-effect op target_id db)

-- Nothing sensitive is left in an entry: the value is replaced under a key with a hidden word, and
-- elsewhere it is no text with a marker.
abbrev pub IsRedacted : String × Value → Type 0
IsRedacted (key, value) =
    (has_any hidden (lower key) ≡ true → value ≡ str "[REDACTED]") × (is_sensitive value ≡ false)

-- The replacement is no sensitive text.
is_sensitive-replacement : is_sensitive (str "[REDACTED]") ≡ false
unfolding lower has_any
is_sensitive-replacement = refl

redact_entry-IsRedacted : (key : String) (value : Value) → IsRedacted (key, redact_entry key value)
redact_entry-IsRedacted key value =
    elim (Bool-cases (has_any hidden (lower key) || is_sensitive value)) [
      | inl e ↦ rw e ((λ h. refl), is_sensitive-replacement)
      | inr e ↦ rw e ((λ h. absurd (ground arith)), ground arith)
    ]

-- The details that are written hold no sensitive entry.
pub redact-IsRedacted : (d : Details) → All IsRedacted (redact d)
unfolding redact
redact-IsRedacted [] = tt
redact-IsRedacted ((key, value) ∷ rest) =
    (redact_entry-IsRedacted key value, redact-IsRedacted rest)

redact_entry_idem :
    (key : String) (value : Value)
    → redact_entry key (redact_entry key value) ≡ redact_entry key value
redact_entry_idem key value = elim (Bool-cases (has_any hidden (lower key) || is_sensitive value)) [
  | inl e ↦ rw e (ground (arith, is_sensitive-replacement))
  | inr e ↦ simp e
]

-- Redacting again changes nothing.
pub redact_idem : (d : Details) → redact (redact d) ≡ redact d
unfolding redact
redact_idem [] = refl
redact_idem ((key, value) ∷ rest) = cc (redact_entry_idem key value, redact_idem rest)
