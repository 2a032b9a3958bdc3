-- ===== src/ExternalIdp/Stores.antt =====
-- src/temis_sso/external_idp: the sessions of sessions.py, the registry of registry.py and the links
-- of external_accounts.py.
use temis_sso_lab.Base.{
  map, ℕ, String, Bool, not, ◌==◌, Option, none, some, List, [], ◌∷◌, ◌++◌, any, find, delete_where,
  if◌then◌else◌, Result, ok, err, value_error, key_error, Action, raise,
}
use temis_sso_lab.Base.Sort.{sorted}
use temis_sso_lab.Base.Text.{append}
use temis_sso_lab.Persistence.{ExternalIdentityLink, Db, Session, add_link, is_link}

abbrev pub Entry : Type 0 → Type 0
Entry V = String × V

abbrev pub lookup : {V : Type 0} → String → List (Entry V) → Option V
lookup key entries = elim (find (λ (e : Entry _). e.0 == key) entries) [
  | none ↦ none
  | some e ↦ some e.1
]

abbrev pub drop_key : {V : Type 0} → String → List (Entry V) → List (Entry V)
drop_key key = delete_where (λ (e : Entry _). e.0 == key)

-- `SessionStore`, with the id that is drawn.
unfoldable pub issue_session : String → String → Action (List (Entry String)) String
issue_session user_id session_id sessions =
    (ok session_id, (session_id, user_id) ∷ drop_key session_id sessions)

unfoldable pub resolve_session : String → List (Entry String) → Option String
resolve_session session_id sessions = lookup session_id sessions

unfoldable pub revoke_session : String → List (Entry String) → List (Entry String)
revoke_session session_id sessions = drop_key session_id sessions

-- `ProviderRegistry`; an adapter is any value.
module _ {V : Type 0} where
  unfoldable pub register_provider : String → V → Action (List (Entry V)) (Unit {0})
  register_provider name adapter providers =
      if any (λ (e : Entry V). e.0 == name) providers
      then (
        err (value_error (append "Provider '" (append name "' is already registered."))),
        providers,
      )
      else (ok tt, providers ++ (name, adapter) ∷ [])

  unfoldable pub get_provider : String → List (Entry V) → Result V
  get_provider name providers = elim (lookup name providers) [
    | none ↦ err (key_error (append "unknown provider: '" (append name "'")))
    | some adapter ↦ ok adapter
  ]

  -- `names`
  unfoldable pub provider_names : List (Entry V) → List String
  provider_names providers = sorted (map (λ (e : Entry V). e.0) providers)

abbrev pub owner_of : Option ExternalIdentityLink → Option String
owner_of none = none
owner_of (some l) = some l.user_id

-- `ExternalIdentityLinkRepository.resolve`
unfoldable pub resolve_link : String → String → Db → Option String
resolve_link provider subject db = owner_of (find (is_link provider subject) db.links)

-- `ConfirmedAccountLinkService.link`, with the time of the row.
unfoldable pub link_account : String → String → String → Bool → ℕ → Session (Unit {0})
link_account user_id provider subject confirmed now =
    if user_id == ""
    then raise (value_error "authenticated user is required")
    else if not confirmed
    then raise (value_error "account linking requires explicit confirmation")
    else add_link
        (record { provider = provider; subject = subject; user_id = user_id; created_at = now })
