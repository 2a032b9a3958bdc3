-- ===== src/FakeProvider.antt =====
-- src/temis_sso/fake_provider.py: the identity provider of the lab.
use temis_sso_lab.Base.{
  ℕ, String, Option, none, some, [], ◌∷◌, ◌==◌, if◌then◌else◌, err, value_error, Action,
}
use temis_sso_lab.OauthState.{Redis, Dict, Digests, put, take}

pub record ProviderIdentity : Type 0 where
  pub provider : String
  pub provider_subject : String

-- `self.accounts.get(account)`
unfoldable pub account_of : String → Option ProviderIdentity
account_of account =
    if account == "learner"
    then some (record { provider = "lab-provider"; provider_subject = "learner-001" })
    else if account == "reviewer"
    then some (record { provider = "lab-provider"; provider_subject = "reviewer-001" })
    else none

abbrev pub code_value : String → ProviderIdentity → Dict
code_value state identity =
    ("state", state)
    ∷ ("provider", identity.provider)
    ∷ ("provider_subject", identity.provider_subject)
    ∷ []

module _ (digests : Digests) where
  unfoldable pub authorize_account : String → String → String → ℕ → Action (Redis Dict) String
  authorize_account state account raw now redis = elim (account_of account) [
    | none ↦ (err (value_error "unknown fake-provider account"), redis)
    | some identity ↦ put digests "provider-code" (code_value state identity) 60 raw now redis
  ]

  unfoldable pub exchange : String → ℕ → Action (Redis Dict) (Option Dict)
  unfolding take
  exchange code now = take digests "provider-code" code now
