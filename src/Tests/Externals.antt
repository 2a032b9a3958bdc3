-- ===== src/Tests/Externals.antt =====
-- Flows and links of external identities at concrete inputs.
use temis_sso_lab.Base.{true}
use temis_sso_lab.Persistence.{Db}
use temis_sso_lab.ExternalIdp.Flows.{ExternalFlow}
use temis_sso_lab.ExternalIdp.Stores.{link_account}
use temis_sso_lab.Tests.Fixtures.{small_db}

abbrev pub flow : ExternalFlow
flow = record {
  state = "s1";
  nonce = "n1";
  code_verifier = "v1";
  code_challenge = "v1";
  redirect_uri = "http://localhost:8000/oauth/google/callback";
  created_at = 100;
  browser_binding = "browser-binding-1";
}

abbrev pub linked_db : Db
linked_db = (link_account "ann" "google" "g-1" true 5 small_db).1
