-- ===== src/ExternalIdp/Callback/Verified.antt =====
-- What an identity rests on that `verify_google_id_token` (src/temis_sso/external_idp/callback.py)
-- returns.
use temis_sso_lab.Base.{
  sym, ap, ◌∙◌, ℕ, String, true, false, Option, none, some, ok, ◌≡◌, ◌==◌, arith, Result-cases,
  Bool-cases, Option-cases, inl, inr, eq_iff,
}
use temis_sso_lab.Base.Json.{Fields, get}
use temis_sso_lab.Jose.{Header, is_text, agrees}
use temis_sso_lab.Http.{Http, as_name}
use temis_sso_lab.ExternalIdp.Models.{ProviderMetadata, ExternalIdentity}
use temis_sso_lab.ExternalIdp.Jwks.{Keys, key}
use temis_sso_lab.ExternalIdp.Jwks.Fresh.{Current, key-Current}
use temis_sso_lab.ExternalIdp.Callback.{
  IdTokens, kid_of, checks, is_unauthorized, google_subject, identity_of, verify_google_id_token,
}

-- What the claims say of an identity.
pub record Claimed (audience nonce : String) (claims : Fields) (identity : ExternalIdentity)
    : Type 0 where
  pub this_flow : is_text (get claims "nonce") nonce ≡ true
  pub party : is_unauthorized audience (get claims "aud") (get claims "azp") ≡ false
  pub subject : as_name (get claims "sub") ≡ some identity.subject
  pub told : identity ≡ google_subject claims identity.subject

identity_of-Claimed :
    (audience nonce : String) (claims : Fields) {identity : ExternalIdentity}
    → identity_of audience nonce claims ≡ ok identity
    → Claimed audience nonce claims identity
identity_of-Claimed audience nonce claims {identity} h =
    elim (Bool-cases (is_text (get claims "nonce") nonce)) [
      | inr e ↦ absurd (ground (arith, e, h))
      | inl e ↦ elim (Bool-cases (is_unauthorized audience (get claims "aud") (get claims "azp"))) [
        | inl f ↦ absurd (ground (arith, e, f, h))
        | inr f ↦ elim (Option-cases (as_name (get claims "sub"))) [
          | inl g ↦ absurd (ground (arith, e, f, g, h))
          | inr (subject, g) ↦
              let same : google_subject claims subject ≡ identity = ground (arith, e, f, g, h) in
              record {
                this_flow = e;
                party = f;
                subject = g ∙ ap (λ (i : ExternalIdentity). some i.subject) same;
                told =
                    sym same ∙ ap (λ (i : ExternalIdentity). google_subject claims i.subject) same;
              }
        ]
      ]
    ]

kid_of-signed :
    (header : Option Header) {kid : String}
    → kid_of header ≡ ok kid
    → header ≡ some (record { alg = "RS256"; kid = some kid })
kid_of-signed none h = absurd (ground arith)
kid_of-signed (some header) {kid} h = elim (Option-cases header.kid) [
  | inl e ↦ absurd (ground (arith, e, h))
  | inr (named, e) ↦ elim (Bool-cases (header.alg == "RS256")) [
    | inr f ↦ absurd (ground (arith, e, f, h))
    | inl f ↦
        let alg : header.alg ≡ "RS256" = (eq_iff header.alg "RS256").0 f in
        let same : named ≡ kid = ground (arith, e, f, h) in
        λ i. some (record { alg = alg i; kid = (e ∙ ap some same) i })
  ]
]

module _ (tokens : IdTokens) (http : Http) (encoded : String) (metadata : ProviderMetadata)
    (audience nonce : String) (now clock : ℕ) where
  open tokens use {jose, from_jwk}

  -- A token that a current key of the provider has signed for this audience and this flow, and the
  -- identity that its claims tell.
  pub record Verified (s : Keys) (identity : ExternalIdentity) (s' : Keys) : Type 0 where
    pub kid : String
    pub signed : jose.header (jose.read encoded) ≡ some (record { alg = "RS256"; kid = some kid })
    pub jwk : Fields
    pub current : Current http metadata now kid s jwk s'
    pub public_key : jose.PublicKey
    pub read_key : from_jwk jwk ≡ ok public_key
    pub claims : Fields
    pub opened :
        jose.decode (jose.read encoded) public_key (checks metadata.issuer audience) clock
        ≡ some claims
    pub addressed : agrees (checks metadata.issuer audience) claims ≡ true
    pub claimed : Claimed audience nonce claims identity

  pub verify_google_id_token-Verified :
      (s : Keys) {identity : ExternalIdentity} {s' : Keys}
      → verify_google_id_token tokens http encoded metadata audience nonce now clock s
        ≡ (ok identity, s')
      → Verified s identity s'
  unfolding verify_google_id_token
  verify_google_id_token-Verified s {identity} {s'} h =
      elim (Result-cases (kid_of (jose.header (jose.read encoded)))) [
        | inr (x, a) ↦ absurd (ground (arith, a, h))
        | inl (kid, a) ↦
            let r = key http metadata now kid s in
            elim (Result-cases r.0) [
              | inr (x, b) ↦ absurd (ground (arith, a, b, h))
              | inl (jwk, b) ↦ elim (Result-cases (from_jwk jwk)) [
                | inr (x, c) ↦ absurd (ground (arith, a, b, c, h))
                | inl (public_key, c) ↦
                    let opened =
                      jose.decode (jose.read encoded) public_key (checks metadata.issuer audience)
                        clock in
                    elim (Option-cases opened) [
                      | inl d ↦ absurd (ground (arith, a, b, c, d, h))
                      | inr (claims, d) ↦ record {
                        kid = kid;
                        signed = kid_of-signed (jose.header (jose.read encoded)) a;
                        jwk = jwk;
                        current =
                            key-Current http metadata now kid s (ground (arith, a, b, c, d, h));
                        public_key = public_key;
                        read_key = c;
                        claims = claims;
                        opened = d;
                        addressed =
                            jose.decode-agrees (jose.read encoded) public_key
                              (checks metadata.issuer audience) clock d;
                        claimed =
                            identity_of-Claimed audience nonce claims
                              (ground (arith, a, b, c, d, h));
                      }
                    ]
              ]
            ]
      ]
