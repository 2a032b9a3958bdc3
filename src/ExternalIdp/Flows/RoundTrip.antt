-- ===== src/ExternalIdp/Flows/RoundTrip.antt =====
-- A flow that `issue` of src/temis_sso/external_idp/security.py began is found by `consume`.
use temis_sso_lab.Base.{
  some, ap, ℕ, ◌+◌, ◌≤◌, String, true, ok, ◌≡◌, arith, Bool-cases, inl, inr, find, delete_where,
  eq_refl,
}
use temis_sso_lab.ExternalIdp.Flows.{
  Flows, ExternalFlow, Drawn, new_flow, issue, consume, has_state, is_binding,
}

-- What `issue` has begun.
pub record Begun (s256 : String → String) (redirect_uri : String) (now : ℕ) (binding : String)
    (drawn : Drawn) (flow : ExternalFlow) (flows' : Flows) : Type 0 where
  pub formed : is_binding binding ≡ true
  pub made : flow ≡ new_flow s256 redirect_uri now binding drawn
  pub held : find (has_state drawn.state) flows' ≡ some flow

pub issue-Begun :
    (s256 : String → String) (redirect_uri : String) (now : ℕ) (binding : String) (drawn : Drawn)
    (flows : Flows) {flow : ExternalFlow} {flows' : Flows}
    → issue s256 redirect_uri now binding drawn flows ≡ (ok flow, flows')
    → Begun s256 redirect_uri now binding drawn flow flows'
unfolding issue find
issue-Begun s256 redirect_uri now binding drawn flows h = elim (Bool-cases (is_binding binding)) [
  | inr e ↦ absurd (ground (arith, e, h))
  | inl e ↦
      let same = eq_refl drawn.state in
      record { formed = e; made = ground (arith, e, h); held = ground (arith, e, h, same) }
]

-- In its time and its browser a flow that was begun is consumed.
pub consume-issue :
    (s256 : String → String) (redirect_uri : String) (now : ℕ) (binding : String) (drawn : Drawn)
    (flow : ExternalFlow) (flows' : Flows) (ttl_seconds later : ℕ)
    → Begun s256 redirect_uri now binding drawn flow flows'
    → later ≤ now + ttl_seconds
    → consume ttl_seconds drawn.state later binding flows'
      ≡ (ok flow, delete_where (has_state drawn.state) flows')
unfolding consume
consume-issue s256 redirect_uri now binding drawn flow flows' ttl_seconds later begun h =
    let same = eq_refl binding in
    let bound : flow.browser_binding ≡ binding =
      ap (λ (x : ExternalFlow). x.browser_binding) begun.made in
    let created : flow.created_at ≡ now = ap (λ (x : ExternalFlow). x.created_at) begun.made in
    rw (begun.formed, begun.held) (rw (bound, created) (ground (arith, same, h)))
