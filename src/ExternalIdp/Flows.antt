-- ===== src/ExternalIdp/Flows.antt =====
-- src/temis_sso/external_idp/security.py: the flows in progress, each bound to a browser. Times are
-- seconds.
pub mod RoundTrip
use Prim.Native.Char.{Char, code}
use Prim.Native.String.{String, [], ◌∷◌}
use temis_sso_lab.Base.{
  refl, text_cases, false, find-delete_where_self, ℕ, ◌+◌, ◌≤◌, Bool, true, not, ◌&&◌, ◌||◌, ◌==◌,
  leb, ltb, nat_eq, Option, none, some, List, find, delete_where, if◌then◌else◌, ok, err, Exception,
  value_error, Action, ◌≡◌, arith, Bool-cases, Option-cases, inl, inr, ap, ◌∙◌, subst, eq_iff,
  ltb→le,
}
use temis_sso_lab.Base.Text.{length}

pub record ExternalFlow : Type 0 where
  pub state : String
  pub nonce : String
  pub code_verifier : String
  pub code_challenge : String
  pub redirect_uri : String
  pub created_at : ℕ
  pub browser_binding : String

-- `[A-Za-z0-9_-]`
abbrev is_token_char : Char → Bool
is_token_char c =
    (leb 65 (code c) && leb (code c) 90)
    || (leb 97 (code c) && leb (code c) 122)
    || (leb 48 (code c) && leb (code c) 57)
    || nat_eq (code c) 95
    || nat_eq (code c) 45

unfoldable pub has_token_chars : String → Bool
has_token_chars [] = true
has_token_chars (c ∷ s) = is_token_char c && has_token_chars s

-- `re.fullmatch(r"[A-Za-z0-9_-]{16,128}", browser_binding)`
abbrev pub is_binding : String → Bool
is_binding s = has_token_chars s && leb 16 (length s) && leb (length s) 128

abbrev pub has_state : String → ExternalFlow → Bool
has_state state flow = flow.state == state

abbrev pub Flows : Type 0
Flows = List ExternalFlow

-- The values that `issue` draws: the state, the nonce and the verifier.
pub record Drawn : Type 0 where
  pub state : String
  pub nonce : String
  pub verifier : String

abbrev pub new_flow : (String → String) → String → ℕ → String → Drawn → ExternalFlow
new_flow s256 redirect_uri now browser_binding drawn = record {
  state = drawn.state;
  nonce = drawn.nonce;
  code_verifier = drawn.verifier;
  code_challenge = s256 drawn.verifier;
  redirect_uri = redirect_uri;
  created_at = now;
  browser_binding = browser_binding;
}

abbrev invalid_binding : Exception
invalid_binding = value_error "browser binding format is invalid"

-- `issue`: a flow under the same state is replaced.
unfoldable pub issue : (String → String) → String → ℕ → String → Drawn → Action Flows ExternalFlow
issue s256 redirect_uri now browser_binding drawn flows =
    if is_binding browser_binding
    then (
      ok (new_flow s256 redirect_uri now browser_binding drawn),
      List.◌∷◌ (new_flow s256 redirect_uri now browser_binding drawn)
          (delete_where (has_state drawn.state) flows),
    )
    else (err invalid_binding, flows)

abbrev consume_found : ℕ → String → ℕ → String → Option ExternalFlow → Action Flows ExternalFlow
consume_found ttl_seconds state now browser_binding none flows =
    (err (value_error "unknown or already used state"), flows)
consume_found ttl_seconds state now browser_binding (some flow) flows =
    if ltb (flow.created_at + ttl_seconds) now
    then (err (value_error "expired state"), flows)
    else if not (flow.browser_binding == browser_binding)
    then (err (value_error "state browser binding mismatch"), flows)
    else (ok flow, delete_where (has_state state) flows)

-- `consume`
unfoldable pub consume : ℕ → String → ℕ → String → Action Flows ExternalFlow
consume ttl_seconds state now browser_binding flows =
    if is_binding browser_binding
    then consume_found ttl_seconds state now browser_binding (find (has_state state) flows) flows
    else (err invalid_binding, flows)

-- What a consumed flow rests on, and that it is used up.
pub record Consumed (ttl_seconds : ℕ) (state : String) (now : ℕ) (binding : String) (flows : Flows)
    (flow : ExternalFlow) (flows' : Flows) : Type 0 where
  pub held : find (has_state state) flows ≡ some flow
  pub bound : flow.browser_binding ≡ binding
  pub alive : now ≤ flow.created_at + ttl_seconds
  pub used : find (has_state state) flows' ≡ none

-- A flow is consumed only in the browser to which it is bound and within its time, and then no flow
-- with its state is left: a second `consume` of the state fails, in any browser.
pub consume-Consumed :
    (ttl_seconds : ℕ) (state : String) (now : ℕ) (binding : String) (flows : Flows)
    (flow : ExternalFlow) (flows' : Flows)
    → consume ttl_seconds state now binding flows ≡ (ok flow, flows')
    → Consumed ttl_seconds state now binding flows flow flows'
unfolding consume
consume-Consumed ttl_seconds state now binding flows flow flows' h =
    elim (Bool-cases (is_binding binding)) [
      | inr e ↦ absurd (ground (arith, e, h))
      | inl e ↦ elim (Option-cases (find (has_state state) flows)) [
        | inl f ↦ absurd (ground (arith, e, f, h))
        | inr (found, f) ↦ elim (Bool-cases (ltb (found.created_at + ttl_seconds) now)) [
          | inl late ↦ absurd (ground (arith, e, f, late, h))
          | inr prompt ↦ elim (Bool-cases (found.browser_binding == binding)) [
            | inr other ↦ absurd (ground (arith, e, f, prompt, other, h))
            | inl same ↦
                let taken : found ≡ flow = ground (arith, e, f, prompt, same, h) in
                let left : flows' ≡ delete_where (has_state state) flows =
                  ground (arith, e, f, prompt, same, h) in
                record {
                  held = f ∙ ap some taken;
                  bound =
                      subst (λ (x : ExternalFlow). x.browser_binding ≡ binding) taken
                        ((eq_iff found.browser_binding binding).0 same);
                  alive =
                      subst (λ (x : ExternalFlow). now ≤ x.created_at + ttl_seconds) taken
                        (ltb→le (found.created_at + ttl_seconds) now prompt);
                  used =
                      ap (find (has_state state)) left
                      ∙ find-delete_where_self (has_state state) flows;
                }
          ]
        ]
      ]
    ]

-- A binding of the format is not empty.
pub is_binding-named : (binding : String) → is_binding binding ≡ true → (binding == "") ≡ false
unfolding has_token_chars length
is_binding-named binding h = elim (text_cases binding "") [
  | inl e ↦ absurd (let h' = subst (λ (b : String). is_binding b ≡ true) e h in ground (arith, h'))
  | inr e ↦ e
]

pub consume-is_binding :
    (ttl_seconds : ℕ) (state : String) (now : ℕ) (binding : String) (flows : Flows)
    {flow : ExternalFlow}
    → (consume ttl_seconds state now binding flows).0 ≡ ok flow
    → is_binding binding ≡ true
unfolding consume
consume-is_binding ttl_seconds state now binding flows h = elim (Bool-cases (is_binding binding)) [
  | inl e ↦ e
  | inr e ↦ absurd (ground (arith, e, h))
]

pub consume_unknown :
    (ttl_seconds : ℕ) (state : String) (now : ℕ) (binding : String) (flows : Flows)
    → is_binding binding ≡ true
    → find (has_state state) flows ≡ none
    → consume ttl_seconds state now binding flows
      ≡ (err (value_error "unknown or already used state"), flows)
unfolding consume
consume_unknown ttl_seconds state now binding flows b f = rw (b, f) refl
