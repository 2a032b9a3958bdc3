-- ===== src/Base/Effects.antt =====
-- Exceptions, and methods that change a state and may raise. What was written before a raise stays
-- written, so the state comes back beside the error; a session's rollback is `session_scope` of
-- Persistence.
use Prim.Native.Nat.{ℕ}
use Prim.Native.String.{String}
use mathlib.Core.Bool.{Bool}
use mathlib.Core.Path.{◌≡◌, refl}
use mathlib.Core.Logic.{◌⊎◌, inl, inr}
use native.Mathlib.Omega.{arith}
use mathlib.Core.Option.{Option, none, some}
use temis_sso_lab.Base.Tests.{if◌then◌else◌}

-- The exceptions that the program raises or lets through. `http_exception` is FastAPI's.
pub data Exception : Type 0 where
  value_error runtime_error type_error key_error : String → Exception
  http_exception : ℕ → String → Exception
  integrity_error os_error attribute_error name_error http_error : Exception
  duplicate_email invalid_credentials verification_required invalid_one_time_token : Exception
  admin_required user_not_found self_action : Exception
  token_rejected dependency_unavailable scope_denied : String → Exception
  request_rejected oauth_failed invalid_token : String → Exception
  lab_error : ℕ → String → Exception

pub data Result {ℓ} (A : Type ℓ) : Type ℓ where
  ok : A → Result A
  err : Exception → Result A

pub Result-cases {ℓ} :
    {A : Type ℓ} (r : Result A) → ((a : A) × (r ≡ ok a)) ⊎ ((e : Exception) × (r ≡ err e))
Result-cases (ok a) = inl (a, refl)
Result-cases (err e) = inr (e, refl)

abbrev pub Action : Type 0 → Type 0 → Type 0
Action S A = S → Result A × S

module _ {S A : Type 0} where
  abbrev pub pure : A → Action S A
  pure a s = (ok a, s)

  abbrev pub raise : Exception → Action S A
  raise e s = (err e, s)

  abbrev pub lift : Result A → Action S A
  lift r s = (r, s)

  abbrev pub gets : (S → A) → Action S A
  gets f s = (ok (f s), s)

  abbrev pub or_raise : Option A → Exception → Action S A
  or_raise none e s = (err e, s)
  or_raise (some a) e s = (ok a, s)

module _ {S A B : Type 0} where
  -- What follows a call: it goes on with the value, or passes the exception on.
  abbrev pub resume : Result A × S → (A → Action S B) → Result B × S
  resume (r, s) f = elim r [ ok a ↦ f a s | err e ↦ (err e, s) ]

  infixl 5 ◌>>=◌ ◌>>◌
  abbrev pub ◌>>=◌ : Action S A → (A → Action S B) → Action S B
  ◌>>=◌ m f s = resume (m s) f

  abbrev pub ◌>>◌ : Action S A → Action S B → Action S B
  m >> k = m >>= λ _. k

module _ {S : Type 0} where
  abbrev pub raise_if : Bool → Exception → Action S (Unit {0})
  raise_if b e s = (if b then err e else ok tt, s)

  abbrev pub modify : (S → S) → Action S (Unit {0})
  modify f s = (ok tt, f s)

-- `try: ... except ...: raise ...`: the exceptions are mapped, the rest is left.
abbrev pub rethrow : {A S : Type 0} → (Exception → Exception) → Result A × S → Result A × S
rethrow f (ok a, s) = (ok a, s)
rethrow f (err e, s) = (err (f e), s)

pub rethrow-ok :
    {A S : Type 0} (f : Exception → Exception) (r : Result A × S) {a : A} {s : S}
    → rethrow f r ≡ (ok a, s)
    → r ≡ (ok a, s)
rethrow-ok f (ok b, t) h = h
rethrow-ok f (err e, t) h = absurd (ground arith)
