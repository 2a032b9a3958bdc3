-- ===== src/Api/Accounts/Answers.antt =====
-- What the account handlers of src/temis_sso/api/auth.py tell, and to whom they give tokens.
use temis_sso_lab.Api.Accounts.{refused_login, unprocessable}
use temis_sso_lab.Base.{
  pure, rethrow-ok, rethrow, resume, raise_if, not, subst, ap, ℕ, String, Bool, true, false, none,
  some, List, [], ◌∷◌, Result, ok, err, ◌≡◌, refl, http_exception, arith, Option-cases, Bool-cases,
  inl, inr, ◌⊎◌, ◌&&◌, eq_refl, find, any,
}
use temis_sso_lab.Persistence.{
  add_one_time, User, Db, by_email, has_email, is_user, normal_email, same_token, add_one_time,
}
use temis_sso_lab.Application.Auth.{mismatches}
use temis_sso_lab.Application.Auth.Lockout.{authenticate_wrong}
use temis_sso_lab.Jose.{Jose}
use temis_sso_lab.KeyRing.{Ring}
use temis_sso_lab.Application.Auth.{
  issue_one_time, request_password_reset, Hasher, State, AuthenticatedUser, is_locked, authenticate,
  issue_one_time, request_password_reset, new_one_time,
}
use temis_sso_lab.Application.Auth.Lockout.{LoggedIn, authenticate-ok}
use temis_sso_lab.Api.Tokens.{TokenBundle, issue_bundle}
use temis_sso_lab.Api.Tokens.Issue.{Issued, issue_bundle-ok}
use temis_sso_lab.Api.Accounts.{is_email, is_password, login, reset_request}

module _ (sha256_hex : String → String) (hasher : Hasher) (jose : Jose) (ring : Ring jose) where
  -- Nobody has the password: there is no account of the address, or it has no password, or argon2
  -- finds that the password does not match its hash.
  abbrev pub IsStranger : String → String → Db → Type 0
  IsStranger email password db =
      (by_email email db ≡ none)
      ⊎ ((u : User) × (by_email email db ≡ some u)
          × ((u.password_hash ≡ none)
              ⊎ ((hash : String) × (u.password_hash ≡ some hash)
                  × (hasher.verify hash password ≡ mismatches))))

  -- Login does not tell an address without an account from a wrong password, or what the status of
  -- an account is: whoever does not have the password gets the same 401, as long as the stored hash
  -- is one that argon2 can read.
  pub login_stranger :
      (email password raw : String) (checked granted now : ℕ) (db : Db)
      → (is_email email && is_password password) ≡ true
      → IsStranger email password db
      → (login sha256_hex hasher jose ring email password raw checked granted now db).0
        ≡ err (http_exception 401 "invalid credentials")
  unfolding login authenticate
  login_stranger email password raw checked granted now db valid (inl unknown) =
      rw (valid, unknown) refl
  login_stranger email password raw checked granted now db valid (inr (u, found, inl bare)) =
      rw (valid, found, bare) refl
  login_stranger email password raw checked granted now db valid
        (inr (u, found, inr (hash, set, wrong))) =
      elim (Bool-cases (is_locked u.locked_until checked)) [
        | inl locked ↦ rw (valid, found, set, locked) refl
        | inr open_ ↦
            let refused =
              authenticate_wrong hasher email password checked db u hash
                (record { found = found; has_hash = set; unlocked = open_ }) wrong in
            rw valid (
              ap
                (λ (x : Result AuthenticatedUser × Db).
                  (rethrow refused_login (
                    resume x (λ who.
                      issue_bundle sha256_hex jose ring who.user_id "temis-lab" none raw granted
                        now))).0)
                refused)
      ]

  after_login :
      (raw : String) (granted now : ℕ) (r : Result AuthenticatedUser) (d : Db)
      (b : TokenBundle jose.Token) (db' : Db)
      → resume
          (r, d)
          (λ who. issue_bundle sha256_hex jose ring who.user_id "temis-lab" none raw granted now)
        ≡ (ok b, db')
      → (who : AuthenticatedUser) × (r ≡ ok who)
        × Issued sha256_hex jose ring who.user_id "temis-lab" now d b db'
  after_login raw granted now (err e) d b db' h = absurd (ground arith)
  after_login raw granted now (ok who) d b db' h = (
    who,
    refl,
    issue_bundle-ok sha256_hex jose ring who.user_id "temis-lab" raw none granted now d b db' h,
  )

  login-step :
      (email password raw : String) (checked granted now : ℕ) (db : Db) (b : TokenBundle jose.Token)
      (db' : Db)
      → login sha256_hex hasher jose ring email password raw checked granted now db ≡ (ok b, db')
      → resume
          (authenticate hasher email password checked db)
          (λ who. issue_bundle sha256_hex jose ring who.user_id "temis-lab" none raw granted now)
        ≡ (ok b, db')
  unfolding login
  login-step email password raw checked granted now db b db' h =
      elim (Bool-cases (is_email email && is_password password)) [
        | inl valid ↦ rethrow-ok refused_login _ (
            subst
              (λ v.
                resume (raise_if (not v) unprocessable db) (λ u db. rethrow refused_login (
                  resume (authenticate hasher email password checked db) (λ who.
                    issue_bundle sha256_hex jose ring who.user_id "temis-lab" none raw granted
                      now)))
                ≡ (ok b, db'))
              valid h)
        | inr invalid ↦ absurd (ground (arith, invalid, h))
      ]

  -- Tokens are given at login only for the right password of an active account that is not locked,
  -- and they are those of that account.
  pub login-LoggedIn :
      (email password raw : String) (checked granted now : ℕ) (db : Db) (b : TokenBundle jose.Token)
      (db' : Db)
      → login sha256_hex hasher jose ring email password raw checked granted now db ≡ (ok b, db')
      → (who : AuthenticatedUser) × (db₁ : Db) × LoggedIn hasher email password checked db who db₁
        × Issued sha256_hex jose ring who.user_id "temis-lab" now db₁ b db'
  login-LoggedIn email password raw checked granted now db b db' h =
      let (r, db₁) = authenticate hasher email password checked db in
      let (who, found, issued) =
        after_login raw granted now r db₁ b db'
          (login-step email password raw checked granted now db b db' h) in
      (
        who,
        db₁,
        authenticate-ok hasher email password checked db who db₁ (ap (λ x. (x, db₁)) found),
        issued,
      )

any-found :
    (p q : User → Bool) (us : List User) (u : User)
    → find p us ≡ some u
    → q u ≡ true
    → any q us ≡ true
unfolding find any
any-found p q [] u h k = absurd (ground arith)
any-found p q (x ∷ us) u h k = elim (Bool-cases (p x)) [
  | inl e ↦ ground (arith, e)
  | inr e ↦ ground (arith, e, any-found p q us u)
]

requested :
    (sha256_hex : String → String) (email raw : String) (now : ℕ) (s : State)
    → ((user_id : String)
        → any (same_token (new_one_time (sha256_hex raw) user_id "reset" now)) s.db.one_time_tokens
          ≡ false)
    → (request_password_reset sha256_hex email raw now s).0 ≡ ok tt
unfolding request_password_reset issue_one_time add_one_time
requested sha256_hex email raw now s fresh = elim (Option-cases (by_email email s.db)) [
  | inl unknown ↦ rw (request_password_reset, unknown) refl
  | inr (u, found) ↦
      rw
        (
          request_password_reset,
          found,
          fresh u.id,
          any-found (has_email (normal_email email)) (is_user u.id) s.db.users u found
              (eq_refl u.id),
        )
        refl
]

answered :
    (r : Result (Unit {0}) × State)
    → r.0 ≡ ok tt
    → (resume {B = String} r (λ asked. pure "accepted")).0 ≡ ok "accepted"
answered (ok done, s) h = refl
answered (err e, s) h = absurd (ground arith)

-- A request for a reset gives the same answer for every address, with an account or without, where
-- the token that is drawn is not taken.
pub reset_request_uniform :
    (sha256_hex : String → String) (email raw : String) (now : ℕ) (s : State)
    → ((user_id : String)
        → any (same_token (new_one_time (sha256_hex raw) user_id "reset" now)) s.db.one_time_tokens
          ≡ false)
    → (reset_request sha256_hex email raw now s).0 ≡ ok "accepted"
unfolding reset_request
reset_request_uniform sha256_hex email raw now s fresh =
    answered (request_password_reset sha256_hex email raw now s)
      (requested sha256_hex email raw now s fresh)
