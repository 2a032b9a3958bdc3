-- ===== src/Application/Auth/Enrol.antt =====
-- From registration to login (src/temis_sso/application/auth.py).
use temis_sso_lab.Application.Auth.OneTime.{verify_email_usable, marked}
use temis_sso_lab.Application.Auth.Lockout.{authenticate_accepted, authenticate_pending}
use temis_sso_lab.Base.{
  ℕ, ◌+◌, ◌<◌, ◌≡◌, refl, ap, ◌∙◌, List, [], ◌∷◌, ◌++◌, String, Bool, true, false, some, Result, ok,
  err, verification_required, eq_refl, arith, lt→ltb, find, any, find-append_none, find-any-false,
}
use temis_sso_lab.Persistence.{
  User, OneTimeToken, Db, is_user, has_email, normal_email, new_user, conflicts, create, same_token,
  add_one_time, by_email, get_user, modify_user, is_one_time,
}
use temis_sso_lab.Persistence.Laws.{by_email-modify_user}
use temis_sso_lab.Application.Auth.{
  Hasher, State, deliver, AuthenticatedUser, identity, new_one_time, minutes, activate, register,
  verify_email, authenticate,
}

no_conflict_id :
    (new : User) (us : List User) → any (conflicts new) us ≡ false → any (is_user new.id) us ≡ false
unfolding any
no_conflict_id new [] h = refl
no_conflict_id new (u ∷ us) h = ground (arith, no_conflict_id new us)

no_conflict_email :
    (new : User) (us : List User)
    → any (conflicts new) us ≡ false
    → any (has_email new.email) us ≡ false
unfolding any
no_conflict_email new [] h = refl
no_conflict_email new (u ∷ us) h = ground (arith, no_conflict_email new us)

-- A row that is added at the end is found where no other fits.
found_added {ℓ} :
    {A : Type ℓ} (p : A → Bool) (xs : List A) (x : A)
    → any p xs ≡ false
    → p x ≡ true
    → find p (xs ++ x ∷ []) ≡ some x
unfolding find
found_added p xs x h e = find-append_none p xs (x ∷ []) (find-any-false p xs h) ∙ rw e

any_added {ℓ} :
    {A : Type ℓ} (p : A → Bool) (xs : List A) (x : A) → p x ≡ true → any p (xs ++ x ∷ []) ≡ true
unfolding any
any_added p [] x e = rw e
any_added p (y ∷ xs) x e = ground (arith, any_added p xs x e)

not_same_row :
    (digest purpose : String) (t : OneTimeToken) (ts : List OneTimeToken)
    → any (same_token t) ts ≡ false
    → any (is_one_time t.digest purpose) ts ≡ false
unfolding any
not_same_row digest purpose t [] h = refl
not_same_row digest purpose t (x ∷ ts) h = ground (arith, not_same_row digest purpose t ts)

module _ (hasher : Hasher) (sha256_hex : String → String) (email password user_id salt raw : String)
    (now : ℕ) where
  abbrev pub newcomer : User
  newcomer = new_user user_id email (some (hasher.hash salt password))

  abbrev pub ticket : OneTimeToken
  ticket = new_one_time (sha256_hex raw) user_id "verify" now

  abbrev registered : State → State
  registered s = deliver newcomer.email "verify" raw (record s {
    db = record s.db {
      users = s.db.users ++ newcomer ∷ [];
      one_time_tokens = s.db.one_time_tokens ++ ticket ∷ [];
    };
  })

  pub register-fresh :
      (s : State)
      → any (conflicts newcomer) s.db.users ≡ false
      → any (same_token ticket) s.db.one_time_tokens ≡ false
      → register sha256_hex hasher email password user_id salt raw now s
        ≡ (ok (identity newcomer), registered s)
  unfolding register create add_one_time
  register-fresh s c t =
      simp (c, t, any_added (is_user user_id) s.db.users newcomer (eq_refl user_id))

  -- Registration of a new address, then its verification in time, then login: with an id, an address
  -- and a token digest that are not taken, `register` puts the raw token into the mailbox, the token
  -- verifies the account within fifteen minutes of its issue, and from then on the password logs in
  -- to that account, while before it only the verification is asked for.
  pub register-verify-authenticate :
      (s : State) (verified stamp later : ℕ)
      → any (conflicts newcomer) s.db.users ≡ false
      → any (same_token ticket) s.db.one_time_tokens ≡ false
      → verified < now + minutes 15
      → let (result, s') = register sha256_hex hasher email password user_id salt raw now s in
        let (confirmed, db') = verify_email sha256_hex raw verified stamp s'.db in
        (result ≡ ok (identity newcomer))
        × (s'.mailbox (normal_email email) "verify" ≡ some raw)
        × ((authenticate hasher email password later s'.db).0 ≡ err verification_required)
        × (confirmed ≡ ok tt)
        × ((authenticate hasher email password later db').0 ≡ ok (identity newcomer))
  register-verify-authenticate s verified stamp later c t early =
      let s' = registered s in
      let email_found : by_email email s'.db ≡ some newcomer =
        found_added (has_email (normal_email email)) s.db.users newcomer
          (no_conflict_email newcomer s.db.users c) (eq_refl (normal_email email)) in
      let id_found : get_user user_id s'.db ≡ some newcomer =
        found_added (is_user user_id) s.db.users newcomer (no_conflict_id newcomer s.db.users c)
          (eq_refl user_id) in
      let token_found : find (is_one_time (sha256_hex raw) "verify") s'.db.one_time_tokens
          ≡ some ticket =
        found_added (is_one_time (sha256_hex raw) "verify") s.db.one_time_tokens ticket
          (not_same_row (sha256_hex raw) "verify" ticket s.db.one_time_tokens t) (simp eq_refl) in
      let confirmed =
        verify_email_usable sha256_hex raw verified stamp s'.db ticket newcomer token_found
          (lt→ltb verified (now + minutes 15) early) id_found in
      rw (register-fresh s c t) (
        refl,
        simp eq_refl,
        ap (λ (r : Result AuthenticatedUser × Db). r.0)
            (authenticate_pending hasher email password later s'.db newcomer
              (hasher.hash salt password) email_found refl refl (hasher.verify-hash salt password)
              refl),
        ap (λ (r : Result (Unit {0}) × Db). r.0) confirmed,
        ap (λ (r : Result (Unit {0}) × Db). (authenticate hasher email password later r.1).0)
              confirmed
            ∙ ap (λ (r : Result AuthenticatedUser × Db). r.0)
                (authenticate_accepted hasher email password later
                  (modify_user user_id activate (marked ticket stamp s'.db)) (activate newcomer)
                  (hasher.hash salt password)
                  (by_email-modify_user user_id activate (marked ticket stamp s'.db) email
                      (λ x. refl)
                    ∙ rw (email_found, eq_refl))
                  refl refl (hasher.verify-hash salt password) refl),
      )
