-- ===== src/Application/Auth/Lockout.antt =====
-- `authenticate` of src/temis_sso/application/auth.py: who is let in, and the lock after failures.
use temis_sso_lab.Base.{
  ◌≤◌, eq_iff, inr, inl, Option-cases, ℕ, ◌+◌, ◌<◌, ◌≡◌, refl, ap, ◌∙◌, String, true, false, none,
  some, Result, ok, err, invalid_credentials, ◌==◌, eq_refl, arith,
}
use temis_sso_lab.Persistence.{User, Db, by_email, modify_user}
use temis_sso_lab.Persistence.Laws.{by_email-modify_user}
use temis_sso_lab.Application.Auth.{
  verification_required, Hasher, matches, mismatches, AuthenticatedUser, identity, is_locked,
  minutes, after_failure, after_success, authenticate,
}

module _ (hasher : Hasher) (email : String) where
  -- What a login that succeeds has found and done.
  pub record LoggedIn (password : String) (now : ℕ) (db : Db) (who : AuthenticatedUser) (db' : Db)
      : Type 0 where
    pub user : User
    pub hash : String
    pub found : by_email email db ≡ some user
    pub has_hash : user.password_hash ≡ some hash
    pub verified : hasher.verify hash password ≡ matches
    pub unlocked : is_locked user.locked_until now ≡ false
    pub active : (user.status == "active") ≡ true
    pub is_user : who ≡ identity user
    pub after : db' ≡ modify_user user.id after_success db

  -- A login succeeds only for an active account that is not locked, with the password of its hash;
  -- it clears the count of failures and returns that account.
  pub authenticate-ok :
      (password : String) (now : ℕ) (db : Db) (who : AuthenticatedUser) (db' : Db)
      → authenticate hasher email password now db ≡ (ok who, db')
      → LoggedIn password now db who db'
  unfolding authenticate
  authenticate-ok password now db who db' h = elim (Option-cases (by_email email db)) [
    | inl e ↦ absurd (ground arith)
    | inr (u, e) ↦ elim (Option-cases u.password_hash) [
      | inl n ↦ absurd (ground arith)
      | inr (hash, p) ↦ record {
        user = u;
        hash = hash;
        found = e;
        has_hash = p;
        verified = ground arith;
        unlocked = ground arith;
        active = ground arith;
        is_user = ground arith;
        after = ground arith;
      }
    ]
  ]

  -- The account that the address names, when its password may be tried.
  pub record IsOpen (u : User) (hash : String) (now : ℕ) (db : Db) : Type 0 where
    pub found : by_email email db ≡ some u
    pub has_hash : u.password_hash ≡ some hash
    pub unlocked : is_locked u.locked_until now ≡ false

  authenticate_locked :
      (password : String) (now : ℕ) (db : Db) (u : User)
      → by_email email db ≡ some u
      → is_locked u.locked_until now ≡ true
      → authenticate hasher email password now db ≡ (err invalid_credentials, db)
  unfolding authenticate
  authenticate_locked password now db u e l = ground arith

  pub authenticate_pending :
      (password : String) (now : ℕ) (db : Db) (u : User) (hash : String)
      → by_email email db ≡ some u
      → u.password_hash ≡ some hash
      → is_locked u.locked_until now ≡ false
      → hasher.verify hash password ≡ matches
      → (u.status == "pending") ≡ true
      → authenticate hasher email password now db ≡ (err verification_required, db)
  unfolding authenticate
  authenticate_pending password now db u hash e p l v s = ground (arith, e, p, l, v, s)

  pub authenticate_accepted :
      (password : String) (now : ℕ) (db : Db) (u : User) (hash : String)
      → by_email email db ≡ some u
      → u.password_hash ≡ some hash
      → is_locked u.locked_until now ≡ false
      → hasher.verify hash password ≡ matches
      → u.status ≡ "active"
      → authenticate hasher email password now db
        ≡ (ok (identity u), modify_user u.id after_success db)
  unfolding authenticate
  authenticate_accepted password now db u hash e p l v s = ground (
    arith,
    e,
    p,
    l,
    v,
    eq_iff u.status "active",
    eq_iff u.status "pending",
    eq_iff "active" "pending",
  )

  pub authenticate_wrong :
      (password : String) (now : ℕ) (db : Db) (u : User) (hash : String)
      → IsOpen u hash now db
      → hasher.verify hash password ≡ mismatches
      → authenticate hasher email password now db
        ≡ (err invalid_credentials, modify_user u.id (after_failure now) db)
  unfolding authenticate
  authenticate_wrong password now db u hash o w = ground (arith, o.found, o.has_hash, o.unlocked)

  found_after_failure :
      (now : ℕ) (db : Db) (u : User)
      → by_email email db ≡ some u
      → by_email email (modify_user u.id (after_failure now) db) ≡ some (after_failure now u)
  found_after_failure now db u e =
      by_email-modify_user u.id (after_failure now) db email (λ x. refl) ∙ rw (e, eq_refl)

  abbrev pub attempt : String → ℕ → Db → Db
  attempt password now db = (authenticate hasher email password now db).1

  attempt_wrong :
      (password : String) (now : ℕ) (db : Db) (u : User) (hash : String)
      → IsOpen u hash now db
      → hasher.verify hash password ≡ mismatches
      → by_email email (attempt password now db) ≡ some (after_failure now u)
  attempt_wrong password now db u hash o w =
      ap (λ (r : Result AuthenticatedUser × Db). by_email email r.1)
        (authenticate_wrong password now db u hash o w)
      ∙ found_after_failure now db u o.found

  -- Three wrong passwords of an account that has no failure counted and no lock before them.
  pub record ThreeFailures (first second third : String) (db : Db) (u : User) (hash : String)
      : Type 0 where
    pub found : by_email email db ≡ some u
    pub has_hash : u.password_hash ≡ some hash
    pub zero_failures : u.failed_logins ≡ 0
    pub unlocked : u.locked_until ≡ none
    pub first_wrong : hasher.verify hash first ≡ mismatches
    pub second_wrong : hasher.verify hash second ≡ mismatches
    pub third_wrong : hasher.verify hash third ≡ mismatches

  abbrev pub failed_thrice : ℕ → ℕ → ℕ → User → User
  failed_thrice t₁ t₂ t₃ u = after_failure t₃ (after_failure t₂ (after_failure t₁ u))

  abbrev pub three_attempts : String → String → String → ℕ → ℕ → ℕ → Db → Db
  three_attempts first second third t₁ t₂ t₃ db =
      attempt third t₃ (attempt second t₂ (attempt first t₁ db))

  -- The account after them.
  found_after_three :
      (first second third : String) (t₁ t₂ t₃ : ℕ) (db : Db) (u : User) (hash : String)
      → ThreeFailures first second third db u hash
      → by_email email (three_attempts first second third t₁ t₂ t₃ db)
        ≡ some (failed_thrice t₁ t₂ t₃ u)
  found_after_three first second third t₁ t₂ t₃ db u hash f =
      let db₁ = attempt first t₁ db in
      let db₂ = attempt second t₂ db₁ in
      let u₁ = after_failure t₁ u in
      let u₂ = after_failure t₂ u₁ in
      let found₁ : by_email email db₁ ≡ some u₁ =
        attempt_wrong first t₁ db u hash
          (record { found = f.found; has_hash = f.has_hash; unlocked = rw f.unlocked })
          f.first_wrong in
      let found₂ : by_email email db₂ ≡ some u₂ =
        attempt_wrong second t₂ db₁ u₁ hash
          (record {
            found = found₁;
            has_hash = f.has_hash;
            unlocked = ground (arith, f.zero_failures, f.unlocked);
          })
          f.second_wrong in
      attempt_wrong third t₃ db₂ u₂ hash
        (record {
          found = found₂;
          has_hash = f.has_hash;
          unlocked = ground (arith, f.zero_failures, f.unlocked);
        })
        f.third_wrong

  -- Three wrong passwords lock an account that has a password, no failure counted and no lock at the
  -- first of them: whatever the times of the first two, in the five minutes after the third no
  -- password is accepted, and the attempts change nothing.
  pub authenticate_lockout :
      (first second third password : String) (t₁ t₂ t₃ now : ℕ) (db : Db) (u : User) (hash : String)
      → ThreeFailures first second third db u hash
      → now < t₃ + minutes 5
      → let locked = three_attempts first second third t₁ t₂ t₃ db in
        authenticate hasher email password now locked ≡ (err invalid_credentials, locked)
  authenticate_lockout first second third password t₁ t₂ t₃ now db u hash f early =
      authenticate_locked password now (three_attempts first second third t₁ t₂ t₃ db)
        (failed_thrice t₁ t₂ t₃ u) (found_after_three first second third t₁ t₂ t₃ db u hash f)
        (ground (arith, f.zero_failures, f.unlocked, early))

  -- The lock ends by itself: after three wrong passwords of an account that had no failure counted
  -- and no lock at the first, from five minutes after the third the right password logs in where
  -- the account is active, and the failures are forgotten.
  pub authenticate_unlocked :
      (first second third password : String) (t₁ t₂ t₃ now : ℕ) (db : Db) (u : User) (hash : String)
      → ThreeFailures first second third db u hash
      → hasher.verify hash password ≡ matches
      → u.status ≡ "active"
      → t₃ + minutes 5 ≤ now
      → let locked = three_attempts first second third t₁ t₂ t₃ db in
        (authenticate hasher email password now locked
          ≡ (ok (identity u), modify_user u.id after_success locked))
        × (by_email email (modify_user u.id after_success locked)
            ≡ some (after_success (failed_thrice t₁ t₂ t₃ u)))
  authenticate_unlocked first second third password t₁ t₂ t₃ now db u hash f right active late =
      let locked = three_attempts first second third t₁ t₂ t₃ db in
      let failed = failed_thrice t₁ t₂ t₃ u in
      let found = found_after_three first second third t₁ t₂ t₃ db u hash f in
      (
        authenticate_accepted password now locked failed hash found f.has_hash
            (ground (arith, f.zero_failures, f.unlocked, late)) right active,
        by_email-modify_user u.id after_success locked email (λ x. refl) ∙ rw (found, eq_refl),
      )
