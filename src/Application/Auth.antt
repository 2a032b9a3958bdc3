-- ===== src/Application/Auth.antt =====
-- src/temis_sso/application/auth.py: registration, login with lockout, and the one-time tokens for
-- verification and password reset. Password hashing, SHA-256, random values and the readings of
-- the clock are parameters. A time is a number of microseconds.

pub mod Lockout
pub mod OneTime
pub mod Reset
pub mod Enrol
use temis_sso_lab.Base.{
  value_error, ℕ, ◌+◌, ◌*◌, ◌≡◌, String, Bool, true, false, Option, none, some, ◌&&◌, ◌==◌, not,
  ltb, leb, if◌then◌else◌, find, update_where, Action, Result, ok, err, Exception, integrity_error,
  duplicate_email, invalid_credentials, verification_required, invalid_one_time_token, ◌>>=◌, ◌>>◌,
  pure, modify, or_raise,
}
use temis_sso_lab.Persistence.{
  User, OneTimeToken, Db, Session, session_scope, get_user, by_email, modify_user, create,
  add_one_time, is_one_time,
}

-- What argon2 makes of a text that is taken for a hash, and a password: that it matches, a
-- `VerificationError`, or an `InvalidHashError`, which is a `ValueError`.
pub data Verdict : Type 0 where
  matches mismatches invalid_hash : Verdict

-- argon2's hash, with its salt, and its check.
pub record Hasher : Type 0 where
  pub hash : String → String → String
  pub verify : String → String → Verdict
  pub verify-hash : (salt password : String) → verify (hash salt password) password ≡ matches

abbrev pub answer_of : Verdict → Result Bool
answer_of matches = ok true
answer_of mismatches = ok false
answer_of invalid_hash = err (value_error "")

-- `verify_password` of src/temis_sso/security.py
abbrev pub verify_password : Hasher → String → String → Result Bool
verify_password hasher password_hash candidate = answer_of (hasher.verify password_hash candidate)

abbrev pub minutes : ℕ → ℕ
minutes n = n * 60000000

pub record AuthenticatedUser : Type 0 where
  pub user_id : String
  pub email : String

-- The database and the lab's `mailbox`, a dictionary by email and purpose.
pub record State : Type 0 where
  pub db : Db
  pub mailbox : String → String → Option String

abbrev pub deliver : String → String → String → State → State
deliver email purpose raw s = record s {
  mailbox = λ e p. if e == email && p == purpose then some raw else s.mailbox e p;
}

-- A session of its own on the database of the state.
abbrev in_db : {A : Type 0} → State → Result A × Db → Result A × State
in_db s (r, db) = (r, record s { db = db })

abbrev pub on_db : {A : Type 0} → Session A → Action State A
on_db m s = in_db s (session_scope m s.db)

abbrev pub identity : User → AuthenticatedUser
identity u = record { user_id = u.id; email = u.email }

abbrev pub new_one_time : String → String → String → ℕ → OneTimeToken
new_one_time digest user_id purpose now = record {
  digest = digest;
  user_id = user_id;
  purpose = purpose;
  expires_at = now + minutes 15;
  consumed_at = none;
}

-- `locked_until and locked_until > now`
abbrev pub is_locked : Option ℕ → ℕ → Bool
is_locked none now = false
is_locked (some until) now = ltb now until

-- A wrong password: one more failure, and from the third on a lock of five minutes.
abbrev pub after_failure : ℕ → User → User
after_failure now u = record u {
  failed_logins = u.failed_logins + 1;
  locked_until = if leb 3 (u.failed_logins + 1) then some (now + minutes 5) else u.locked_until;
}

abbrev pub after_success : User → User
after_success u = record u { failed_logins = 0; locked_until = none }

-- `except IntegrityError: raise DuplicateEmailError`
abbrev pub as_duplicate : Exception → Exception
as_duplicate integrity_error = duplicate_email
as_duplicate e = e

abbrev pub catch_duplicate : {A S : Type 0} → Result A × S → Result A × S
catch_duplicate (ok a, s) = (ok a, s)
catch_duplicate (err e, s) = (err (as_duplicate e), s)

-- `consume_one_time` marks the row that it has locked.
abbrev pub mark_consumed : ℕ → OneTimeToken → OneTimeToken
mark_consumed now t = record t { consumed_at = some now }

abbrev pub is_usable : ℕ → OneTimeToken → Bool
is_usable now t = elim t.consumed_at [ none ↦ ltb now t.expires_at | some _ ↦ false ]

abbrev consume_row : ℕ → ℕ → Option OneTimeToken → Session String
consume_row now stamp none db = (err invalid_one_time_token, db)
consume_row now stamp (some t) db =
    if is_usable now t
    then (
      ok t.user_id,
      record db {
        one_time_tokens =
            update_where (λ x. x.digest == t.digest) (mark_consumed stamp) db.one_time_tokens;
      },
    )
    else (err invalid_one_time_token, db)

abbrev pub activate : User → User
activate u = record u { status = "active" }

abbrev pub set_password : String → User → User
set_password hash u = record u { password_hash = some hash; failed_logins = 0; locked_until = none }

abbrev require_row : String → Session User
require_row user_id db = or_raise (get_user user_id db) invalid_one_time_token db

module _ (hasher : Hasher) where
  -- `authenticate` behind the tests of the first condition.
  abbrev checked : String → ℕ → User → String → Session AuthenticatedUser
  checked password now u hash db = elim (verify_password hasher hash password) [
    | err e ↦ (err e, db)
    | ok false ↦ (err invalid_credentials, modify_user u.id (after_failure now) db)
    | ok true ↦
        if u.status == "pending"
        then (err verification_required, db)
        else if not (u.status == "active")
        then (err invalid_credentials, db)
        else (ok (identity u), modify_user u.id after_success db)
  ]

  abbrev admitted : String → ℕ → Option User → Session AuthenticatedUser
  admitted password now none db = (err invalid_credentials, db)
  admitted password now (some u) db = elim u.password_hash [
    | none ↦ (err invalid_credentials, db)
    | some hash ↦
        if is_locked u.locked_until now
        then (err invalid_credentials, db)
        else checked password now u hash db
  ]

  -- The error is raised after the session, so a failure that was counted is committed.
  unfoldable pub authenticate : String → String → ℕ → Session AuthenticatedUser
  authenticate email password now db = admitted password now (by_email email db) db

module _ (sha256_hex : String → String) where
  unfoldable pub issue_one_time : String → String → String → String → ℕ → Action State (Unit {0})
  issue_one_time user_id email purpose raw now = do
    added ← on_db (add_one_time (new_one_time (sha256_hex raw) user_id purpose now))
    modify (deliver email purpose raw)

  unfoldable pub consume_one_time : String → String → ℕ → ℕ → Session String
  consume_one_time raw purpose now stamp = session_scope (λ db.
      consume_row now stamp (find (is_one_time (sha256_hex raw) purpose) db.one_time_tokens) db)

  -- Two sessions: the token stays consumed where the second one raises.
  unfoldable pub verify_email : String → ℕ → ℕ → Session (Unit {0})
  unfolding consume_one_time
  verify_email raw now stamp = do
    user_id ← consume_one_time raw "verify" now stamp
    session_scope (do user ← require_row user_id; modify (modify_user user_id activate))

  unfoldable pub request_password_reset : String → String → ℕ → Action State (Unit {0})
  unfolding issue_one_time
  request_password_reset email raw now s = elim (by_email email s.db) [
    | none ↦ (ok tt, s)
    | some u ↦ issue_one_time u.id u.email "reset" raw now s
  ]

  module _ (hasher : Hasher) where
    -- `user_id`, `salt` and `raw` are the random values that a call draws.
    unfoldable pub register :
        String → String → String → String → String → ℕ → Action State AuthenticatedUser
    unfolding issue_one_time
    register email password user_id salt raw now s = catch_duplicate (
        (do
          user ← on_db (create user_id email (some (hasher.hash salt password)))
          issue_one_time user.id user.email "verify" raw now
          pure (identity user))
          s)

    unfoldable pub reset_password : String → String → String → ℕ → ℕ → Session (Unit {0})
    unfolding consume_one_time
    reset_password raw password salt now stamp = do
      user_id ← consume_one_time raw "reset" now stamp
      session_scope (do
        user ← require_row user_id
        modify (modify_user user_id (set_password (hasher.hash salt password))))
