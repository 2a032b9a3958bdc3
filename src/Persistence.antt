-- ===== src/Persistence.antt =====
-- src/temis_sso/persistence.py: the database, a session's rollback, and the statements that the
-- application runs in a session.
mod Rows
pub mod Laws
pub use Rows.*
use temis_sso_lab.Base.{
  ℕ, suc, ◌+◌, String, Bool, true, false, Option, none, some, List, [], ◌∷◌, ◌++◌, ◌&&◌, ◌||◌, not,
  ◌==◌, if◌then◌else◌, find, any, update_where, delete_where, length, Action, Result, ok, err,
  Exception, integrity_error,
}
use temis_sso_lab.Base.Json.{Value}
use temis_sso_lab.Base.Text.{lower, strip}

-- One list for each table, in the order of insertion.
pub record Db : Type 0 where
  pub users : List User
  pub roles : List UserRole
  pub grants : List RefreshGrant
  pub one_time_tokens : List OneTimeToken
  pub audit_logs : List AuditLog
  pub links : List ExternalIdentityLink

abbrev pub empty : Db
empty = record {
  users = [];
  roles = [];
  grants = [];
  one_time_tokens = [];
  audit_logs = [];
  links = [];
}

abbrev pub Session : Type 0 → Type 0
Session A = Action Db A

abbrev pub settle : {A : Type 0} → Db → Result A × Db → Result A × Db
settle before (ok a, after) = (ok a, after)
settle before (err e, after) = (err e, before)

-- `async with session_scope() as session`: commit, or roll back and raise again.
abbrev pub session_scope : {A : Type 0} → Session A → Session A
session_scope m db = settle db (m db)

-- The conditions of the statements.
abbrev pub is_user : String → User → Bool
is_user user_id u = u.id == user_id

abbrev pub has_email : String → User → Bool
has_email email u = u.email == email

abbrev pub is_role : String → String → UserRole → Bool
is_role user_id role r = r.user_id == user_id && r.role == role

abbrev pub has_digest : String → RefreshGrant → Bool
has_digest digest g = g.digest == digest

abbrev pub is_one_time : String → String → OneTimeToken → Bool
is_one_time digest purpose t = t.digest == digest && t.purpose == purpose

abbrev pub is_link : String → String → ExternalIdentityLink → Bool
is_link provider subject l = l.provider == provider && l.subject == subject

-- `email.strip().lower()`
abbrev pub normal_email : String → String
normal_email email = lower (strip email)

-- `session.get(User, user_id)`, `UserRepository.by_id`
abbrev pub get_user : String → Db → Option User
get_user user_id db = find (is_user user_id) db.users

-- `UserRepository.by_email`
abbrev pub by_email : String → Db → Option User
by_email email db = find (has_email (normal_email email)) db.users

-- An assignment to attributes of the loaded user, flushed to its row.
abbrev pub modify_user : String → (User → User) → Db → Db
modify_user user_id f db = record db { users = update_where (is_user user_id) f db.users }

-- The defaults of the columns of a new user.
abbrev pub new_user : String → String → Option String → User
new_user user_id email password_hash = record {
  id = user_id;
  email = normal_email email;
  password_hash = password_hash;
  status = "pending";
  authz_version = 1;
  failed_logins = 0;
  locked_until = none;
}

abbrev pub conflicts : User → User → Bool
conflicts new u = u.id == new.id || u.email == new.email

-- `UserRepository.create`: the flush raises on an id or an email that is taken. `user_id` is the
-- value that `uuid4` gives.
unfoldable pub create : String → String → Option String → Session User
create user_id email password_hash db =
    let user = new_user user_id email password_hash in
    if any (conflicts user) db.users
    then (err integrity_error, db)
    else (ok user, record db { users = db.users ++ user ∷ [] })

-- `session.get(UserRole, {...}) is not None`
abbrev pub has_role : String → String → Db → Bool
has_role user_id role db = any (is_role user_id role) db.roles

abbrev pub append_role : String → String → Db → Db
append_role user_id role db = record db {
  roles = db.roles ++ (record { user_id = user_id; role = role }) ∷ [];
}

-- `session.merge(UserRole(...))`: nothing to do where the row is there.
unfoldable pub merge_role : String → String → Db → Db
merge_role user_id role db = if has_role user_id role db then db else append_role user_id role db

-- `session.add(UserRole(...))`, flushed.
unfoldable pub add_role : String → String → Session (Unit {0})
add_role user_id role db =
    if has_role user_id role db
    then (err integrity_error, db)
    else (ok tt, append_role user_id role db)

-- `delete(UserRole).where(...)`
unfoldable pub delete_role : String → String → Db → Db
delete_role user_id role db = record db { roles = delete_where (is_role user_id role) db.roles }

-- `session.add(RefreshGrant(...))`, flushed: the digest is the key, and the user must exist.
unfoldable pub add_grant : RefreshGrant → Session (Unit {0})
add_grant g db =
    if any (has_digest g.digest) db.grants || not (any (is_user g.user_id) db.users)
    then (err integrity_error, db)
    else (ok tt, record db { grants = db.grants ++ g ∷ [] })

abbrev pub same_token : OneTimeToken → OneTimeToken → Bool
same_token new t = t.digest == new.digest

unfoldable pub add_one_time : OneTimeToken → Session (Unit {0})
add_one_time t db =
    if any (same_token t) db.one_time_tokens || not (any (is_user t.user_id) db.users)
    then (err integrity_error, db)
    else (ok tt, record db { one_time_tokens = db.one_time_tokens ++ t ∷ [] })

-- The id of a new audit row is the next number: rows are never deleted.
unfoldable pub add_audit : String → String → String → List (String × Value) → ℕ → Db → Db
add_audit actor_id target_id action details now db = record db {
  audit_logs =
      db.audit_logs
      ++ (record {
        id = suc (length db.audit_logs);
        actor_id = actor_id;
        target_id = target_id;
        action = action;
        details = details;
        created_at = now;
      })
        ∷ [];
}

-- `session.add(ExternalIdentityLink(...))`, flushed.
unfoldable pub add_link : ExternalIdentityLink → Session (Unit {0})
add_link l db =
    if any (is_link l.provider l.subject) db.links || not (any (is_user l.user_id) db.users)
    then (err integrity_error, db)
    else (ok tt, record db { links = db.links ++ l ∷ [] })
