-- ===== src/Api/Identities/Taken.antt =====
-- The address of a new account of an external identity where it is taken, also the substitute.
use temis_sso_lab.Base.{
  ℕ, String, true, some, none, err, ◌≡◌, refl, arith, inl, inr, ap, ◌∙◌, find, any, Option-cases,
  Option, ◌++◌, [], ◌∷◌, integrity_error, find-append, any-find, find-append_none,
  find-update_where, eq_refl, if◌then◌else◌, update_where,
}
use temis_sso_lab.Base.Text.{append}
use temis_sso_lab.Api.Identities.{ok, is_link_of, link_of, State, unlink_account}
use temis_sso_lab.Api.Identities.Later.{unlink_account-Withdrawn}
use temis_sso_lab.Base.{subst, Action, Bool}
use temis_sso_lab.Persistence.{
  ExternalIdentityLink, Db, User, by_email, has_email, create, conflicts, new_user, is_user,
  normal_email,
}
use temis_sso_lab.ExternalIdp.Models.{ExternalIdentity}
use temis_sso_lab.ExternalIdp.Stores.{resolve_link}
use temis_sso_lab.Api.Oauth.{set_active}
use temis_sso_lab.Api.Identities.{
  account_user, new_account, wanted_email, free_email, linked_or_new,
}
use temis_sso_lab.Api.Identities.Owner.{new_account-Made, Made}

-- The address of an account that is made where the identity's own is taken.
abbrev pub substitute_email : String → ExternalIdentity → String
substitute_email domain identity = append identity.subject (append ".changed" domain)

create_taken :
    (user_id email : String) (password_hash : Option String) (db : Db) {u : User}
    → by_email email db ≡ some u
    → create user_id email password_hash db ≡ (err integrity_error, db)
unfolding create
create_taken user_id email password_hash db h =
    let user = new_user user_id email password_hash in
    let taken : any (conflicts user) db.users ≡ true =
      any-find (has_email (normal_email email)) (conflicts user) db.users (λ u e. ground (arith, e))
        h in
    rw taken refl

free_email_taken :
    (domain : String) (identity : ExternalIdentity) (db : Db) {u : User}
    → by_email (wanted_email domain identity) db ≡ some u
    → free_email domain identity db ≡ substitute_email domain identity
free_email_taken domain identity db wanted = rw (free_email, wanted) refl

-- An identity without a link cannot sign in where its address and the substitute are both taken.
pub account_user_taken :
    (domain : String) (identity : ExternalIdentity) (new_id : String) (now : ℕ) (db : Db)
    {u v : User}
    → resolve_link identity.provider identity.subject db ≡ none
    → by_email (wanted_email domain identity) db ≡ some u
    → by_email (substitute_email domain identity) db ≡ some v
    → account_user domain identity new_id now db ≡ (err integrity_error, db)
unfolding account_user new_account
account_user_taken domain identity new_id now db {u} {v} unlinked wanted substitute =
    let refused : create new_id (free_email domain identity db) none db
        ≡ (err integrity_error, db) =
      ap (λ e. create new_id e none db) (free_email_taken domain identity db wanted)
      ∙ create_taken new_id (substitute_email domain identity) none db substitute in
    rw (unlinked, linked_or_new, refused) refl

-- Once an account was made under the substitute address, both addresses are taken.
Made-taken :
    (domain : String) (identity : ExternalIdentity) (new_id : String) (now : ℕ) (db : Db) {u : User}
    {user_id : String} {db' : Db}
    → Made domain identity new_id now db user_id db'
    → by_email (wanted_email domain identity) db ≡ some u
    → ((v : User) × (by_email (wanted_email domain identity) db' ≡ some v))
      × ((v : User) × (by_email (substitute_email domain identity) db' ≡ some v))
unfolding find
Made-taken domain identity new_id now db {u} {user_id} {db'} m wanted =
    let substitute = substitute_email domain identity in
    let row = new_user new_id substitute none in
    let users = db.users ++ row ∷ [] in
    let free = free_email_taken domain identity db wanted in
    let kept : (email : String) (v : User)
        → find (has_email (normal_email email)) users ≡ some v
        → (w : User) × (by_email email db' ≡ some w) =
      λ email v h. (
        (if is_user new_id v then set_active v else v),
        ap (find (has_email (normal_email email))) (
              m.users
              ∙ ap
                  (λ e.
                    update_where (is_user new_id) set_active
                      (db.users ++ new_user new_id e none ∷ []))
                  free)
            ∙ find-update_where (is_user new_id) (has_email (normal_email email)) set_active users
                (λ x. refl)
            ∙ rw h refl,
      ) in
    (
      kept (wanted_email domain identity) u (
          find-append (has_email (normal_email (wanted_email domain identity))) db.users (row ∷ [])
            wanted),
      elim (Option-cases (by_email substitute db)) [
        | inr (v, e) ↦
            kept substitute v
              (find-append (has_email (normal_email substitute)) db.users (row ∷ []) e)
        | inl e ↦ kept substitute row (
            find-append_none (has_email (normal_email substitute)) db.users (row ∷ []) e
            ∙ (let same = eq_refl (normal_email substitute) in rw (find, same) refl))
      ],
    )

-- Who signed in under the substitute address and withdrew cannot sign in again: the address is still
-- that of the account that was left, and the sign-in is refused by the database.
pub account_user-unlink_account_taken :
    (domain : String) (identity : ExternalIdentity) (new_id new_id' : String) (now now' : ℕ)
    (db : Db) (u : User) (user_id missing refused : String) (call : Action ℕ Bool) (s s' : State)
    → resolve_link identity.provider identity.subject db ≡ none
    → by_email (wanted_email domain identity) db ≡ some u
    → account_user domain identity new_id now db ≡ (ok user_id, s.db)
    → find (is_link_of identity.provider user_id) s.db.links ≡ some (link_of identity user_id now)
    → unlink_account identity.provider user_id missing refused call s ≡ (ok tt, s')
    → account_user domain identity new_id' now' s'.db ≡ (err integrity_error, s'.db)
unfolding account_user
account_user-unlink_account_taken domain identity new_id new_id' now now' db u user_id missing
      refused call s s' unlinked wanted signed_in held h =
    let made = new_account-Made domain identity new_id now db (rw unlinked at signed_in) in
    let w = unlink_account-Withdrawn identity.provider user_id call s missing refused h in
    let same : w.link ≡ link_of identity user_id now = ground (arith, w.held, held) in
    let gone : resolve_link identity.provider identity.subject s'.db ≡ none =
      subst (λ (l : ExternalIdentityLink). resolve_link l.provider l.subject s'.db ≡ none) same
        w.gone in
    let ((v, f), (v', g)) = Made-taken domain identity new_id now db made wanted in
    let still : (email : String) → by_email email s'.db ≡ by_email email s.db =
      λ email. ap (find (has_email (normal_email email))) w.users in
    account_user_taken domain identity new_id' now' s'.db gone
      (still (wanted_email domain identity) ∙ f) (still (substitute_email domain identity) ∙ g)
