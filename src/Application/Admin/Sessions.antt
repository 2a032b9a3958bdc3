-- ===== src/Application/Admin/Sessions.antt =====
-- Refresh grants after an administrative operation (src/temis_sso/application/admin.py and
-- tokens.py).
use temis_sso_lab.Base.{
  ◌∙◌, ap, sym, ℕ, String, false, some, ok, arith, ◌≡◌, ◌≢◌, List, [], ◌∷◌, find, any, eq_iff,
}
use temis_sso_lab.Persistence.{RefreshGrant, Db}
use temis_sso_lab.Tokens.Refresh.{is_live, rotate_refresh}
use temis_sso_lab.Tokens.Refresh.SingleUse.{rotate_refresh-some}
use temis_sso_lab.Application.Admin.{belongs}
use temis_sso_lab.Application.Admin.Calls.{Operation, perform}
use temis_sso_lab.Application.Admin.Revocation.{perform-Invalidated}

-- A grant that is live is not one of a user whose grants are closed.
live_of_other :
    (user_id digest : String) (now : ℕ) (db : Db) (gs : List RefreshGrant) {g : RefreshGrant}
    → any (belongs user_id) gs ≡ false
    → find (is_live digest now db) gs ≡ some g
    → g.user_id ≢ user_id
unfolding any find
live_of_other user_id digest now db [] c f = ground arith
live_of_other user_id digest now db (x ∷ gs) {g} c f = ground (
  arith,
  eq_iff g.user_id user_id,
  eq_iff x.user_id user_id,
  live_of_other user_id digest now db gs {g = g},
)

-- After an operation on a user has succeeded, no refresh token that was issued to that user before
-- can be exchanged: a rotation in the database that the operation left gives tokens to others only.
pub rotate_refresh-perform :
    (sha256_hex : String → String) (op : Operation) (actor_id target_id : String) (now audited : ℕ)
    (db db' : Db) (raw new_raw : String) (checked stamp issued : ℕ) {x : String × String × String}
    {db'' : Db}
    → perform op actor_id target_id now audited db ≡ (ok tt, db')
    → rotate_refresh sha256_hex raw new_raw checked stamp issued db' ≡ (ok (some x), db'')
    → x.0 ≢ target_id
rotate_refresh-perform sha256_hex op actor_id target_id now audited db db' raw new_raw checked stamp
      issued {x} h r =
    let over = perform-Invalidated op actor_id target_id now audited db db' h in
    let done = rotate_refresh-some sha256_hex raw new_raw checked stamp issued db' r in
    let other =
      live_of_other target_id (sha256_hex raw) checked db' db'.grants over.closed done.found in
    λ same. other (sym (ap (λ (t : String × String × String). t.0) done.returned) ∙ same)
