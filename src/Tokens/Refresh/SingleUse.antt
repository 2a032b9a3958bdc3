-- ===== src/Tokens/Refresh/SingleUse.antt =====
-- Refresh grants (src/temis_sso/tokens.py) are used once: rotation and revocation spend them.
use mathlib.Core.Logic.{◌≢◌}
use temis_sso_lab.Base.{
  ◌||◌, not, Bool-cases, ℕ, ◌≡◌, refl, sym, ap, subst, ◌∙◌, String, Bool, true, false, none, some,
  List, [], ◌∷◌, ◌++◌, eq_iff, arith, find, any, update_where, any-append, any-update_where,
  Option-cases, text_cases, inl, inr, ok,
}
use temis_sso_lab.Persistence.{is_user, RefreshGrant, Db, has_digest, add_grant}
use temis_sso_lab.Tokens.Refresh.{
  issue_refresh, is_live, is_open, consume, new_grant, rotate_refresh, revoke_refresh,
}

-- The digest is the key of the table.
abbrev pub IsKeyed : List RefreshGrant → Type 0
IsKeyed [] = Unit
IsKeyed (g ∷ gs) = (any (has_digest g.digest) gs ≡ false) × IsKeyed gs

-- There is a grant with this digest, and none that is not consumed.
pub record IsSpent (digest : String) (gs : List RefreshGrant) : Type 0 where
  pub known : any (has_digest digest) gs ≡ true
  pub closed : any (is_open digest) gs ≡ false

-- Of an unknown digest nothing is open, whatever is consumed.
closed_of_unknown :
    (digest : String) (p : RefreshGrant → Bool) (stamp : ℕ) (gs : List RefreshGrant)
    → any (has_digest digest) gs ≡ false
    → any (is_open digest) (update_where p (consume stamp) gs) ≡ false
unfolding any update_where
closed_of_unknown digest p stamp [] h = refl
closed_of_unknown digest p stamp (g ∷ gs) h = ground (arith, closed_of_unknown digest p stamp gs)

not_found_of_unknown :
    (digest : String) (now : ℕ) (db : Db) (gs : List RefreshGrant)
    → any (has_digest digest) gs ≡ false
    → find (is_live digest now db) gs ≡ none
unfolding any find
not_found_of_unknown digest now db [] h = refl
not_found_of_unknown digest now db (g ∷ gs) h =
    ground (arith, not_found_of_unknown digest now db gs)

not_found_of_closed :
    (digest : String) (now : ℕ) (db : Db) (gs : List RefreshGrant)
    → any (is_open digest) gs ≡ false
    → find (is_live digest now db) gs ≡ none
unfolding any find
not_found_of_closed digest now db [] h = refl
not_found_of_closed digest now db (g ∷ gs) h = ground (arith, not_found_of_closed digest now db gs)

known_of_found :
    (digest : String) (now : ℕ) (db : Db) (gs : List RefreshGrant) {g : RefreshGrant}
    → find (is_live digest now db) gs ≡ some g
    → any (has_digest digest) gs ≡ true
unfolding any find
known_of_found digest now db [] h = ground arith
known_of_found digest now db (x ∷ gs) {g} h =
    ground (arith, known_of_found digest now db gs {g = g})

-- The UPDATE of a rotation closes the digest of the row that it finds.
spend_closes :
    (digest : String) (now stamp : ℕ) (db : Db) (gs : List RefreshGrant) {g : RefreshGrant}
    → IsKeyed gs
    → find (is_live digest now db) gs ≡ some g
    → any (is_open digest) (update_where (is_live digest now db) (consume stamp) gs) ≡ false
unfolding any find update_where
spend_closes digest now stamp db [] k h = refl
spend_closes digest now stamp db (x ∷ gs) {g} k h = elim (text_cases x.digest digest) [
  | inr other ↦ ground (arith, spend_closes digest now stamp db gs {g = g} k.1)
  | inl same ↦
      let rest : any (has_digest digest) gs ≡ false = rw same at k.0 in
      ground (
        arith,
        not_found_of_unknown digest now db gs rest,
        closed_of_unknown digest (is_live digest now db) stamp gs rest,
      )
]

revoke_closes :
    (digest : String) (stamp : ℕ) (gs : List RefreshGrant)
    → any (is_open digest) (update_where (is_open digest) (consume stamp) gs) ≡ false
unfolding any update_where
revoke_closes digest stamp [] = refl
revoke_closes digest stamp (g ∷ gs) = ground (arith, revoke_closes digest stamp gs)

any-spend :
    (digest d : String) (now stamp : ℕ) (db : Db)
    → any (has_digest d) (update_where (is_live digest now db) (consume stamp) db.grants)
      ≡ any (has_digest d) db.grants
any-spend digest d now stamp db =
    any-update_where (is_live digest now db) (has_digest d) (consume stamp) db.grants (λ g. refl)

-- A new grant under another digest leaves a spent one spent.
pub IsSpent-append :
    (digest : String) (gs : List RefreshGrant) (g : RefreshGrant)
    → g.digest ≢ digest
    → IsSpent digest gs
    → IsSpent digest (gs ++ g ∷ [])
unfolding any
IsSpent-append digest gs g ne s = record {
  known = any-append (has_digest digest) gs _ ∙ ground (arith, s.known);
  closed = any-append (is_open digest) gs _ ∙ ground (arith, s.closed, eq_iff g.digest digest);
}

module _ (sha256_hex : String → String) where
  -- A spent grant cannot be rotated, at any time: nothing is returned and nothing changes.
  pub rotate_refresh-spent :
      (raw new_raw : String) (now stamp issued : ℕ) (db : Db)
      → IsSpent (sha256_hex raw) db.grants
      → rotate_refresh sha256_hex raw new_raw now stamp issued db ≡ (ok none, db)
  unfolding rotate_refresh
  rotate_refresh-spent raw new_raw now stamp issued db s =
      rw (not_found_of_closed (sha256_hex raw) now db db.grants s.closed)

  -- What a rotation that succeeds has done.
  pub record Rotated (raw new_raw : String) (now stamp issued : ℕ) (db : Db)
      (x : String × String × String) (db' : Db) : Type 0 where
    pub old : RefreshGrant
    pub found : find (is_live (sha256_hex raw) now db) db.grants ≡ some old
    pub fresh : any (has_digest (sha256_hex new_raw)) db.grants ≡ false
    pub returned : x ≡ (old.user_id, old.audience, new_raw)
    pub after : db' ≡ record db {
      grants =
          update_where (is_live (sha256_hex raw) now db) (consume stamp) db.grants
          ++ new_grant (sha256_hex new_raw) old.user_id old.audience issued ∷ [];
    }

  pub rotate_refresh-some :
      (raw new_raw : String) (now stamp issued : ℕ) (db : Db) {x : String × String × String}
      {db' : Db}
      → rotate_refresh sha256_hex raw new_raw now stamp issued db ≡ (ok (some x), db')
      → Rotated raw new_raw now stamp issued db x db'
  unfolding rotate_refresh add_grant
  rotate_refresh-some raw new_raw now stamp issued db {x} {db'} h =
      elim (Option-cases (find (is_live (sha256_hex raw) now db) db.grants)) [
        | inl e ↦ absurd (ground arith)
        | inr (g, e) ↦ record {
          old = g;
          found = e;
          fresh = ground (arith, any-spend (sha256_hex raw) (sha256_hex new_raw) now stamp db);
          returned = ground arith;
          after = ground arith;
        }
      ]

  -- A rotation that succeeds spends the grant of the token that it was given.
  pub rotate_refresh-IsSpent :
      (raw new_raw : String) (now stamp issued : ℕ) (db : Db) {x : String × String × String}
      {db' : Db}
      → IsKeyed db.grants
      → rotate_refresh sha256_hex raw new_raw now stamp issued db ≡ (ok (some x), db')
      → IsSpent (sha256_hex raw) db'.grants
  rotate_refresh-IsSpent raw new_raw now stamp issued db {db' = db'} keyed h =
      let digest = sha256_hex raw in
      let done = rotate_refresh-some raw new_raw now stamp issued db h in
      let known = known_of_found digest now db db.grants done.found in
      let spent : IsSpent digest (update_where (is_live digest now db) (consume stamp) db.grants) =
        record {
          known = any-spend digest digest now stamp db ∙ known;
          closed = spend_closes digest now stamp db db.grants keyed done.found;
        } in
      let other : sha256_hex new_raw ≢ digest = λ same.
        ground (arith, ap (λ (d : String). any (has_digest d) db.grants) same, done.fresh, known) in
      subst (λ (d : Db). IsSpent digest d.grants) (sym done.after)
        (IsSpent-append digest _
          (new_grant (sha256_hex new_raw) done.old.user_id done.old.audience issued) other spent)

  -- A refresh token is exchanged at most once: after a rotation that succeeded, a second one with
  -- the same token returns nothing and changes nothing, whatever its new token and its times.
  pub rotate_refresh_once :
      (raw new_raw second_raw : String) (now stamp issued now' stamp' issued' : ℕ) (db : Db)
      {x : String × String × String} {db' : Db}
      → IsKeyed db.grants
      → rotate_refresh sha256_hex raw new_raw now stamp issued db ≡ (ok (some x), db')
      → rotate_refresh sha256_hex raw second_raw now' stamp' issued' db' ≡ (ok none, db')
  rotate_refresh_once raw new_raw second_raw now stamp issued now' stamp' issued' db {db' = db'}
        keyed h =
      rotate_refresh-spent raw second_raw now' stamp' issued' db'
        (rotate_refresh-IsSpent raw new_raw now stamp issued db keyed h)

  -- After `revoke_refresh`, whether it found the grant or not, the token cannot be rotated.
  pub rotate_refresh-revoke_refresh :
      (raw new_raw : String) (revoked now stamp issued : ℕ) (db : Db)
      → let db' = (revoke_refresh sha256_hex raw revoked db).1 in
        rotate_refresh sha256_hex raw new_raw now stamp issued db' ≡ (ok none, db')
  unfolding revoke_refresh rotate_refresh
  rotate_refresh-revoke_refresh raw new_raw revoked now stamp issued db =
      let digest = sha256_hex raw in
      let db' = (revoke_refresh sha256_hex raw revoked db).1 in
      rw (not_found_of_closed digest now db' db'.grants (revoke_closes digest revoked db.grants))

  -- `issue_refresh` leaves a spent grant spent: it adds a grant under a digest that is not taken.
  pub issue_refresh-IsSpent :
      (digest raw user_id audience : String) (now : ℕ) (db : Db)
      → IsSpent digest db.grants
      → IsSpent digest (issue_refresh sha256_hex raw user_id audience now db).1.grants
  unfolding issue_refresh add_grant
  issue_refresh-IsSpent digest raw user_id audience now db s =
      elim (Bool-cases
        (any (has_digest (sha256_hex raw)) db.grants || not (any (is_user user_id) db.users))) [
          | inl taken ↦ rw taken s
          | inr free ↦ rw free (
              IsSpent-append digest db.grants (new_grant (sha256_hex raw) user_id audience now)
                (λ same.
                  ground
                    (arith, free, s.known, ap (λ (d : String). any (has_digest d) db.grants) same))
                s)
        ]
