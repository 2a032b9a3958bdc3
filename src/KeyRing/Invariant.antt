-- ===== src/KeyRing/Invariant.antt =====
-- The records of the key ring (src/temis_sso/keyring.py): at most one of them is active.
use temis_sso_lab.Base.{
  ℕ, ◌+◌, ◌≤◌, ◌≡◌, refl, ap, ◌∙◌, String, Bool, true, false, Option, none, some, List, [], ◌∷◌,
  ◌++◌, ◌==◌, eq_iff, arith, ok, find, count_where, update_where, All, All-append, All-update_where,
  find-satisfies, find-update_where, Bool-cases, Option-cases, inl, inr, if◌then◌else◌,
}
use temis_sso_lab.KeyRing.{
  KeyRecord, is_due, published, is_active, is_published, is_retiring, has_kid, update_first, demote,
  demote_active, promote, new_record, to_retired, activate_records, retire_records, active_kid,
}

abbrev pub active_count : List KeyRecord → ℕ
active_count = count_where (λ r. is_active r.state)

abbrev is_some {ℓ} : {A : Type ℓ} → Option A → Bool
is_some none = false
is_some (some _) = true

-- A retiring record has the time since when it retires.
abbrev IsStamped : KeyRecord → Type 0
IsStamped r = is_retiring r.state ≡ true → is_some r.retiring_at ≡ true

pub record IsWellFormed (rs : List KeyRecord) : Type 0 where
  pub single : active_count rs ≤ 1
  pub stamped : All IsStamped rs

active_count-append :
    (rs ss : List KeyRecord) → active_count (rs ++ ss) ≡ active_count rs + active_count ss
unfolding count_where
active_count-append [] ss = omega arith
active_count-append (r ∷ rs) ss = omega (arith, active_count-append rs ss)

pub active_count-demote_active :
    (now : ℕ) (rs : List KeyRecord) → active_count (demote_active now rs) ≡ 0
unfolding count_where demote_active update_where
active_count-demote_active now [] = refl
active_count-demote_active now (r ∷ rs) = ground (arith, active_count-demote_active now rs)

-- Changing the first record of a kid makes at most one more record active.
active_count-update_first :
    (kid : String) (f : KeyRecord → KeyRecord) (rs : List KeyRecord)
    → active_count (update_first kid f rs) ≤ active_count rs + 1
unfolding count_where update_first
active_count-update_first kid f [] = omega arith
active_count-update_first kid f (r ∷ rs) = ground (arith, active_count-update_first kid f rs)

active_count-update_first_retired :
    (kid : String) (rs : List KeyRecord)
    → active_count (update_first kid to_retired rs) ≤ active_count rs
unfolding count_where update_first
active_count-update_first_retired kid [] = omega arith
active_count-update_first_retired kid (r ∷ rs) =
    ground (arith, active_count-update_first_retired kid rs)

pub All-update_first :
    (P : KeyRecord → Type 0) (kid : String) (f : KeyRecord → KeyRecord) (rs : List KeyRecord)
    → ((r : KeyRecord) → P r → P (f r))
    → All P rs
    → All P (update_first kid f rs)
unfolding update_first
All-update_first P kid f [] h a = tt
All-update_first P kid f (r ∷ rs) h a = elim (Bool-cases (r.kid == kid)) [
  | inl e ↦ rw e (h r a.0, a.1)
  | inr e ↦ rw e (a.0, All-update_first P kid f rs h a.1)
]

pub publish-IsWellFormed :
    (kid : String) (now : ℕ) (rs : List KeyRecord)
    → IsWellFormed rs
    → IsWellFormed (rs ++ new_record kid now ∷ [])
unfolding count_where
publish-IsWellFormed kid now rs w = record {
  single = rw active_count-append (omega (arith, w.single));
  stamped = All-append IsStamped rs _ w.stamped ((λ h. h), tt);
}

saved-IsWellFormed :
    (kid : String) (now : ℕ) (rs : List KeyRecord)
    → IsWellFormed rs
    → IsWellFormed (update_first kid (promote now) (demote_active now rs))
unfolding demote_active
saved-IsWellFormed kid now rs w = record {
  single = omega (
    arith,
    active_count-update_first kid (promote now) (demote_active now rs),
    active_count-demote_active now rs,
  );
  stamped =
      All-update_first IsStamped kid (promote now) _ (λ r h p. ground arith)
        (All-update_where IsStamped IsStamped _ (demote now) rs (λ r h. ground arith) w.stamped);
}

pub activate-IsWellFormed :
    (kid : String) (now : ℕ) (rs : List KeyRecord)
    → IsWellFormed rs
    → IsWellFormed (activate_records kid now rs).1
unfolding activate_records
activate-IsWellFormed kid now rs w = elim (Option-cases (find (has_kid kid) rs)) [
  | inl e ↦ rw e w
  | inr (r, e) ↦ rw e (elim (Bool-cases (is_published r.state)) [
    | inl p ↦ rw p (saved-IsWellFormed kid now rs w)
    | inr p ↦ rw p w
  ])
]

pub retire-IsWellFormed :
    (overlap : ℕ) (kid : String) (now : ℕ) (rs : List KeyRecord)
    → IsWellFormed rs
    → IsWellFormed (retire_records overlap kid now rs).1
unfolding retire_records
retire-IsWellFormed overlap kid now rs w = elim (Option-cases (find (has_kid kid) rs)) [
  | inl e ↦ rw e w
  | inr (r, e) ↦ rw e (elim (Bool-cases (is_retiring r.state)) [
    | inl p ↦ rw p (elim (Bool-cases (is_due overlap now r.retiring_at)) [
      | inl d ↦ rw d (record {
        single = omega (arith, active_count-update_first_retired kid rs, w.single);
        stamped = All-update_first IsStamped kid to_retired rs (λ x h q. ground arith) w.stamped;
      })
      | inr d ↦ rw d w
    ])
    | inr p ↦ rw p w
  ])
]

-- With no other active record, the record that `activate` promotes is the active one.
pub find_active-promote :
    (kid : String) (now : ℕ) (rs : List KeyRecord) {r : KeyRecord}
    → find (has_kid kid) rs ≡ some r
    → active_count rs ≡ 0
    → find (λ x. is_active x.state) (update_first kid (promote now) rs) ≡ some (promote now r)
unfolding find count_where update_first
find_active-promote kid now [] h z = ground arith
find_active-promote kid now (x ∷ rs) {r} h z =
    ground (arith, find_active-promote kid now rs {r = r})

pub active_kid-found :
    (rs : List KeyRecord) {r : KeyRecord}
    → find (λ x. is_active x.state) rs ≡ some r
    → active_kid rs ≡ ok r.kid
unfolding active_kid
active_kid-found rs h = rw (h, active_kid)

-- What `activate` saves for a published key.
pub activate_records-published :
    (kid : String) (now : ℕ) (rs : List KeyRecord) {r : KeyRecord}
    → find (has_kid kid) rs ≡ some r
    → r.state ≡ published
    → activate_records kid now rs ≡ (ok tt, update_first kid (promote now) (demote_active now rs))
unfolding activate_records
activate_records-published kid now rs h p = rw (h, p)

pub find-demote_active :
    (kid : String) (now : ℕ) (rs : List KeyRecord) {r : KeyRecord}
    → find (has_kid kid) rs ≡ some r
    → find (has_kid kid) (demote_active now rs)
      ≡ some (if is_active r.state then demote now r else r)
unfolding demote_active
find-demote_active kid now rs h = rw (
  find-update_where (λ (x : KeyRecord). is_active x.state) (has_kid kid) (demote now) rs
      (λ x. refl),
  h,
)

-- After a published key is activated it is the one that signs, and no other record is active.
pub activate_published :
    (kid : String) (now : ℕ) (rs : List KeyRecord) {r : KeyRecord}
    → find (has_kid kid) rs ≡ some r
    → r.state ≡ published
    → let (result, saved) = activate_records kid now rs in
      (result ≡ ok tt) × (active_kid saved ≡ ok kid) × (active_count saved ≤ 1)
activate_published kid now rs {r} h p =
    let demoted = demote_active now rs in
    let none_active : active_count demoted ≡ 0 = active_count-demote_active now rs in
    let target : find (has_kid kid) demoted ≡ some r = rw (find-demote_active kid now rs h, p) in
    let same : r.kid ≡ kid = (eq_iff r.kid kid).0 (find-satisfies (has_kid kid) rs h) in
    rw (activate_records-published kid now rs h p) (
      refl,
      active_kid-found _ (find_active-promote kid now demoted target none_active) ∙ ap ok same,
      omega (arith, active_count-update_first kid (promote now) demoted, none_active),
    )
