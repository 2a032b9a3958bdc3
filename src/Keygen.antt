-- ===== src/Keygen.antt =====
-- src/temis_sso/keygen.py: the pair of key files that is made for a signing identity. The files are a
-- function of their paths; directories and the encodings of keys are left out.
use temis_sso_lab.Base.{
  sym, subst, String, Bool, true, false, not, ◌&&◌, ◌||◌, ◌==◌, Option, none, some, if◌then◌else◌,
  Result, ok, err, os_error, Action, ◌≡◌, ◌≢◌, refl, arith, Option-cases, inl, inr, eq-false,
  eq_refl,
}
use temis_sso_lab.Jose.{Jose}

module _ (jose : Jose) where
  open jose use {PrivateKey, PublicKey, public_key}

  -- What a PEM file holds.
  pub data Pem : Type 0 where
    private_pem : PrivateKey → Pem
    public_pem : PublicKey → Pem

  abbrev pub Files : Type 0
  Files = String → Option Pem

  abbrev pub exists : String → Files → Bool
  exists path files = elim (files path) [ none ↦ false | some _ ↦ true ]

  -- `path.write_bytes(...)`
  abbrev pub write_file : String → Pem → Files → Files
  write_file path pem files name = if name == path then some pem else files name

  -- `generate_key_pair`, with the key that is generated.
  unfoldable pub generate_key_pair : PrivateKey → String → String → Bool → Action Files (Unit {0})
  generate_key_pair key private_path public_path force files =
      if not force && (exists private_path files || exists public_path files)
      then (err os_error, files)
      else (
        ok tt,
        write_file public_path (public_pem (public_key key))
            (write_file private_path (private_pem key) files),
      )

  module _ (key : PrivateKey) (private_path public_path : String) (files : Files) where
    -- A signing identity: a private key, the public half of the same key, and the other files.
    pub record Identity (files' : Files) : Type 0 where
      pub private : files' private_path ≡ some (private_pem key)
      pub public : files' public_path ≡ some (public_pem (public_key key))
      pub others :
          (path : String) → path ≢ private_path → path ≢ public_path → files' path ≡ files path

    -- What a call without `force` leaves.
    abbrev pub Safe : Result (Unit {0}) → Files → Type 0
    Safe (ok _) files' = (files private_path ≡ none) × (files public_path ≡ none) × Identity files'
    Safe (err e) files' = files' ≡ files

    -- Without `force` no key file is replaced: the call succeeds only where neither path is taken, and
    -- then the two files are the halves of one key and the others are as before; where a path is
    -- taken, nothing is written.
    pub generate_key_pair-Safe :
        private_path ≢ public_path
        → Safe
            (generate_key_pair key private_path public_path false files).0
            (generate_key_pair key private_path public_path false files).1
    unfolding generate_key_pair
    generate_key_pair-Safe ne = elim (Option-cases (files private_path)) [
      | inr (p, e) ↦
          let out : generate_key_pair key private_path public_path false files
              ≡ (err os_error, files) =
            ground (arith, e) in
          subst (λ (r : Result (Unit {0}) × Files). Safe r.0 r.1) (sym out) refl
      | inl e ↦ elim (Option-cases (files public_path)) [
        | inr (p, f) ↦
            let out : generate_key_pair key private_path public_path false files
                ≡ (err os_error, files) =
              ground (arith, e, f) in
            subst (λ (r : Result (Unit {0}) × Files). Safe r.0 r.1) (sym out) refl
        | inl f ↦
            let written =
              write_file public_path (public_pem (public_key key))
                (write_file private_path (private_pem key) files) in
            let out : generate_key_pair key private_path public_path false files
                ≡ (ok tt, written) =
              ground (arith, e, f) in
            subst (λ (r : Result (Unit {0}) × Files). Safe r.0 r.1) (sym out)
              (
                e,
                f,
                record {
                  private = rw (eq-false private_path public_path ne, eq_refl private_path) refl;
                  public = rw (eq_refl public_path) refl;
                  others = λ path a b.
                      rw (eq-false path public_path b, eq-false path private_path a) refl;
                },
              )
      ]
    ]
