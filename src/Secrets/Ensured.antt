-- ===== src/Secrets/Ensured.antt =====
-- The passwords of EnsureSecrets, and PreflightCredentials: what is left to complain of, and a second run.
use quarantine_lab.Prelude.{
  ℕ, suc, ◌≤◌, ◌<◌, ◌≡◌, refl, ap, subst, ◌∙◌, inl, inr, Bool, true, false, ◌&&◌, ◌||◌, not, Option,
  none, some, List, [], ◌∷◌, ◌++◌, arith, Bool-cases, Option-cases, if◌then◌else◌,
}
use quarantine_lab.Prelude.Text.{Text, codes, text_eq, trim_space}
use quarantine_lab.Cases.Trim.{trim_space-twice}
use quarantine_lab.Secrets.{
  done, Account, Config, Complaint, is_known_default_password, without_bom, loaded_note,
  generated_note, file_password, ensure_inline_password, ensure_account, ensure_passwords,
  gateway_mode_on, check, public_key_complaints, unattend_complaints, preflight_credentials,
}
use quarantine_lab.Secrets.Generated.{generate_password-Strong, Strong-not_blank}

-- A password that is there and no known default
abbrev pub accepted : Text → Bool
accepted pw = not (text_eq (trim_space pw) []) && not (is_known_default_password pw)

is_known_default_password-trim_space :
    (s : Text) → is_known_default_password (trim_space s) ≡ is_known_default_password s
unfolding is_known_default_password
is_known_default_password-trim_space s = rw (trim_space-twice s) refl

check-accepted : (label pw : Text) → accepted pw ≡ true → check label pw true ≡ []
unfolding check
check-accepted label pw h =
    let blank : text_eq (trim_space pw) [] ≡ false = ground (arith, h) in
    let known : is_known_default_password pw ≡ false = ground (arith, h) in rw (blank, known) refl

accepted-trim_space :
    (pw : Text)
    → (not (text_eq (trim_space pw) []) && not (is_known_default_password (trim_space pw)))
      ≡ accepted pw
accepted-trim_space pw =
    ap (λ b. not (text_eq (trim_space pw) []) && not b) (is_known_default_password-trim_space pw)

accepted-file :
    (x : Text)
    → (not (text_eq x []) && not (is_known_default_password x)) ≡ true
    → trim_space x ≡ x
    → accepted x ≡ true
accepted-file x h e = rw e h

file_password-accepted :
    (read : Text → Option Text) (path pw : Text)
    → file_password read path ≡ some pw
    → accepted pw ≡ true
unfolding file_password
file_password-accepted read path pw h = elim (Bool-cases (text_eq (trim_space path) [])) [
  | inl e ↦ absurd (no_password (rw (file_password, e) at h))
  | inr e ↦ elim (Option-cases (read (trim_space path))) [
    | inl q ↦ absurd (no_password (rw (file_password, e, q) at h))
    | inr (raw, q) ↦
        let x = trim_space (without_bom raw) in
        elim (Bool-cases (not (text_eq x []) && not (is_known_default_password x))) [
          | inr k ↦ absurd (no_password (rw (file_password, e, q, k) at h))
          | inl k ↦
              subst (λ t. accepted t ≡ true) (some_of (rw (file_password, e, q, k) at h))
                (accepted-file x k (trim_space-twice (without_bom raw)))
        ]
  ]
]
  where
    no_password : {t : Text} → none ≡ some t → ⊥
    no_password e = cc

    some_of : {a b : Text} → some a ≡ some b → a ≡ b
    some_of {a} e = ap (λ o. elim o [ none ↦ a | some c ↦ c ]) e

ensure_account-kept :
    {S : Type 0} (draw : ℕ → S → Option (ℕ × S)) (read : Text → Option Text) (attempts : ℕ)
    (label : Text) (generate : Bool) (acc : Account) (notes : List Text) (s : S)
    → accepted acc.password ≡ true
    → ensure_account draw attempts read label generate acc notes s ≡ done (acc, (notes, s))
unfolding ensure_account ensure_inline_password
ensure_account-kept draw read attempts label generate acc notes s h =
    rw (ensure_account, ensure_inline_password, accepted-trim_space acc.password ∙ h) refl

module _ {S : Type 0} (draw : ℕ → S → Option (ℕ × S)) (read : Text → Option Text) where
  module _
      (drawn : (n : ℕ) (s : S)
        → 1 ≤ n
        → (v : ℕ) × (s' : S) × (draw n s ≡ some (v, s')) × (v < n)) where
    ensure_inline_password-accepted :
        (attempts : ℕ) (inline path label : Text) (s : S)
        → (pw note : Text) × (s' : S) × (ensure_inline_password draw
              (suc attempts)
              read
              inline
              path
              label
              true
              s
            ≡ done (pw, (note, s')))
          × (accepted pw ≡ true)
    unfolding ensure_inline_password
    ensure_inline_password-accepted attempts inline path label s =
        elim (Bool-cases (accepted inline)) [
          | inl h ↦
              (inline, [], s, (rw (ensure_inline_password, accepted-trim_space inline ∙ h) refl), h)
          | inr h ↦ elim (Option-cases (file_password read path)) [
            | inr (pw, q) ↦ (
              pw,
              loaded_note label (trim_space path),
              s,
              (rw (ensure_inline_password, accepted-trim_space inline ∙ h, q) refl),
              file_password-accepted read path pw q,
            )
            | inl q ↦
                let g = generate_password-Strong draw drawn attempts s in
                (
                  g.0,
                  generated_note label,
                  g.1,
                  (rw (ensure_inline_password, accepted-trim_space inline ∙ h, q, g.2) refl),
                  (rw (Strong-not_blank g.0 g.3, g.3.unknown) refl),
                )
          ]
        ]

    ensure_account-accepted :
        (attempts : ℕ) (label : Text) (acc : Account) (notes : List Text) (s : S)
        → (pw : Text) × (notes' : List Text) × (s' : S) × (ensure_account draw
              (suc attempts)
              read
              label
              true
              acc
              notes
              s
            ≡ done (record acc { password = pw }, (notes', s')))
          × (accepted pw ≡ true)
    unfolding ensure_account
    ensure_account-accepted attempts label acc notes s =
        let r = ensure_inline_password-accepted attempts acc.password acc.password_file label s in
        (
          r.0,
          (if text_eq r.1 [] then notes else notes ++ (r.1 ∷ [])),
          r.2,
          (rw (ensure_account, r.3) refl),
          r.4,
        )

    -- The configuration that EnsureSecrets makes of one, with its notes
    ensure_passwords-accepted :
        (attempts : ℕ) (c : Config) (s : S)
        → (g p w : Text) × (notes : List Text) × (s' : S) × (ensure_passwords draw
              (suc attempts)
              read
              true
              c
              s
            ≡ done (
              record c {
                guest = record c.guest { password = g };
                payload = record c.payload { password = p };
                gateway = record c.gateway { password = w };
              },
              (notes, s'),
            ))
          × (accepted g ≡ true)
          × (accepted p ≡ true)
          × (accepted w ≡ true)
    unfolding ensure_passwords
    ensure_passwords-accepted attempts c s =
        let g = ensure_account-accepted attempts (codes "guest") c.guest [] s in
        let p = ensure_account-accepted attempts (codes "payload") c.payload g.1 g.2 in
        let w = ensure_account-accepted attempts (codes "gateway") c.gateway p.1 p.2 in
        (g.0, p.0, w.0, w.1, w.2, (rw (ensure_passwords, g.3, p.3, w.3) refl), g.4, p.4, w.4)

    -- After EnsureSecrets has dealt with the passwords and may generate them, PreflightCredentials has
    -- nothing to say about any password. Whatever the configuration and the files were, and whatever the
    -- source of randomness gives, as long as no draw fails and each is below its bound, that part of
    -- EnsureSecrets ends with a configuration. Its later steps may put any path of a public key and of an
    -- answer file into it, and change any file; the complaints that are left are those about the public
    -- key of the gateway, in the gateway mode, and about the answer file.
    pub preflight_credentials-ensure_passwords :
        (read_then : Text → Option Text) (exists : Text → Bool)
        (default_public_key key_path answer_path : Text) (attempts : ℕ) (c : Config) (s : S)
        → (c' : Config) × (notes : List Text) × (s' : S) × (ensure_passwords draw
              (suc attempts)
              read
              true
              c
              s
            ≡ done (c', (notes, s')))
          × (let now = record c' { ssh_public_key = key_path; autounattend_path = answer_path } in
              preflight_credentials read_then exists default_public_key now
              ≡ (if gateway_mode_on now || now.enabled
                  then public_key_complaints read_then exists default_public_key now
                  else [])
                ++ unattend_complaints read_then exists default_public_key now)
    unfolding preflight_credentials gateway_mode_on public_key_complaints unattend_complaints
    preflight_credentials-ensure_passwords read_then exists default_public_key key_path answer_path
          attempts c s =
        let r = ensure_passwords-accepted attempts c s in
        (
          _,
          r.3,
          r.4,
          r.5,
          (rw
              (
                preflight_credentials,
                check-accepted (codes "guest") r.0 r.6,
                check-accepted (codes "payload") r.1 r.7,
                check-accepted (codes "gateway") r.2 r.8,
              )
              (nothing (text_eq (trim_space c.payload.username) []) _)),
        )
      where
        nothing : (b : Bool) (l : List Complaint) → (if b then [] else []) ++ l ≡ l
        nothing true l = refl
        nothing false l = refl

    -- Once EnsureSecrets has dealt with the passwords and could generate them, a second run of that part
    -- keeps every one of them, draws nothing and has no note, whatever the files hold and the source of
    -- randomness gives by then, and whether or not it may generate passwords. In the first run no draw
    -- fails and each is below its bound.
    pub ensure_passwords-twice :
        (draw_then : ℕ → S → Option (ℕ × S)) (read_then : Text → Option Text) (attempts more : ℕ)
        (generate : Bool) (c : Config) (s u : S)
        → (c' : Config) × (notes : List Text) × (s' : S) × (ensure_passwords draw
              (suc attempts)
              read
              true
              c
              s
            ≡ done (c', (notes, s')))
          × (ensure_passwords draw_then more read_then generate c' u ≡ done (c', ([], u)))
    unfolding ensure_passwords
    ensure_passwords-twice draw_then read_then attempts more generate c s u =
        let r = ensure_passwords-accepted attempts c s in
        let g = record c.guest { password = r.0 } in
        let p = record c.payload { password = r.1 } in
        let w = record c.gateway { password = r.2 } in
        (
          _,
          r.3,
          r.4,
          r.5,
          (rw
              (
                ensure_passwords,
                ensure_account-kept draw_then read_then more (codes "guest") generate g [] u r.6,
                ensure_account-kept draw_then read_then more (codes "payload") generate p [] u r.7,
                ensure_account-kept draw_then read_then more (codes "gateway") generate w [] u r.8,
              )
              refl),
        )
