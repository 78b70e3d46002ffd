-- ===== src/Secrets/Examples.antt =====
-- A source that counts, and a configuration whose guest has a default password and whose payload
-- password stands in a file.
use quarantine_lab.Prelude.{
  ℕ, suc, ◌≤◌, ◌<◌, ◌≡◌, ◌⊎◌, refl, true, false, ◌||◌, Option, none, some, List, [], ◌++◌, arith,
  if◌then◌else◌, ltb, Bool-cases, inl, inr, ltb→lt,
}
use quarantine_lab.Prelude.Text.{
  among_texts, Text, codes, text_eq, to_lower, trim_space, trim_left, is_space,
}
use quarantine_lab.Secrets.{
  done, Config, Account, is_known_default_password, generate_password, ensure_passwords,
  gateway_mode_on, public_key_complaints, unattend_complaints, preflight_credentials,
}
use quarantine_lab.Secrets.Generated.{Strong, generate_password-Strong}
use quarantine_lab.Secrets.Ensured.{preflight_credentials-ensure_passwords, ensure_passwords-twice}

-- The state is the last number drawn.
abbrev counter : ℕ → ℕ → Option (ℕ × ℕ)
counter n s = let v = if ltb (suc s) n then suc s else 0 in some (v, v)

counter_drawn : (n s : ℕ) → 1 ≤ n → (v : ℕ) × (s' : ℕ) × (counter n s ≡ some (v, s')) × (v < n)
counter_drawn n s h = (_, _, refl, below (Bool-cases (ltb (suc s) n)))
  where
    below :
        ((ltb (suc s) n ≡ true) ⊎ (ltb (suc s) n ≡ false))
        → (if ltb (suc s) n then suc s else 0) < n
    below (inl e) = rw e (ltb→lt (suc s) n e)
    below (inr e) = rw e (omega (arith, h))

generate_password-Strong_example :
    (t : Text) × (s' : ℕ) × (generate_password counter 1 5 ≡ done (t, s')) × Strong t
generate_password-Strong_example = generate_password-Strong counter counter_drawn 0 5

abbrev account : Text → Text → Text → Account
account name pw file = record { username = name; password = pw; password_file = file }

abbrev example : Config
example = record {
  guest = account (codes "Administrator") (codes " Password ") [];
  payload = account (codes "analyst") [] (codes "p.txt");
  gateway = account [] [] [];
  enabled = true;
  mode = [];
  ssh_public_key = [];
  autounattend_path = [];
}

abbrev files : Text → Option Text
files p = if text_eq p (codes "p.txt") then some (codes " s3cret") else none

-- The default password is found.
known_default_found : is_known_default_password (codes " Password ") ≡ true
unfolding is_known_default_password among_texts to_lower trim_space trim_left is_space
known_default_found = refl

abbrev no_draw : ℕ → ℕ → Option (ℕ × ℕ)
no_draw n s = none

abbrev later_files : Text → Option Text
later_files p = if text_eq p (codes "a.xml") then some (codes "<unattend/>") else none

preflight_credentials-ensure_passwords_example :
    (c' : Config) × (notes : List Text) × (s' : ℕ) × (ensure_passwords counter 1 files true example
        5
      ≡ done (c', (notes, s')))
    × (let now = record c' { ssh_public_key = codes "b.pub"; autounattend_path = codes "a.xml" } in
        preflight_credentials later_files (λ p. true) (codes "k.pub") now
        ≡ (if gateway_mode_on now || now.enabled
            then public_key_complaints later_files (λ p. true) (codes "k.pub") now
            else [])
          ++ unattend_complaints later_files (λ p. true) (codes "k.pub") now)
preflight_credentials-ensure_passwords_example =
    preflight_credentials-ensure_passwords counter files counter_drawn later_files (λ p. true)
      (codes "k.pub") (codes "b.pub") (codes "a.xml") 0 example 5

ensure_passwords-twice_example :
    (c' : Config) × (notes : List Text) × (s' : ℕ) × (ensure_passwords counter 1 files true example
        5
      ≡ done (c', (notes, s')))
    × (ensure_passwords no_draw 0 later_files true c' 7 ≡ done (c', ([], 7)))
ensure_passwords-twice_example =
    ensure_passwords-twice counter files counter_drawn no_draw later_files 0 0 true example 5 7
