-- ===== src/Secrets.antt =====
-- go/internal/config/secrets.go: the passwords of the lab. `draw n` is rand.Int(rand.Reader, n), with the
-- source of randomness as its state and none for an error; `read` is os.ReadFile, without its error, and
-- `exists` tells whether os.Stat succeeds. Texts are lists of characters, and the byte order
-- mark is one of them. Of EnsureSecrets only the part that deals with the passwords is modelled.
pub mod Counts
pub mod Generated
pub mod Ensured
mod Examples
use quarantine_lab.Prelude.{
  ℕ, zero, suc, ◌+◌, ◌-◌, Bool, true, false, ◌&&◌, ◌||◌, not, Option, none, some, List, [], ◌∷◌,
  ◌++◌, ◌==◌, if◌then◌else◌, length, drop, get_or,
}
use quarantine_lab.Prelude.Text.{
  Text, among_texts, codes, text_eq, to_lower, trim_space, has_prefix, has_part,
}

-- What a call gives: a value, an error, or no answer within the attempts of the model.
pub data Attempt (A : Type 0) : Type 0 where
  done : A → Attempt A
  failed : Attempt A
  unfinished : Attempt A

-- AccountConfig
pub record Account : Type 0 where
  pub username : Text
  pub password : Text
  pub password_file : Text

-- The part of the configuration that holds secrets; `mode` and `enabled` are those of the network's
-- gateway.
pub record Config : Type 0 where
  pub guest : Account
  pub payload : Account
  pub gateway : Account
  pub enabled : Bool
  pub mode : Text
  pub ssh_public_key : Text
  pub autounattend_path : Text

abbrev pub known_default_passwords : List Text
known_default_passwords =
    codes "quarantine"
    ∷ codes "changeme-quarantine!"
    ∷ codes "changeme"
    ∷ codes "password"
    ∷ codes "admin"
    ∷ codes "123456"
    ∷ codes "linux"
    ∷ codes "ubuntu"
    ∷ []

-- IsKnownDefaultPassword
unfoldable pub is_known_default_password : Text → Bool
unfolding among_texts to_lower trim_space
is_known_default_password s =
    let p = to_lower (trim_space s) in
    if text_eq p [] then false else among_texts p known_default_passwords

abbrev pub letters : Text
letters = codes "abcdefghijkmnopqrstuvwxyz"

abbrev pub uppers : Text
uppers = codes "ABCDEFGHJKLMNPQRSTUVWXYZ"

abbrev pub digits : Text
digits = codes "23456789"

abbrev pub symbols : Text
symbols = codes "!@#$%^&*-_=+"

abbrev pub classes : List Text
classes = letters ∷ uppers ∷ digits ∷ symbols ∷ []

abbrev pub all_chars : Text
all_chars = letters ++ (uppers ++ (digits ++ symbols))

abbrev pub set_at {ℓ} : {A : Type ℓ} → ℕ → A → List A → List A
set_at n a [] = []
set_at zero a (x ∷ xs) = a ∷ xs
set_at (suc n) a (x ∷ xs) = x ∷ set_at n a xs

-- raw[i], raw[j] = raw[j], raw[i]
unfoldable pub swap_bytes : Text → ℕ → ℕ → Text
swap_bytes raw i j = set_at j (get_or raw i 0) (set_at i (get_or raw j 0) raw)

-- bytes.TrimPrefix of the byte order mark
unfoldable pub without_bom : Text → Text
unfolding has_prefix
without_bom raw = if has_prefix raw (0xfeff ∷ []) then drop 1 raw else raw

abbrev pub loaded_note : Text → Text → Text
loaded_note label path =
    codes "loaded " ++ (label ++ (codes " password from " ++ (path ++ codes " into config")))

abbrev pub generated_note : Text → Text
generated_note label = codes "generated " ++ (label ++ codes " password in config")

module _ (read : Text → Option Text) where
  -- The password of the file, if the path is not blank and the file has one that is accepted
  unfoldable pub file_password : Text → Option Text
  unfolding trim_space without_bom is_known_default_password
  file_password file_path =
      let path = trim_space file_path in
      if text_eq path [] then none else elim (read path) [
        | none ↦ none
        | some raw ↦
            let file_pw = trim_space (without_bom raw) in
            if not (text_eq file_pw []) && not (is_known_default_password file_pw)
            then some file_pw
            else none
      ]

module _ {S : Type 0} (draw : ℕ → S → Option (ℕ × S)) where
  -- randChar
  unfoldable pub rand_char : Text → S → Option (ℕ × S)
  rand_char set s = elim (draw (length set) s) [
    | none ↦ none
    | some d ↦ some (get_or set d.0 0, d.1)
  ]

  -- The loops of GeneratePassword: one character of each set, put at the end
  unfoldable pub pick_each : List Text → Text → S → Option (Text × S)
  unfolding rand_char
  pick_each [] b s = some (b, s)
  pick_each (set ∷ sets) b s = elim (rand_char set s) [
    | none ↦ none
    | some c ↦ pick_each sets (b ++ (c.0 ∷ [])) c.1
  ]

  unfoldable pub fill_up : ℕ → Text → S → Option (Text × S)
  unfolding rand_char
  fill_up zero b s = some (b, s)
  fill_up (suc n) b s = elim (rand_char all_chars s) [
    | none ↦ none
    | some c ↦ fill_up n (b ++ (c.0 ∷ [])) c.1
  ]

  -- The loop of shuffleBytes, from the index i down to 1
  unfoldable pub shuffle_loop : ℕ → Text → S → Option (Text × S)
  unfolding swap_bytes
  shuffle_loop zero raw s = some (raw, s)
  shuffle_loop (suc i) raw s = elim (draw (suc (suc i)) s) [
    | none ↦ none
    | some d ↦ shuffle_loop i (swap_bytes raw (suc i) d.0) d.1
  ]

  -- shuffleBytes
  unfoldable pub shuffle_bytes : Text → S → Option (Text × S)
  unfolding shuffle_loop
  shuffle_bytes raw s = shuffle_loop (length raw - 1) raw s

  -- GeneratePassword before it looks at the password
  unfoldable pub compose_password : S → Option (Text × S)
  unfolding pick_each fill_up shuffle_bytes
  compose_password s = elim (pick_each classes [] s) [
    | none ↦ none
    | some b ↦ elim (fill_up (20 - length b.0) b.0 b.1) [
      | none ↦ none
      | some raw ↦ shuffle_bytes raw.0 raw.1
    ]
  ]

  -- GeneratePassword, with at most so many calls of itself
  unfoldable pub generate_password : ℕ → S → Attempt (Text × S)
  unfolding compose_password is_known_default_password
  generate_password zero s = unfinished
  generate_password (suc n) s = elim (compose_password s) [
    | none ↦ failed
    | some out ↦ elim (is_known_default_password out.0) [
      | true ↦ generate_password n out.1
      | false ↦ done out
    ]
  ]

  module _ (attempts : ℕ) (read : Text → Option Text) where
    -- ensureInlinePassword: the password, the note, and the source
    unfoldable pub ensure_inline_password :
        Text → Text → Text → Bool → S → Attempt (Text × (Text × S))
    unfolding trim_space is_known_default_password file_password generate_password
    ensure_inline_password inline file_path label generate s =
        let pw = trim_space inline in
        if not (text_eq pw []) && not (is_known_default_password pw)
        then done (inline, ([], s))
        else elim (file_password read file_path) [
          | some file_pw ↦ done (file_pw, (loaded_note label (trim_space file_path), s))
          | none ↦ elim generate [
            | false ↦ done (inline, ([], s))
            | true ↦ elim (generate_password attempts s) [
              | done next ↦ done (next.0, (generated_note label, next.1))
              | failed ↦ failed
              | unfinished ↦ unfinished
            ]
          ]
        ]

    -- One account of EnsureSecrets, with the notes so far
    unfoldable pub ensure_account :
        Text → Bool → Account → List Text → S → Attempt (Account × (List Text × S))
    unfolding ensure_inline_password
    ensure_account label generate acc notes s =
        elim (ensure_inline_password acc.password acc.password_file label generate s) [
          | done r ↦ done (
            record acc { password = r.0 },
            ((if text_eq r.1.0 [] then notes else notes ++ (r.1.0 ∷ [])), r.1.1),
          )
          | failed ↦ failed
          | unfinished ↦ unfinished
        ]

    -- The passwords of EnsureSecrets: the guest's, the payload's and the gateway's
    unfoldable pub ensure_passwords : Bool → Config → S → Attempt (Config × (List Text × S))
    unfolding ensure_account
    ensure_passwords generate c s = elim (ensure_account (codes "guest") generate c.guest [] s) [
      | failed ↦ failed
      | unfinished ↦ unfinished
      | done g ↦ elim (ensure_account (codes "payload") generate c.payload g.1.0 g.1.1) [
        | failed ↦ failed
        | unfinished ↦ unfinished
        | done p ↦ elim (ensure_account (codes "gateway") generate c.gateway p.1.0 p.1.1) [
          | failed ↦ failed
          | unfinished ↦ unfinished
          | done w ↦ done (record c { guest = g.0; payload = p.0; gateway = w.0 }, w.1)
        ]
      ]
    ]

-- IsGatewayMode
unfoldable pub gateway_mode_on : Config → Bool
unfolding to_lower trim_space
gateway_mode_on c =
    let mode = to_lower (trim_space c.mode) in
    c.enabled || (text_eq mode [] || text_eq mode (codes "gateway"))

-- The errors of PreflightCredentials
pub data Complaint : Type 0 where
  missing known_default : Text → Complaint
  no_public_key placeholder_left : Complaint

-- The closure `check`
unfoldable pub check : Text → Text → Bool → List Complaint
unfolding trim_space is_known_default_password
check label pw required =
    if text_eq (trim_space pw) []
    then (if required then missing label ∷ [] else [])
    else if is_known_default_password pw
    then known_default label ∷ []
    else []

module _ (read : Text → Option Text) (exists : Text → Bool) (default_public_key : Text) where
  unfoldable pub public_key_complaints : Config → List Complaint
  unfolding trim_space
  public_key_complaints c =
      let named = trim_space c.ssh_public_key in
      let pub_key = if text_eq named [] then default_public_key else named in
      if exists pub_key then [] else no_public_key ∷ []

  unfoldable pub unattend_complaints : Config → List Complaint
  unfolding trim_space to_lower has_part
  unattend_complaints c =
      let unattend = trim_space c.autounattend_path in
      if text_eq unattend [] then [] else elim (read unattend) [
        | none ↦ []
        | some raw ↦
            if has_part (to_lower raw) (codes "changeme-quarantine")
              || has_part raw (codes "__GUEST_PASSWORD__")
            then placeholder_left ∷ []
            else []
      ]

  -- PreflightCredentials: its errors, none of which is no error
  unfoldable pub preflight_credentials : Config → List Complaint
  unfolding check public_key_complaints unattend_complaints gateway_mode_on trim_space
  preflight_credentials c =
      let on = gateway_mode_on c || c.enabled in
      check (codes "guest") c.guest.password true
      ++ ((if text_eq (trim_space c.payload.username) []
            then []
            else check (codes "payload") c.payload.password true)
          ++ ((if on
                then check (codes "gateway") c.gateway.password true ++ public_key_complaints c
                else [])
              ++ unattend_complaints c))
