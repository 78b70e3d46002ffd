-- ===== src/Compare/Pattern.antt =====
-- The regular expressions of go/internal/diff/noise.go. Each has the flag (?i), so a text is matched in
-- small letters; an alternative inside an expression is written out as several patterns.
use Prim.Native.String.{String}
use quarantine_lab.Prelude.{
  ℕ, Bool, true, false, ◌&&◌, ◌||◌, not, List, [], ◌∷◌, ◌++◌, map, ◌==◌, leb, replicate,
  if◌then◌else◌,
}
use quarantine_lab.Prelude.Text.{Text, codes, to_lower}

-- A character that passes a test, one or more such characters, or the end of the text
pub data Atom : Type 0 where
  one : (ℕ → Bool) → Atom
  many : (ℕ → Bool) → Atom
  finish : Atom

-- An expression with or without ^ at its start
pub record Pattern : Type 0 where
  pub anchored : Bool
  pub atoms : List Atom

-- One or more characters, and then the rest of the pattern
match_many : (ℕ → Bool) → (Text → Bool) → Text → Bool
match_many test rest [] = false
match_many test rest (c ∷ s) = test c && (rest s || match_many test rest s)

match_atom : Atom → (Text → Bool) → Text → Bool
unfolding match_many
match_atom (one test) rest [] = false
match_atom (one test) rest (c ∷ s) = test c && rest s
match_atom (many test) rest s = match_many test rest s
match_atom finish rest [] = rest []
match_atom finish rest (c ∷ s) = false

match_here : List Atom → Text → Bool
unfolding match_atom
match_here [] s = true
match_here (a ∷ as') s = match_atom a (match_here as') s

match_anywhere : List Atom → Text → Bool
unfolding match_here
match_anywhere as' [] = match_here as' []
match_anywhere as' (c ∷ s) = match_here as' (c ∷ s) || match_anywhere as' s

-- re.MatchString
unfoldable pub match_string : Pattern → Text → Bool
unfolding match_here match_anywhere to_lower
match_string re p =
    if re.anchored then match_here re.atoms (to_lower p) else match_anywhere re.atoms (to_lower p)

-- anyNoiseRE
unfoldable pub any_noise_re : Text → List Pattern → Bool
unfolding match_string
any_noise_re p [] = false
any_noise_re p (re ∷ set) = match_string re p || any_noise_re p set

lit : String → List Atom
lit s = map (λ c. one (λ d. c == d)) (codes s)

-- [a-z0-9]
letter_or_digit : ℕ → Bool
letter_or_digit c = (leb b'a' c && leb c b'z') || (leb b'0' c && leb c b'9')

-- [^\\]
no_backslash : ℕ → Bool
no_backslash c = not (c == b'\\')

-- [a-z0-9]{8}
eight : List Atom
eight = replicate 8 (one letter_or_digit)

within : List Atom → Pattern
within as' = record { anchored = false; atoms = as' }

at_end : List Atom → Pattern
at_end as' = record { anchored = false; atoms = as' ++ (finish ∷ []) }

whole : List Atom → Pattern
whole as' = record { anchored = true; atoms = as' ++ (finish ∷ []) }

unfoldable pub high_signal_file_ext : List Pattern
unfolding at_end lit
high_signal_file_ext =
    map (λ e. at_end (lit "." ++ lit e))
      ("exe" ∷ "dll" ∷ "sys" ∷ "ps1" ∷ "bat" ∷ "cmd" ∷ "vbs" ∷ "js" ∷ "hta" ∷ "lnk" ∷ [])

unfoldable pub eb_web_view_path : Pattern
unfolding within lit
eb_web_view_path = within (lit "\\ebwebview\\")

unfoldable pub eb_web_view_noise : List Pattern
unfolding within at_end lit no_backslash
eb_web_view_noise =
    at_end (lit "\\ebwebview\\default\\" ++ (many no_backslash ∷ lit ".tmp"))
    ∷ within (lit "\\ebwebview\\default\\cache\\")
    ∷ within (lit "\\ebwebview\\default\\code cache\\")
    ∷ within (lit "\\ebwebview\\default\\gpucache\\")
    ∷ within (lit "\\ebwebview\\default\\service worker\\cachestorage\\")
    ∷ []

unfoldable pub wer_noise : List Pattern
unfolding within lit
wer_noise =
    within (lit "\\programdata\\microsoft\\windows\\wer\\")
    ∷ within (lit "\\microsoft\\windows\\wer\\")
    ∷ []

unfoldable pub ephemeral_temp : List Pattern
unfolding at_end lit no_backslash
ephemeral_temp =
    map (λ start. at_end (lit start ++ (many no_backslash ∷ lit ".ps1")))
      ("\\systemtemp\\_psscriptpolicytest_" ∷ "\\systemtemp\\__psscriptpolicytest_"
        ∷ "\\temp\\_psscriptpolicytest_" ∷ "\\temp\\__psscriptpolicytest_" ∷ [])

unfoldable pub compiler_temp : List Pattern
unfolding within at_end whole lit eight letter_or_digit
compiler_temp =
    at_end (lit ".0.cs")
    ∷ at_end (lit ".cmdline")
    ∷ at_end (lit "\\windows\\systemtemp\\" ++ eight)
    ∷ (map
          (λ e. at_end (lit "\\windows\\systemtemp\\" ++ (eight ++ (lit "\\" ++ (eight ++ lit e)))))
          (".dll" ∷ ".err" ∷ ".out" ∷ [])
        ++ (map (λ e. whole (eight ++ lit e)) (".dll" ∷ ".err" ∷ ".out" ∷ ".0.cs" ∷ ".cmdline" ∷ [])
            ++ (within (lit "psscriptpolicytest") ∷ [])))

unfoldable pub usn_leaf_dir : Pattern
unfolding within lit
usn_leaf_dir = within (lit "\\_usn_leaf\\")

-- [A-Za-z]
letter : ℕ → Bool
letter c = leb b'a' c && leb c b'z'

unfoldable pub drive_root : Pattern
unfolding whole lit letter no_backslash
drive_root = whole (one letter ∷ (lit ":\\" ++ (many no_backslash ∷ [])))
