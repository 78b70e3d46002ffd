-- ===== src/Prelude/Text.antt =====
-- Go strings as lists of characters, and what the program uses of `strings`. Letters are those of
-- ASCII: the names that the program compares with are ASCII.
use Prim.Native.Nat.{ℕ, zero, suc, ◌+◌, ◌-◌, ◌/◌, ◌%◌}
use Prim.Native.Char.{code}
use Prim.Native.String.{String}
use mathlib.Core.Path.{◌≡◌, refl}
use mathlib.Core.Bool.{Bool, true, false, ◌&&◌, ◌||◌}
use mathlib.Core.List.{List, [], ◌∷◌, map, reverse}
use native.Mathlib.Omega.{arith}
use quarantine_lab.Prelude.Tests.{◌==◌, leb, ltb, if◌then◌else◌}

abbrev pub Text : Type 0
Text = List ℕ

-- The characters of a literal.
abbrev pub codes : String → Text
codes String.[] = []
codes (String.◌∷◌ c s) = code c ∷ codes s

abbrev pub text_eq : Text → Text → Bool
text_eq [] [] = true
text_eq [] (b ∷ bs) = false
text_eq (a ∷ as') [] = false
text_eq (a ∷ as') (b ∷ bs) = a == b && text_eq as' bs

pub text_eq→eq : (s t : Text) → text_eq s t ≡ true → s ≡ t
text_eq→eq [] [] h = refl
text_eq→eq [] (b ∷ t) h = ground arith
text_eq→eq (a ∷ s) [] h = ground arith
text_eq→eq (a ∷ s) (b ∷ t) h = ground (arith, text_eq→eq s t)

pub text_eq_self : (s : Text) → text_eq s s ≡ true
text_eq_self [] = refl
text_eq_self (a ∷ s) = ground (arith, text_eq_self s)

-- Whether a text is one of a list
unfoldable pub among_texts : Text → List Text → Bool
among_texts p [] = false
among_texts p (d ∷ ds) = text_eq p d || among_texts p ds

-- Go's `<` on strings
abbrev pub text_lt : Text → Text → Bool
text_lt [] [] = false
text_lt [] (d ∷ t) = true
text_lt (c ∷ s) [] = false
text_lt (c ∷ s) (d ∷ t) = ltb c d || c == d && text_lt s t

pub text_lt_trans : (s t u : Text) → text_lt s t ≡ true → text_lt t u ≡ true → text_lt s u ≡ true
text_lt_trans [] [] u h k = ground arith
text_lt_trans [] (d ∷ t) [] h k = ground arith
text_lt_trans [] (d ∷ t) (e ∷ u) h k = refl
text_lt_trans (c ∷ s) [] u h k = ground arith
text_lt_trans (c ∷ s) (d ∷ t) [] h k = ground arith
text_lt_trans (c ∷ s) (d ∷ t) (e ∷ u) h k = ground (arith, text_lt_trans s t u)

pub text_lt-apart : (s t : Text) → text_lt s t ≡ true → text_eq s t ≡ false
text_lt-apart [] [] h = ground arith
text_lt-apart [] (d ∷ t) h = refl
text_lt-apart (c ∷ s) [] h = refl
text_lt-apart (c ∷ s) (d ∷ t) h = ground (arith, text_lt-apart s t)

pub text_lt_total : (s t : Text) → text_lt s t ≡ false → text_lt t s ≡ false → text_eq s t ≡ true
text_lt_total [] [] h k = refl
text_lt_total [] (d ∷ t) h k = ground arith
text_lt_total (c ∷ s) [] h k = ground arith
text_lt_total (c ∷ s) (d ∷ t) h k = ground (arith, text_lt_total s t)

pub text_eq_sym : (s t : Text) → text_eq s t ≡ text_eq t s
text_eq_sym [] [] = refl
text_eq_sym [] (d ∷ t) = refl
text_eq_sym (c ∷ s) [] = refl
text_eq_sym (c ∷ s) (d ∷ t) = ground (arith, text_eq_sym s t)

unfoldable pub lower_char : ℕ → ℕ
lower_char c = if leb b'A' c && leb c b'Z' then c + 32 else c

pub upper_char : ℕ → ℕ
upper_char c = if leb b'a' c && leb c b'z' then c - 32 else c

-- strings.ToLower
unfoldable pub to_lower : Text → Text
unfolding lower_char
to_lower s = map lower_char s

-- strings.ToUpper
unfoldable pub to_upper : Text → Text
unfolding upper_char
to_upper s = map upper_char s

-- unicode.IsSpace in Latin-1
unfoldable pub is_space : ℕ → Bool
is_space c = c == b' ' || (leb 9 c && leb c 13) || c == 0x85 || c == 0xa0

unfoldable pub trim_left : Text → Text
trim_left [] = []
trim_left (c ∷ s) = let rest = trim_left s in if is_space c then rest else c ∷ s

-- strings.TrimSpace
unfoldable pub trim_space : Text → Text
unfolding trim_left is_space
trim_space s = reverse (trim_left (reverse (trim_left s)))

-- The digits of a number, the last first, by at most `fuel` divisions.
unfoldable pub digits_rev : ℕ → ℕ → Text
digits_rev zero n = (n % 10 + b'0') ∷ []
digits_rev (suc fuel) n =
    let rest = digits_rev fuel (n / 10) in
    if ltb n 10 then (n + b'0') ∷ [] else (n % 10 + b'0') ∷ rest

-- strconv.Itoa of a number that is not negative
unfoldable pub itoa : ℕ → Text
unfolding digits_rev
itoa n = reverse (digits_rev n n)

-- strings.HasPrefix
unfoldable pub has_prefix : Text → Text → Bool
has_prefix s [] = true
has_prefix [] (p ∷ ps) = false
has_prefix (c ∷ s) (p ∷ ps) = c == p && has_prefix s ps

-- strings.HasSuffix
unfoldable pub has_suffix : Text → Text → Bool
unfolding has_prefix
has_suffix s t = has_prefix (reverse s) (reverse t)

-- strings.Contains
unfoldable pub has_part : Text → Text → Bool
unfolding has_prefix
has_part [] t = has_prefix [] t
has_part (c ∷ s) t = has_prefix (c ∷ s) t || has_part s t

-- strings.ContainsRune
unfoldable pub has_char : ℕ → Text → Bool
has_char c [] = false
has_char c (d ∷ s) = c == d || has_char c s

-- strings.ReplaceAll of one character by another
unfoldable pub replace_char : ℕ → ℕ → Text → Text
replace_char a b s = map (λ c. if c == a then b else c) s

abbrev trim_left_char : ℕ → Text → Text
trim_left_char a [] = []
trim_left_char a (c ∷ s) = let rest = trim_left_char a s in if c == a then rest else c ∷ s

-- strings.TrimRight with a cutset of one character
unfoldable pub trim_right_char : ℕ → Text → Text
trim_right_char a s = reverse (trim_left_char a (reverse s))

-- strings.Trim with a cutset of one character
unfoldable pub trim_char : ℕ → Text → Text
trim_char a s = reverse (trim_left_char a (reverse (trim_left_char a s)))
