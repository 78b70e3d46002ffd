-- ===== src/Secrets/Generated.antt =====
-- GeneratePassword ends at its first attempt, with a password of all four classes.
use quarantine_lab.Prelude.{
  ℕ, zero, suc, ◌-◌, ◌≤◌, ◌<◌, ◌≡◌, refl, sym, ap, ◌∙◌, inl, inr, false≢true, Bool, true, false,
  ◌&&◌, not, Option, some, List, [], ◌∷◌, ◌++◌, map, append_assoc, append-nil, arith, Bool-cases,
  leb, if◌then◌else◌, length,
}
use quarantine_lab.Prelude.Text.{
  among_texts, Text, text_eq, text_eq→eq, to_lower, lower_char, trim_space, is_space, has_char,
}
use quarantine_lab.Secrets.{
  done, known_default_passwords, is_known_default_password, letters, uppers, digits, symbols,
  classes, all_chars, swap_bytes, rand_char, pick_each, fill_up, shuffle_loop, shuffle_bytes,
  compose_password, generate_password,
}
use quarantine_lab.Secrets.Counts.{
  one_if, count, every, count-swap_bytes, length-swap_bytes, every-has_char, has_char-get_or,
  trim_space-kept,
}

-- How many bytes of a text are in a set, or in none of the four
abbrev pub members : Text → Text → ℕ
members set t = count (λ c. has_char c set) t

abbrev pub strangers : Text → ℕ
strangers t = count (λ c. not (has_char c all_chars)) t

-- What a generated password is to be
pub record Strong (t : Text) : Type 0 where
  pub size : length t ≡ 20
  pub a_letter : 1 ≤ members letters t
  pub an_upper : 1 ≤ members uppers t
  pub a_digit : 1 ≤ members digits t
  pub a_symbol : 1 ≤ members symbols t
  pub no_stranger : strangers t ≡ 0
  pub unknown : is_known_default_password t ≡ false

every_stranger :
    (q : ℕ → Bool) (t : Text)
    → every (λ c. not (q c)) all_chars ≡ true
    → strangers t ≡ 0
    → count q t ≡ 0
every_stranger q [] h k = refl
every_stranger q (c ∷ t) h k = elim (Bool-cases (has_char c all_chars)) [
  | inr e ↦ absurd (omega (arith, rw e at k))
  | inl e ↦
      let no : not (q c) ≡ true = every-has_char (λ d. not (q d)) c all_chars h e in
      grind (arith, no, every_stranger q t h (omega (arith, k)))
]

is_digit : ℕ → Bool
is_digit c = leb b'0' c && leb c b'9'

is_lower : ℕ → Bool
is_lower c = leb b'a' c && leb c b'z'

count-lower :
    (q : ℕ → Bool) (set t : Text)
    → every (λ c. q (lower_char c)) set ≡ true
    → members set t ≤ count q (map lower_char t)
count-lower q set [] h = omega arith
count-lower q set (c ∷ t) h = elim (Bool-cases (has_char c set)) [
  | inr e ↦ grind (arith, e, count-lower q set t h)
  | inl e ↦
      let yes : q (lower_char c) ≡ true = every-has_char (λ d. q (lower_char d)) c set h e in
      grind (arith, e, yes, count-lower q set t h)
]

-- A text with a digit and a small letter
abbrev mixed : Text → Bool
mixed t = leb 1 (count is_digit t) && leb 1 (count is_lower t)

abbrev unmixed : List Text → Bool
unmixed [] = true
unmixed (d ∷ ds) = not (mixed d) && unmixed ds

among_texts-mixed :
    (p : Text) (ds : List Text) → mixed p ≡ true → unmixed ds ≡ true → among_texts p ds ≡ false
unfolding among_texts
among_texts-mixed p [] h k = refl
among_texts-mixed p (d ∷ ds) h k = elim (Bool-cases (text_eq p d)) [
  | inr e ↦ rw e (among_texts-mixed p ds h (both_right (not (mixed d)) (unmixed ds) k))
  | inl e ↦
      absurd
        (false≢true (rw (sym (text_eq→eq p d e), h) at (both_left (not (mixed d)) (unmixed ds) k)))
]
  where
    both_left : (a b : Bool) → (a && b) ≡ true → a ≡ true
    both_left a b e = ground arith

    both_right : (a b : Bool) → (a && b) ≡ true → b ≡ true
    both_right a b e = ground arith

-- No password of the alphabet with a letter and a digit is a known default.
is_known_default_password-members :
    (t : Text)
    → strangers t ≡ 0
    → 1 ≤ members letters t
    → 1 ≤ members digits t
    → is_known_default_password t ≡ false
unfolding is_known_default_password to_lower is_space is_digit is_lower lower_char
is_known_default_password-members t none_strange a_letter a_digit =
    let e : trim_space t ≡ t = trim_space-kept t (every_stranger is_space t refl none_strange) in
    let d : 1 ≤ count is_digit (to_lower t) =
      omega (arith, count-lower is_digit digits t refl, a_digit) in
    let l : 1 ≤ count is_lower (to_lower t) =
      omega (arith, count-lower is_lower letters t refl, a_letter) in
    let m : mixed (to_lower t) ≡ true = ground (arith, d, l) in
    rw e (
      either_way (text_eq (to_lower t) []) _
        (among_texts-mixed (to_lower t) known_default_passwords m refl))
  where
    either_way : (a b : Bool) → b ≡ false → (if a then false else b) ≡ false
    either_way a b h = ground arith

within :
    (every (λ e. has_char e all_chars) letters ≡ true)
    × (every (λ e. has_char e all_chars) uppers ≡ true)
    × (every (λ e. has_char e all_chars) digits ≡ true)
    × (every (λ e. has_char e all_chars) symbols ≡ true)
unfolding has_char
within = (refl, refl, refl, refl)

strangers-member :
    (c : ℕ) (t : Text) → has_char c all_chars ≡ true → strangers (c ∷ t) ≡ strangers t
strangers-member c t h = rw h (omega arith)

-- A password that rearranges one byte of each class and sixteen of the alphabet
Strong-rearranged :
    (a b c d : ℕ) (m t : Text)
    → has_char a letters ≡ true
    → has_char b uppers ≡ true
    → has_char c digits ≡ true
    → has_char d symbols ≡ true
    → length m ≡ 16
    → strangers m ≡ 0
    → ((p : ℕ → Bool) → count p t ≡ count p (a ∷ b ∷ c ∷ d ∷ m))
    → length t ≡ length (a ∷ b ∷ c ∷ d ∷ m)
    → Strong t
Strong-rearranged a b c d m t ha hb hc hd size none_strange same l =
    let letter : 1 ≤ members letters t =
      omega (arith, same (λ e. has_char e letters), ap one_if ha) in
    let digit : 1 ≤ members digits t = omega (arith, same (λ e. has_char e digits), ap one_if hc) in
    let strange : strangers t ≡ 0 =
      same (λ e. not (has_char e all_chars))
      ∙ strangers-member a (b ∷ c ∷ d ∷ m)
          (every-has_char (λ e. has_char e all_chars) a letters within.0 ha)
      ∙ strangers-member b (c ∷ d ∷ m)
          (every-has_char (λ e. has_char e all_chars) b uppers within.1 hb)
      ∙ strangers-member c (d ∷ m) (every-has_char (λ e. has_char e all_chars) c digits within.2 hc)
      ∙ strangers-member d m (every-has_char (λ e. has_char e all_chars) d symbols within.3 hd)
      ∙ none_strange in
    record {
      size = omega (arith, l, size);
      a_letter = letter;
      an_upper = omega (arith, same (λ e. has_char e uppers), ap one_if hb);
      a_digit = digit;
      a_symbol = omega (arith, same (λ e. has_char e symbols), ap one_if hd);
      no_stranger = strange;
      unknown = is_known_default_password-members t strange letter digit;
    }

-- It is not blank either.
pub Strong-not_blank : (t : Text) → Strong t → text_eq (trim_space t) [] ≡ false
unfolding is_space
Strong-not_blank t h =
    ap (λ u. text_eq u []) (trim_space-kept t (every_stranger is_space t refl h.no_stranger))
    ∙ long t (omega (arith, h.size))
  where
    long : (t : Text) → 1 ≤ length t → text_eq t [] ≡ false
    long [] e = absurd (omega (arith, e))
    long (c ∷ t) e = refl

module _ {S : Type 0} (draw : ℕ → S → Option (ℕ × S))
    (drawn : (n : ℕ) (s : S)
      → 1 ≤ n
      → (v : ℕ) × (s' : S) × (draw n s ≡ some (v, s')) × (v < n)) where
  rand_char-has_char :
      (set : Text) (s : S)
      → 1 ≤ length set
      → (c : ℕ) × (s' : S) × (rand_char draw set s ≡ some (c, s')) × (has_char c set ≡ true)
  unfolding rand_char
  rand_char-has_char set s h =
      let r = drawn (length set) s h in
      (_, r.1, (rw (rand_char, r.2) refl), has_char-get_or set r.0 r.3)

  fill_up-strangers :
      (n : ℕ) (b : Text) (s : S)
      → (t : Text) × (s' : S) × (fill_up draw n b s ≡ some (b ++ t, s'))
        × (length t ≡ n)
        × (strangers t ≡ 0)
  unfolding fill_up
  fill_up-strangers zero b s = ([], s, (rw (append-nil b) refl), refl, refl)
  fill_up-strangers (suc n) b s =
      let r = rand_char-has_char all_chars s (omega arith) in
      let rest = fill_up-strangers n (b ++ (r.0 ∷ [])) r.1 in
      (
        r.0 ∷ rest.0,
        rest.1,
        (rw (fill_up, r.2)
            (rest.2 ∙ ap (λ t. some (t, rest.1)) (append_assoc b (r.0 ∷ []) rest.0))),
        omega (arith, rest.3),
        strangers-member r.0 rest.0 r.3 ∙ rest.4,
      )

  -- Shuffling rearranges the bytes: those in any set are as many as before.
  shuffle_loop-count :
      (i : ℕ) (raw : Text) (s : S)
      → i < length raw
      → (t : Text) × (s' : S) × (shuffle_loop draw i raw s ≡ some (t, s'))
        × ((p : ℕ → Bool) → count p t ≡ count p raw)
        × (length t ≡ length raw)
  unfolding shuffle_loop
  shuffle_loop-count zero raw s h = (raw, s, refl, (λ p. refl), refl)
  shuffle_loop-count (suc i) raw s h =
      let r = drawn (suc (suc i)) s (omega arith) in
      let now = swap_bytes raw (suc i) r.0 in
      let rest =
        shuffle_loop-count i now r.1 (omega (arith, h, length-swap_bytes raw (suc i) r.0)) in
      (
        rest.0,
        rest.1,
        (rw (shuffle_loop, r.2) rest.2),
        (λ p. rest.3 p ∙ count-swap_bytes p raw (suc i) r.0 h (omega (arith, h, r.3))),
        rest.4 ∙ length-swap_bytes raw (suc i) r.0,
      )

  -- Whatever the source gives, GeneratePassword returns at its first attempt, if no draw fails and each is
  -- below its bound. The password has 20 bytes, all from the alphabet, at least one in each of the
  -- four classes, and it is not a known default.
  pub generate_password-Strong :
      (attempts : ℕ) (s : S)
      → (t : Text) × (s' : S) × (generate_password draw (suc attempts) s ≡ done (t, s')) × Strong t
  unfolding generate_password compose_password pick_each shuffle_bytes
  generate_password-Strong attempts s =
      let a = rand_char-has_char letters s (omega arith) in
      let b = rand_char-has_char uppers a.1 (omega arith) in
      let c = rand_char-has_char digits b.1 (omega arith) in
      let d = rand_char-has_char symbols c.1 (omega arith) in
      let more = fill_up-strangers 16 (a.0 ∷ b.0 ∷ c.0 ∷ d.0 ∷ []) d.1 in
      let raw = a.0 ∷ b.0 ∷ c.0 ∷ d.0 ∷ more.0 in
      let out = shuffle_loop-count 19 raw more.1 (omega (arith, more.3)) in
      let strong =
        Strong-rearranged a.0 b.0 c.0 d.0 more.0 out.0 a.3 b.3 c.3 d.3 more.3 more.4 out.3 out.4 in
      let picked : pick_each draw classes [] s ≡ some (a.0 ∷ b.0 ∷ c.0 ∷ d.0 ∷ [], d.1) =
        rw (pick_each, a.2, pick_each, b.2, pick_each, c.2, pick_each, d.2, pick_each) refl in
      let long : length raw - 1 ≡ 19 = omega (arith, more.3) in
      let made : compose_password draw s ≡ some (out.0, out.1) =
        rw (compose_password, picked, more.2, shuffle_bytes, long) out.2 in
      (out.0, out.1, (rw (generate_password, made, strong.unknown) refl), strong)
