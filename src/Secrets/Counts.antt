-- ===== src/Secrets/Counts.antt =====
-- How many bytes of a password are in a set, before and after the loops of secrets.go and the calls of
-- `strings` in it.
use quarantine_lab.Prelude.{
  ℕ, zero, suc, ◌+◌, ◌<◌, ◌≡◌, refl, ap, ◌∙◌, ◌⊎◌, inl, inr, false≢true, Bool, true, false, ◌&&◌,
  [], ◌∷◌, ◌++◌, arith, Bool-cases, ◌==◌, ==_iff, if◌then◌else◌, length, get_or,
}
use mathlib.Core.List.{reverse, reverse-append, reverse-reverse}
use quarantine_lab.Prelude.Text.{Text, trim_space, trim_left, is_space, has_char}
use quarantine_lab.Secrets.{set_at, swap_bytes}

abbrev pub one_if : Bool → ℕ
one_if true = 1
one_if false = 0

abbrev pub count : (ℕ → Bool) → Text → ℕ
count p [] = 0
count p (c ∷ s) = one_if (p c) + count p s

abbrev pub every : (ℕ → Bool) → Text → Bool
every p [] = true
every p (c ∷ s) = p c && every p s

pub count-append : (p : ℕ → Bool) (s t : Text) → count p (s ++ t) ≡ count p s + count p t
count-append p [] t = omega arith
count-append p (c ∷ s) t = omega (arith, count-append p s t)

pub count-reverse : (p : ℕ → Bool) (s : Text) → count p (reverse s) ≡ count p s
count-reverse p [] = refl
count-reverse p (c ∷ s) =
    ap (count p) (reverse-append (c ∷ []) s)
    ∙ omega (arith, count-append p (reverse s) (c ∷ []), count-reverse p s)

pub length-set_at : (n a : ℕ) (s : Text) → length (set_at n a s) ≡ length s
length-set_at n a [] = refl
length-set_at zero a (c ∷ s) = refl
length-set_at (suc n) a (c ∷ s) = ap suc (length-set_at n a s)

-- The byte that is replaced is counted no more, the new one is.
count-set_at :
    (p : ℕ → Bool) (n a : ℕ) (s : Text)
    → n < length s
    → count p (set_at n a s) + one_if (p (get_or s n 0)) ≡ count p s + one_if (p a)
count-set_at p n a [] h = absurd (omega (arith, h))
count-set_at p zero a (c ∷ s) h = omega arith
count-set_at p (suc n) a (c ∷ s) h = omega (arith, count-set_at p n a s (omega (arith, h)))

get_or-set_at :
    (i j a : ℕ) (s : Text)
    → i < length s
    → get_or (set_at i a s) j 0 ≡ (if j == i then a else get_or s j 0)
get_or-set_at i j a [] h = absurd (omega (arith, h))
get_or-set_at zero zero a (c ∷ s) h = refl
get_or-set_at zero (suc j) a (c ∷ s) h = ground arith
get_or-set_at (suc i) zero a (c ∷ s) h = ground arith
get_or-set_at (suc i) (suc j) a (c ∷ s) h = ground (arith, get_or-set_at i j a s (omega (arith, h)))

pub count-swap_bytes :
    (p : ℕ → Bool) (raw : Text) (i j : ℕ)
    → i < length raw
    → j < length raw
    → count p (swap_bytes raw i j) ≡ count p raw
unfolding swap_bytes
count-swap_bytes p raw i j hi hj =
    let x = get_or raw i 0 in
    let y = get_or raw j 0 in
    let e : get_or (set_at i y raw) j 0 ≡ y =
      get_or-set_at i j y raw hi ∙ same (Bool-cases (j == i)) in
    let now : count p (set_at j x (set_at i y raw)) + one_if (p y)
        ≡ count p (set_at i y raw) + one_if (p x) =
      rw e at (count-set_at p j x (set_at i y raw) (omega (arith, hj, length-set_at i y raw))) in
    omega (arith, now, count-set_at p i y raw hi)
  where
    same :
        {b : Bool}
        → (b ≡ true) ⊎ (b ≡ false)
        → (if b then get_or raw j 0 else get_or raw j 0) ≡ get_or raw j 0
    same (inl e) = rw e refl
    same (inr e) = rw e refl

pub length-swap_bytes : (raw : Text) (i j : ℕ) → length (swap_bytes raw i j) ≡ length raw
unfolding swap_bytes
length-swap_bytes raw i j = length-set_at j _ (set_at i _ raw) ∙ length-set_at i _ raw

-- What holds for every byte of a set holds for each.
pub every-has_char :
    (q : ℕ → Bool) (c : ℕ) (set : Text) → every q set ≡ true → has_char c set ≡ true → q c ≡ true
unfolding has_char
every-has_char q c [] h k = absurd (false≢true k)
every-has_char q c (d ∷ set) h k = elim (Bool-cases (c == d)) [
  | inl e ↦ let here : q d ≡ true = ground (arith, h) in ap q ((==_iff c d).0 e) ∙ here
  | inr e ↦ every-has_char q c set (ground (arith, h)) (ground (arith, k, e))
]

pub has_char-get_or : (set : Text) (n : ℕ) → n < length set → has_char (get_or set n 0) set ≡ true
unfolding has_char
has_char-get_or [] n h = absurd (omega (arith, h))
has_char-get_or (c ∷ set) zero h = ground arith
has_char-get_or (c ∷ set) (suc n) h = ground (arith, has_char-get_or set n (omega (arith, h)))

trim_left-kept : (s : Text) → count is_space s ≡ 0 → trim_left s ≡ s
unfolding trim_left
trim_left-kept [] h = refl
trim_left-kept (c ∷ s) h = elim (Bool-cases (is_space c)) [
  | inl e ↦ absurd (omega (arith, rw e at h))
  | inr e ↦ rw e refl
]

-- A text without white space
pub trim_space-kept : (s : Text) → count is_space s ≡ 0 → trim_space s ≡ s
unfolding trim_space
trim_space-kept s h =
    ap (λ t. reverse (trim_left (reverse t))) (trim_left-kept s h)
    ∙ ap reverse (trim_left-kept (reverse s) (count-reverse is_space s ∙ h))
    ∙ reverse-reverse s
