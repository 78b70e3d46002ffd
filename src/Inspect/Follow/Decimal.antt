-- ===== src/Inspect/Follow/Decimal.antt =====
-- A number that is printed is read back: strconv.Itoa and strconv.Atoi.
use quarantine_lab.Prelude.{
  ℕ, zero, suc, ◌+◌, ◌-◌, ◌*◌, ◌/◌, ◌%◌, ◌^◌, ◌≤◌, ◌<◌, ◌≡◌, refl, sym, ap, ◌∙◌, inl, inr,
  false≢true, Bool, true, false, ◌&&◌, not, none, some, [], ◌∷◌, ◌++◌, arith, Bool-cases, ◌==◌, ltb,
  leb, ltb→lt, ltb-ge, lt→ltb,
}
use mathlib.Core.List.{reverse, reverse-append}
use quarantine_lab.Prelude.Int.{pos}
use quarantine_lab.Prelude.Text.{Text, text_eq, is_space, itoa, digits_rev}
use quarantine_lab.Secrets.Counts.{count, count-reverse, trim_space-kept}
use quarantine_lab.Inspect.Follow.{digits_from, strconv_atoi, atoi}

abbrev no_digit : ℕ → Bool
no_digit c = not (leb b'0' c && leb c b'9')

digits_rev-count : (fuel n : ℕ) → count no_digit (digits_rev fuel n) ≡ 0
unfolding digits_rev
digits_rev-count zero n = ground arith
digits_rev-count (suc fuel) n = elim (Bool-cases (ltb n 10)) [
  | inl e ↦ rw e (ground (arith, e))
  | inr e ↦ rw e (ground (arith, digits_rev-count fuel (n / 10)))
]

one_digit : (acc d : ℕ) → d < 10 → digits_from acc ((d + b'0') ∷ []) ≡ some (acc * 10 + d)
unfolding digits_from
one_digit acc d k =
    let yes : (leb b'0' (d + b'0') && leb (d + b'0') b'9') ≡ true = ground (arith, k) in
    rw (digits_from, yes) (ap (λ x. some x) (omega arith))

some_of : {a b : ℕ} → some a ≡ some b → a ≡ b
some_of {a} e = ap (λ o. elim o [ none ↦ a | some c ↦ c ]) e

digits_from-append :
    (acc v d : ℕ) (s : Text)
    → digits_from acc s ≡ some v
    → d < 10
    → digits_from acc (s ++ ((d + b'0') ∷ [])) ≡ some (v * 10 + d)
unfolding digits_from
digits_from-append acc v d [] h k = one_digit acc d k ∙ ap (λ x. some (x * 10 + d)) (some_of h)
digits_from-append acc v d (c ∷ s) h k = elim (Bool-cases (leb b'0' c && leb c b'9')) [
  | inl e ↦
      rw (digits_from, e)
        (digits_from-append (acc * 10 + (c - b'0')) v d s (rw (digits_from, e) at h) k)
  | inr e ↦ absurd (no_value (rw (digits_from, e) at h))
]
  where
    no_value : {x : ℕ} → none ≡ some x → ⊥
    no_value q = cc

digits_from-digits_rev :
    (fuel n : ℕ) → n ≤ fuel → digits_from 0 (reverse (digits_rev fuel n)) ≡ some n
unfolding digits_rev
digits_from-digits_rev zero n h =
    one_digit 0 (n % 10) (omega arith) ∙ ap (λ x. some x) (omega (arith, h))
digits_from-digits_rev (suc fuel) n h = elim (Bool-cases (ltb n 10)) [
  | inl e ↦ rw e (one_digit 0 n (ltb→lt n 10 e) ∙ ap (λ x. some x) (omega arith))
  | inr e ↦
      let l = digits_rev fuel (n / 10) in
      let shorter = digits_from-digits_rev fuel (n / 10) (omega (arith, h, ltb-ge n 10 e)) in
      rw e (
        ap (digits_from 0) (reverse-append ((n % 10 + b'0') ∷ []) l)
        ∙ digits_from-append 0 (n / 10) (n % 10) (reverse l) shorter (omega arith)
        ∙ ap (λ x. some x) (omega arith))
]

digits_from-itoa : (n : ℕ) → digits_from 0 (itoa n) ≡ some n
unfolding itoa
digits_from-itoa n = digits_from-digits_rev n n (omega arith)

itoa-count : (n : ℕ) → count no_digit (itoa n) ≡ 0
unfolding itoa
itoa-count n = count-reverse no_digit (digits_rev n n) ∙ digits_rev-count n n

count-is_space : (t : Text) → count no_digit t ≡ 0 → count is_space t ≡ 0
unfolding is_space
count-is_space [] h = refl
count-is_space (c ∷ t) h = ground (arith, h, count-is_space t)

-- Digits are no white space.
pub itoa-is_space : (n : ℕ) → count is_space (itoa n) ≡ 0
itoa-is_space n = count-is_space (itoa n) (itoa-count n)

digits_rev-long : (fuel n : ℕ) → 1 ≤ count (λ c. true) (digits_rev fuel n)
unfolding digits_rev
digits_rev-long zero n = omega arith
digits_rev-long (suc fuel) n = elim (Bool-cases (ltb n 10)) [
  | inl e ↦ rw e (omega arith)
  | inr e ↦ rw e (omega arith)
]

pub itoa-nonempty : (n : ℕ) → text_eq (itoa n) [] ≡ false
unfolding itoa
itoa-nonempty n =
    starts (itoa n) (omega (arith, count-reverse (λ c. true) (digits_rev n n), digits_rev-long n n))
  where
    starts : (t : Text) → 1 ≤ count (λ c. true) t → text_eq t [] ≡ false
    starts [] h = absurd (omega (arith, h))
    starts (c ∷ t) h = refl

strconv_atoi-digits :
    (t : Text) (n : ℕ)
    → text_eq t [] ≡ false
    → count no_digit t ≡ 0
    → digits_from 0 t ≡ some n
    → n < 2 ^ 63
    → strconv_atoi t ≡ pos n
unfolding strconv_atoi
strconv_atoi-digits [] n e k d b = absurd (false≢true (sym e))
strconv_atoi-digits (c ∷ t) n e k d b =
    let minus : (c == b'-') ≡ false = ground (arith, k) in
    let plus : (c == b'+') ≡ false = ground (arith, k) in
    rw (strconv_atoi, minus, plus, d, lt→ltb n (2 ^ 63) b, minus) refl

-- What is printed for an int that is not negative is read back.
pub atoi-itoa : (n : ℕ) → n < 2 ^ 63 → atoi (itoa n) ≡ pos n
unfolding atoi
atoi-itoa n h =
    rw (atoi, trim_space-kept (itoa n) (itoa-is_space n), itoa-nonempty n)
      (strconv_atoi-digits (itoa n) n (itoa-nonempty n) (itoa-count n) (digits_from-itoa n) h)
