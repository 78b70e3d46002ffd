-- ===== src/Cases/Trim.antt =====
-- strings.TrimSpace: a second call changes nothing.
use quarantine_lab.Prelude.{ℕ, ◌≡◌, refl, ap, ◌∙◌, ◌⊎◌, inl, inr, false, [], ◌∷◌, ◌++◌, Bool-cases}
use mathlib.Core.List.{reverse, reverse-append, reverse-reverse}
use quarantine_lab.Prelude.Text.{Text, trim_space, trim_left, is_space}

abbrev Trimmed : Text → Type 0
Trimmed s = (s ≡ []) ⊎ ((c : ℕ) × (r : Text) × (s ≡ c ∷ r) × (is_space c ≡ false))

trim_left-Trimmed : (s : Text) → Trimmed (trim_left s)
unfolding trim_left
trim_left-Trimmed [] = inl refl
trim_left-Trimmed (c ∷ s) = elim (Bool-cases (is_space c)) [
  | inl e ↦ rw e (trim_left-Trimmed s)
  | inr e ↦ rw e (inr (c, s, refl, e))
]

trim_left-fixed : (s : Text) → Trimmed s → trim_left s ≡ s
unfolding trim_left
trim_left-fixed s (inl e) = rw e refl
trim_left-fixed s (inr (c, r, e, n)) = rw (e, n) refl

trim_left-append :
    (s : Text) (c : ℕ) → is_space c ≡ false → trim_left (s ++ (c ∷ [])) ≡ trim_left s ++ (c ∷ [])
unfolding trim_left
trim_left-append [] c n = rw n refl
trim_left-append (d ∷ s) c n = elim (Bool-cases (is_space d)) [
  | inl e ↦ rw e (trim_left-append s c n)
  | inr e ↦ rw e refl
]

abbrev trim_right : Text → Text
trim_right s = reverse (trim_left (reverse s))

trim_right-Trimmed : (s : Text) → Trimmed s → Trimmed (trim_right s)
unfolding trim_left
trim_right-Trimmed s (inl e) = inl (ap trim_right e)
trim_right-Trimmed s (inr (c, r, e, n)) = inr (
  c,
  reverse (trim_left (reverse r)),
  ap trim_right e
      ∙ ap (λ t. reverse (trim_left t)) (reverse-append (c ∷ []) r)
      ∙ ap reverse (trim_left-append (reverse r) c n)
      ∙ reverse-append (trim_left (reverse r)) (c ∷ []),
  n,
)

trim_right-twice : (s : Text) → trim_right (trim_right s) ≡ trim_right s
trim_right-twice s =
    ap (λ t. reverse (trim_left t)) (reverse-reverse (trim_left (reverse s)))
    ∙ ap reverse (trim_left-fixed (trim_left (reverse s)) (trim_left-Trimmed (reverse s)))

pub trim_space-twice : (s : Text) → trim_space (trim_space s) ≡ trim_space s
unfolding trim_space
trim_space-twice s =
    let t = trim_left-Trimmed s in
    ap trim_right (trim_left-fixed (trim_right (trim_left s)) (trim_right-Trimmed (trim_left s) t))
    ∙ trim_right-twice (trim_left s)
