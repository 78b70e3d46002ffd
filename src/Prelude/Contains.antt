-- ===== src/Prelude/Contains.antt =====
-- strings.Contains, as a text that stands somewhere in another
use quarantine_lab.Prelude.{
  ℕ, ◌≡◌, ◌↔◌, refl, ap, ap₂, inl, inr, false≢true, Bool, true, false, ◌&&◌, ◌||◌, [], ◌∷◌, ◌++◌,
  arith, Bool-cases, ◌==◌, ==_iff, get_or, drop,
}
use quarantine_lab.Prelude.Text.{Text, has_prefix, has_part}

abbrev pub Contains : Text → Text → Type 0
Contains s t = (a b : Text) × (s ≡ a ++ (t ++ b))

has_prefix_iff : (s t : Text) → (has_prefix s t ≡ true) ↔ ((b : Text) × (s ≡ t ++ b))
unfolding has_prefix
has_prefix_iff s [] = (λ h. (s, refl), λ h. refl)
has_prefix_iff [] (p ∷ ps) = (λ h. absurd (false≢true h), λ h. absurd (no_text h.1))
  where
    no_text : {c : ℕ} {s : Text} → [] ≡ c ∷ s → ⊥
    no_text e = cc
has_prefix_iff (c ∷ s) (p ∷ ps) =
    let rest = has_prefix_iff s ps in
    (
      λ h.
          let r = rest.0 (both_right (c == p) (has_prefix s ps) h) in
          (r.0, ap₂ ◌∷◌ ((==_iff c p).0 (both_left (c == p) (has_prefix s ps) h)) r.1),
      λ h.
          both (c == p) (has_prefix s ps) ((==_iff c p).1 (ap (λ t. get_or t 0 c) h.1))
            (rest.1 (h.0, ap (drop 1) h.1)),
    )
  where
    both_left : (a b : Bool) → (a && b) ≡ true → a ≡ true
    both_left a b e = ground arith

    both_right : (a b : Bool) → (a && b) ≡ true → b ≡ true
    both_right a b e = ground arith

    both : (a b : Bool) → a ≡ true → b ≡ true → (a && b) ≡ true
    both a b e f = ground arith

or_right : (a b : Bool) → b ≡ true → (a || b) ≡ true
or_right a b e = ground arith

or_left : (a b : Bool) → a ≡ true → (a || b) ≡ true
or_left a b e = ground arith

part-Contains : (s t : Text) → has_part s t ≡ true → Contains s t
unfolding has_part
part-Contains [] t h = let r = (has_prefix_iff [] t).0 h in ([], r.0, r.1)
part-Contains (c ∷ s) t h = elim (Bool-cases (has_prefix (c ∷ s) t)) [
  | inl e ↦ let r = (has_prefix_iff (c ∷ s) t).0 e in ([], r.0, r.1)
  | inr e ↦
      let r = part-Contains s t (rest_of (has_prefix (c ∷ s) t) (has_part s t) h e) in
      (c ∷ r.0, r.1, ap (λ x. c ∷ x) r.2)
]
  where
    rest_of : (a b : Bool) → (a || b) ≡ true → a ≡ false → b ≡ true
    rest_of a b e f = ground arith

Contains-part : (a b s t : Text) → s ≡ a ++ (t ++ b) → has_part s t ≡ true
unfolding has_part
Contains-part [] b [] t e = (has_prefix_iff [] t).1 (b, e)
Contains-part [] b (c ∷ s) t e = or_left _ (has_part s t) ((has_prefix_iff (c ∷ s) t).1 (b, e))
Contains-part (x ∷ a) b [] t e = absurd cc
Contains-part (x ∷ a) b (c ∷ s) t e =
    or_right (has_prefix (c ∷ s) t) (has_part s t) (Contains-part a b s t (ap (drop 1) e))

pub has_part_iff : (s t : Text) → (has_part s t ≡ true) ↔ Contains s t
has_part_iff s t = (part-Contains s t, λ h. Contains-part h.0 h.1 s t h.2)
