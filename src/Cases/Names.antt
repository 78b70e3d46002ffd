-- ===== src/Cases/Names.antt =====
-- The names that writeBodyFile gives: different for different keys and sides, and kept by readRel.
use quarantine_lab.Prelude.{
  ℕ, ◌+◌, ◌≡◌, refl, sym, ap, subst, ◌∙◌, Bool, true, false, [], ◌∷◌, ◌++◌, arith, length,
  length-append, take, drop, append_assoc,
}
use mathlib.Core.List.{reverse, reverse-append, reverse-reverse}
use quarantine_lab.Prelude.Text.{Text, codes, text_eq, to_lower, trim_space, trim_left, is_space}
use quarantine_lab.Cases.{Side, from_side, to_side, extension, body_name}

abbrev pub same_side : Side → Side → Bool
same_side from_side from_side = true
same_side to_side to_side = true
same_side from_side to_side = false
same_side to_side from_side = false

trim_left_kept : (c : ℕ) (s : Text) → is_space c ≡ false → trim_left (c ∷ s) ≡ c ∷ s
unfolding trim_left
trim_left_kept c s h = rw h refl

-- A text with no white space at its ends
trim_space_kept :
    (c d : ℕ) (s : Text)
    → is_space c ≡ false
    → is_space d ≡ false
    → trim_space (c ∷ (s ++ (d ∷ []))) ≡ c ∷ (s ++ (d ∷ []))
unfolding trim_space
trim_space_kept c d s h k =
    let e : reverse (c ∷ (s ++ (d ∷ []))) ≡ d ∷ reverse (c ∷ s) = reverse-append (c ∷ s) (d ∷ []) in
    ap (λ t. reverse (trim_left (reverse t))) (trim_left_kept c (s ++ (d ∷ [])) h)
    ∙ ap (λ t. reverse (trim_left t)) e
    ∙ ap reverse (trim_left_kept d (reverse (c ∷ s)) k)
    ∙ ap reverse (sym e)
    ∙ reverse-reverse (c ∷ (s ++ (d ∷ [])))

take_left : (x y : Text) → take (length x) (x ++ y) ≡ x
take_left [] y = refl
take_left (c ∷ x) y = ap (λ t. c ∷ t) (take_left x y)

-- The bodies of a name, after "bodies/"
abbrev tail_of : Text → Side → Text
tail_of h s = h ++ (codes "." ++ extension s)

tail_of-same :
    (g h : Text) (s t : Side)
    → length g ≡ length h
    → tail_of g s ≡ tail_of h t
    → (same_side s t ≡ true) × (g ≡ h)
tail_of-same g h s t l e = (
  sides s t (
      sym (length-append g (codes "." ++ extension s))
      ∙ ap length e
      ∙ length-append h (codes "." ++ extension t)),
  sym (take_left g (codes "." ++ extension s))
      ∙ ap (take (length g)) e
      ∙ ap (λ n. take n (tail_of h t)) l
      ∙ take_left h (codes "." ++ extension t),
)
  where
    sides :
        (s t : Side)
        → length g + length (codes "." ++ extension s)
          ≡ length h + length (codes "." ++ extension t)
        → same_side s t ≡ true
    sides from_side from_side q = refl
    sides to_side to_side q = refl
    sides from_side to_side q = absurd (omega (arith, l, q))
    sides to_side from_side q = absurd (omega (arith, l, q))

module _ (hash : Text → Text) (h16 : (t : Text) → length (hash t) ≡ 16) where
  pub body_name-same :
      (j k : Text) (s t : Side)
      → body_name hash j s ≡ body_name hash k t
      → (same_side s t ≡ true) × (hash (to_lower j) ≡ hash (to_lower k))
  unfolding body_name
  body_name-same j k s t e =
      tail_of-same (hash (to_lower j)) (hash (to_lower k)) s t
        (h16 (to_lower j) ∙ sym (h16 (to_lower k))) (ap (drop 7) e)

pub body_name-trim_space :
    (hash : Text → Text) (k : Text) (s : Side)
    → trim_space (body_name hash k s) ≡ body_name hash k s
unfolding body_name is_space
body_name-trim_space hash k from_side =
    let h = hash (to_lower k) in
    subst (λ t. trim_space t ≡ t)
      (ap (λ t. codes "bodies/" ++ t) (append_assoc h (codes ".fro") (b'm' ∷ [])))
      (trim_space_kept b'b' b'm' (codes "odies/" ++ (h ++ codes ".fro")) refl refl)
body_name-trim_space hash k to_side =
    let h = hash (to_lower k) in
    subst (λ t. trim_space t ≡ t)
      (ap (λ t. codes "bodies/" ++ t) (append_assoc h (codes ".t") (b'o' ∷ [])))
      (trim_space_kept b'b' b'o' (codes "odies/" ++ (h ++ codes ".t")) refl refl)

pub body_name-nonempty :
    (hash : Text → Text) (k : Text) (s : Side) → text_eq (body_name hash k s) [] ≡ false
unfolding body_name
body_name-nonempty hash k s = refl
