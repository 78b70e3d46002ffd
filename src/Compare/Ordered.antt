-- ===== src/Compare/Ordered.antt =====
-- sort.Slice by a text: its elements, its order, and that an order without ties is the only one.
use quarantine_lab.Prelude.{
  ◌≡◌, refl, sym, ap₂, ◌∙◌, subst, false≢true, ◌⊎◌, inl, inr, ◌↔◌, true, false, List, [], ◌∷◌,
  Bool-cases,
}
use quarantine_lab.Prelude.Text.{
  Text, text_eq, text_lt, text_eq_self, text_lt_trans, text_lt-apart, text_lt_total,
}
use quarantine_lab.Compare.{insert_by, sort_by}

abbrev pub Among : {A : Type 0} → A → List A → Type 0
Among a [] = ⊥
Among a (b ∷ bs) = (a ≡ b) ⊎ Among a bs

text_lt_irrefl : (s : Text) → text_lt s s ≡ true → ⊥
text_lt_irrefl s l = false≢true (sym (text_lt-apart s s l) ∙ text_eq_self s)

text_lt_asym : (s t : Text) → text_lt s t ≡ true → text_lt t s ≡ true → ⊥
text_lt_asym s t l k = text_lt_irrefl s (text_lt_trans s t s l k)

module _ {A : Type 0} (key : A → Text) where
  -- An element comes before each of a list.
  abbrev pub Before : Text → List A → Type 0
  Before k [] = Unit
  Before k (b ∷ bs) = (text_lt k (key b) ≡ true) × Before k bs

  abbrev pub Ascending : List A → Type 0
  Ascending [] = Unit
  Ascending (a ∷ as') = Before (key a) as' × Ascending as'

  -- No element of a list has a key.
  abbrev pub Apart : Text → List A → Type 0
  Apart k [] = Unit
  Apart k (b ∷ bs) = (text_eq (key b) k ≡ false) × Apart k bs

  abbrev pub NoTies : List A → Type 0
  NoTies [] = Unit
  NoTies (a ∷ as') = Apart (key a) as' × NoTies as'

  Before-Among :
      (k : Text) (a : A) (bs : List A) → Before k bs → Among a bs → text_lt k (key a) ≡ true
  Before-Among k a [] h m = absurd m
  Before-Among k a (b ∷ bs) h (inl e) = subst (λ x. text_lt k (key x) ≡ true) (sym e) h.0
  Before-Among k a (b ∷ bs) h (inr m) = Before-Among k a bs h.1 m

  Before-trans : (j k : Text) (bs : List A) → text_lt j k ≡ true → Before k bs → Before j bs
  Before-trans j k [] l h = tt
  Before-trans j k (b ∷ bs) l h = (text_lt_trans j k (key b) l h.0, Before-trans j k bs l h.1)

  Before-insert_by :
      (k : Text) (a : A) (bs : List A)
      → text_lt k (key a) ≡ true
      → Before k bs
      → Before k (insert_by key a bs)
  unfolding insert_by
  Before-insert_by k a [] l h = (l, tt)
  Before-insert_by k a (b ∷ bs) l h = elim (Bool-cases (text_lt (key b) (key a))) [
    | inl after ↦ rw after (h.0, Before-insert_by k a bs l h.1)
    | inr front ↦ rw front (l, h)
  ]

  Ascending-insert_by :
      (a : A) (bs : List A) → Apart (key a) bs → Ascending bs → Ascending (insert_by key a bs)
  unfolding insert_by
  Ascending-insert_by a [] p o = (tt, tt)
  Ascending-insert_by a (b ∷ bs) p o = elim (Bool-cases (text_lt (key b) (key a))) [
    | inl after ↦
        rw after (Before-insert_by (key b) a bs after o.0, Ascending-insert_by a bs p.1 o.1)
    | inr front ↦
        let first : text_lt (key a) (key b) ≡ true = elim (Bool-cases (text_lt (key a) (key b))) [
          | inl l ↦ l
          | inr n ↦ absurd (false≢true (sym p.0 ∙ text_lt_total (key b) (key a) front n))
        ] in
        rw front (((first, Before-trans (key a) (key b) bs first o.0)), o)
  ]

  Apart-insert_by :
      (k : Text) (a : A) (bs : List A)
      → text_eq (key a) k ≡ false
      → Apart k bs
      → Apart k (insert_by key a bs)
  unfolding insert_by
  Apart-insert_by k a [] d h = (d, tt)
  Apart-insert_by k a (b ∷ bs) d h = elim (Bool-cases (text_lt (key b) (key a))) [
    | inl after ↦ rw after (h.0, Apart-insert_by k a bs d h.1)
    | inr front ↦ rw front (d, h)
  ]

  Apart-sort_by : (k : Text) (bs : List A) → Apart k bs → Apart k (sort_by key bs)
  unfolding sort_by
  Apart-sort_by k [] h = tt
  Apart-sort_by k (b ∷ bs) h = Apart-insert_by k b (sort_by key bs) h.0 (Apart-sort_by k bs h.1)

  pub sort_by-Ascending : (bs : List A) → NoTies bs → Ascending (sort_by key bs)
  unfolding sort_by
  sort_by-Ascending [] h = tt
  sort_by-Ascending (b ∷ bs) h =
      Ascending-insert_by b (sort_by key bs) (Apart-sort_by (key b) bs h.0)
        (sort_by-Ascending bs h.1)

  Among-insert_by : (x a : A) (bs : List A) → Among x (insert_by key a bs) ↔ Among x (a ∷ bs)
  unfolding insert_by
  Among-insert_by x a [] = (λ m. m, λ m. m)
  Among-insert_by x a (b ∷ bs) = elim (Bool-cases (text_lt (key b) (key a))) [
    | inl after ↦
        let rest = Among-insert_by x a bs in
        rw after (
          λ m. elim m [
            | inl e ↦ inr (inl e)
            | inr k ↦ elim (rest.0 k) [ inl e ↦ inl e | inr l ↦ inr (inr l) ]
          ],
          λ m. elim m [
            | inl e ↦ inr (rest.1 (inl e))
            | inr k ↦ elim k [ inl e ↦ inl e | inr l ↦ inr (rest.1 (inr l)) ]
          ],
        )
    | inr front ↦ rw front (λ m. m, λ m. m)
  ]

  pub Among-sort_by : (x : A) (bs : List A) → Among x (sort_by key bs) ↔ Among x bs
  unfolding sort_by
  Among-sort_by x [] = (λ m. m, λ m. m)
  Among-sort_by x (b ∷ bs) =
      let head = Among-insert_by x b (sort_by key bs) in
      let rest = Among-sort_by x bs in
      (
        λ m. elim (head.0 m) [ inl e ↦ inl e | inr k ↦ inr (rest.0 k) ],
        λ m. head.1 (elim m [ inl e ↦ inl e | inr k ↦ inr (rest.1 k) ]),
      )

  Among-tail :
      (x : A) (as' bs : List A)
      → Before (key x) as'
      → ((a : A) → Among a (x ∷ as') → Among a (x ∷ bs))
      → (a : A) → Among a as'
      → Among a bs
  Among-tail x as' bs h f a m = elim (f a (inr m)) [
    | inl e ↦ absurd (
        text_lt_irrefl (key x)
          (subst (λ z. text_lt (key x) (key z) ≡ true) e (Before-Among (key x) a as' h m)))
    | inr k ↦ k
  ]

  heads_equal :
      (x y : A) (as' bs : List A)
      → Before (key x) as'
      → Before (key y) bs
      → Among x (y ∷ bs)
      → Among y (x ∷ as')
      → x ≡ y
  heads_equal x y as' bs h k (inl e) n = e
  heads_equal x y as' bs h k (inr m) (inl e) = sym e
  heads_equal x y as' bs h k (inr m) (inr n) = absurd (
      text_lt_asym (key x) (key y) (Before-Among (key x) y as' h n) (Before-Among (key y) x bs k m))

  -- Two lists in strict order with the same elements are the same list.
  pub Ascending-ext :
      (as' bs : List A)
      → Ascending as'
      → Ascending bs
      → ((a : A) → Among a as' → Among a bs)
      → ((a : A) → Among a bs → Among a as')
      → as' ≡ bs
  Ascending-ext [] [] o p f g = refl
  Ascending-ext [] (b ∷ bs) o p f g = absurd (g b (inl refl))
  Ascending-ext (a ∷ as') [] o p f g = absurd (f a (inl refl))
  Ascending-ext (a ∷ as') (b ∷ bs) o p f g =
      let same = heads_equal a b as' bs o.0 p.0 (f a (inl refl)) (g b (inl refl)) in
      let q : Before (key a) bs = subst (λ z. Before (key z) bs) (sym same) p.0 in
      ap₂ ◌∷◌ same (
        Ascending-ext as' bs o.1 p.1
          (Among-tail a as' bs o.0 λ x m. subst (λ z. Among x (z ∷ bs)) (sym same) (f x m))
          (Among-tail a bs as' q λ x m. g x (subst (λ z. Among x (z ∷ bs)) same m)))
