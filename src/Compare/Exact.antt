-- ===== src/Compare/Exact.antt =====
-- The loops of diffFiles, each as one that lists at most one element for an entry.
use quarantine_lab.Prelude.{
  ◌≡◌, refl, sym, ap, ◌∙◌, ◌↔◌, inl, inr, false≢true, true, Option, none, some, List, [], ◌∷◌,
  Bool-cases, Option-cases, if◌then◌else◌,
}
use quarantine_lab.Prelude.Text.{Text, text_eq, text_eq→eq, text_eq_self, to_lower}
use quarantine_lab.Compare.{
  FileEntry, path_value, FileDetail, FileModified, FileMap, get, file_detail, sort_by, missing_in,
  differs, file_modified, modified_in,
}
use quarantine_lab.Compare.Ordered.{
  Among, Apart, NoTies, Ascending, sort_by-Ascending, Among-sort_by,
}
use quarantine_lab.Compare.Index.{Proper, Among-get}

pub some_of : {A : Type 0} {a b : A} → some a ≡ some b → a ≡ b
some_of {a} e = ap (λ o. elim o [ none ↦ a | some c ↦ c ]) e

pub none_of : {A : Type 0} {a : A} → none ≡ some a → ⊥
none_of e = cc

-- A loop over a map that lists at most one element for each entry.
module _ {A : Type 0} where
  abbrev pub listing : (Text × FileEntry → Option A) → FileMap → List A
  listing g [] = []
  listing g (e ∷ m) = elim (g e) [ none ↦ listing g m | some a ↦ a ∷ listing g m ]

  pub Among-listing :
      (g : Text × FileEntry → Option A) (a : A) (m : FileMap)
      → Among a (listing g m) ↔ ((e : Text × FileEntry) × Among e m × (g e ≡ some a))
  Among-listing g a [] = (λ k. absurd k, λ k. absurd k.1)
  Among-listing g a (d ∷ m) =
      let rest = Among-listing g a m in
      elim (Option-cases (g d)) [
        | inl q ↦
            rw (Among, q)
              (
                λ k. let r = rest.0 k in (r.0, inr r.1, r.2),
                λ k. elim k.1 [
                  | inl e ↦ absurd (none_of (sym q ∙ ap g (sym e) ∙ k.2))
                  | inr n ↦ rest.1 (k.0, n, k.2)
                ],
              )
        | inr (b, q) ↦
            rw (Among, q)
              (
                λ k. elim k [
                  | inl e ↦ (d, inl refl, q ∙ ap some (sym e))
                  | inr n ↦ let r = rest.0 n in (r.0, inr r.1, r.2)
                ],
                λ k. elim k.1 [
                  | inl e ↦ inl (some_of (sym k.2 ∙ ap g e ∙ q))
                  | inr n ↦ inr (rest.1 (k.0, n, k.2))
                ],
              )
      ]

  module _ (g : Text × FileEntry → Option A) (key : A → Text)
      (named : (e : Text × FileEntry) (a : A) → g e ≡ some a → key a ≡ path_value e.1) where
    listing-Apart :
        (p : Text) (m : FileMap) → Proper m → get (to_lower p) m ≡ none → Apart key p (listing g m)
    unfolding get
    listing-Apart p [] h n = tt
    listing-Apart p (d ∷ m) h n = elim (Bool-cases (text_eq (to_lower p) d.0)) [
      | inl same ↦ absurd (none_of {a = d.1} (sym n ∙ (rw same refl)))
      | inr apart ↦
          let rest = listing-Apart p m h.2 (sym (rw apart refl) ∙ n) in
          elim (Option-cases (g d)) [
            | inl q ↦ rw (Apart, q) rest
            | inr (a, q) ↦
                rw (Apart, q)
                  (
                    elim (Bool-cases (text_eq (key a) p)) [
                      | inl e ↦ absurd (
                          false≢true (
                            sym apart
                            ∙ ap (λ t. text_eq (to_lower t) d.0)
                                (sym (text_eq→eq (key a) p e) ∙ named d a q)
                            ∙ ap (λ t. text_eq t d.0) (sym h.0)
                            ∙ text_eq_self d.0))
                      | inr e ↦ e
                    ],
                    rest,
                  )
          ]
    ]

    pub listing-NoTies : (m : FileMap) → Proper m → NoTies key (listing g m)
    listing-NoTies [] h = tt
    listing-NoTies (d ∷ m) h = elim (Option-cases (g d)) [
      | inl q ↦ rw (NoTies, q) (listing-NoTies m h.2)
      | inr (a, q) ↦
          rw (NoTies, q)
            (
              listing-Apart (key a) m h.2
                  (ap (λ t. get (to_lower t) m) (named d a q) ∙ ap (λ t. get t m) (sym h.0) ∙ h.1),
              listing-NoTies m h.2,
            )
    ]

    pub listing-Ascending : (m : FileMap) → Proper m → Ascending key (sort_by key (listing g m))
    listing-Ascending m h = sort_by-Ascending key (listing g m) (listing-NoTies m h)

    -- What a sorted loop lists, by look-ups
    pub Among-listed :
        (a : A) (m : FileMap)
        → Proper m
        → Among a (sort_by key (listing g m))
          ↔ ((e : Text × FileEntry) × (get e.0 m ≡ some e.1) × (g e ≡ some a))
    Among-listed a m h =
        let s = Among-sort_by key a (listing g m) in
        let c = Among-listing g a m in
        (
          λ k. let r = c.0 (s.0 k) in (r.0, (Among-get r.0 m h).0 r.1, r.2),
          λ k. s.1 (c.1 (k.0, (Among-get k.0 m h).1 k.1, k.2)),
        )

unfoldable pub gone : FileMap → Text × FileEntry → Option FileDetail
gone other e = elim (get e.0 other) [ none ↦ some (file_detail e.1) | some _ ↦ none ]

unfoldable pub changed : FileMap → Text × FileEntry → Option FileModified
changed left e = elim (get e.0 left) [
  | none ↦ none
  | some lf ↦ if differs lf e.1 then some (file_modified lf e.1) else none
]

pub missing_in-listing : (other m : FileMap) → missing_in other m ≡ listing (gone other) m
unfolding missing_in gone
missing_in-listing other [] = refl
missing_in-listing other (e ∷ m) = elim (Option-cases (get e.0 other)) [
  | inl q ↦
      rw (missing_in, listing, gone, q) (ap (λ t. file_detail e.1 ∷ t) (missing_in-listing other m))
  | inr (f, q) ↦ rw (missing_in, listing, gone, q) (missing_in-listing other m)
]

pub modified_in-listing : (left m : FileMap) → modified_in left m ≡ listing (changed left) m
unfolding modified_in changed
modified_in-listing left [] = refl
modified_in-listing left (e ∷ m) = elim (Option-cases (get e.0 left)) [
  | inl q ↦ rw (modified_in, listing, changed, q) (modified_in-listing left m)
  | inr (lf, q) ↦ elim (Bool-cases (differs lf e.1)) [
    | inl d ↦
        rw (modified_in, listing, changed, q, d)
          (ap (λ t. file_modified lf e.1 ∷ t) (modified_in-listing left m))
    | inr d ↦ rw (modified_in, listing, changed, q, d) (modified_in-listing left m)
  ]
]

pub gone-some :
    (other : FileMap) (e : Text × FileEntry) (d : FileDetail)
    → (gone other e ≡ some d) ↔ ((get e.0 other ≡ none) × (d ≡ file_detail e.1))
unfolding gone
gone-some other e d = elim (Option-cases (get e.0 other)) [
  | inl q ↦ rw (gone, q) (λ h. (refl, sym (some_of h)), λ h. ap some (sym h.1))
  | inr (f, q) ↦ rw (gone, q) (λ h. absurd (none_of h), λ h. absurd (none_of (sym h.0)))
]

pub changed-some :
    (left : FileMap) (e : Text × FileEntry) (d : FileModified)
    → (changed left e ≡ some d) ↔ (
        (lf : FileEntry) × (get e.0 left ≡ some lf)
        × (differs lf e.1 ≡ true)
        × (d ≡ file_modified lf e.1))
unfolding changed
changed-some left e d = elim (Option-cases (get e.0 left)) [
  | inl q ↦ rw (changed, q) (λ h. absurd (none_of h), λ h. absurd (none_of h.1))
  | inr (lf, q) ↦ elim (Bool-cases (differs lf e.1)) [
    | inl c ↦
        rw (changed, q, c)
          (
            λ h. (lf, refl, c, sym (some_of h)),
            λ h. ap some (ap (λ f. file_modified f e.1) (some_of h.1) ∙ sym h.3),
          )
    | inr c ↦
        rw (changed, q, c)
          (
            λ h. absurd (none_of h),
            λ h. absurd (false≢true (sym c ∙ ap (λ f. differs f e.1) (some_of h.1) ∙ h.2)),
          )
  ]
]

pub gone-named :
    (other : FileMap) (e : Text × FileEntry) (d : FileDetail)
    → gone other e ≡ some d
    → d.path ≡ path_value e.1
unfolding file_detail
gone-named other e d h = ap (λ x. x.path) ((gone-some other e d).0 h).1

pub changed-named :
    (left : FileMap) (e : Text × FileEntry) (d : FileModified)
    → changed left e ≡ some d
    → d.path ≡ path_value e.1
unfolding file_modified
changed-named left e d h = ap (λ x. x.path) ((changed-some left e d).0 h).3
