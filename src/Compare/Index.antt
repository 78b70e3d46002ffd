-- ===== src/Compare/Index.antt =====
-- indexFiles: the map that it makes.
use quarantine_lab.Prelude.{
  ◌≡◌, refl, sym, ap, ap₂, ◌∙◌, false≢true, ◌↔◌, inl, inr, Bool, true, false, ◌&&◌, not, Option,
  none, some, List, [], ◌∷◌, arith, Bool-cases, Option-cases, if◌then◌else◌,
}
use quarantine_lab.Prelude.Text.{Text, text_eq, text_eq→eq, text_eq_self, text_eq_sym, to_lower}
use quarantine_lab.Compare.{FileEntry, path_value, FileMap, get, put, index_loop, index_files}
use quarantine_lab.Compare.Ordered.{Among}

-- Each key is there once, and is the path of its entry in small letters.
abbrev pub Proper : FileMap → Type 0
Proper [] = Unit
Proper (e ∷ m) = (e.0 ≡ to_lower (path_value e.1)) × (get e.0 m ≡ none) × Proper m

-- The last entry of a manifest whose path in small letters is a key; the empty text is no key.
abbrev pub last_with : Text → List FileEntry → Option FileEntry
last_with k [] = none
last_with k (f ∷ fs) = elim (last_with k fs) [
  | some g ↦ some g
  | none ↦ if not (text_eq k []) && text_eq k (to_lower (path_value f)) then some f else none
]

some_entry : {f g : FileEntry} → some f ≡ some g → f ≡ g
some_entry {f} e = ap (λ o. elim o [ none ↦ f | some c ↦ c ]) e

get-put :
    (k j : Text) (f : FileEntry) (m : FileMap)
    → get k (put j f m) ≡ (if text_eq k j then some f else get k m)
unfolding get put
get-put k j f [] = refl
get-put k j f (e ∷ m) = elim (Bool-cases (text_eq j e.0)) [
  | inl same ↦ rw same (elim (Bool-cases (text_eq k j)) [
    | inl h ↦ rw h refl
    | inr h ↦ rw (h, sym (text_eq→eq j e.0 same), h) refl
  ])
  | inr apart ↦ rw apart (elim (Bool-cases (text_eq k e.0)) [
    | inl h ↦ rw (h, ap (λ t. text_eq t j) (text_eq→eq k e.0 h), text_eq_sym e.0 j, apart) refl
    | inr h ↦ rw h (get-put k j f m)
  ])
]

put-Proper :
    (j : Text) (f : FileEntry) (m : FileMap)
    → j ≡ to_lower (path_value f)
    → Proper m
    → Proper (put j f m)
unfolding put get
put-Proper j f [] e h = (e, refl, tt)
put-Proper j f (d ∷ m) e h = elim (Bool-cases (text_eq j d.0)) [
  | inl same ↦ rw same (e, ap (λ t. get t m) (text_eq→eq j d.0 same) ∙ h.1, h.2)
  | inr apart ↦ rw apart (
    h.0,
    get-put d.0 j f m ∙ ap (λ b. if b then some f else get d.0 m) (text_eq_sym d.0 j ∙ apart) ∙ h.1,
    put-Proper j f m e h.2,
  )
]

index_loop-Proper : (fs : List FileEntry) (out : FileMap) → Proper out → Proper (index_loop fs out)
unfolding index_loop
index_loop-Proper [] out h = h
index_loop-Proper (f ∷ fs) out h =
    index_loop-Proper fs _ (elim (Bool-cases (text_eq (to_lower (path_value f)) [])) [
      | inl e ↦ rw e h
      | inr e ↦ rw e (put-Proper (to_lower (path_value f)) f out refl h)
    ])

pub index_files-Proper : (fs : List FileEntry) → Proper (index_files fs)
unfolding index_files
index_files-Proper fs = index_loop-Proper fs [] tt

abbrev or_else : Option FileEntry → Option FileEntry → Option FileEntry
or_else none o = o
or_else (some f) o = some f

get_step :
    (k p : Text) (f : FileEntry) (out : FileMap)
    → get k (if not (text_eq p []) then put p f out else out)
      ≡ or_else (if not (text_eq k []) && text_eq k p then some f else none) (get k out)
get_step k p f out = elim (Bool-cases (text_eq p [])) [
  | inl e ↦
      let n : (not (text_eq k []) && text_eq k p) ≡ false =
        ap (λ t. not (text_eq k []) && text_eq k t) (text_eq→eq p [] e) ∙ not_both (text_eq k []) in
      rw (e, n) refl
  | inr e ↦ elim (Bool-cases (text_eq k p)) [
    | inl q ↦
        let r : text_eq k [] ≡ false = ap (λ t. text_eq t []) (text_eq→eq k p q) ∙ e in
        rw e (get-put k p f out ∙ (rw (q, r) refl))
    | inr q ↦ rw e (get-put k p f out ∙ (rw q (no_entry (text_eq k []))))
  ]
]
  where
    not_both : (b : Bool) → (not b && b) ≡ false
    not_both b = ground arith

    no_entry :
        (b : Bool) → get k out ≡ or_else (if not b && false then some f else none) (get k out)
    no_entry true = refl
    no_entry false = refl

get-index_loop :
    (k : Text) (fs : List FileEntry) (out : FileMap)
    → get k (index_loop fs out) ≡ or_else (last_with k fs) (get k out)
unfolding index_loop
get-index_loop k [] out = refl
get-index_loop k (f ∷ fs) out = get-index_loop k fs _ ∙ elim (Option-cases (last_with k fs)) [
  | inl e ↦ rw e (get_step k (to_lower (path_value f)) f out)
  | inr (g, e) ↦ rw e refl
]

-- The entry of the index at a key is the last one of the manifest with that path, in any case.
pub get-index_files : (k : Text) (fs : List FileEntry) → get k (index_files fs) ≡ last_with k fs
unfolding index_files get
get-index_files k fs =
    get-index_loop k fs []
    ∙ elim (Option-cases (last_with k fs)) [ inl e ↦ rw e refl | inr (g, e) ↦ rw e refl ]

pub Among-get : (e : Text × FileEntry) (m : FileMap) → Proper m → Among e m ↔ (get e.0 m ≡ some e.1)
unfolding get
Among-get e [] h = (λ m. absurd m, λ q. absurd (cc))
Among-get e (d ∷ m) h =
    let rest = Among-get e m h.2 in
    elim (Bool-cases (text_eq e.0 d.0)) [
      | inl same ↦
          let k = text_eq→eq e.0 d.0 same in
          rw same (
            λ a. elim a [
              | inl q ↦ ap (λ x. some x.1) (sym q)
              | inr a ↦ absurd (none_entry (sym h.1 ∙ ap (λ t. get t m) (sym k) ∙ rest.0 a))
            ],
            λ q. inl (ap₂ (λ s f. (s, f)) k (sym (some_entry q))),
          )
      | inr apart ↦ rw apart (
        λ a. elim a [
          | inl q ↦
              absurd (false≢true (sym apart ∙ ap (λ x. text_eq e.0 x.0) (sym q) ∙ text_eq_self e.0))
          | inr a ↦ rest.0 a
        ],
        λ q. inr (rest.1 q),
      )
    ]
  where
    none_entry : {f : FileEntry} → none ≡ some f → ⊥
    none_entry e = cc
