-- ===== src/Policy/Ports.antt =====
-- uniqueSortedPorts gives the valid ports of a list, each once, in increasing order.
use quarantine_lab.Prelude.{
  ℕ, ◌<◌, ◌≡◌, inl, inr, refl, Bool, false, ◌&&◌, ◌||◌, not, List, [], ◌∷◌, ◌++◌, ◌==◌, ltb, arith,
  Bool-cases, ◌∙◌,
}
use quarantine_lab.Prelude.Int.{ℤ, pos, negsuc, eq_ℤ}
use quarantine_lab.Policy.{member, unique_loop, insert_sorted, sort_ints, unique_sorted_ports}

-- A valid port of the list. The code's map `seen` and the packet inspector's `portSet` test this way.
unfoldable pub listed : ℤ → List ℤ → Bool
listed p [] = false
listed p (q ∷ qs) = eq_ℤ p q || listed p qs

abbrev pub valid_port : ℕ → Bool
valid_port p = not (ltb p 1 || ltb 65535 p)

-- Each element is below all that follow it.
abbrev pub Above : ℕ → List ℕ → Type 0
Above p [] = Unit
Above p (q ∷ qs) = (p < q) × Above p qs

abbrev pub Increasing : List ℕ → Type 0
Increasing [] = Unit
Increasing (p ∷ ps) = Above p ps × Increasing ps

abbrev Distinct : List ℕ → Type 0
Distinct [] = Unit
Distinct (p ∷ ps) = (member p ps ≡ false) × Distinct ps

member-append : (p : ℕ) (xs ys : List ℕ) → member p (xs ++ ys) ≡ (member p xs || member p ys)
unfolding member
member-append p [] ys = refl
member-append p (x ∷ xs) ys = ground (arith, member-append p xs ys)

member-insert_sorted :
    (p q : ℕ) (xs : List ℕ) → member p (insert_sorted q xs) ≡ (p == q || member p xs)
unfolding member insert_sorted
member-insert_sorted p q [] = refl
member-insert_sorted p q (x ∷ xs) = ground (arith, member-insert_sorted p q xs)

member-sort_ints : (p : ℕ) (xs : List ℕ) → member p (sort_ints xs) ≡ member p xs
unfolding sort_ints member
member-sort_ints p [] = refl
member-sort_ints p (x ∷ xs) =
    ground (arith, member-insert_sorted p x (sort_ints xs), member-sort_ints p xs)

Above-le : (p q : ℕ) (xs : List ℕ) → p < q → Above q xs → Above p xs
Above-le p q [] h a = tt
Above-le p q (x ∷ xs) h a = (omega arith, Above-le p q xs h a.1)

Above-insert_sorted : (p q : ℕ) (xs : List ℕ) → p < q → Above p xs → Above p (insert_sorted q xs)
unfolding insert_sorted
Above-insert_sorted p q [] h a = (h, tt)
Above-insert_sorted p q (x ∷ xs) h a = ground (arith, Above-insert_sorted p q xs h)

insert_sorted-Increasing :
    (p : ℕ) (xs : List ℕ) → member p xs ≡ false → Increasing xs → Increasing (insert_sorted p xs)
unfolding member insert_sorted
insert_sorted-Increasing p [] m h = (tt, tt)
insert_sorted-Increasing p (x ∷ xs) m h =
    ground (arith, insert_sorted-Increasing p xs, Above-insert_sorted x p xs, Above-le p x xs)

sort_ints-Increasing : (xs : List ℕ) → Distinct xs → Increasing (sort_ints xs)
unfolding sort_ints
sort_ints-Increasing [] d = tt
sort_ints-Increasing (x ∷ xs) d =
    insert_sorted-Increasing x (sort_ints xs) (member-sort_ints x xs ∙ d.0)
      (sort_ints-Increasing xs d.1)

Distinct-snoc : (xs : List ℕ) (p : ℕ) → Distinct xs → member p xs ≡ false → Distinct (xs ++ p ∷ [])
unfolding member
Distinct-snoc [] p d m = (refl, tt)
Distinct-snoc (x ∷ xs) p d m = ground (arith, Distinct-snoc xs p, member-append x xs (p ∷ []))

unique_loop-Distinct : (ps : List ℤ) (out : List ℕ) → Distinct out → Distinct (unique_loop ps out)
unfolding unique_loop
unique_loop-Distinct [] out d = d
unique_loop-Distinct (negsuc n ∷ ps) out d = unique_loop-Distinct ps out d
unique_loop-Distinct (pos p ∷ ps) out d =
    elim (Bool-cases (ltb p 1 || ltb 65535 p || member p out)) [
      | inl skip ↦ rw skip (unique_loop-Distinct ps out d)
      | inr keep ↦
          rw keep (unique_loop-Distinct ps (out ++ p ∷ []) (Distinct-snoc out p d (ground arith)))
    ]

member-unique_loop :
    (p : ℕ) (ps : List ℤ) (out : List ℕ)
    → member p (unique_loop ps out) ≡ (member p out || (valid_port p && listed (pos p) ps))
unfolding unique_loop member listed
member-unique_loop p [] out = ground arith
member-unique_loop p (negsuc n ∷ ps) out = member-unique_loop p ps out
member-unique_loop p (pos q ∷ ps) out = elim (Bool-cases (ltb q 1 || ltb 65535 q || member q out)) [
  | inl skip ↦ rw skip (member-unique_loop p ps out ∙ ground arith)
  | inr keep ↦
      rw keep
        (member-unique_loop p ps (out ++ q ∷ []) ∙ ground (arith, member-append p out (q ∷ [])))
]

-- uniqueSortedPorts gives an increasing list without repetition, whose members are exactly the
-- ports of the given list that lie between 1 and 65535.
pub unique_sorted_ports_lem :
    (ps : List ℤ)
    → Increasing (unique_sorted_ports ps)
      × ((p : ℕ) → member p (unique_sorted_ports ps) ≡ (valid_port p && listed (pos p) ps))
unfolding unique_sorted_ports member
unique_sorted_ports_lem ps = (
  sort_ints-Increasing (unique_loop ps []) (unique_loop-Distinct ps [] tt),
  λ p. member-sort_ints p (unique_loop ps []) ∙ member-unique_loop p ps [],
)
