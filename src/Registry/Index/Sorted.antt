-- ===== src/Registry/Index/Sorted.antt =====
-- WriteIndexSorted writes what it was given, sorted.
use quarantine_lab.Prelude.{
  ℕ, ◌+◌, ◌≡◌, refl, sym, ap, ◌∙◌, false≢true, Bool, true, false, List, [], ◌∷◌, if◌then◌else◌,
  arith, Bool-cases, inl, inr,
}
use quarantine_lab.Prelude.Text.{Text, text_lt, text_lt_trans, text_lt-apart, text_eq_self}
use quarantine_lab.Registry.Index.{
  IndexRecord, sort_key, sorted_after, records_sorted, insert_record, sort_records, written_records,
}

-- How many records pass a test.
unfoldable pub count : (IndexRecord → Bool) → List IndexRecord → ℕ
count p [] = 0
count p (r ∷ rs) = (if p r then 1 else 0) + count p rs

count-insert_record :
    (p : IndexRecord → Bool) (r : IndexRecord) (rs : List IndexRecord)
    → count p (insert_record r rs) ≡ (if p r then 1 else 0) + count p rs
unfolding count insert_record
count-insert_record p r [] = refl
count-insert_record p r (q ∷ qs) = elim (Bool-cases (text_lt (sort_key q) (sort_key r))) [
  | inl after ↦
      rw after (ap (λ n. (if p q then 1 else 0) + n) (count-insert_record p r qs) ∙ swap _ _ _)
  | inr front ↦ rw front refl
]
  where
    swap : (a b c : ℕ) → a + (b + c) ≡ b + (a + c)
    swap a b c = omega arith

count-sort_records :
    (p : IndexRecord → Bool) (rs : List IndexRecord) → count p (sort_records rs) ≡ count p rs
unfolding count sort_records
count-sort_records p [] = refl
count-sort_records p (r ∷ rs) =
    count-insert_record p r (sort_records rs)
    ∙ ap (λ n. (if p r then 1 else 0) + n) (count-sort_records p rs)

text_lt_asym : (s t : Text) → text_lt s t ≡ true → text_lt t s ≡ false
text_lt_asym s t l = elim (Bool-cases (text_lt t s)) [
  | inl back ↦
      absurd (false≢true (sym (text_lt-apart s s (text_lt_trans s t s l back)) ∙ text_eq_self s))
  | inr forward ↦ forward
]

-- What stands before the records of a sorted list may stand before the one that is put among them.
sorted_after-insert_record :
    (p r : IndexRecord) (rs : List IndexRecord)
    → text_lt (sort_key r) (sort_key p) ≡ false
    → sorted_after p rs ≡ true
    → sorted_after p (insert_record r rs) ≡ true
unfolding sorted_after insert_record
sorted_after-insert_record p r [] l s = rw l refl
sorted_after-insert_record p r (q ∷ qs) l s =
    elim (Bool-cases (text_lt (sort_key q) (sort_key p))) [
      | inl before ↦
          absurd (false≢true (sym (ap (λ c. if c then false else sorted_after q qs) before) ∙ s))
      | inr behind ↦
          let rest : sorted_after q qs ≡ true =
            sym (ap (λ c. if c then false else sorted_after q qs) behind) ∙ s in
          elim (Bool-cases (text_lt (sort_key q) (sort_key r))) [
            | inl after ↦
                rw (after, sorted_after, behind)
                  (sorted_after-insert_record q r qs (text_lt_asym (sort_key q) (sort_key r) after)
                    rest)
            | inr front ↦ rw (front, sorted_after, l, sorted_after, front) rest
          ]
    ]

records_sorted-insert_record :
    (r : IndexRecord) (rs : List IndexRecord)
    → records_sorted rs ≡ true
    → records_sorted (insert_record r rs) ≡ true
unfolding records_sorted insert_record sorted_after
records_sorted-insert_record r [] s = refl
records_sorted-insert_record r (q ∷ qs) s = elim (Bool-cases (text_lt (sort_key q) (sort_key r))) [
  | inl after ↦
      rw (after, records_sorted)
        (sorted_after-insert_record q r qs (text_lt_asym (sort_key q) (sort_key r) after) s)
  | inr front ↦ rw (front, records_sorted, sorted_after, front) s
]

records_sorted-sort_records : (rs : List IndexRecord) → records_sorted (sort_records rs) ≡ true
unfolding sort_records records_sorted
records_sorted-sort_records [] = refl
records_sorted-sort_records (r ∷ rs) =
    records_sorted-insert_record r (sort_records rs) (records_sorted-sort_records rs)

-- WriteIndexSorted writes its records in an order that recordsSorted takes, and each as often as it was given.
pub records_sorted-written_records :
    (rs : List IndexRecord)
    → (records_sorted (written_records rs) ≡ true)
      × ((p : IndexRecord → Bool) → count p (written_records rs) ≡ count p rs)
unfolding written_records
records_sorted-written_records rs = elim (Bool-cases (records_sorted rs)) [
  | inl sorted ↦ rw sorted (sorted, λ p. refl)
  | inr unsorted ↦ rw unsorted (records_sorted-sort_records rs, λ p. count-sort_records p rs)
]
