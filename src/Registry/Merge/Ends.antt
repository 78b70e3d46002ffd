-- ===== src/Registry/Merge/Ends.antt =====
-- mergeSortedRecords ends: the heap always has a least entry, and each round takes a record away.
use quarantine_lab.Prelude.{
  ℕ, zero, suc, ◌+◌, ◌≤◌, ◌≡◌, refl, sym, ◌∙◌, subst, false≢true, true, false, List, [], ◌∷◌, arith,
  Bool-cases, inl, inr,
}
use quarantine_lab.Prelude.Text.{
  Text, text_lt, text_lt_trans, text_lt-apart, text_lt_total, text_eq_self, text_eq→eq,
}
use quarantine_lab.Registry.Index.{IndexRecord, sort_key}
use quarantine_lab.Registry.Index.Sorted.{count}
use quarantine_lab.Registry.Merge.{
  HiveChunk, filter_non_empty, NoneLess, Pop, here, there, push, MergeLoop, empty, next,
  MergedChunks, MergeSortedRecords,
}
use quarantine_lab.Registry.Merge.Runs.{total, NoneLess-split, Pop-total, push-total}

abbrev Filled : List HiveChunk → Type 0
Filled [] = Unit
Filled ([] ∷ cs) = ⊥
Filled ((r ∷ rs) ∷ cs) = Filled cs

lt_irrefl : (s : Text) → text_lt s s ≡ false
lt_irrefl s = elim (Bool-cases (text_lt s s)) [
  | inl l ↦ absurd (false≢true (sym (text_lt-apart s s l) ∙ text_eq_self s))
  | inr n ↦ n
]

lt_asym : (s t : Text) → text_lt s t ≡ true → text_lt t s ≡ false
lt_asym s t l = elim (Bool-cases (text_lt t s)) [
  | inl k ↦ absurd (false≢true (sym (lt_irrefl s) ∙ text_lt_trans s t s l k))
  | inr n ↦ n
]

not_less_trans : (q r x : Text) → text_lt q r ≡ false → text_lt r x ≡ false → text_lt q x ≡ false
not_less_trans q r x a b = elim (Bool-cases (text_lt q x)) [
  | inr n ↦ n
  | inl l ↦ elim (Bool-cases (text_lt r q)) [
    | inl k ↦ absurd (false≢true (sym b ∙ text_lt_trans r q x k l))
    | inr k ↦
        let e = text_eq→eq q r (text_lt_total q r a k) in
        absurd (false≢true (sym b ∙ subst (λ t. text_lt t x ≡ true) e l))
  ]
]

NoneLess-below :
    (r x : IndexRecord) (cs : List HiveChunk)
    → text_lt (sort_key r) (sort_key x) ≡ false
    → NoneLess r cs
    → NoneLess x cs
NoneLess-below r x [] n h = tt
NoneLess-below r x ([] ∷ cs) n h = NoneLess-below r x cs n h
NoneLess-below r x ((q ∷ qs) ∷ cs) n h =
    (not_less_trans (sort_key q) (sort_key r) (sort_key x) h.0 n, NoneLess-below r x cs n h.1)

Pop-all :
    {cs ds : List HiveChunk} {r : IndexRecord} {rs : HiveChunk} → Pop cs r rs ds → NoneLess r cs
Pop-all (here r rs cs h) = (lt_irrefl (sort_key r), h)
Pop-all (there {r} c h p) = NoneLess-split r c _ h (Pop-all p)

abbrev Choice : List HiveChunk → Type 0
Choice cs =
    (r : IndexRecord) × (rs : HiveChunk) × (ds : List HiveChunk) × Pop cs r rs ds × Filled ds

-- A first record with a least key
choose :
    (x : IndexRecord) (xs : HiveChunk) (cs : List HiveChunk) → Filled cs → Choice ((x ∷ xs) ∷ cs)
choose x xs [] f = (x, xs, [], here x xs [] tt, tt)
choose x xs ([] ∷ cs) f = absurd f
choose x xs ((y ∷ ys) ∷ cs) f =
    let c = choose y ys cs f in
    elim (Bool-cases (text_lt (sort_key c.0) (sort_key x))) [
      | inl less ↦ (
        c.0,
        c.1,
        (x ∷ xs) ∷ c.2,
        there (x ∷ xs) (lt_asym (sort_key c.0) (sort_key x) less, tt) c.3,
        c.4,
      )
      | inr not_less ↦ (
        x,
        xs,
        (y ∷ ys) ∷ cs,
        here x xs ((y ∷ ys) ∷ cs) (NoneLess-below c.0 x ((y ∷ ys) ∷ cs) not_less (Pop-all c.3)),
        f,
      )
    ]

push-Filled : (rs : HiveChunk) (ds : List HiveChunk) → Filled ds → Filled (push rs ds)
unfolding push
push-Filled [] ds f = f
push-Filled (r ∷ rs) ds f = f

MergeLoop-runs :
    (n : ℕ) (cs : List HiveChunk)
    → Filled cs
    → total (λ r. true) cs ≤ n
    → (out : List IndexRecord) × MergeLoop cs out
unfolding count
MergeLoop-runs n [] f l = ([], empty)
MergeLoop-runs n ([] ∷ cs) f l = absurd f
MergeLoop-runs zero ((x ∷ xs) ∷ cs) f l = absurd (omega (arith, l))
MergeLoop-runs (suc n) ((x ∷ xs) ∷ cs) f l =
    let c = choose x xs cs f in
    let a : total (λ r. true) ((x ∷ xs) ∷ cs)
        ≡ 1 + (count (λ r. true) c.1 + total (λ r. true) c.2) =
      Pop-total (λ r. true) c.3 in
    let b : total (λ r. true) (push c.1 c.2) ≡ count (λ r. true) c.1 + total (λ r. true) c.2 =
      push-total (λ r. true) c.1 c.2 in
    let rest = MergeLoop-runs n (push c.1 c.2) (push-Filled c.1 c.2 c.4) (omega (arith, a, b, l)) in
    (c.0 ∷ rest.0, next c.3 rest.1)

filter_non_empty-Filled : (cs : List HiveChunk) → Filled (filter_non_empty cs)
unfolding filter_non_empty
filter_non_empty-Filled [] = tt
filter_non_empty-Filled ([] ∷ cs) = filter_non_empty-Filled cs
filter_non_empty-Filled ((r ∷ rs) ∷ cs) = filter_non_empty-Filled cs

MergedChunks-runs :
    (cs : List HiveChunk) → Filled cs → (out : List IndexRecord) × MergedChunks cs out
unfolding MergedChunks
MergedChunks-runs [] f = ([], refl)
MergedChunks-runs (c ∷ []) f = (c, refl)
MergedChunks-runs (c ∷ d ∷ cs) f =
    MergeLoop-runs (total (λ r. true) (c ∷ d ∷ cs)) (c ∷ d ∷ cs) f (omega arith)

-- mergeSortedRecords gives a result for all chunks.
pub MergeSortedRecords-runs :
    (chunks : List HiveChunk) → (out : List IndexRecord) × MergeSortedRecords chunks out
unfolding MergeSortedRecords
MergeSortedRecords-runs chunks =
    MergedChunks-runs (filter_non_empty chunks) (filter_non_empty-Filled chunks)
