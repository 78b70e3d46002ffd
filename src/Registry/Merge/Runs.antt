-- ===== src/Registry/Merge/Runs.antt =====
-- mergeSortedRecords: every run is a sorted rearrangement of the chunks, and there is a run.
use quarantine_lab.Prelude.{
  ℕ, ◌+◌, ◌≡◌, refl, sym, ap, ◌∙◌, false≢true, Bool, true, false, List, [], ◌∷◌, if◌then◌else◌,
  arith, Bool-cases, inl, inr,
}
use quarantine_lab.Prelude.Text.{text_lt}
use quarantine_lab.Registry.Index.{IndexRecord, sort_key, sorted_after, records_sorted}
use quarantine_lab.Registry.Index.Sorted.{count}
use quarantine_lab.Registry.Merge.{
  HiveChunk, filter_non_empty, NoneLess, Pop, here, there, push, MergeLoop, empty, next,
  MergedChunks, MergeSortedRecords,
}

abbrev pub total : (IndexRecord → Bool) → List HiveChunk → ℕ
total p [] = 0
total p (c ∷ cs) = count p c + total p cs

abbrev pub AllSorted : List HiveChunk → Type 0
AllSorted [] = Unit
AllSorted (c ∷ cs) = (records_sorted c ≡ true) × AllSorted cs

pub NoneLess-split :
    (r : IndexRecord) (c : HiveChunk) (ds : List HiveChunk)
    → NoneLess r (c ∷ [])
    → NoneLess r ds
    → NoneLess r (c ∷ ds)
NoneLess-split r [] ds h k = k
NoneLess-split r (q ∷ qs) ds h k = (h.0, k)

Pop-rest :
    {cs ds : List HiveChunk} {r : IndexRecord} {rs : HiveChunk} → Pop cs r rs ds → NoneLess r ds
Pop-rest (here r rs cs h) = h
Pop-rest (there {r} c h p) = NoneLess-split r c _ h (Pop-rest p)

NoneLess-tail :
    (q : IndexRecord) (c : HiveChunk) (cs : List HiveChunk) → NoneLess q (c ∷ cs) → NoneLess q cs
NoneLess-tail q [] cs h = h
NoneLess-tail q (x ∷ xs) cs h = h.1

Pop-head :
    {cs ds : List HiveChunk} {r : IndexRecord} {rs : HiveChunk} (q : IndexRecord)
    → Pop cs r rs ds
    → NoneLess q cs
    → text_lt (sort_key r) (sort_key q) ≡ false
Pop-head q (here r rs cs h) k = k.0
Pop-head q (there c h p) k = Pop-head q p (NoneLess-tail q c _ k)

Pop-sorted :
    {cs ds : List HiveChunk} {r : IndexRecord} {rs : HiveChunk}
    → Pop cs r rs ds
    → AllSorted cs
    → (sorted_after r rs ≡ true) × AllSorted ds
unfolding records_sorted
Pop-sorted (here r rs cs h) s = s
Pop-sorted (there c h p) s = let t = Pop-sorted p s.1 in (t.0, (s.0, t.1))

pub Pop-total :
    {cs ds : List HiveChunk} {r : IndexRecord} {rs : HiveChunk} (t : IndexRecord → Bool)
    → Pop cs r rs ds
    → total t cs ≡ (if t r then 1 else 0) + (count t rs + total t ds)
unfolding count
Pop-total t (here r rs cs h) = omega arith
Pop-total t (there {r} {rs} c h p) = omega (arith, Pop-total t p)

pub push-total :
    (t : IndexRecord → Bool) (rs : HiveChunk) (ds : List HiveChunk)
    → total t (push rs ds) ≡ count t rs + total t ds
unfolding push count
push-total t [] ds = omega arith
push-total t (r ∷ rs) ds = refl

push-sorted :
    (r : IndexRecord) (rs : HiveChunk) (ds : List HiveChunk)
    → sorted_after r rs ≡ true
    → AllSorted ds
    → NoneLess r ds
    → AllSorted (push rs ds) × NoneLess r (push rs ds)
unfolding push records_sorted sorted_after
push-sorted r [] ds s a n = (a, n)
push-sorted r (q ∷ qs) ds s a n = elim (Bool-cases (text_lt (sort_key q) (sort_key r))) [
  | inl less ↦ absurd (false≢true (rw less at s))
  | inr not_less ↦ (((rw not_less at s), a), (not_less, n))
]

MergeLoop-total :
    {cs : List HiveChunk} {out : List IndexRecord} (t : IndexRecord → Bool)
    → MergeLoop cs out
    → count t out ≡ total t cs
unfolding count
MergeLoop-total t empty = refl
MergeLoop-total t (next {cs} {ds} {r} {rs} p m) =
    ap (λ n. (if t r then 1 else 0) + n) (MergeLoop-total t m ∙ push-total t rs ds)
    ∙ sym (Pop-total t p)

MergeLoop-sorted :
    {cs : List HiveChunk} {out : List IndexRecord} (q : IndexRecord)
    → MergeLoop cs out
    → AllSorted cs
    → NoneLess q cs
    → sorted_after q out ≡ true
unfolding sorted_after
MergeLoop-sorted q empty a n = refl
MergeLoop-sorted q (next {r} {rs} p m) a n =
    let s = Pop-sorted p a in
    let t = push-sorted r rs _ s.0 s.1 (Pop-rest p) in
    rw (Pop-head q p n) (MergeLoop-sorted r m t.0 t.1)

MergedChunks-sorted :
    (out : List IndexRecord) (cs : List HiveChunk)
    → MergedChunks cs out
    → AllSorted cs
    → (records_sorted out ≡ true) × ((t : IndexRecord → Bool) → count t out ≡ total t cs)
unfolding MergedChunks records_sorted count
MergedChunks-sorted out [] m a = (rw m refl, λ t. (rw m refl))
MergedChunks-sorted out (c ∷ []) m a =
    (ap records_sorted m ∙ a.0, λ t. ap (count t) m ∙ omega arith)
MergedChunks-sorted out (c ∷ d ∷ cs) (next {r} {rs} p m) a =
    let s = Pop-sorted p a in
    let k = push-sorted r rs _ s.0 s.1 (Pop-rest p) in
    (MergeLoop-sorted r m k.0 k.1, λ t. MergeLoop-total t (next p m))

filter_non_empty-total :
    (t : IndexRecord → Bool) (cs : List HiveChunk) → total t (filter_non_empty cs) ≡ total t cs
unfolding filter_non_empty count
filter_non_empty-total t [] = refl
filter_non_empty-total t ([] ∷ cs) = omega (arith, filter_non_empty-total t cs)
filter_non_empty-total t ((r ∷ rs) ∷ cs) =
    ap (λ n. count t (r ∷ rs) + n) (filter_non_empty-total t cs)

filter_non_empty-AllSorted : (cs : List HiveChunk) → AllSorted cs → AllSorted (filter_non_empty cs)
unfolding filter_non_empty
filter_non_empty-AllSorted [] a = tt
filter_non_empty-AllSorted ([] ∷ cs) a = filter_non_empty-AllSorted cs a.1
filter_non_empty-AllSorted ((r ∷ rs) ∷ cs) a = (a.0, filter_non_empty-AllSorted cs a.1)

-- Whatever mergeSortedRecords makes of chunks that are each sorted by key, in whichever order the heap
-- hands out records with equal keys, is sorted, and holds the records of the chunks: as many that
-- pass any test as the chunks together have.
pub MergeSortedRecords-sorted :
    (chunks : List HiveChunk) (out : List IndexRecord)
    → AllSorted chunks
    → MergeSortedRecords chunks out
    → (records_sorted out ≡ true) × ((t : IndexRecord → Bool) → count t out ≡ total t chunks)
unfolding MergeSortedRecords
MergeSortedRecords-sorted chunks out a m =
    let s =
      MergedChunks-sorted out (filter_non_empty chunks) m (filter_non_empty-AllSorted chunks a) in
    (s.0, λ t. s.1 t ∙ filter_non_empty-total t chunks)
