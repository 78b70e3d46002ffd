-- ===== src/Registry/Merge.antt =====
-- go/internal/registry/hive_extract.go: mergeSortedRecords, which joins the sorted records of several
-- hives. container/heap gives one of the entries with a least key, and does not say which when keys are
-- equal: a run is any sequence of such choices.
pub mod Runs
pub mod Ends
mod Examples
use quarantine_lab.Prelude.{◌≡◌, false, List, [], ◌∷◌}
use quarantine_lab.Prelude.Text.{text_lt}
use quarantine_lab.Registry.Index.{IndexRecord, sort_key}

-- What is left of a chunk, from the record that its entry of the heap stands for
abbrev pub HiveChunk : Type 0
HiveChunk = List IndexRecord

-- filterNonEmpty
unfoldable pub filter_non_empty : List HiveChunk → List HiveChunk
filter_non_empty [] = []
filter_non_empty ([] ∷ cs) = filter_non_empty cs
filter_non_empty ((r ∷ rs) ∷ cs) = (r ∷ rs) ∷ filter_non_empty cs

-- recHeap.Less: no first record of the chunks has a smaller key than a record.
abbrev pub NoneLess : IndexRecord → List HiveChunk → Type 0
NoneLess r [] = Unit
NoneLess r ([] ∷ cs) = NoneLess r cs
NoneLess r ((q ∷ qs) ∷ cs) = (text_lt (sort_key q) (sort_key r) ≡ false) × NoneLess r cs

-- heap.Pop: a first record with a least key, the rest of its chunk, and the other chunks
pub data Pop : List HiveChunk → IndexRecord → HiveChunk → List HiveChunk → Type 0 where
  here :
      (r : IndexRecord) (rs : HiveChunk) (cs : List HiveChunk)
      → NoneLess r cs
      → Pop ((r ∷ rs) ∷ cs) r rs cs
  there :
      {cs ds : List HiveChunk} {r : IndexRecord} {rs : HiveChunk} (c : HiveChunk)
      → NoneLess r (c ∷ [])
      → Pop cs r rs ds
      → Pop (c ∷ cs) r rs (c ∷ ds)

-- heap.Push of the next record of the chunk, if there is one
unfoldable pub push : HiveChunk → List HiveChunk → List HiveChunk
push [] ds = ds
push (r ∷ rs) ds = (r ∷ rs) ∷ ds

-- The loop while the heap is not empty, with the records that it writes
pub data MergeLoop : List HiveChunk → List IndexRecord → Type 0 where
  empty : MergeLoop [] []
  next :
      {cs ds : List HiveChunk} {r : IndexRecord} {rs : HiveChunk} {out : List IndexRecord}
      → Pop cs r rs ds
      → MergeLoop (push rs ds) out
      → MergeLoop cs (r ∷ out)

-- mergeSortedRecords after filterNonEmpty
unfoldable pub MergedChunks : List HiveChunk → List IndexRecord → Type 0
MergedChunks [] out = out ≡ []
MergedChunks (c ∷ []) out = out ≡ c
MergedChunks (c ∷ (d ∷ cs)) out = MergeLoop (c ∷ d ∷ cs) out

-- mergeSortedRecords
unfoldable pub MergeSortedRecords : List HiveChunk → List IndexRecord → Type 0
unfolding filter_non_empty MergedChunks
MergeSortedRecords chunks out = MergedChunks (filter_non_empty chunks) out
