-- ===== src/Registry/Merge/Examples.antt =====
-- Two hives with a key that both have, and one without records.
use quarantine_lab.Prelude.{◌≡◌, refl, Bool, true, none, List, [], ◌∷◌}
use quarantine_lab.Prelude.Int.{pos}
use quarantine_lab.Prelude.Text.{Text, codes, to_lower}
use quarantine_lab.Registry.Index.{IndexRecord, sort_key, sorted_after, records_sorted}
use quarantine_lab.Registry.Index.Sorted.{count}
use quarantine_lab.Registry.Merge.{HiveChunk}
use quarantine_lab.Registry.Merge.Runs.{AllSorted, total, MergeSortedRecords-sorted}
use quarantine_lab.Registry.Merge.Ends.{MergeSortedRecords-runs}

abbrev value : Text → Text → IndexRecord
value k n = record { k = k; n = n; t = []; v = none; h = []; size = pos 0 }

abbrev hives : List HiveChunk
hives =
    (value (codes "HKLM\\A") [] ∷ value (codes "HKLM\\C") [] ∷ [])
    ∷ []
    ∷ (value (codes "hklm\\a") [] ∷ value (codes "HKLM\\B") (codes "x") ∷ [])
    ∷ []

abbrev merged : List IndexRecord
merged = (MergeSortedRecords-runs hives).0

hives-AllSorted : AllSorted hives
unfolding records_sorted sorted_after sort_key to_lower
hives-AllSorted = (refl, (refl, (refl, tt)))

MergeSortedRecords-sorted_example :
    (records_sorted merged ≡ true) × ((t : IndexRecord → Bool) → count t merged ≡ total t hives)
MergeSortedRecords-sorted_example =
    MergeSortedRecords-sorted hives merged hives-AllSorted (MergeSortedRecords-runs hives).1
