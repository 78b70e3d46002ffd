-- ===== src/Disk/Chain/Examples.antt =====
-- openVDIChain on two files, and on a chain whose second file does not open.
use quarantine_lab.Prelude.{ℕ, ◌≡◌, refl, ◌==◌, if◌then◌else◌, Option, none, some, [], ◌∷◌}
use quarantine_lab.Disk.Io.{ReaderAt}
use quarantine_lab.Disk.Vdi.{VdiImage}
use quarantine_lab.Disk.Vdi.Examples.{written_file, written_layer, written_loads}
use quarantine_lab.Disk.Chain.{chain, view, open_vdi_chain}
use quarantine_lab.Disk.Chain.Files.{
  Loads, layers, no_more, one_more, Accounts, open_vdi_chain-Loads, open_vdi_chain-Accounts,
}

abbrev two_files : ℕ → Option ReaderAt
two_files p = if p == 3 then none else some written_file

two_files-Loads : Loads two_files (1 ∷ 2 ∷ []) (written_layer ∷ written_layer ∷ [])
two_files-Loads = one_more refl written_loads (one_more refl written_loads no_more)

open_vdi_chain-Loads_example :
    (disk : VdiImage) × (open_vdi_chain two_files (1 ∷ 2 ∷ []) ≡ view (chain disk) (1 ∷ 2 ∷ []))
    × (layers disk ≡ written_layer ∷ written_layer ∷ [])
open_vdi_chain-Loads_example =
    open_vdi_chain-Loads two_files 1 (2 ∷ []) written_layer (written_layer ∷ []) two_files-Loads

open_vdi_chain-Accounts_example : Accounts (open_vdi_chain two_files (1 ∷ 3 ∷ [])) (1 ∷ 3 ∷ [])
open_vdi_chain-Accounts_example = open_vdi_chain-Accounts two_files (1 ∷ 3 ∷ [])
