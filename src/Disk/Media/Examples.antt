-- ===== src/Disk/Media/Examples.antt =====
-- A base with two differencing images, one below the other, and a cycle of two parents.
use quarantine_lab.Prelude.{◌≡◌, refl, true, none, some, [], ◌∷◌, ◌++◌, length}
use quarantine_lab.Prelude.Text.{codes, to_lower}
use quarantine_lab.Disk.Media.{
  disk, HardDisks, no_disks, disks, Files, Media, snapshot, no_snapshots, uuid_key, media_chain,
  chain_loop, seen, get, put, walk_disk, walk_disks, parse_snapshot_index, walk_snapshot,
  snapshot_entry, disk_medium_uuid,
}
use quarantine_lab.Disk.Media.Walk.{Gives, media_chain-Gives}
use quarantine_lab.Disk.Media.Tree.{disk_keys, distinct, placed_disk, way_up_disk}
use quarantine_lab.Disk.Media.Ancestors.{media_chain-way_up}

abbrev files : Files
files = record { is_abs = λ p. true; join = λ a b. a ++ b; parse_time = λ t. none }

abbrev registry : HardDisks
registry =
    disks
      (disk (codes "{A1}") (codes "base.vdi") (
        disks
          (disk (codes "{B2}") (codes "first.vdi")
            (disks (disk (codes "{C3}") (codes "second.vdi") no_disks) no_disks))
          no_disks))
      no_disks

media_chain-way_up_example :
    media_chain (codes "{c3}") (walk_disks files [] registry [] [])
    ≡ some (codes "second.vdi" ∷ codes "first.vdi" ∷ codes "base.vdi" ∷ [])
unfolding placed_disk disk_keys distinct way_up_disk uuid_key seen to_lower
media_chain-way_up_example = media_chain-way_up files [] registry (codes "{c3}") _ refl refl refl

abbrev cycle : Media
cycle =
    (codes "a", record { path = codes "a.vdi"; parent_uuid = codes "b" })
    ∷ (codes "b", record { path = codes "b.vdi"; parent_uuid = codes "a" })
    ∷ []

media_chain-Gives_example : Gives (length cycle) (media_chain (codes "a") cycle)
media_chain-Gives_example = media_chain-Gives (codes "a") cycle

cycle_chain : media_chain (codes "a") cycle ≡ some (codes "a.vdi" ∷ codes "b.vdi" ∷ [])
unfolding media_chain chain_loop seen get uuid_key to_lower
cycle_chain = refl

-- A snapshot's own entry, with its chain
first_snapshot :
    parse_snapshot_index files [] registry (
      snapshot
        (codes "s1")
        (codes "Clean")
        []
        ((codes "DVD", codes "x") ∷ (codes "HardDisk", codes "{B2}") ∷ [])
        no_snapshots)
    ≡ (
      codes "clean",
      record {
        name = codes "Clean";
        uuid = codes "s1";
        time = none;
        disk_medium_uuid = codes "B2";
        vdi_paths = codes "first.vdi" ∷ codes "base.vdi" ∷ [];
      },
    )
      ∷ []
unfolding parse_snapshot_index walk_snapshot walk_disk put snapshot_entry disk_medium_uuid
    media_chain chain_loop seen get uuid_key to_lower
first_snapshot = refl
