-- ===== src/Disk/Media.antt =====
-- go/internal/disk/vbox_parse.go: the media and the snapshots of a machine's .vbox file. The XML decoder,
-- filepath and time.Parse are arguments.
pub mod Walk
pub mod Tree
pub mod Ancestors
mod Examples
use quarantine_lab.Prelude.{
  ℕ, zero, suc, Bool, true, false, ◌&&◌, ◌||◌, not, Option, none, some, List, [], ◌∷◌, ◌++◌,
  if◌then◌else◌, length, ◌==◌,
}
use quarantine_lab.Prelude.Text.{Text, codes, text_eq, to_lower}
use mathlib.Core.List.{reverse}

-- strings.Trim(s, "{}")
abbrev pub trim_braces_left : Text → Text
trim_braces_left [] = []
trim_braces_left (c ∷ s) =
    let rest = trim_braces_left s in if c == b'{' || c == b'}' then rest else c ∷ s

abbrev pub trim_braces : Text → Text
trim_braces s = reverse (trim_braces_left (reverse (trim_braces_left s)))

-- strings.ToLower(strings.Trim(s, "{}"))
unfoldable pub uuid_key : Text → Text
unfolding to_lower
uuid_key s = to_lower (trim_braces s)

-- hardDiskNode
mutual
  pub data HardDisk : Type 0 where
    disk : (uuid location : Text) → HardDisks → HardDisk

  pub data HardDisks : Type 0 where
    no_disks : HardDisks
    disks : HardDisk → HardDisks → HardDisks

-- mediaInfo
pub record MediaInfo : Type 0 where
  pub path : Text
  pub parent_uuid : Text

abbrev pub Media : Type 0
Media = List (Text × MediaInfo)

-- out[k] = info
unfoldable pub put : {A : Type 0} → Text → A → List (Text × A) → List (Text × A)
put k info [] = (k, info) ∷ []
put k info ((j, i) ∷ out) = if text_eq j k then (j, info) ∷ out else (j, i) ∷ put k info out

unfoldable pub get : Text → Media → Option MediaInfo
get k [] = none
get k ((j, i) ∷ media) = if text_eq j k then some i else get k media

unfoldable pub seen : Text → List Text → Bool
seen k [] = false
seen k (j ∷ js) = text_eq k j || seen k js

-- The loop of mediaChain, after `paths`; `none` means that the fuel ran out.
unfoldable pub chain_loop : ℕ → Text → List Text → Media → List Text → Option (List Text)
unfolding seen get
chain_loop zero uuid before media paths = none
chain_loop (suc fuel) uuid before media paths =
    if text_eq uuid [] || seen uuid before then some paths else elim (get uuid media) [
      | none ↦ some paths
      | some info ↦
          chain_loop fuel info.parent_uuid (uuid ∷ before) media
            (if not (text_eq info.path []) then paths ++ info.path ∷ [] else paths)
    ]

-- mediaChain. Every round but the last goes to a medium that has not been seen.
unfoldable pub media_chain : Text → Media → Option (List Text)
unfolding chain_loop uuid_key
media_chain leaf_uuid media = chain_loop (suc (length media)) (uuid_key leaf_uuid) [] media []

-- One AttachedDevice, and the medium's UUID of it
abbrev pub Device : Type 0
Device = Text × Text

-- snapshotNode; its devices are those of all controllers, in their order.
mutual
  pub data Snapshot : Type 0 where
    snapshot : (uuid name time : Text) → List Device → Snapshots → Snapshot

  pub data Snapshots : Type 0 where
    no_snapshots : Snapshots
    snapshots : Snapshot → Snapshots → Snapshots

-- diskMediumUUID
unfoldable pub disk_medium_uuid : List Device → Text
unfolding to_lower
disk_medium_uuid [] = []
disk_medium_uuid ((kind, uuid) ∷ ds) =
    let rest = disk_medium_uuid ds in
    if text_eq (to_lower kind) (codes "harddisk") then trim_braces uuid else rest

-- SnapshotEntry as walkSnapshotTree fills it; a time that does not parse is `none`.
pub record SnapshotEntry : Type 0 where
  pub name : Text
  pub uuid : Text
  pub time : Option ℕ
  pub disk_medium_uuid : Text
  pub vdi_paths : List Text

-- mediaChain, which always ends with enough fuel
abbrev pub chain_or_none : Option (List Text) → List Text
chain_or_none none = []
chain_or_none (some paths) = paths

-- The document, and what the standard library makes of paths and times.
pub record Files : Type 0 where
  pub is_abs : Text → Bool
  pub join : Text → Text → Text
  pub parse_time : Text → Option ℕ

module _ (fs : Files) where
  abbrev pub located : Text → Text → Text
  located folder loc = if not (fs.is_abs loc) then fs.join folder loc else loc

  -- walkHardDiskMedia
  unfoldable mutual
    unfolding put uuid_key

    pub walk_disk : Text → HardDisk → Text → Media → Media
    walk_disk folder (disk uuid loc children) parent out =
        let k = uuid_key uuid in
        let kept =
          if not (text_eq k []) && not (text_eq loc [])
          then put k (record { path = located folder loc; parent_uuid = parent }) out
          else out in
        walk_disks folder children (if text_eq k [] then parent else k) kept

    pub walk_disks : Text → HardDisks → Text → Media → Media
    walk_disks folder no_disks parent out = out
    walk_disks folder (disks d ds) parent out =
        walk_disks folder ds parent (walk_disk folder d parent out)

  -- The entry of a snapshot with a name
  unfoldable pub snapshot_entry : Media → Text → Text → Text → List Device → SnapshotEntry
  unfolding disk_medium_uuid media_chain
  snapshot_entry media uuid name time devices = record {
    name = name;
    uuid = uuid;
    time = fs.parse_time time;
    disk_medium_uuid = disk_medium_uuid devices;
    vdi_paths =
        if not (text_eq (disk_medium_uuid devices) [])
        then chain_or_none (media_chain (disk_medium_uuid devices) media)
        else [];
  }

  -- walkSnapshotTree
  unfoldable mutual
    unfolding put snapshot_entry

    pub walk_snapshot : Snapshot → List (Text × SnapshotEntry) → Media → List (Text × SnapshotEntry)
    walk_snapshot (snapshot uuid name time devices children) out media =
        walk_snapshots children
          (if text_eq name []
            then out
            else put (to_lower name) (snapshot_entry media uuid name time devices) out)
          media

    pub walk_snapshots :
        Snapshots → List (Text × SnapshotEntry) → Media → List (Text × SnapshotEntry)
    walk_snapshots no_snapshots out media = out
    walk_snapshots (snapshots s ss) out media = walk_snapshots ss (walk_snapshot s out media) media

  -- parseSnapshotIndex of a document that decodes
  unfoldable pub parse_snapshot_index : Text → HardDisks → Snapshot → List (Text × SnapshotEntry)
  unfolding walk_disks walk_snapshot
  parse_snapshot_index folder hard_disks root =
      walk_snapshot root [] (walk_disks folder hard_disks [] [])
