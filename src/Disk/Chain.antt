-- ===== src/Disk/Chain.antt =====
-- openVDIChain of go/internal/disk/vdi.go: the files of a chain are opened, the leaf first, and
-- every file is closed again when one of them cannot be used.
pub mod Files
mod Examples
use quarantine_lab.Prelude.{
  ℕ, ◌≡◌, refl, Bool, true, false, Option, none, some, List, [], ◌∷◌, ◌++◌,
}
use quarantine_lab.Disk.Io.{ReaderAt}
use quarantine_lab.Disk.Vdi.{
  VdiError, not_vdi, Parsed, ok, err, Layer, VdiImage, load_vdi_image, link,
}

-- What the virtual disk is read from: one RAW file, or a chain of images.
pub data Source : Type 0 where
  raw_file : ReaderAt → Source
  chain : VdiImage → Source

pub data OpenError {ℓ} (P : Type ℓ) : Type ℓ where
  empty_chain : OpenError P
  open_failed not_a_vdi : P → OpenError P
  parse_failed : P → VdiError → OpenError P

-- A snapshotView, or an error. Beside each the files that were closed on the way.
pub data Opened {ℓ} (P : Type ℓ) : Type ℓ where
  view : Source → (files : List P) → Opened P
  refused : OpenError P → (closed : List P) → Opened P

-- The states of the loop over `paths`: files and imgs are those of the rounds so far.
pub data Loop {ℓ} (P : Type ℓ) : Type ℓ where
  loaded : (files : List P) → (imgs : List Layer) → Loop P
  returned : Opened P → Loop P

abbrev pub finish {ℓ} : {P : Type ℓ} → Loop P → Opened P
finish (returned o) = o
finish (loaded files []) = refused empty_chain files
finish (loaded files (img ∷ imgs)) = view (chain (link img imgs)) files

abbrev pub is_single {ℓ} : {P : Type ℓ} → List P → Bool
is_single (p ∷ []) = true
is_single _ = false

module _ {ℓ} {P : Type ℓ} (open_file : P → Option ReaderAt) where
  -- What a round does with a file that is open, `single` being len(paths) == 1.
  pub use_file : Bool → P → List P → List Layer → ReaderAt → Parsed Layer → Loop P
  use_file single p files imgs f (ok img) = loaded (files ++ p ∷ []) (imgs ++ img ∷ [])
  use_file true p files imgs f (err not_vdi) = returned (view (raw_file f) (files ++ p ∷ []))
  use_file false p files imgs f (err not_vdi) = returned (refused (not_a_vdi p) (files ++ p ∷ []))
  use_file single p files imgs f (err e) = returned (refused (parse_failed p e) (files ++ p ∷ []))

  pub open_round : Bool → P → List P → List Layer → Option ReaderAt → Loop P
  open_round single p files imgs none = returned (refused (open_failed p) files)
  open_round single p files imgs (some f) = use_file single p files imgs f (load_vdi_image f)

  pub open_loop : Bool → List P → List P → List Layer → Loop P
  open_loop single [] files imgs = loaded files imgs
  open_loop single (p ∷ ps) files imgs = elim (open_round single p files imgs (open_file p)) [
    | loaded files' imgs' ↦ open_loop single ps files' imgs'
    | returned o ↦ returned o
  ]

  -- openVDIChain
  pub open_vdi_chain : List P → Opened P
  open_vdi_chain [] = refused empty_chain []
  open_vdi_chain (p ∷ ps) = finish (open_loop (is_single (p ∷ ps)) (p ∷ ps) [] [])
