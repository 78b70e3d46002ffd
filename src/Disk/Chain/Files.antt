-- ===== src/Disk/Chain/Files.antt =====
-- openVDIChain: which files it holds at the end, and the chain that it builds.
use quarantine_lab.Prelude.{
  ◌≡◌, refl, sym, ap, ap₂, subst, suc, ◌≤◌, length, ◌∙◌, Bool, true, false, Option, none, some,
  List, [], ◌∷◌, ◌++◌, append_assoc, append-nil, arith,
}
use quarantine_lab.Disk.Io.{ReaderAt}
use quarantine_lab.Disk.Vdi.{
  not_vdi, Parsed, ok, err, Layer, VdiImage, base, child, load_vdi_image, link,
}
use quarantine_lab.Disk.Chain.{
  chain, Opened, view, refused, empty_chain, open_failed, not_a_vdi, parse_failed, Loop, loaded,
  returned, use_file, open_round, open_loop, finish, is_single, open_vdi_chain,
}

-- Each path opens, and its file loads as the image beside it.
pub data Loads {ℓ} {P : Type ℓ} (open_file : P → Option ReaderAt)
    : List P → List Layer → Type ℓ where
  no_more : Loads open_file [] []
  one_more :
      {p : P} {ps : List P} {f : ReaderAt} {img : Layer} {imgs : List Layer}
      → open_file p ≡ some f
      → load_vdi_image f ≡ ok img
      → Loads open_file ps imgs
      → Loads open_file (p ∷ ps) (img ∷ imgs)

-- The images of a virtual disk, from the one that is read first up to the base
abbrev pub layers : VdiImage → List Layer
layers (base l) = l ∷ []
layers (child l parent) = l ∷ layers parent

layers-link : (img : Layer) (imgs : List Layer) → layers (link img imgs) ≡ img ∷ imgs
unfolding link
layers-link img [] = refl
layers-link img (next ∷ imgs) = ap (λ l. img ∷ l) (layers-link next imgs)

-- The files of a view are those of all the paths. On an error at a path, those closed are exactly the
-- files that were open then: all before the path, which does not open, or all up to it, which does.
abbrev pub Accounts {ℓ} : {P : Type ℓ} → Opened P → List P → Type ℓ
Accounts (view src files) ps = files ≡ ps
Accounts (refused empty_chain closed) ps = closed ≡ ps
Accounts {P} (refused (open_failed p) closed) ps = (rest : List P) × (ps ≡ closed ++ p ∷ rest)
Accounts {P} (refused (not_a_vdi p) closed) ps =
    (before rest : List P) × (closed ≡ before ++ p ∷ []) × (ps ≡ closed ++ rest)
Accounts {P} (refused (parse_failed p e) closed) ps =
    (before rest : List P) × (closed ≡ before ++ p ∷ []) × (ps ≡ closed ++ rest)

abbrev LoopAccounts {ℓ} : {P : Type ℓ} → Loop P → List P → Type ℓ
LoopAccounts (loaded files imgs) ps = files ≡ ps
LoopAccounts (returned o) ps = Accounts o ps

module _ {ℓ} {P : Type ℓ} (open_file : P → Option ReaderAt) where
  open_loop-Loads :
      (single : Bool) {ps : List P} {more : List Layer} (files : List P) (imgs : List Layer)
      → Loads open_file ps more
      → open_loop open_file single ps files imgs ≡ loaded (files ++ ps) (imgs ++ more)
  unfolding open_loop open_round use_file
  open_loop-Loads single files imgs no_more =
      ap₂ loaded (sym (append-nil files)) (sym (append-nil imgs))
  open_loop-Loads single files imgs (one_more {p} {ps} {f} {img} {imgs = more} opens loads h) =
      rw (opens, open_loop)
        (rw (loads, open_loop)
          (open_loop-Loads single (files ++ p ∷ []) (imgs ++ img ∷ []) h
            ∙ ap₂ loaded (append_assoc files (p ∷ []) ps) (append_assoc imgs (img ∷ []) more)))

  -- A chain whose files all open and load is the view of all these files: its disk is the first image,
  -- whose parent is the second one, and so on to the last, which has no parent.
  pub open_vdi_chain-Loads :
      (p : P) (ps : List P) (img : Layer) (imgs : List Layer)
      → Loads open_file (p ∷ ps) (img ∷ imgs)
      → (disk : VdiImage) × (open_vdi_chain open_file (p ∷ ps) ≡ view (chain disk) (p ∷ ps))
        × (layers disk ≡ img ∷ imgs)
  unfolding open_vdi_chain
  open_vdi_chain-Loads p ps img imgs h = (
    link img imgs,
    ap finish (open_loop-Loads (is_single (p ∷ ps)) [] [] h),
    layers-link img imgs,
  )

  -- What a round leaves, with `p` taken from before the paths `ps`.
  abbrev RoundAccounts : Loop P → List P → P → List P → Type ℓ
  RoundAccounts (loaded fs imgs) files p ps = fs ≡ files ++ p ∷ []
  RoundAccounts (returned o) files p ps = Accounts o (files ++ p ∷ ps)

  use_file-Accounts :
      (single : Bool) (p : P) (ps files : List P) (imgs : List Layer) (f : ReaderAt)
      (o : Parsed Layer)
      → (single ≡ true → ps ≡ [])
      → RoundAccounts (use_file open_file single p files imgs f o) files p ps
  unfolding use_file
  use_file-Accounts single p ps files imgs f (ok img) last = refl
  use_file-Accounts true p ps files imgs f (err not_vdi) last = rw (last refl)
  use_file-Accounts false p ps files imgs f (err not_vdi) last =
      (files, ps, refl, sym (append_assoc files (p ∷ []) ps))
  use_file-Accounts single p ps files imgs f (err _) last =
      (files, ps, refl, sym (append_assoc files (p ∷ []) ps))

  open_round-Accounts :
      (single : Bool) (p : P) (ps files : List P) (imgs : List Layer) (o : Option ReaderAt)
      → (single ≡ true → ps ≡ [])
      → RoundAccounts (open_round open_file single p files imgs o) files p ps
  unfolding open_round
  open_round-Accounts single p ps files imgs none last = (ps, refl)
  open_round-Accounts single p ps files imgs (some f) last =
      use_file-Accounts single p ps files imgs f (load_vdi_image f) last

  next_round :
      (single : Bool) (p : P) (ps files : List P) (l : Loop P)
      → ((fs : List P) (imgs : List Layer)
          → LoopAccounts (open_loop open_file single ps fs imgs) (fs ++ ps))
      → RoundAccounts l files p ps
      → LoopAccounts
          (elim l [
            | loaded fs imgs ↦ open_loop open_file single ps fs imgs
            | returned o ↦ returned o
          ])
          (files ++ p ∷ ps)
  next_round single p ps files (loaded fs imgs) rec h =
      subst (LoopAccounts (open_loop open_file single ps fs imgs))
        (ap (λ a. a ++ ps) h ∙ append_assoc files (p ∷ []) ps) (rec fs imgs)
  next_round single p ps files (returned o) rec h = h

  open_loop-Accounts :
      (single : Bool) (ps files : List P) (imgs : List Layer)
      → (single ≡ true → length ps ≤ 1)
      → LoopAccounts (open_loop open_file single ps files imgs) (files ++ ps)
  unfolding open_loop
  open_loop-Accounts single [] files imgs last = sym (append-nil files)
  open_loop-Accounts single (p ∷ ps) files imgs last =
      next_round single p ps files (open_round open_file single p files imgs (open_file p))
        (λ fs imgs'. open_loop-Accounts single ps fs imgs' (λ e. omega (arith, last e)))
        (open_round-Accounts single p ps files imgs (open_file p) (λ e. no_rest ps (last e)))
    where
      no_rest : (xs : List P) → suc (length xs) ≤ 1 → xs ≡ []
      no_rest [] h = refl
      no_rest (x ∷ xs) h = absurd (omega arith)

  finish-Accounts : (l : Loop P) (ps : List P) → LoopAccounts l ps → Accounts (finish l) ps
  finish-Accounts (returned o) ps h = h
  finish-Accounts (loaded files []) ps h = h
  finish-Accounts (loaded files (img ∷ imgs)) ps h = h

  -- Whatever the files are, a view holds the files of all the paths, in their order. When it returns
  -- an error at a path, it has closed exactly the files that were open: those of all the paths before, and
  -- the file of the path itself if it had been opened.
  pub open_vdi_chain-Accounts : (ps : List P) → Accounts (open_vdi_chain open_file ps) ps
  unfolding open_vdi_chain
  open_vdi_chain-Accounts [] = refl
  open_vdi_chain-Accounts (p ∷ ps) =
      finish-Accounts (open_loop open_file (is_single (p ∷ ps)) (p ∷ ps) [] []) (p ∷ ps)
        (open_loop-Accounts (is_single (p ∷ ps)) (p ∷ ps) [] [] (λ e. one_path ps e))
    where
      one_path : (xs : List P) → is_single (p ∷ xs) ≡ true → suc (length xs) ≤ 1
      one_path [] e = omega arith
      one_path (x ∷ xs) e = cc
