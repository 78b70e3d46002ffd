-- ===== src/Disk/Media/Walk.antt =====
-- mediaChain ends on every table of media, and follows a chain of parents.
use quarantine_lab.Prelude.{
  ℕ, zero, suc, ◌+◌, ◌≤◌, ◌<◌, ◌≡◌, refl, sym, ap, ◌∙◌, Bool, true, false, ◌||◌, not, Option, none,
  some, List, [], ◌∷◌, ◌++◌, append_assoc, append-nil, if◌then◌else◌, length, length-append, arith,
  Bool-cases, Option-cases, inl, inr,
}
use quarantine_lab.Prelude.Text.{Text, text_eq, text_eq→eq, text_eq_sym}
use quarantine_lab.Disk.Media.{MediaInfo, Media, get, seen, uuid_key, chain_loop, media_chain}

abbrev one_if : Bool → ℕ
one_if b = if b then 1 else 0

-- The media that have not been seen
unfoldable unseen : List Text → Media → ℕ
unfolding seen
unseen before [] = 0
unseen before ((j, i) ∷ media) = one_if (not (seen j before)) + unseen before media

unseen-cons :
    (k : Text) (before : List Text) (media : Media)
    → unseen (k ∷ before) media ≤ unseen before media
unfolding unseen seen
unseen-cons k before [] = omega arith
unseen-cons k before ((j, i) ∷ media) = ground (arith, unseen-cons k before media)

unseen-get :
    (k : Text) (info : MediaInfo) (before : List Text) (media : Media)
    → seen k before ≡ false
    → get k media ≡ some info
    → unseen (k ∷ before) media < unseen before media
unfolding unseen seen get
unseen-get k info before [] s g = ground arith
unseen-get k info before ((j, i) ∷ media) s g = elim (Bool-cases (text_eq j k)) [
  | inl same ↦ rw (same, same_seen same) (omega (arith, unseen-cons k before media))
  | inr other ↦ ground (
    arith,
    unseen-get k info before media s (sym (ap (λ c. if c then some i else get k media) other) ∙ g),
  )
]
  where
    same_seen : text_eq j k ≡ true → seen j before ≡ false
    same_seen e = ap (λ t. seen t before) (text_eq→eq j k e) ∙ s

unseen-nil : (media : Media) → unseen [] media ≡ length media
unfolding unseen seen
unseen-nil [] = refl
unseen-nil (m ∷ media) = omega (arith, unseen-nil media)

-- A result is there, with at most `n` elements.
abbrev pub Gives : ℕ → Option (List Text) → Type 0
Gives n none = ⊥
Gives n (some ps) = length ps ≤ n

chain_loop-Gives :
    (fuel : ℕ) (uuid : Text) (before : List Text) (media : Media) (paths : List Text) (n : ℕ)
    → unseen before media < fuel
    → length paths + unseen before media ≤ n
    → Gives n (chain_loop fuel uuid before media paths)
unfolding chain_loop
chain_loop-Gives zero uuid before media paths n f l = absurd (omega (arith, f))
chain_loop-Gives (suc fuel) uuid before media paths n f l =
    elim (Bool-cases (text_eq uuid [] || seen uuid before)) [
      | inl ends ↦ rw ends (omega (arith, l))
      | inr goes ↦ elim (Option-cases (get uuid media)) [
        | inl missing ↦ rw (goes, missing) (omega (arith, l))
        | inr (info, e) ↦
            let less = unseen-get uuid info before media (not_seen goes) e in
            rw (goes, e)
              (chain_loop-Gives fuel info.parent_uuid (uuid ∷ before) media _ n
                (omega (arith, f, less)) (longer info.path (unseen (uuid ∷ before) media) less))
      ]
    ]
  where
    not_seen : (text_eq uuid [] || seen uuid before) ≡ false → seen uuid before ≡ false
    not_seen h = ground (arith, h)

    longer :
        (p : Text) (u : ℕ)
        → u < unseen before media
        → length (if not (text_eq p []) then paths ++ p ∷ [] else paths) + u ≤ n
    longer p u less = ground (arith, length-append {0} paths (p ∷ []), l, less)

-- mediaChain ends on every table, also where the parents form a cycle, with at most one path for each medium.
pub media_chain-Gives :
    (leaf_uuid : Text) (media : Media) → Gives (length media) (media_chain leaf_uuid media)
unfolding media_chain
media_chain-Gives leaf_uuid media =
    chain_loop-Gives (suc (length media)) (uuid_key leaf_uuid) [] media [] (length media)
      (omega (arith, unseen-nil media)) (omega (arith, unseen-nil media))

-- The paths from a key up to a medium without a parent, and the keys on the way.
pub data Leads (media : Media) : List Text → Text → List Text → Type 0 where
  top : Leads media [] [] []
  up :
      {ks : List Text} {k parent p : Text} {ps : List Text}
      → text_eq k [] ≡ false
      → text_eq p [] ≡ false
      → get k media ≡ some (record { path = p; parent_uuid = parent })
      → seen k ks ≡ false
      → Leads media ks parent ps
      → Leads media (k ∷ ks) k (p ∷ ps)

-- No key of the second list is in the first.
abbrev Unmet : List Text → List Text → Type 0
Unmet before [] = Unit
Unmet before (k ∷ ks) = (seen k before ≡ false) × Unmet before ks

Unmet-cons :
    (k : Text) (before ks : List Text) → seen k ks ≡ false → Unmet before ks → Unmet (k ∷ before) ks
unfolding seen
Unmet-cons k before [] s u = tt
Unmet-cons k before (j ∷ ks) s u = ground (arith, text_eq_sym j k, Unmet-cons k before ks, s, u)

chain_loop-Leads :
    {media : Media} {ks ps : List Text} {k : Text} (fuel : ℕ) (before paths : List Text)
    → Leads media ks k ps
    → Unmet before ks
    → length ks < fuel
    → chain_loop fuel k before media paths ≡ some (paths ++ ps)
unfolding chain_loop
chain_loop-Leads zero before paths l u f = absurd (omega (arith, f))
chain_loop-Leads (suc fuel) before paths top u f = ap some (sym (append-nil paths))
chain_loop-Leads {media} (suc fuel) before paths (up {ks} {k} {parent} {p} {ps} e q g s l) u f =
    rw (e, u.0, g, q)
      (chain_loop-Leads fuel (k ∷ before) (paths ++ p ∷ []) l (Unmet-cons k before ks s u.1)
          (omega (arith, f))
        ∙ ap some (append_assoc paths (p ∷ []) ps))

length-Leads :
    {media : Media} {ks ps : List Text} {k : Text} (before : List Text)
    → Leads media ks k ps
    → Unmet before ks
    → length ks ≤ unseen before media
length-Leads before top u = omega arith
length-Leads {media} before (up {ks} {k} {parent} {p} e q g s l) u = omega (
  arith,
  length-Leads (k ∷ before) l (Unmet-cons k before ks s u.1),
  unseen-get k (record { path = p; parent_uuid = parent }) before media u.0 g,
)

Unmet-nil : (ks : List Text) → Unmet [] ks
unfolding seen
Unmet-nil [] = tt
Unmet-nil (k ∷ ks) = (refl, Unmet-nil ks)

pub media_chain-Leads :
    {media : Media} {ks ps : List Text} (leaf_uuid : Text)
    → Leads media ks (uuid_key leaf_uuid) ps
    → media_chain leaf_uuid media ≡ some ps
unfolding media_chain
media_chain-Leads {media} {ks} leaf_uuid l =
    chain_loop-Leads (suc (length media)) [] [] l (Unmet-nil ks)
      (omega (arith, length-Leads [] l (Unmet-nil ks), unseen-nil media))
