-- ===== src/Disk/Media/Tree.antt =====
-- The chain of a disk is the way up from it in the tree of the MediaRegistry.
use quarantine_lab.Prelude.{
  ◌≡◌, refl, sym, ap, ◌∙◌, Bool, true, false, ◌&&◌, ◌||◌, not, Option, none, some, List, [], ◌∷◌,
  ◌++◌, if◌then◌else◌, arith, Bool-cases, inl, inr,
}
use quarantine_lab.Prelude.Text.{Text, text_eq, text_eq→eq, text_eq_self, text_eq_sym}
use quarantine_lab.Disk.Media.{
  MediaInfo, Media, get, put, seen, uuid_key, HardDisk, disk, HardDisks, no_disks, disks, Files,
  located,
}

-- The keys of a tree, each node before its children
unfoldable mutual
  unfolding uuid_key

  pub disk_keys : HardDisk → List Text
  disk_keys (disk u l cs) = uuid_key u ∷ disks_keys cs

  pub disks_keys : HardDisks → List Text
  disks_keys no_disks = []
  disks_keys (disks d ds) = disk_keys d ++ disks_keys ds

unfoldable pub distinct : List Text → Bool
unfolding seen
distinct [] = true
distinct (k ∷ ks) = not (seen k ks) && distinct ks

abbrev pub first_of : Option (List Text) → Option (List Text) → Option (List Text)
first_of none r = r
first_of (some c) r = some c

module _ (fs : Files) (folder : Text) where
  -- Each node has a UUID and a location.
  unfoldable mutual
    unfolding uuid_key

    pub placed_disk : HardDisk → Bool
    placed_disk (disk u l cs) =
        not (text_eq (uuid_key u) [])
        && (not (text_eq l []) && (not (text_eq (located fs folder l) []) && placed_disks cs))

    pub placed_disks : HardDisks → Bool
    placed_disks no_disks = true
    placed_disks (disks d ds) = placed_disk d && placed_disks ds

  -- The locations from the node with a key up to its root, where `above` are those above the tree.
  unfoldable mutual
    unfolding uuid_key

    pub way_up_disk : Text → HardDisk → List Text → Option (List Text)
    way_up_disk k (disk u l cs) above =
        if text_eq (uuid_key u) k
        then some (located fs folder l ∷ above)
        else way_up k cs (located fs folder l ∷ above)

    pub way_up : Text → HardDisks → List Text → Option (List Text)
    way_up k no_disks above = none
    way_up k (disks d ds) above = first_of (way_up_disk k d above) (way_up k ds above)

pub seen-append : (k : Text) (xs ys : List Text) → seen k (xs ++ ys) ≡ (seen k xs || seen k ys)
unfolding seen
seen-append k [] ys = refl
seen-append k (x ∷ xs) ys = ground (arith, seen-append k xs ys)

pub seen_self : (k : Text) (ks : List Text) → seen k (k ∷ ks) ≡ true
unfolding seen
seen_self k ks = ground (arith, text_eq_self k)

pub distinct-left : (xs ys : List Text) → distinct (xs ++ ys) ≡ true → distinct xs ≡ true
unfolding distinct
distinct-left [] ys h = refl
distinct-left (x ∷ xs) ys h = ground (arith, seen-append x xs ys, distinct-left xs ys, h)

pub distinct-right : (xs ys : List Text) → distinct (xs ++ ys) ≡ true → distinct ys ≡ true
unfolding distinct
distinct-right [] ys h = h
distinct-right (x ∷ xs) ys h = ground (arith, distinct-right xs ys, h)

pub distinct-apart :
    (xs ys : List Text) (k : Text)
    → distinct (xs ++ ys) ≡ true
    → seen k xs ≡ true
    → seen k ys ≡ false
unfolding distinct seen
distinct-apart [] ys k h s = ground arith
distinct-apart (x ∷ xs) ys k h s = elim (Bool-cases (text_eq k x)) [
  | inl same ↦ ap (λ t. seen t ys) (text_eq→eq k x same) ∙ ground (arith, seen-append x xs ys, h)
  | inr other ↦ ground (arith, distinct-apart xs ys k, h, s, other)
]

pub get-put :
    (j k : Text) (i : MediaInfo) (out : Media)
    → get j (put k i out) ≡ (if text_eq k j then some i else get j out)
unfolding get put
get-put j k i [] = refl
get-put j k i ((l, m) ∷ out) = elim (Bool-cases (text_eq l k)) [
  | inl same ↦
      rw (same, get)
        (rw (text_eq→eq l k same) (at_head (text_eq k j) (some i) (some m) (get j out)))
  | inr other ↦ elim (Bool-cases (text_eq l j)) [
    | inl here ↦ rw (other, get, here, apart here other) refl
    | inr there ↦ rw (other, get, there) (get-put j k i out)
  ]
]
  where
    at_head :
        (b : Bool) (x y z : Option MediaInfo)
        → (if b then x else z) ≡ (if b then x else if b then y else z)
    at_head true x y z = refl
    at_head false x y z = refl

    apart : text_eq l j ≡ true → text_eq l k ≡ false → text_eq k j ≡ false
    apart e d = text_eq_sym k j ∙ ap (λ t. text_eq t k) (sym (text_eq→eq l j e)) ∙ d
