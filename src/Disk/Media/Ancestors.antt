-- ===== src/Disk/Media/Ancestors.antt =====
-- walkHardDiskMedia and mediaChain together.
use quarantine_lab.Prelude.{
  ◌≡◌, refl, sym, ap, ◌∙◌, subst₂, false≢true, Bool, true, false, ◌&&◌, not, none, some, List, [],
  ◌∷◌, ◌++◌, if◌then◌else◌, arith, Bool-cases, Option-cases, inl, inr,
}
use quarantine_lab.Prelude.Text.{Text, text_eq, text_eq→eq, text_eq_self, text_eq_sym}
use quarantine_lab.Disk.Media.{
  MediaInfo, Media, get, put, seen, uuid_key, HardDisk, disk, HardDisks, no_disks, disks, Files,
  located, walk_disk, walk_disks, media_chain,
}
use quarantine_lab.Disk.Media.Walk.{Leads, top, up, media_chain-Leads}
use quarantine_lab.Disk.Media.Tree.{
  disk_keys, disks_keys, distinct, first_of, placed_disk, placed_disks, way_up_disk, way_up,
  seen-append, seen_self, distinct-left, distinct-right, distinct-apart, get-put,
}

unseen_cons :
    (j k : Text) (ks : List Text)
    → seen j (k ∷ ks) ≡ false
    → (text_eq j k ≡ false) × (seen j ks ≡ false)
unfolding seen
unseen_cons j k ks s = ground (arith, s)

unseen_append :
    (j : Text) (xs ys : List Text)
    → seen j (xs ++ ys) ≡ false
    → (seen j xs ≡ false) × (seen j ys ≡ false)
unseen_append j xs ys s = ground (arith, seen-append j xs ys, s)

get_kept :
    (c : Bool) (j k : Text) (i : MediaInfo) (out : Media)
    → text_eq j k ≡ false
    → get j (if c then put k i out else out) ≡ get j out
get_kept true j k i out d =
    get-put j k i out ∙ ap (λ b. if b then some i else get j out) (text_eq_sym k j ∙ d)
get_kept false j k i out d = refl

seen_later : (j k : Text) (ks : List Text) → seen j ks ≡ true → seen j (k ∷ ks) ≡ true
unfolding seen
seen_later j k ks s = ground (arith, s)

seen_left : (j : Text) (xs ys : List Text) → seen j xs ≡ true → seen j (xs ++ ys) ≡ true
seen_left j xs ys s = ground (arith, seen-append j xs ys, s)

seen_right : (j : Text) (xs ys : List Text) → seen j ys ≡ true → seen j (xs ++ ys) ≡ true
seen_right j xs ys s = ground (arith, seen-append j xs ys, s)

both_parts : (a b : Bool) → (a && b) ≡ true → (a ≡ true) × (b ≡ true)
both_parts a b h = ground arith

distinct_parts : (a b : Bool) → (not a && b) ≡ true → (a ≡ false) × (b ≡ true)
distinct_parts a b h = ground arith

placed_parts :
    (a b c d : Bool)
    → (not a && (not b && (not c && d))) ≡ true
    → (a ≡ false) × (b ≡ false) × (c ≡ false) × (d ≡ true)
placed_parts a b c d h = ground arith

fresh_below :
    (j k : Text) (keys ks : List Text)
    → seen k keys ≡ false
    → seen j keys ≡ true
    → seen j ks ≡ false
    → seen j (k ∷ ks) ≡ false
unfolding seen
fresh_below j k keys ks a s f = elim (Bool-cases (text_eq j k)) [
  | inl same ↦ absurd (false≢true (sym a ∙ ap (λ t. seen t keys) (sym (text_eq→eq j k same)) ∙ s))
  | inr other ↦ rw other f
]

some-inj : {a b : List Text} → some a ≡ some b → a ≡ b
some-inj {a} e = ap (λ o. elim o [ none ↦ a | some c ↦ c ]) e

none-some : {a : List Text} → none ≡ some a → ⊥
none-some e = cc

module _ (fs : Files) (folder : Text) where
  -- A walk does not touch other keys.
  mutual
    unfolding walk_disk disk_keys

    walk_disk-get :
        (d : HardDisk) (parent : Text) (out : Media) (j : Text)
        → seen j (disk_keys d) ≡ false
        → get j (walk_disk fs folder d parent out) ≡ get j out
    walk_disk-get (disk u l cs) parent out j s =
        let apart = unseen_cons j (uuid_key u) (disks_keys cs) s in
        walk_disks-get cs _ _ j apart.1 ∙ get_kept _ j (uuid_key u) _ out apart.0

    walk_disks-get :
        (ds : HardDisks) (parent : Text) (out : Media) (j : Text)
        → seen j (disks_keys ds) ≡ false
        → get j (walk_disks fs folder ds parent out) ≡ get j out
    walk_disks-get no_disks parent out j s = refl
    walk_disks-get (disks d ds) parent out j s =
        let apart = unseen_append j (disk_keys d) (disks_keys ds) s in
        walk_disks-get ds parent (walk_disk fs folder d parent out) j apart.1
        ∙ walk_disk-get d parent out j apart.0

  -- A table has the entry of each node of a tree, with its location and its parent.
  unfoldable mutual
    unfolding disk_keys

    pub HoldsDisk : Media → HardDisk → Text → Type 0
    HoldsDisk media (disk u l cs) parent =
        (get (uuid_key u) media
          ≡ some (record { path = located fs folder l; parent_uuid = parent }))
        × Holds media cs (uuid_key u)

    pub Holds : Media → HardDisks → Text → Type 0
    Holds media no_disks parent = Unit
    Holds media (disks d ds) parent = HoldsDisk media d parent × Holds media ds parent

  -- Another table that agrees on the keys
  mutual
    unfolding HoldsDisk

    HoldsDisk-cong :
        (d : HardDisk) (parent : Text) (m n : Media)
        → ((j : Text) → seen j (disk_keys d) ≡ true → get j n ≡ get j m)
        → HoldsDisk m d parent
        → HoldsDisk n d parent
    HoldsDisk-cong (disk u l cs) parent m n e h = (
      e (uuid_key u) (seen_self (uuid_key u) (disks_keys cs)) ∙ h.0,
      Holds-cong cs (uuid_key u) m n (λ j s. e j (seen_later j (uuid_key u) (disks_keys cs) s)) h.1,
    )

    Holds-cong :
        (ds : HardDisks) (parent : Text) (m n : Media)
        → ((j : Text) → seen j (disks_keys ds) ≡ true → get j n ≡ get j m)
        → Holds m ds parent
        → Holds n ds parent
    Holds-cong no_disks parent m n e h = tt
    Holds-cong (disks d ds) parent m n e h = (
      HoldsDisk-cong d parent m n (λ j s. e j (seen_left j (disk_keys d) (disks_keys ds) s)) h.0,
      Holds-cong ds parent m n (λ j s. e j (seen_right j (disk_keys d) (disks_keys ds) s)) h.1,
    )

  mutual
    unfolding HoldsDisk placed_disk walk_disk distinct

    walk_disk-HoldsDisk :
        (d : HardDisk) (parent : Text) (out : Media)
        → placed_disk fs folder d ≡ true
        → distinct (disk_keys d) ≡ true
        → HoldsDisk (walk_disk fs folder d parent out) d parent
    walk_disk-HoldsDisk (disk u l cs) parent out p q =
        let placed = placed_parts (text_eq (uuid_key u) []) (text_eq l []) _ _ p in
        let parts = distinct_parts (seen (uuid_key u) (disks_keys cs)) _ q in
        rw (placed.0, placed.1)
          (
            (walk_disks-get cs (uuid_key u) _ (uuid_key u) parts.0
                ∙ get-put (uuid_key u) (uuid_key u) _ out
                ∙ ap
                    (λ b.
                      if b
                      then some (record { path = located fs folder l; parent_uuid = parent })
                      else get (uuid_key u) out)
                    (text_eq_self (uuid_key u))),
            walk_disks-Holds cs (uuid_key u) _ placed.3 parts.1,
          )

    walk_disks-Holds :
        (ds : HardDisks) (parent : Text) (out : Media)
        → placed_disks fs folder ds ≡ true
        → distinct (disks_keys ds) ≡ true
        → Holds (walk_disks fs folder ds parent out) ds parent
    walk_disks-Holds no_disks parent out p q = tt
    walk_disks-Holds (disks d ds) parent out p q =
        let first = walk_disk fs folder d parent out in
        let placed = both_parts _ _ p in
        (
          HoldsDisk-cong d parent first (walk_disks fs folder ds parent first)
              (λ j s.
                walk_disks-get ds parent first j
                  (distinct-apart (disk_keys d) (disks_keys ds) j q s))
              (walk_disk-HoldsDisk d parent out placed.0
                (distinct-left (disk_keys d) (disks_keys ds) q)),
          walk_disks-Holds ds parent first placed.1
              (distinct-right (disk_keys d) (disks_keys ds) q),
        )

  -- The way up from a node is a chain of parents.
  abbrev LeadsTo : Media → Text → List Text → Type 0
  LeadsTo media k ps = (js : List Text) × Leads media js k ps

  mutual
    unfolding HoldsDisk placed_disk way_up_disk distinct

    way_up_disk-Leads :
        (d : HardDisk) (parent : Text) (media : Media) (k : Text) (ks above ps : List Text)
        → HoldsDisk media d parent
        → placed_disk fs folder d ≡ true
        → distinct (disk_keys d) ≡ true
        → Leads media ks parent above
        → ((j : Text) → seen j (disk_keys d) ≡ true → seen j ks ≡ false)
        → way_up_disk fs folder k d above ≡ some ps
        → LeadsTo media k ps
    way_up_disk-Leads (disk u l cs) parent media k ks above ps h p q lead fresh e =
        let placed = placed_parts (text_eq (uuid_key u) []) (text_eq l []) _ _ p in
        let parts = distinct_parts (seen (uuid_key u) (disks_keys cs)) _ q in
        let new = fresh (uuid_key u) (seen_self (uuid_key u) (disks_keys cs)) in
        let step : Leads media (uuid_key u ∷ ks) (uuid_key u) (located fs folder l ∷ above) =
          up placed.0 placed.2 h.0 new lead in
        elim (Bool-cases (text_eq (uuid_key u) k)) [
          | inl same ↦
              subst₂ (λ t c. LeadsTo media t c) (text_eq→eq (uuid_key u) k same)
                (some-inj (
                  sym (
                    ap
                      (λ b.
                        if b
                        then some (located fs folder l ∷ above)
                        else way_up fs folder k cs (located fs folder l ∷ above))
                      same)
                  ∙ e))
                (uuid_key u ∷ ks, step)
          | inr other ↦
              way_up-Leads cs (uuid_key u) media k (uuid_key u ∷ ks) (located fs folder l ∷ above)
                ps h.1 placed.3 parts.1 step
                (λ j s.
                  fresh_below j (uuid_key u) (disks_keys cs) ks parts.0 s
                    (fresh j (seen_later j (uuid_key u) (disks_keys cs) s)))
                (sym (
                    ap
                      (λ b.
                        if b
                        then some (located fs folder l ∷ above)
                        else way_up fs folder k cs (located fs folder l ∷ above))
                      other)
                  ∙ e)
        ]

    way_up-Leads :
        (ds : HardDisks) (parent : Text) (media : Media) (k : Text) (ks above ps : List Text)
        → Holds media ds parent
        → placed_disks fs folder ds ≡ true
        → distinct (disks_keys ds) ≡ true
        → Leads media ks parent above
        → ((j : Text) → seen j (disks_keys ds) ≡ true → seen j ks ≡ false)
        → way_up fs folder k ds above ≡ some ps
        → LeadsTo media k ps
    way_up-Leads no_disks parent media k ks above ps h p q lead fresh e = absurd (none-some e)
    way_up-Leads (disks d ds) parent media k ks above ps h p q lead fresh e =
        let placed = both_parts _ _ p in
        elim (Option-cases (way_up_disk fs folder k d above)) [
          | inl elsewhere ↦
              way_up-Leads ds parent media k ks above ps h.1 placed.1
                (distinct-right (disk_keys d) (disks_keys ds) q) lead
                (λ j s. fresh j (seen_right j (disk_keys d) (disks_keys ds) s))
                (sym (ap (λ r. first_of r (way_up fs folder k ds above)) elsewhere) ∙ e)
          | inr (c, here) ↦
              way_up_disk-Leads d parent media k ks above ps h.0 placed.0
                (distinct-left (disk_keys d) (disks_keys ds) q) lead
                (λ j s. fresh j (seen_left j (disk_keys d) (disks_keys ds) s))
                (here ∙ sym (ap (λ r. first_of r (way_up fs folder k ds above)) here) ∙ e)
        ]

  -- In a MediaRegistry whose disks have a location and UUIDs that all differ, the chain of a disk is the
  -- way up the tree: its location, that of the disk it stands under, and so on to the base.
  pub media_chain-way_up :
      (ds : HardDisks) (leaf_uuid : Text) (ps : List Text)
      → placed_disks fs folder ds ≡ true
      → distinct (disks_keys ds) ≡ true
      → way_up fs folder (uuid_key leaf_uuid) ds [] ≡ some ps
      → media_chain leaf_uuid (walk_disks fs folder ds [] []) ≡ some ps
  unfolding seen
  media_chain-way_up ds leaf_uuid ps p q e =
      let lead =
        way_up-Leads ds [] (walk_disks fs folder ds [] []) (uuid_key leaf_uuid) [] [] ps
          (walk_disks-Holds ds [] [] p q) p q top (λ j s. refl) e in
      media_chain-Leads leaf_uuid lead.1
