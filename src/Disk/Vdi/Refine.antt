-- ===== src/Disk/Vdi/Refine.antt =====
-- (*vdiImage).ReadAt reads the virtual disk that the chain of images stands for.
use native.Mathlib.Nat.{mod-lt}
use quarantine_lab.Prelude.{
  ℕ, zero, suc, ◌+◌, ◌-◌, ◌%◌, ◌^◌, ◌≤◌, ◌<◌, ◌≡◌, refl, Option, none, some, arith, ap, ◌∙◌, sym,
  [], ◌≢◌, leb, ◌==◌, if◌then◌else◌, tabulate_from, tabulate_from-add, tabulate_from-congr,
  Bool-cases, true, false, inl, inr,
}
use quarantine_lab.Disk.Io.{eof, ReaderAt}
use quarantine_lab.Disk.Vdi.{
  VdiHeader, Layer, VdiImage, base, child, chunk_size, past_end, prepend, read_blocks, read_layer,
  read_at,
}
use quarantine_lab.Disk.Vdi.Spec.{layer_byte, virtual_byte, served, size_of, IsSound, IsSoundImage}
use quarantine_lab.Disk.Vdi.Blocks.{Under, fill-bytes}

-- A round takes at least one byte, and stays in the request, in the disk and in the block.
chunk_size_bounds :
    (hdr : VdiHeader) (cur want : ℕ)
    → 0 < hdr.block_size
    → 0 < want
    → cur < hdr.disk_size
    → (0 < chunk_size hdr cur want)
      × (chunk_size hdr cur want ≤ want)
      × (chunk_size hdr cur want ≤ hdr.disk_size - cur)
      × (cur % hdr.block_size + chunk_size hdr cur want ≤ hdr.block_size)
unfolding chunk_size
chunk_size_bounds hdr cur want b w c = ground (arith, mod-lt cur b)

served_step :
    (view : ℕ → ℕ) (size cur n want : ℕ)
    → n ≤ want
    → n ≤ size - cur
    → prepend (tabulate_from view cur n) (served view size (cur + n) (want - n))
      ≡ served view size cur want
served_step view size cur n want a b = ground (
  arith,
  tabulate_from-add view cur n (want - n) (cur + n) refl,
  tabulate_from-add view cur n (size - (cur + n)) (cur + n) refl,
)

served_nothing :
    (view : ℕ → ℕ) (size cur : ℕ) → served view size cur 0 ≡ record { bytes = []; err = none }
served_nothing view size cur = ground arith

served_beyond :
    (view : ℕ → ℕ) (size cur want : ℕ)
    → want ≢ 0
    → size ≤ cur
    → served view size cur want ≡ record { bytes = []; err = some eof }
served_beyond view size cur want w h = let e : size - cur ≡ 0 = omega arith in rw e (ground arith)

past_end-le :
    (hdr : VdiHeader) (cur : ℕ)
    → hdr.disk_size < 2 ^ 63
    → past_end hdr cur ≡ true
    → hdr.disk_size ≤ cur
unfolding past_end
past_end-le hdr cur d h = ground arith

inside-lt : (hdr : VdiHeader) (cur : ℕ) → past_end hdr cur ≡ false → cur < hdr.disk_size
unfolding past_end
inside-lt hdr cur h = ground arith

module _ (l : Layer) (parent : Option ReaderAt) (below : ℕ → ℕ) (size : ℕ) (s : IsSound l size)
    (u : Under parent below) where
  read_blocks-served :
      (fuel cur want : ℕ)
      → want ≤ fuel
      → cur < 2 ^ 63
      → read_blocks l parent fuel cur want ≡ served (layer_byte l below) l.hdr.disk_size cur want
  unfolding read_blocks
  read_blocks-served zero cur want w c =
      let e : want ≡ 0 = omega arith in
      rw e (sym (served_nothing (layer_byte l below) l.hdr.disk_size cur))
  read_blocks-served (suc fuel) cur want w c = elim (Bool-cases (want == 0)) [
    | inl done ↦
        let e : want ≡ 0 = ground arith in
        rw (done, read_blocks)
          (rw e (sym (served_nothing (layer_byte l below) l.hdr.disk_size cur)))
    | inr more ↦ elim (Bool-cases (past_end l.hdr cur)) [
      | inl past ↦
          rw (more, past, read_blocks)
            (sym (
              served_beyond (layer_byte l below) l.hdr.disk_size cur want (ground arith)
                (past_end-le l.hdr cur s.disk_small past)))
      | inr inside ↦
          let n = chunk_size l.hdr cur want in
          let fits =
            chunk_size_bounds l.hdr cur want s.blocks_pos (ground arith)
              (inside-lt l.hdr cur inside) in
          rw (more, inside, read_blocks)
            (rw (fill-bytes l parent below size cur n s u c fits.3, read_blocks)
              (rw
                (read_blocks-served fuel (cur + n) (want - n) (omega arith)
                  (omega (arith, s.disk_small, inside-lt l.hdr cur inside)))
                (served_step (layer_byte l below) l.hdr.disk_size cur n want fits.1 fits.2)))
    ]
  ]

-- The bytes of a file and what stands below it, and 0 beyond the disk.
visible : Layer → (ℕ → ℕ) → ℕ → ℕ
visible l below i = if leb l.hdr.disk_size i then 0 else layer_byte l below i

served_congr :
    (f g : ℕ → ℕ) (size off n : ℕ)
    → ((i : ℕ) → i < size → f i ≡ g i)
    → served f size off n ≡ served g size off n
served_congr f g size off n h = elim (Bool-cases (leb n (size - off))) [
  | inl fits ↦ rw fits (
      ap (λ bs. record { bytes = bs; err = none })
        (tabulate_from-congr f g off off n (λ k lt. h (off + k) (ground arith))))
  | inr past ↦ rw past (
      ap (λ bs. record { bytes = bs; err = some eof })
        (tabulate_from-congr f g off off (size - off) (λ k lt. h (off + k) (omega arith))))
]

read_layer-served :
    (l : Layer) (parent : Option ReaderAt) (below : ℕ → ℕ) (size off n : ℕ)
    → IsSound l size
    → Under parent below
    → off < 2 ^ 63
    → read_layer l parent off n ≡ served (visible l below) l.hdr.disk_size off n
unfolding read_layer visible
read_layer-served l parent below size off n s u h = elim (Bool-cases (n == 0)) [
  | inl nothing ↦
      let e : n ≡ 0 = ground arith in
      rw (nothing, e) (sym (served_nothing (visible l below) l.hdr.disk_size off))
  | inr asked ↦ elim (Bool-cases (past_end l.hdr off)) [
    | inl past ↦
        let nonneg : leb (2 ^ 63) off ≡ false = ground arith in
        rw (asked, nonneg, past)
          (sym (
            served_beyond (visible l below) l.hdr.disk_size off n (ground arith)
              (past_end-le l.hdr off s.disk_small past)))
    | inr inside ↦
        let nonneg : leb (2 ^ 63) off ≡ false = ground arith in
        rw (asked, nonneg, inside)
          (read_blocks-served l parent below size s u n off n (omega arith) h
            ∙ served_congr (layer_byte l below) (visible l below) l.hdr.disk_size off n
                (λ i lt. let under : leb l.hdr.disk_size i ≡ false = ground arith in rw under))
  ]
]

virtual_byte_beyond : (img : VdiImage) (i : ℕ) → size_of img ≤ i → virtual_byte img i ≡ 0
unfolding virtual_byte
virtual_byte_beyond (base l) i h = ground arith
virtual_byte_beyond (child l p) i h = ground arith

-- ReadAt on a chain of sound images gives exactly the bytes of the virtual disk: all that is asked
-- for with no error if the disk holds them, and otherwise the rest of the disk with io.EOF. A
-- differencing image shows its own blocks and its parent's elsewhere.
pub read_at-served :
    (img : VdiImage) (off n : ℕ)
    → IsSoundImage img
    → off < 2 ^ 63
    → read_at img off n ≡ served (virtual_byte img) (size_of img) off n
unfolding read_at virtual_byte visible
read_at-served (base l) off n (size, s) h =
    read_layer-served l none (λ _. 0) size off n s (λ _. refl) h
read_at-served (child l p) off n (size, s, sp) h =
    read_layer-served l (some (read_at p)) (virtual_byte p) size off n s
      (size_of p, record { at = λ o m lt. read_at-served p o m sp lt }, virtual_byte_beyond p) h
