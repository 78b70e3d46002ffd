-- ===== src/Disk/Vdi/Load.antt =====
-- loadVDIImage on a file: the block map that it decodes.
use quarantine_lab.Prelude.{
  ℕ, zero, suc, ◌+◌, ◌*◌, ◌≤◌, ◌≡◌, refl, ◌∷◌, arith, ap, ap₂, sym, tabulate_from,
}
use quarantine_lab.Prelude.Bytes.{le_value}
use quarantine_lab.Disk.Io.{ReaderAt, IsFile, byte_of}
use quarantine_lab.Disk.Io.File.{read_full_at-IsFile}
use quarantine_lab.Disk.Vdi.{VdiHeader, ok, parse_vdi_header, decode_map, load_vdi_image, ◌>>=◌}

-- The little-endian word at entry `i` of the map that starts at `o`.
abbrev pub map_word : (ℕ → ℕ) → ℕ → ℕ → ℕ
map_word f o i = le_value (tabulate_from f (o + 4 * i) 4)

decode_map-tabulate_from :
    (f : ℕ → ℕ) (o i p n : ℕ)
    → o + 4 * i ≡ p
    → decode_map n (tabulate_from f p (n * 4)) ≡ tabulate_from (map_word f o) i n
unfolding decode_map
decode_map-tabulate_from f o i p zero e = refl
decode_map-tabulate_from f o i p (suc n) e =
    let four : suc n * 4 ≡ suc (suc (suc (suc (n * 4)))) = omega arith in
    let on : p + 1 + 1 + 1 + 1 ≡ p + 4 = omega arith in
    rw (four, on)
      (ap₂ ◌∷◌ (ap (λ q. le_value (tabulate_from f q 4)) (sym e))
        (decode_map-tabulate_from f o (i + 1) (p + 4) n (omega arith)))

-- From a file that holds the whole map, the image is loaded with the map's words, one for each block.
pub load_vdi_image-IsFile :
    (r : ReaderAt) (hdr : VdiHeader) (size : ℕ)
    → IsFile r size
    → parse_vdi_header r ≡ ok hdr
    → hdr.off_blocks + hdr.blocks * 4 ≤ size
    → load_vdi_image r
      ≡ ok (record {
        r = r;
        hdr = hdr;
        bmap = tabulate_from (map_word (byte_of r) hdr.off_blocks) 0 hdr.blocks;
      })
unfolding load_vdi_image
load_vdi_image-IsFile r hdr size f p h =
    rw (p, ◌>>=◌)
      (rw (read_full_at-IsFile hdr.off_blocks (hdr.blocks * 4) f h) (
        ap (λ m. ok (record { r = r; hdr = hdr; bmap = m }))
          (decode_map-tabulate_from (byte_of r) hdr.off_blocks 0 hdr.off_blocks hdr.blocks
            (omega arith))))
