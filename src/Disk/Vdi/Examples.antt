-- ===== src/Disk/Vdi/Examples.antt =====
-- Runs of go/internal/disk/vdi.go on small images: a differencing image of two blocks over its base.
use quarantine_lab.Prelude.{
  ℕ, zero, suc, ◌+◌, ◌-◌, ◌^◌, ◌≤◌, ◌<◌, ◌≡◌, ◌⊎◌, inl, true, refl, sym, ap, ◌∙◌, ◌↔◌, none, some,
  List, [], ◌∷◌, ◌++◌, arith, get_or, get_elem?, length, leb, tabulate_from, tabulate_from-congr,
}
use quarantine_lab.Disk.Io.{eof, read_full_at, Read, ReaderAt, IsFile, byte_of}
use quarantine_lab.Disk.Vdi.{
  VdiHeader, Layer, read_fields, VdiImage, base, child, read_at, read_layer, read_blocks, past_end,
  chunk_size, fill, fill_block, from_parent, physical_offset, vdi_block_zero, parse_vdi_header,
  load_vdi_image, ok,
}
use quarantine_lab.Disk.Vdi.Spec.{served, virtual_byte, file_offset, IsSoundImage}
use quarantine_lab.Disk.Vdi.Header.{
  IsVdiStart, IsUsable, IsWords, encode_header, parse_vdi_header_iff,
  parse_vdi_header-encode_header,
}
use quarantine_lab.Disk.Vdi.Load.{map_word, load_vdi_image-IsFile}
use quarantine_lab.Disk.Vdi.Refine.{read_at-served}

abbrev pub byte_at : List ℕ → ℕ → ℕ
byte_at bytes i = get_or bytes i 0

-- A file with the given bytes.
abbrev file_reader : List ℕ → ReaderAt
file_reader bytes off n = served (byte_at bytes) (length bytes) off n

full_read :
    (view : ℕ → ℕ) (size off n : ℕ)
    → off + n ≤ size
    → served view size off n ≡ record { bytes = tabulate_from view off n; err = none }
full_read view size off n h = let fits : leb n (size - off) ≡ true = ground arith in rw fits

byte_of-file_reader :
    (bytes : List ℕ) (i : ℕ) → i < length bytes → byte_of (file_reader bytes) i ≡ byte_at bytes i
byte_of-file_reader bytes i h = let fits : leb 1 (length bytes - i) ≡ true = ground arith in rw fits

file_reader-IsFile :
    (bytes : List ℕ) → length bytes < 2 ^ 63 → IsFile (file_reader bytes) (length bytes)
file_reader-IsFile bytes h = record {
  small = h;
  reads_bytes = λ off n fits.
      ap (λ (o : Read). o.bytes) (full_read (byte_at bytes) (length bytes) off n fits)
      ∙ tabulate_from-congr (byte_at bytes) (byte_of (file_reader bytes)) off off n
          (λ k lt. sym (byte_of-file_reader bytes (off + k) (omega arith)));
  reads_err = λ off n fits.
      inl (ap (λ (o : Read). o.err) (full_read (byte_at bytes) (length bytes) off n fits));
}

-- Two blocks of two bytes; the payload starts at 4.
abbrev small_header : VdiHeader
small_header = record {
  kind = 1;
  off_blocks = 1;
  off_data = 4;
  disk_size = 4;
  block_size = 2;
  block_extra = 0;
  blocks = 2;
}

abbrev leaf : Layer
leaf = record {
  r = file_reader (0 ∷ 0 ∷ 0 ∷ 0 ∷ 7 ∷ 8 ∷ []);
  hdr = small_header;
  bmap = 0xffffffff ∷ 0 ∷ [];
}

abbrev root : Layer
root = record {
  r = file_reader (0 ∷ 0 ∷ 0 ∷ 0 ∷ 1 ∷ 2 ∷ 3 ∷ 4 ∷ []);
  hdr = small_header;
  bmap = 1 ∷ 0xfffffffe ∷ [];
}

abbrev disk : VdiImage
disk = child leaf (base root)

leaf_inside :
    (i be : ℕ)
    → get_elem? leaf.bmap i ≡ some be
    → be < vdi_block_zero
    → file_offset small_header be 2 ≤ 6
leaf_inside zero be e lt = ground arith
leaf_inside (suc zero) be e lt = ground arith
leaf_inside (suc (suc i)) be e lt = cc

root_inside :
    (i be : ℕ)
    → get_elem? root.bmap i ≡ some be
    → be < vdi_block_zero
    → file_offset small_header be 2 ≤ 8
root_inside zero be e lt = ground arith
root_inside (suc zero) be e lt = ground arith
root_inside (suc (suc i)) be e lt = cc

disk-IsSound : IsSoundImage disk
disk-IsSound = (
  6,
  record {
    file = file_reader-IsFile (0 ∷ 0 ∷ 0 ∷ 0 ∷ 7 ∷ 8 ∷ []) (omega arith);
    blocks_pos = omega arith;
    disk_small = omega arith;
    inside = leaf_inside;
  },
  (
    8,
    record {
      file = file_reader-IsFile (0 ∷ 0 ∷ 0 ∷ 0 ∷ 1 ∷ 2 ∷ 3 ∷ 4 ∷ []) (omega arith);
      blocks_pos = omega arith;
      disk_small = omega arith;
      inside = root_inside;
    },
  ),
)

-- The first block comes from the parent, the second from the leaf.
read_disk : read_at disk 1 3 ≡ record { bytes = 4 ∷ 7 ∷ 8 ∷ []; err = none }
unfolding read_at read_layer read_blocks past_end chunk_size fill fill_block from_parent
    physical_offset read_full_at
read_disk = refl

read_at-served_example : read_at disk 1 9 ≡ served (virtual_byte disk) 4 1 9
read_at-served_example = read_at-served disk 1 9 disk-IsSound (omega arith)

-- A header as VirtualBox writes it, with a map of one block behind it.
abbrev pub written : VdiHeader
written = record {
  kind = 4;
  off_blocks = 400;
  off_data = 1024;
  disk_size = 512;
  block_size = 512;
  block_extra = 0;
  blocks = 1;
}

abbrev pub written_file : ReaderAt
written_file off n =
    served (byte_at (encode_header written ++ 0xff ∷ 0xff ∷ 0xff ∷ 0xff ∷ [])) 404 off n

written-IsUsable : IsUsable written
written-IsUsable = record {
  kind_low = omega arith;
  kind_high = omega arith;
  block_low = omega arith;
  block_bits = refl;
  blocks_pos = omega arith;
  size_pos = omega arith;
  map_pos = omega arith;
  payload_pos = omega arith;
  map_small = omega arith;
}

written-IsWords : IsWords written
written-IsWords = omega arith

written_start : written_file 0 0x190 ≡ record { bytes = encode_header written; err = none }
unfolding encode_header
written_start = refl

parse_vdi_header_iff_example : (parse_vdi_header written_file ≡ ok written) ↔ (
    IsVdiStart (written_file 0 0x190).bytes
    × IsUsable written
    × (written ≡ read_fields (written_file 0 0x190).bytes)
    × (((written_file 0 0x190).err ≡ none) ⊎ ((written_file 0 0x190).err ≡ some eof)))
parse_vdi_header_iff_example = parse_vdi_header_iff written_file written

written_file-IsFile : IsFile written_file 404
unfolding encode_header
written_file-IsFile =
    file_reader-IsFile (encode_header written ++ 0xff ∷ 0xff ∷ 0xff ∷ 0xff ∷ []) (omega arith)

abbrev pub written_layer : Layer
written_layer = record {
  r = written_file;
  hdr = written;
  bmap = tabulate_from (map_word (byte_of written_file) 400) 0 1;
}

-- For the files that use it.
pub written_loads : load_vdi_image written_file ≡ ok written_layer
written_loads =
    load_vdi_image-IsFile written_file written 404 written_file-IsFile
      (parse_vdi_header-encode_header written_file written written-IsUsable written-IsWords
        written_start)
      (omega arith)
