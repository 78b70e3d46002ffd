-- ===== src/Disk/Vdi/Spec.antt =====
-- What a chain of disk images holds, byte by byte, and what the files of a sound chain are like.
use quarantine_lab.Prelude.{
  ℕ, ◌+◌, ◌-◌, ◌*◌, ◌/◌, ◌%◌, ◌^◌, ◌≤◌, ◌<◌, ◌≡◌, ◌||◌, Option, none, some, ◌==◌, leb,
  if◌then◌else◌, get_elem?, tabulate_from,
}
use quarantine_lab.Disk.Io.{eof, Read, IsFile, byte_of}
use quarantine_lab.Disk.Vdi.{
  VdiHeader, Layer, VdiImage, base, child, vdi_block_free, vdi_block_zero,
}

-- Where a byte of an allocated block stands in the file, in unbounded arithmetic.
abbrev pub file_offset : VdiHeader → ℕ → ℕ → ℕ
file_offset hdr be into =
    hdr.off_data + be * (hdr.block_size + hdr.block_extra) + hdr.block_extra + into

-- A byte of the block with map entry `be`, where the chain below the file holds `below`.
unfoldable pub block_byte : Layer → ℕ → ℕ → Option ℕ → ℕ
block_byte l below into none = 0
block_byte l below into (some be) =
    if be == vdi_block_zero
    then 0
    else if be == vdi_block_free || leb vdi_block_zero be
    then below
    else byte_of l.r (file_offset l.hdr be into)

unfoldable pub layer_byte : Layer → (ℕ → ℕ) → ℕ → ℕ
layer_byte l below i =
    block_byte l (below i) (i % l.hdr.block_size) (get_elem? l.bmap (i / l.hdr.block_size))

abbrev pub size_of : VdiImage → ℕ
size_of (base l) = l.hdr.disk_size
size_of (child l p) = l.hdr.disk_size

-- The byte at a position of the virtual disk. Nothing stands beyond its size.
unfoldable pub virtual_byte : VdiImage → ℕ → ℕ
virtual_byte (base l) i = if leb l.hdr.disk_size i then 0 else layer_byte l (λ _. 0) i
virtual_byte (child l p) i = if leb l.hdr.disk_size i then 0 else layer_byte l (virtual_byte p) i

-- What a reader of `size` bytes answers: all that is asked for, or what is left and io.EOF.
abbrev pub served : (ℕ → ℕ) → ℕ → ℕ → ℕ → Read
served view size off n =
    if leb n (size - off)
    then record { bytes = tabulate_from view off n; err = none }
    else record { bytes = tabulate_from view off (size - off); err = some eof }

-- The blocks that the map allocates lie inside the file.
pub record IsSound (l : Layer) (size : ℕ) : Type 0 where
  pub file : IsFile l.r size
  pub blocks_pos : 0 < l.hdr.block_size
  pub disk_small : l.hdr.disk_size < 2 ^ 63
  pub inside :
      (i be : ℕ)
      → get_elem? l.bmap i ≡ some be
      → be < vdi_block_zero
      → file_offset l.hdr be l.hdr.block_size ≤ size

abbrev pub IsSoundImage : VdiImage → Type 0
IsSoundImage (base l) = (size : ℕ) × IsSound l size
IsSoundImage (child l p) = (size : ℕ) × IsSound l size × IsSoundImage p
