-- ===== src/Disk/Vdi.antt =====
-- go/internal/disk/vdi.go: the header and block map of a VirtualBox disk image, and reads of the
-- virtual disk through a chain of differencing images.
pub mod Spec
mod Blocks
pub mod Refine
pub mod Header
pub mod Load
pub mod Examples
use Prim.Native.Nat.{ℕ, zero, suc, ◌+◌, ◌-◌, ◌*◌, ◌/◌, ◌%◌, ◌^◌, bit_and}
use quarantine_lab.Prelude.{
  Bool, true, false, ◌||◌, not, Option, none, some, List, [], ◌∷◌, ◌++◌, ◌==◌, ltb, leb,
  if◌then◌else◌, length, get_elem?, drop, take, replicate,
}
use quarantine_lab.Prelude.Bytes.{slice, le_value}
use quarantine_lab.Disk.Io.{
  IoError, eof, negative_offset, Read, ReaderAt, Full, full, short, read_full_at,
}

abbrev pub vdi_signature : ℕ
vdi_signature = 0xbeda107f

abbrev pub vdi_type_dynamic : ℕ
vdi_type_dynamic = 1

abbrev pub vdi_type_diff : ℕ
vdi_type_diff = 4

abbrev pub vdi_block_free : ℕ
vdi_block_free = 0xffffffff

abbrev pub vdi_block_zero : ℕ
vdi_block_zero = 0xfffffffe

abbrev pub max_block_map_bytes : ℕ
max_block_map_bytes = 64 * 2 ^ 20

pub record VdiHeader : Type 0 where
  pub kind : ℕ
  pub off_blocks : ℕ
  pub off_data : ℕ
  pub disk_size : ℕ
  pub block_size : ℕ
  pub block_extra : ℕ
  pub blocks : ℕ

-- The errors of parseVDIHeader and loadVDIImage.
pub data VdiError : Type 0 where
  not_vdi truncated_header invalid_geometry invalid_offsets : VdiError
  read_failed : IoError → VdiError
  unsupported_version unsupported_type invalid_block_size map_too_large : ℕ → VdiError
  map_failed : IoError → VdiError

pub data Parsed {ℓ} (A : Type ℓ) : Type ℓ where
  ok : A → Parsed A
  err : VdiError → Parsed A

infixl 5 ◌>>=◌ ◌>>◌
abbrev pub ◌>>=◌ {ℓ κ} : {A : Type ℓ} {B : Type κ} → Parsed A → (A → Parsed B) → Parsed B
ok a >>= f = f a
err e >>= f = err e

abbrev pub ◌>>◌ {ℓ} : {B : Type ℓ} → Parsed (Unit {0}) → Parsed B → Parsed B
m >> k = m >>= λ _. k

-- if bad { return nil, e }
abbrev pub refuse : Bool → VdiError → Parsed (Unit {0})
refuse true e = err e
refuse false e = ok tt

-- binary.LittleEndian.Uint32(raw[a : a+4])
abbrev pub u32_at : List ℕ → ℕ → ℕ
u32_at raw a = le_value (slice a (a + 4) raw)

abbrev pub u64_at : List ℕ → ℕ → ℕ
u64_at raw a = le_value (slice a (a + 8) raw)

-- err != nil && err != io.EOF
abbrev pub hard_error : Option IoError → Parsed (Unit {0})
hard_error none = ok tt
hard_error (some eof) = ok tt
hard_error (some e) = err (read_failed e)

pub read_fields : List ℕ → VdiHeader
read_fields raw = record {
  kind = u32_at raw 0x4c;
  off_blocks = u32_at raw 0x154;
  off_data = u32_at raw 0x158;
  disk_size = u64_at raw 0x170;
  block_size = u32_at raw 0x178;
  block_extra = u32_at raw 0x17c;
  blocks = u32_at raw 0x180;
}

-- The checks of parseVDIHeader on the fields, in its order.
pub check_fields : VdiHeader → Parsed VdiHeader
check_fields hdr = do
  refuse (ltb hdr.kind vdi_type_dynamic || ltb vdi_type_diff hdr.kind) (unsupported_type hdr.kind)
  refuse (ltb hdr.block_size 512 || not (bit_and hdr.block_size (hdr.block_size - 1) == 0))
      (invalid_block_size hdr.block_size)
  refuse (hdr.blocks == 0 || hdr.disk_size == 0) invalid_geometry
  refuse (hdr.off_blocks == 0 || hdr.off_data == 0) invalid_offsets
  refuse (ltb max_block_map_bytes (hdr.blocks * 4)) (map_too_large (hdr.blocks * 4))
  ok hdr

-- parseVDIHeader on what its read gave. The buffer behind the bytes that were read is never looked at.
pub header_of : Read → Parsed VdiHeader
header_of out = do
  let raw = out.bytes
  refuse (ltb (length raw) 0x44) not_vdi
  refuse (not (u32_at raw 0x40 == vdi_signature)) not_vdi
  hard_error out.err
  refuse (ltb (length raw) 0x184) truncated_header
  refuse (not (u32_at raw 0x44 / 2 ^ 16 == 1)) (unsupported_version (u32_at raw 0x44))
  check_fields (read_fields raw)

-- parseVDIHeader
pub parse_vdi_header : ReaderAt → Parsed VdiHeader
parse_vdi_header r = header_of (r 0 0x190)

-- One file of a chain: vdiImage without its `parent`.
pub record Layer : Type 0 where
  pub r : ReaderAt
  pub hdr : VdiHeader
  pub bmap : List ℕ

-- vdiImage: `parent` is nil for a `base`.
pub data VdiImage : Type 0 where
  base : Layer → VdiImage
  child : Layer → VdiImage → VdiImage

-- for i := 0; i < n; i++ { bmap[i] = Uint32(raw[i*4:i*4+4]) }
pub decode_map : ℕ → List ℕ → List ℕ
decode_map zero raw = []
decode_map (suc n) raw = le_value (take 4 raw) ∷ decode_map n (drop 4 raw)

abbrev pub map_of : ReaderAt → VdiHeader → Full → Parsed Layer
map_of r hdr (full raw) = ok (record { r = r; hdr = hdr; bmap = decode_map hdr.blocks raw })
map_of r hdr (short e) = err (map_failed e)

-- loadVDIImage with loadBlockMap
pub load_vdi_image : ReaderAt → Parsed Layer
load_vdi_image r = do
  hdr ← parse_vdi_header r
  map_of r hdr (read_full_at r hdr.off_blocks (hdr.blocks * 4))

-- physicalOffset for the map entry `be`, with the wrap of int64.
pub physical_offset : VdiHeader → ℕ → ℕ → ℕ
physical_offset hdr be into =
    (hdr.off_data + be * (hdr.block_size + hdr.block_extra) + hdr.block_extra + into) % 2 ^ 64

-- off >= int64(DiskSize), for a position that is not negative. A size of 2^63 or more is negative.
pub past_end : VdiHeader → ℕ → Bool
past_end hdr cur = leb (2 ^ 63) hdr.disk_size || leb hdr.disk_size cur

-- How many of the `want` bytes at `cur` one round of ReadAt takes: to the end of the request, of the
-- disk, or of the block.
pub chunk_size : VdiHeader → ℕ → ℕ → ℕ
chunk_size hdr cur want =
    let remain = hdr.disk_size - cur in
    let n = if ltb remain want then remain else want in
    let chunk = hdr.block_size - cur % hdr.block_size in if ltb chunk n then chunk else n

-- What a round puts into p[done : done+n], or the bytes and the error that it returns with.
pub data Chunk : Type 0 where
  filled : List ℕ → Chunk
  stopped : List ℕ → IoError → Chunk

-- err != nil && err != io.EOF && nn < n
abbrev pub parent_stop : Option IoError → Option IoError
parent_stop none = none
parent_stop (some eof) = none
parent_stop (some e) = some e

-- The parent's bytes, cleared where it read fewer than `n`.
pub from_parent : Read → ℕ → Chunk
from_parent out n =
    if ltb (length out.bytes) n
    then (elim (parent_stop out.err) [
      | some e ↦ stopped out.bytes e
      | none ↦ filled (out.bytes ++ replicate (n - length out.bytes) 0)
    ])
    else filled out.bytes

abbrev pub ask_parent : Option ReaderAt → ℕ → ℕ → Chunk
ask_parent none cur n = filled (replicate n 0)
ask_parent (some parent) cur n = from_parent (parent cur n) n

abbrev pub from_file : Full → Chunk
from_file (full bs) = filled bs
from_file (short e) = stopped [] e

-- The switch on the map entry of the block. `none` is an index outside the map.
pub fill_block : Layer → Option ReaderAt → ℕ → ℕ → Option ℕ → Chunk
fill_block l parent cur n none = filled (replicate n 0)
fill_block l parent cur n (some be) =
    if be == vdi_block_zero
    then filled (replicate n 0)
    else if be == vdi_block_free || leb vdi_block_zero be
    then ask_parent parent cur n
    else from_file (read_full_at l.r (physical_offset l.hdr be (cur % l.hdr.block_size)) n)

pub fill : Layer → Option ReaderAt → ℕ → ℕ → Chunk
fill l parent cur n = fill_block l parent cur n (get_elem? l.bmap (cur / l.hdr.block_size))

abbrev pub prepend : List ℕ → Read → Read
prepend bs out = record out { bytes = bs ++ out.bytes }

-- `for done < len(p)`, with `want` bytes left. Each round takes a byte or returns, so `want` rounds
-- are enough. `cur` stays below the disk's size, so off+done does not wrap.
pub read_blocks : Layer → Option ReaderAt → ℕ → ℕ → ℕ → Read
read_blocks l parent zero cur want = record { bytes = []; err = none }
read_blocks l parent (suc fuel) cur want = elim (want == 0) [
  | true ↦ record { bytes = []; err = none }
  | false ↦ elim (past_end l.hdr cur) [
    | true ↦ record { bytes = []; err = some eof }
    | false ↦
        let n = chunk_size l.hdr cur want in
        elim (fill l parent cur n) [
          | stopped bs e ↦ record { bytes = bs; err = some e }
          | filled bs ↦ prepend bs (read_blocks l parent fuel (cur + n) (want - n))
        ]
  ]
]

-- (*vdiImage).ReadAt for one file over what its parent answers. `off` is an int64's bit pattern.
pub read_layer : Layer → Option ReaderAt → ReaderAt
read_layer l parent off n =
    if n == 0
    then record { bytes = []; err = none }
    else if leb (2 ^ 63) off
    then record { bytes = []; err = some negative_offset }
    else if past_end l.hdr off
    then record { bytes = []; err = some eof }
    else read_blocks l parent n off n

pub read_at : VdiImage → ReaderAt
read_at (base l) = read_layer l none
read_at (child l p) = read_layer l (some (read_at p))

-- imgs[i].parent = imgs[i+1]: the files of a chain, the leaf first.
unfoldable pub link : Layer → List Layer → VdiImage
link l [] = base l
link l (p ∷ ps) = child l (link p ps)
