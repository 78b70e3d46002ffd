-- ===== src/Disk/Vdi/Header.antt =====
-- parseVDIHeader and loadBlockMap: which headers are accepted, and what a written image loads as.
use Prim.Native.Nat.{bit_and}
use quarantine_lab.Prelude.{
  ℕ, ◌-◌, ◌*◌, ◌/◌, ◌^◌, ◌≤◌, ◌<◌, ◌≡◌, ◌≢◌, refl, Option, none, some, List, ◌++◌, arith, ap, sym,
  ◌∙◌, ◌↔◌, replicate, length, ◌==◌, ltb, Bool, true, false, not, ltb-ge, ◌⊎◌, inl, inr,
}
use quarantine_lab.Prelude.Bytes.{le_bytes, le_value-le_bytes}
use quarantine_lab.Disk.Io.{IoError, eof, Read, ReaderAt}
use quarantine_lab.Disk.Vdi.{
  VdiHeader, VdiError, Parsed, ok, refuse, hard_error, not_vdi, truncated_header,
  unsupported_version, header_of, parse_vdi_header, check_fields, read_fields, vdi_signature,
  max_block_map_bytes, u32_at, ◌>>◌,
}

-- A header that the image reader can work with.
pub record IsUsable (hdr : VdiHeader) : Type 0 where
  pub kind_low : 1 ≤ hdr.kind
  pub kind_high : hdr.kind ≤ 4
  pub block_low : 512 ≤ hdr.block_size
  pub block_bits : bit_and hdr.block_size (hdr.block_size - 1) ≡ 0
  pub blocks_pos : hdr.blocks ≢ 0
  pub size_pos : hdr.disk_size ≢ 0
  pub map_pos : hdr.off_blocks ≢ 0
  pub payload_pos : hdr.off_data ≢ 0
  pub map_small : hdr.blocks * 4 ≤ max_block_map_bytes

check_fields-IsUsable :
    (hdr : VdiHeader) {h : VdiHeader} → check_fields hdr ≡ ok h → IsUsable hdr × (h ≡ hdr)
unfolding check_fields
check_fields-IsUsable hdr e = ground arith

check_fields-ok : (hdr : VdiHeader) → IsUsable hdr → check_fields hdr ≡ ok hdr
unfolding check_fields
check_fields-ok hdr u = ground arith

refuse-ok :
    {A : Type 0} (b : Bool) (e : VdiError) (k : Parsed A) {a : A}
    → (refuse b e >> k) ≡ ok a
    → (b ≡ false) × (k ≡ ok a)
refuse-ok false e k h = (refl, h)
refuse-ok true e k h = cc

hard_error-ok :
    {A : Type 0} (o : Option IoError) (k : Parsed A) {a : A}
    → (hard_error o >> k) ≡ ok a
    → ((o ≡ none) ⊎ (o ≡ some eof)) × (k ≡ ok a)
hard_error-ok none k h = (inl refl, h)
hard_error-ok (some eof) k h = (inr refl, h)
hard_error-ok (some e) k h = cc

-- The file starts like a VDI of version 1.x, and is long enough to hold the fields.
pub record IsVdiStart (raw : List ℕ) : Type 0 where
  pub signed : u32_at raw 0x40 ≡ vdi_signature
  pub version : u32_at raw 0x44 / 2 ^ 16 ≡ 1
  pub long_enough : 0x184 ≤ length raw

test_true : (a b : ℕ) → not (a == b) ≡ false → a ≡ b
test_true a b h = ground arith

header_of-ok :
    (out : Read) {hdr : VdiHeader}
    → header_of out ≡ ok hdr
    → IsVdiStart out.bytes
      × IsUsable hdr
      × (hdr ≡ read_fields out.bytes)
      × ((out.err ≡ none) ⊎ (out.err ≡ some eof))
unfolding header_of
header_of-ok out h =
    let raw = out.bytes in
    let (_, h1) = refuse-ok (ltb (length raw) 0x44) not_vdi _ h in
    let (s, h2) = refuse-ok (not (u32_at raw 0x40 == vdi_signature)) not_vdi _ h1 in
    let (o, h3) = hard_error-ok out.err _ h2 in
    let (l, h4) = refuse-ok (ltb (length raw) 0x184) truncated_header _ h3 in
    let (v, h5) =
      refuse-ok (not (u32_at raw 0x44 / 2 ^ 16 == 1)) (unsupported_version (u32_at raw 0x44)) _
        h4 in
    let (u, e) = check_fields-IsUsable (read_fields raw) h5 in
    (
      record {
        signed = test_true (u32_at raw 0x40) vdi_signature s;
        version = test_true (u32_at raw 0x44 / 2 ^ 16) 1 v;
        long_enough = ltb-ge (length raw) 0x184 l;
      },
      rw e u,
      e,
      o,
    )

refuse-false :
    {A : Type 0} (b : Bool) (e : VdiError) (k : Parsed A) → b ≡ false → (refuse b e >> k) ≡ k
refuse-false false e k h = refl
refuse-false true e k h = cc

hard_error-soft :
    {A : Type 0} (o : Option IoError) (k : Parsed A)
    → (o ≡ none) ⊎ (o ≡ some eof)
    → (hard_error o >> k) ≡ k
hard_error-soft none k h = refl
hard_error-soft (some eof) k h = refl
hard_error-soft (some e) k h = ground arith

differs : (a b : ℕ) → a ≡ b → not (a == b) ≡ false
differs a b h = ground arith

lengths : (n : ℕ) → 0x184 ≤ n → (ltb n 0x44 ≡ false) × (ltb n 0x184 ≡ false)
lengths n h = ground arith

header_of-accepts :
    (out : Read)
    → IsVdiStart out.bytes
    → IsUsable (read_fields out.bytes)
    → (out.err ≡ none) ⊎ (out.err ≡ some eof)
    → header_of out ≡ ok (read_fields out.bytes)
unfolding header_of
header_of-accepts out s u o =
    let raw = out.bytes in
    refuse-false (ltb (length raw) 0x44) not_vdi _ ((lengths (length raw) s.long_enough).0)
    ∙ refuse-false (not (u32_at raw 0x40 == vdi_signature)) not_vdi _
        (differs (u32_at raw 0x40) vdi_signature s.signed)
    ∙ hard_error-soft out.err _ o
    ∙ refuse-false (ltb (length raw) 0x184) truncated_header _
        ((lengths (length raw) s.long_enough).1)
    ∙ refuse-false (not (u32_at raw 0x44 / 2 ^ 16 == 1)) (unsupported_version (u32_at raw 0x44)) _
        (differs (u32_at raw 0x44 / 2 ^ 16) 1 s.version)
    ∙ check_fields-ok (read_fields raw) u

-- Exactly which first reads give a header: those that succeed or stop at the end of the file, and
-- hold a VDI of version 1.x with usable fields. The header is those fields.
pub parse_vdi_header_iff :
    (r : ReaderAt) (hdr : VdiHeader)
    → (parse_vdi_header r ≡ ok hdr) ↔ (
        IsVdiStart (r 0 0x190).bytes
        × IsUsable hdr
        × (hdr ≡ read_fields (r 0 0x190).bytes)
        × (((r 0 0x190).err ≡ none) ⊎ ((r 0 0x190).err ≡ some eof)))
unfolding parse_vdi_header
parse_vdi_header_iff r hdr = (
  λ h. header_of-ok (r 0 0x190) h,
  λ (s, u, e, o). header_of-accepts (r 0 0x190) s (rw e at u) o ∙ ap ok (sym e),
)

-- The fields fit their words: six of 32 bits, and the disk's size of 64.
pub record IsWords (hdr : VdiHeader) : Type 0 where
  pub kind_32 : hdr.kind < 2 ^ 32
  pub off_blocks_32 : hdr.off_blocks < 2 ^ 32
  pub off_data_32 : hdr.off_data < 2 ^ 32
  pub disk_size_64 : hdr.disk_size < 2 ^ 64
  pub block_size_32 : hdr.block_size < 2 ^ 32
  pub block_extra_32 : hdr.block_extra < 2 ^ 32
  pub blocks_32 : hdr.blocks < 2 ^ 32

-- The first 0x190 bytes of an image of version 1.1 as VirtualBox lays them out.
unfoldable pub encode_header : VdiHeader → List ℕ
encode_header hdr =
    replicate 0x40 0
    ++ (le_bytes 4 vdi_signature
        ++ (le_bytes 4 0x00010001
            ++ (replicate 4 0
                ++ (le_bytes 4 hdr.kind
                    ++ (replicate 0x104 0
                        ++ (le_bytes 4 hdr.off_blocks
                            ++ (le_bytes 4 hdr.off_data
                                ++ (replicate 0x14 0
                                    ++ (le_bytes 8 hdr.disk_size
                                        ++ (le_bytes 4 hdr.block_size
                                            ++ (le_bytes 4 hdr.block_extra
                                                ++ (le_bytes 4 hdr.blocks
                                                    ++ replicate 0xc 0))))))))))))

read_fields-encode_header : (hdr : VdiHeader) → IsWords hdr → read_fields (encode_header hdr) ≡ hdr
unfolding read_fields encode_header
read_fields-encode_header hdr w = λ i. record {
  kind = le_value-le_bytes 4 hdr.kind w.kind_32 i;
  off_blocks = le_value-le_bytes 4 hdr.off_blocks w.off_blocks_32 i;
  off_data = le_value-le_bytes 4 hdr.off_data w.off_data_32 i;
  disk_size = le_value-le_bytes 8 hdr.disk_size w.disk_size_64 i;
  block_size = le_value-le_bytes 4 hdr.block_size w.block_size_32 i;
  block_extra = le_value-le_bytes 4 hdr.block_extra w.block_extra_32 i;
  blocks = le_value-le_bytes 4 hdr.blocks w.blocks_32 i;
}

encode_header-IsVdiStart : (hdr : VdiHeader) → IsVdiStart (encode_header hdr)
unfolding encode_header
encode_header-IsVdiStart hdr = record { signed = refl; version = refl; long_enough = omega arith }

-- A usable header is read back from a file that has it, with zeros in the fields that are not read.
pub parse_vdi_header-encode_header :
    (r : ReaderAt) (hdr : VdiHeader)
    → IsUsable hdr
    → IsWords hdr
    → r 0 0x190 ≡ record { bytes = encode_header hdr; err = none }
    → parse_vdi_header r ≡ ok hdr
unfolding parse_vdi_header
parse_vdi_header-encode_header r hdr u w e =
    let back = read_fields-encode_header hdr w in
    rw e (
      header_of-accepts (record { bytes = encode_header hdr; err = none })
        (encode_header-IsVdiStart hdr) (rw back u) (inl refl)
      ∙ ap ok back)
