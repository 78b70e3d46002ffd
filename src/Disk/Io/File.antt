-- ===== src/Disk/Io/File.antt =====
-- `readFullAt` of go/internal/disk/vdi.go on a file.
use quarantine_lab.Prelude.{
  ℕ, zero, suc, ◌+◌, ◌%◌, ◌^◌, ◌≤◌, ◌≡◌, refl, [], arith, tabulate_from, length-tabulate_from,
  append-nil,
}
use quarantine_lab.Disk.Io.{ReaderAt, full, read_rounds, read_full_at, byte_of, IsFile}

read_rounds_done : (r : ReaderAt) (fuel off : ℕ) → read_rounds r fuel off 0 ≡ full []
unfolding read_rounds
read_rounds_done r zero off = refl
read_rounds_done r (suc fuel) off = refl

-- A read inside a file gives its bytes.
pub read_full_at-IsFile :
    {r : ReaderAt} {size : ℕ} (off n : ℕ)
    → IsFile r size
    → off + n ≤ size
    → read_full_at r off n ≡ full (tabulate_from (byte_of r) off n)
unfolding read_full_at read_rounds
read_full_at-IsFile off zero f h = refl
read_full_at-IsFile {r} off (suc n) f h = ground (
  arith,
  f.reads_bytes off (suc n) h,
  f.reads_err off (suc n) h,
  length-tabulate_from (byte_of r) off (suc n),
  read_rounds_done r n ((off + suc n) % 2 ^ 64),
  append-nil (tabulate_from (byte_of r) off (suc n)),
)
