-- ===== src/Disk/Io.antt =====
-- io.ReaderAt and `readFullAt` of go/internal/disk/vdi.go.
pub mod File
use Prim.Native.Nat.{ℕ, zero, suc, ◌+◌, ◌-◌, ◌%◌, ◌^◌, ◌≤◌, ◌<◌}
use quarantine_lab.Prelude.{
  true, false, Option, none, some, List, [], ◌++◌, ◌==◌, length, get_or, if◌then◌else◌,
  tabulate_from, ◌≡◌, ◌⊎◌,
}

pub data IoError : Type 0 where
  eof unexpected_eof negative_offset : IoError
  -- any other error of the reader below, by a number
  failure : ℕ → IoError

-- What one call of ReadAt gives: the first `n` bytes of the buffer, and `err`.
pub record Read : Type 0 where
  pub bytes : List ℕ
  pub err : Option IoError

-- io.ReaderAt, a reader that the code is handed: the offset, an int64 as its bit pattern, and the
-- length of the buffer.
abbrev pub ReaderAt : Type 0
ReaderAt = ℕ → ℕ → Read

pub data Full : Type 0 where
  full : List ℕ → Full
  short : IoError → Full

-- got += n: the bytes read so far stand before those of the later rounds
abbrev pub more : List ℕ → Full → Full
more bs (full rest) = full (bs ++ rest)
more bs (short e) = short e

-- The error that ends readFullAt, when `left` bytes are still missing.
abbrev pub end_error : ℕ → IoError → List ℕ → Full
end_error left eof bs = if left == 0 then full bs else short unexpected_eof
end_error left e bs = short e

-- One round of readFullAt has read `out`; `rest` is the loop's next round.
abbrev pub after_read : ℕ → Read → Full → Full
after_read want out rest = elim out.err [
  | some e ↦ end_error (want - length out.bytes) e out.bytes
  | none ↦ elim (length out.bytes == 0) [
    | true ↦ short unexpected_eof
    | false ↦ more out.bytes rest
  ]
]

-- `for got < len(p)` with `want` bytes left to read at `off`. A round that goes on has read at least
-- one byte, so `want` rounds are enough.
pub read_rounds : ReaderAt → ℕ → ℕ → ℕ → Full
read_rounds r zero off want = elim (want == 0) [ true ↦ full [] | false ↦ short unexpected_eof ]
read_rounds r (suc fuel) off want = elim (want == 0) [
  | true ↦ full []
  | false ↦
      let out = r off want in
      let rest = read_rounds r fuel ((off + length out.bytes) % 2 ^ 64) (want - length out.bytes) in
      after_read want out rest
]

-- readFullAt(r, p, off), with the length of `p`
unfoldable pub read_full_at : ReaderAt → ℕ → ℕ → Full
unfolding read_rounds
read_full_at r off n = read_rounds r n off n

-- The byte that a reader has at an offset.
abbrev pub byte_of : ReaderAt → ℕ → ℕ
byte_of r o = get_or (r o 1).bytes 0 0

-- A file of `size` bytes, as io.ReaderAt documents a full read: all bytes come, and the error is nil
-- or io.EOF.
pub record IsFile (r : ReaderAt) (size : ℕ) : Type 0 where
  pub small : size < 2 ^ 63
  pub reads_bytes : (off n : ℕ) → off + n ≤ size → (r off n).bytes ≡ tabulate_from (byte_of r) off n
  pub reads_err : (off n : ℕ) → off + n ≤ size → ((r off n).err ≡ none) ⊎ ((r off n).err ≡ some eof)
