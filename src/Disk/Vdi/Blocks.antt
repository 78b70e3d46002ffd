-- ===== src/Disk/Vdi/Blocks.antt =====
-- The rounds of (*vdiImage).ReadAt: what one block gives.
use native.Mathlib.Nat.{div-add-mod', div-eq_of_lt-le}
use quarantine_lab.Prelude.{
  ℕ, ◌+◌, ◌-◌, ◌*◌, ◌/◌, ◌%◌, ◌^◌, ◌≤◌, ◌<◌, ◌≡◌, refl, Option, none, some, arith, ap, ◌∙◌, sym,
  leb, ◌==◌, tabulate_from, get_elem?, tabulate_from-add, tabulate_from-congr,
  replicate-eq-tabulate_from, length-tabulate_from, Bool-cases, inl, inr, ◌||◌,
}
use quarantine_lab.Disk.Io.{ReaderAt, byte_of, read_full_at}
use quarantine_lab.Disk.Io.File.{read_full_at-IsFile}
use quarantine_lab.Disk.Vdi.{
  Layer, filled, ask_parent, from_parent, from_file, fill_block, fill, physical_offset,
  vdi_block_zero, vdi_block_free,
}
use quarantine_lab.Disk.Vdi.Spec.{file_offset, block_byte, layer_byte, served, IsSound}

-- The bytes of a position's block that follow it lie in the same block.
div_same_block : (i k b : ℕ) → 0 < b → i % b + k < b → (i + k) / b ≡ i / b
div_same_block i k b p h =
    div-eq_of_lt-le b (omega (arith, div-add-mod' i b)) (omega (arith, div-add-mod' i b))

mod_same_block : (i k b : ℕ) → 0 < b → i % b + k < b → (i + k) % b ≡ i % b + k
mod_same_block i k b p h =
    let e : (i + k) / b * b ≡ i / b * b = ap (λ (t : ℕ). t * b) (div_same_block i k b p h) in
    omega (arith, div-add-mod' i b, div-add-mod' (i + k) b, e)

-- `r` answers every read as a reader of `size` bytes of `view` does.
pub record Serves (r : ReaderAt) (view : ℕ → ℕ) (size : ℕ) : Type 0 where
  pub at : (off n : ℕ) → off < 2 ^ 63 → r off n ≡ served view size off n

-- What the files below hold: nothing, or what the parent serves, and 0 beyond its size.
abbrev pub Under : Option ReaderAt → (ℕ → ℕ) → Type 0
Under none below = (i : ℕ) → below i ≡ 0
Under (some q) below = (size : ℕ) × Serves q below size × ((i : ℕ) → size ≤ i → below i ≡ 0)

-- A short answer, filled up with zeros, is the view's bytes.
from_parent-served :
    (below : ℕ → ℕ) (size cur n : ℕ)
    → ((i : ℕ) → size ≤ i → below i ≡ 0)
    → from_parent (served below size cur n) n ≡ filled (tabulate_from below cur n)
unfolding from_parent
from_parent-served below size cur n beyond = elim (Bool-cases (leb n (size - cur))) [
  | inl fits ↦ rw fits (ground (arith, length-tabulate_from below cur n))
  | inr past ↦ rw past (
      ground (
        arith,
        length-tabulate_from below cur (size - cur),
        replicate-eq-tabulate_from below 0 (cur + (size - cur)) (n - (size - cur))
            (λ k lt. beyond (cur + (size - cur) + k) (omega arith)),
        tabulate_from-add below cur (size - cur) (n - (size - cur)) (cur + (size - cur)) refl,
      ))
]

ask_parent-Under :
    (parent : Option ReaderAt) (below : ℕ → ℕ) (cur n : ℕ)
    → Under parent below
    → cur < 2 ^ 63
    → ask_parent parent cur n ≡ filled (tabulate_from below cur n)
ask_parent-Under none below cur n u h =
    ap filled (replicate-eq-tabulate_from below 0 cur n (λ k _. u (cur + k)))
ask_parent-Under (some q) below cur n (size, s, beyond) h =
    rw (s.at cur n h) (from_parent-served below size cur n beyond)

-- An allocated block of a sound file: the wrap of int64 does nothing, and the bytes are the file's.
allocated :
    (l : Layer) (size be cur n : ℕ)
    → IsSound l size
    → file_offset l.hdr be l.hdr.block_size ≤ size
    → cur % l.hdr.block_size + n ≤ l.hdr.block_size
    → from_file (read_full_at l.r (physical_offset l.hdr be (cur % l.hdr.block_size)) n)
      ≡ filled (tabulate_from (byte_of l.r) (file_offset l.hdr be (cur % l.hdr.block_size)) n)
unfolding physical_offset
allocated l size be cur n s inside h =
    let off = file_offset l.hdr be (cur % l.hdr.block_size) in
    let e : physical_offset l.hdr be (cur % l.hdr.block_size) ≡ off = omega (arith, s.file.small) in
    rw (e, read_full_at-IsFile off n s.file (omega arith))

-- The switch on one map entry gives the bytes that the entry stands for.
fill_block-bytes :
    (l : Layer) (parent : Option ReaderAt) (below : ℕ → ℕ) (view : ℕ → ℕ) (size cur n : ℕ)
    (o : Option ℕ)
    → IsSound l size
    → Under parent below
    → cur < 2 ^ 63
    → cur % l.hdr.block_size + n ≤ l.hdr.block_size
    → ((be : ℕ) → o ≡ some be → be < vdi_block_zero → file_offset l.hdr be l.hdr.block_size ≤ size)
    → ((k : ℕ)
        → k < n
        → block_byte l (below (cur + k)) (cur % l.hdr.block_size + k) o ≡ view (cur + k))
    → fill_block l parent cur n o ≡ filled (tabulate_from view cur n)
unfolding fill_block block_byte
fill_block-bytes l parent below view size cur n none s u c h inside same =
    ap filled (replicate-eq-tabulate_from view 0 cur n (λ k lt. sym (same k lt)))
fill_block-bytes l parent below view size cur n (some be) s u c h inside same =
    elim (Bool-cases (be == vdi_block_zero)) [
      | inl zeroed ↦ rw zeroed (
          ap filled
            (replicate-eq-tabulate_from view 0 cur n (λ k lt. sym (rw zeroed at (same k lt)))))
      | inr kept ↦ elim (Bool-cases (be == vdi_block_free || leb vdi_block_zero be)) [
        | inl free ↦
            rw (kept, free)
              (ask_parent-Under parent below cur n u c
                ∙ ap filled (
                    tabulate_from-congr below view cur cur n
                      (λ k lt. rw (kept, free) at (same k lt))))
        | inr used ↦
            rw (kept, used)
              (allocated l size be cur n s (inside be refl (ground arith)) h
                ∙ ap filled (
                    tabulate_from-congr (byte_of l.r) view _ cur n (λ k lt.
                      let there : file_offset l.hdr be (cur % l.hdr.block_size) + k
                          ≡ file_offset l.hdr be (cur % l.hdr.block_size + k) =
                        omega arith in
                      rw there (rw (kept, used) at (same k lt)))))
      ]
    ]

-- A round inside one block gives the bytes of the disk there.
pub fill-bytes :
    (l : Layer) (parent : Option ReaderAt) (below : ℕ → ℕ) (size cur n : ℕ)
    → IsSound l size
    → Under parent below
    → cur < 2 ^ 63
    → cur % l.hdr.block_size + n ≤ l.hdr.block_size
    → fill l parent cur n ≡ filled (tabulate_from (layer_byte l below) cur n)
unfolding fill layer_byte
fill-bytes l parent below size cur n s u c h =
    fill_block-bytes l parent below (layer_byte l below) size cur n
      (get_elem? l.bmap (cur / l.hdr.block_size)) s u c h (s.inside (cur / l.hdr.block_size))
      λ k lt. rw (
        div_same_block cur k l.hdr.block_size s.blocks_pos (omega arith),
        mod_same_block cur k l.hdr.block_size s.blocks_pos (omega arith),
      )
