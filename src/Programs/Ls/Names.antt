-- ===== src/Programs/Ls/Names.antt =====
-- What syscalls/ece391ls.c finds in the directory, and what it prints of it.
use native.Mathlib.Nat.{add-zero}
use lightweight_operating_sy.Prelude.{
  ℕ, zero, suc, ◌+◌, ◌<◌, ◌≤◌, ◌≡◌, ◌≢◌, ◌⊎◌, inl, inr, refl, sym, ap, ap₂, ◌∙◌, arith, some, List,
  [], ◌∷◌, ◌++◌, Memory,
}
use lightweight_operating_sy.FileDriver.{file_at}
use lightweight_operating_sy.FileDriver.Listing.{IsName}
use lightweight_operating_sy.FileDriver.ToEnd.{bytes_at, bytes_at-same}
use lightweight_operating_sy.FileSys.{FileSystem, num_dir_entries, dir_entry}
use lightweight_operating_sy.FileSys.Layout.{load32_frame}
use lightweight_operating_sy.Kernel.{Kernel}
use lightweight_operating_sy.Process.{ReadFunc}
use lightweight_operating_sy.Programs.Printing.{IsPrinting}
use lightweight_operating_sy.Screen.{video}

pub bytes_at-snoc : (m : Memory) (a n : ℕ) → bytes_at m a (suc n) ≡ bytes_at m a n ++ m (a + n) ∷ []
unfolding bytes_at
bytes_at-snoc m a zero = rw add-zero refl
bytes_at-snoc m a (suc n) =
    ap (λ t. m a ∷ t)
      (bytes_at-snoc m (a + 1) n ∙ ap (λ (t : ℕ). bytes_at m (a + 1) n ++ m t ∷ []) (omega arith))

-- The names of `left` entries from entry `i` on, each on a line.
unfoldable pub name_lines : Memory → FileSystem → (ℕ → ℕ) → ℕ → ℕ → List ℕ
name_lines m fs len i zero = []
name_lines m fs len i (suc left) =
    bytes_at m (dir_entry m fs i) (len i) ++ b'\n' ∷ name_lines m fs len (i + 1) left

-- Descriptor `fd` is the directory of an image with at most 63 entries, of which entry `i` has a name of
-- `len i` characters, at least one; the process prints on its terminal; and the boot block, the 33 bytes
-- of the array and the video pages do not overlap.
pub record IsListing (k : Kernel) (fd buf own : ℕ) (len : ℕ → ℕ) : Type 0 where
  pub few : num_dir_entries k.display.mem k.fs ≤ 63
  pub names :
      (i : ℕ)
      → i < num_dir_entries k.display.mem k.fs
      → IsName k.display.mem (dir_entry k.display.mem k.fs i) (len i)
  pub nonempty : (i : ℕ) → i < num_dir_entries k.display.mem k.fs → 0 < len i
  pub fd_in : (2 ≤ fd) × (fd < 8)
  pub reads_dir : (file_at k fd).operations_table.read ≡ some ReadFunc.dir_read
  pub active : (file_at k fd).flags ≢ 0
  pub printing : IsPrinting k own
  pub boot_buf : (buf + 33 ≤ k.fs.boot_block) ⊎ (k.fs.boot_block + 4096 ≤ buf)
  pub boot_video : (k.fs.boot_block + 4096 ≤ video) ⊎ (video + 0x4000 ≤ k.fs.boot_block)
  pub buf_video : (buf + 33 ≤ video) ⊎ (video + 0x4000 ≤ buf)
  pub buf_in : (0 < buf) × (buf + 33 < 0x1_0000_0000)

-- Kernels whose boot block is alike list the same names.
module _ (k k' : Kernel) (fd buf own : ℕ) (len : ℕ → ℕ) (l : IsListing k fd buf own len)
    (same_fs : k'.fs ≡ k.fs)
    (same_boot : (a : ℕ)
      → k.fs.boot_block ≤ a
      → a < k.fs.boot_block + 4096
      → k'.display.mem a ≡ k.display.mem a) where
  pub same_num : num_dir_entries k'.display.mem k'.fs ≡ num_dir_entries k.display.mem k.fs
  same_num = rw same_fs (
      load32_frame k.display.mem k'.display.mem k.fs.boot_block
        (λ j p q. same_boot j p (omega arith)))

  IsName-kept :
      (i : ℕ)
      → i < num_dir_entries k.display.mem k.fs
      → IsName k'.display.mem (dir_entry k.display.mem k.fs i) (len i)
  IsName-kept i h =
      let name = l.names i h in
      let entry = dir_entry k.display.mem k.fs i in
      let kept : (j : ℕ) → j ≤ 32 → k'.display.mem (entry + j) ≡ k.display.mem (entry + j) =
        λ j p. same_boot (entry + j) (omega arith) (omega (arith, l.few)) in
      let small : len i ≤ 32 = name.short in
      record {
        filled = λ j p z. name.filled j p (sym (kept j (omega arith)) ∙ z);
        short = name.short;
        ended = elim name.ended [ inl full ↦ inl full | inr nul ↦ inr (kept (len i) small ∙ nul) ];
      }

  pub name_lines_kept :
      (left i : ℕ)
      → i + left ≤ num_dir_entries k.display.mem k.fs
      → name_lines k'.display.mem k'.fs len i left ≡ name_lines k.display.mem k.fs len i left
  unfolding name_lines
  name_lines_kept zero i h = refl
  name_lines_kept (suc left) i h =
      let entry = dir_entry k.display.mem k.fs i in
      ap₂ (λ x y. x ++ b'\n' ∷ y)
        (rw same_fs (
          bytes_at-same k.display.mem k'.display.mem entry entry (len i) (λ j p.
            same_boot (entry + j) (omega arith)
              (omega (arith, l.few, (l.names i (omega arith)).short)))))
        (name_lines_kept left (i + 1) (omega arith))

  pub IsListing-kept :
      (file_at k' fd).operations_table ≡ (file_at k fd).operations_table
      → (file_at k' fd).flags ≡ (file_at k fd).flags
      → IsPrinting k' own
      → IsListing k' fd buf own len
  IsListing-kept table flags printing = record {
    few = rw same_num l.few;
    names = λ i h. rw same_fs (IsName-kept i (omega (arith, same_num)));
    nonempty = λ i h. l.nonempty i (omega (arith, same_num));
    fd_in = l.fd_in;
    reads_dir = ap (λ t. t.read) table ∙ l.reads_dir;
    active = λ z. l.active (sym flags ∙ z);
    printing = printing;
    boot_buf = rw same_fs l.boot_buf;
    boot_video = rw same_fs l.boot_video;
    buf_video = l.buf_video;
    buf_in = l.buf_in;
  }
