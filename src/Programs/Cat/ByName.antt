-- ===== src/Programs/Cat/ByName.antt =====
-- syscalls/ece391cat.c from its arguments to its end.
use lightweight_operating_sy.Prelude.{
  ℕ, ◌+◌, ◌<◌, ◌≤◌, ◌≡◌, ◌⊎◌, inl, inr, refl, sym, ap, ◌∙◌, arith, false, ◌==◌, ==_ne, minus_one,
  Memory, load32, dec_lt,
}
use lightweight_operating_sy.FileDriver.{file_at, with_file, with_memory}
use lightweight_operating_sy.FileSys.{FileSystem, file_type, inode_num, dir_entry, max_file_name}
use lightweight_operating_sy.FileSys.Layout.{IsMounted, IsFile, IsApart, SameImage, image_end}
use lightweight_operating_sy.FileSys.Lookup.{IsFirst, IsEntry, read_dentry_by_name_lem}
use lightweight_operating_sy.Kernel.{Kernel, current_block}
use lightweight_operating_sy.Process.{file_operations_table}
use lightweight_operating_sy.Programs.Printing.{IsPrinting}
use lightweight_operating_sy.Programs.OnKernel.{Machine}
use lightweight_operating_sy.Screen.{video}
use lightweight_operating_sy.Str.Compare.{IsBytes}
use lightweight_operating_sy.Str.Length.{IsCString}
use lightweight_operating_sy.Syscall
use lightweight_operating_sy.Terminal.Showing.{SameScreens}
use lightweight_operating_sy.Syscall.Arguments.{Handed, copy_args-Handed}
use lightweight_operating_sy.Syscall.Descriptors.{free_fd-IsFree, open_file-found}

-- The memory once `getargs` has copied the arguments to `buf`.
abbrev pub given : Kernel → ℕ → Memory
given k buf = Syscall.copy_args 1024 0 (current_block k).args buf k.display.mem

-- The argument is a name of `n` characters that entry `idx` is the first to have, and that entry is of a
-- sound regular file of a mounted image; a descriptor is free; descriptor 1 is the terminal of a process
-- of terminal `own`, whose cursor is on its page; and the image, the array and the video pages do not
-- overlap.
pub record IsGiven (k : Kernel) (buf own n idx inode : ℕ) : Type 0 where
  pub name : IsCString (current_block k).args 0 n
  pub name_in : (1 ≤ n) × (n ≤ max_file_name)
  pub bytes : IsBytes (given k buf)
  pub first : IsFirst (given k buf) k.fs buf 0 idx
  pub regular : load32 (given k buf) (dir_entry (given k buf) k.fs idx + 32) ≡ 2
  pub its_inode : load32 (given k buf) (dir_entry (given k buf) k.fs idx + 36) ≡ inode
  pub mounted : IsMounted k.display.mem k.fs
  pub file : IsFile k.display.mem k.fs inode
  pub room : (t : ℕ) × (2 ≤ t) × (t < 8) × ((file_at k t).flags ≡ 0)
  pub printing : IsPrinting k own
  pub apart : IsApart k.display.mem k.fs buf 1024
  pub image_apart : (image_end k.display.mem k.fs ≤ video) ⊎ (video + 0x4000 ≤ k.fs.boot_block)
  pub buf_apart : (buf + 1024 ≤ video) ⊎ (video + 0x4000 ≤ buf)
  pub buf_pos : 0 < buf

IsFirst-unique :
    (m : Memory) (fs : FileSystem) (fname i j : ℕ)
    → IsFirst m fs fname 0 i
    → IsFirst m fs fname 0 j
    → i ≡ j
IsFirst-unique m fs fname i j a b = elim (dec_lt i j) [
  | yes lt ↦ absurd (b.first i (omega arith) lt a.agrees)
  | no ge ↦ elim (dec_lt j i) [
    | yes lt ↦ absurd (a.first j (omega arith) lt b.agrees)
    | no ge' ↦ omega arith
  ]
]

load32_bound : (m : Memory) (a : ℕ) → IsBytes m → load32 m a < 0x1_0000_0000
unfolding load32
load32_bound m a bytes = omega (arith, bytes a, bytes (a + 1), bytes (a + 2), bytes (a + 3))

-- A word of the struct is the word of the entry.
entry_word :
    (m : Memory) (entry : ℕ) (d : Memory)
    → IsEntry m entry d
    → (w : ℕ) → w + 4 ≤ 64
    → load32 d w ≡ load32 m (entry + w)
unfolding load32 IsEntry
entry_word m entry d held w h = ground (
  arith,
  held w (omega arith),
  held (w + 1) (omega arith),
  held (w + 2) (omega arith),
  held (w + 3) (omega arith),
)

module _ (k : Kernel) (buf own n idx inode : ℕ) (g : IsGiven k buf own n idx inode) where
  handed : Handed k.display.mem (given k buf) (current_block k).args n buf 0 1024
  handed = copy_args-Handed 1024 0 (current_block k).args n buf k.display.mem g.name (omega arith)

  pub getargs_call : Syscall.getargs buf 1024 k ≡ Syscall.returned 0 (with_memory k (given k buf))
  unfolding Syscall.getargs
  getargs_call =
      let nonnull : (buf == 0) ≡ false = ==_ne buf 0 (λ e. omega (arith, g.buf_pos)) in
      let some_left : ((current_block k).args 0 == 0) ≡ false =
        ==_ne _ 0 (g.name.filled 0 (omega (arith, g.name_in))) in
      rw (nonnull, some_left) refl

  given_name : IsCString (given k buf) buf n
  given_name = record {
    filled = λ i h e. g.name.filled i h (
        ap (current_block k).args (omega arith)
        ∙ sym (handed.inside i (omega arith) (omega (arith, g.name_in)) (omega arith))
        ∙ e);
    ended =
        handed.inside n (omega arith) (omega (arith, g.name_in)) (omega arith)
        ∙ ap (current_block k).args (omega arith)
        ∙ g.name.ended;
  }

  pub given_image : SameImage k.display.mem (given k buf) k.fs
  given_image = record { same = λ a lo hi. handed.outside a (omega (arith, g.apart)) }

  pub given_screens : SameScreens k.display (record k.display { mem = given k buf })
  given_screens = record {
    pages = λ a lo hi. handed.outside a (omega (arith, g.buf_apart));
    cursors = (refl, refl);
  }

  -- The kernel in which the file is opened as descriptor `i`.
  unfoldable pub opened : ℕ → Kernel
  opened i = with_file (with_memory k (given k buf)) i (record (file_at k i) {
    operations_table = file_operations_table;
    inode = inode;
    file_position = 0;
    flags = 1;
  })

  pub open_call :
      (M : Machine)
      → n < M.lookup_fuel
      → (i : ℕ) × (2 ≤ i)
        × (i < 8)
        × (Syscall.open_file M.lookup_fuel M.prev M.stack buf (with_memory k (given k buf))
            ≡ Syscall.returned i (opened i))
  unfolding Syscall.open_as opened IsEntry
  open_call M fuel =
      let k1 = with_memory k (given k buf) in
      let free = free_fd-IsFree 6 2 k1 in
      let i = Syscall.free_fd 6 2 k1 in
      let (t, lo, hi, unused) = g.room in
      let below : i < 8 = elim (dec_lt t i) [
        | yes lt ↦ absurd (free.busy t lo lt unused)
        | no ge ↦ omega arith
      ] in
      let (r, found, what) =
        read_dentry_by_name_lem (given k buf) g.bytes k.fs buf M.stack M.lookup_fuel n
          (λ e. omega (arith, g.buf_pos)) given_name g.name_in.0 g.name_in.1 fuel in
      elim what [
        | inl (j, is, first, entry) ↦
            let same : j ≡ idx = IsFirst-unique (given k buf) k.fs buf j idx first g.first in
            let kind : file_type r.1 ≡ 2 =
              entry_word (given k buf) (dir_entry (given k buf) k.fs j) r.1 entry 32 (omega arith)
              ∙ rw same g.regular in
            let ino : inode_num r.1 ≡ inode =
              entry_word (given k buf) (dir_entry (given k buf) k.fs j) r.1 entry 36 (omega arith)
              ∙ rw same g.its_inode in
            let hit : (r.0 == minus_one) ≡ false = ==_ne r.0 minus_one (λ e.
              omega
                (arith, is, first.within, load32_bound (given k buf) k.fs.boot_block g.bytes)) in
            (
              i,
              free.after,
              below,
              open_file-found M.lookup_fuel M.prev M.stack buf k1 r found
                    (==_ne i 8 (λ e. omega arith)) hit
                  ∙ rw (kind, ino) refl,
            )
        | inr (e, missing) ↦ absurd (missing idx (omega arith) g.first.within g.first.agrees)
      ]
