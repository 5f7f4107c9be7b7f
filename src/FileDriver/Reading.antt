-- ===== src/FileDriver/Reading.antt =====
-- What one `file_read` of src/file_sys.c does.
use lightweight_operating_sy.Prelude.{
  ℕ, ◌+◌, ◌-◌, ◌<◌, ◌≤◌, ◌≡◌, ◌⊎◌, inl, inr, refl, ap, ◌∙◌, arith, false, Memory, min, leb, ◌==◌,
  ==_ne, Bool-cases, u32, minus_one,
}
use lightweight_operating_sy.FileSys.{file_size, read_data}
use lightweight_operating_sy.FileSys.Layout.{IsMounted, IsFile, IsApart}
use lightweight_operating_sy.FileSys.ReadData.{ReadInto, read_data-ReadInto}
use lightweight_operating_sy.Process.{FileDescriptor}
use lightweight_operating_sy.Kernel.{Kernel}
use lightweight_operating_sy.FileDriver.{file_at, with_file, with_memory, file_read}
use lightweight_operating_sy.FileDriver.Table.{file_at-with_file_self, SameElse, with_file-SameElse}

-- What one `file_read` before the end does.
pub record IsRead (k k' : Kernel) (fd buf n : ℕ) : Type 0 where
  pub into :
      ReadInto k.display.mem k'.display.mem k.fs
        (file_at k fd).inode
        (file_at k fd).file_position
        buf
        n
  pub position : (file_at k' fd).file_position ≡ (file_at k fd).file_position + n
  pub same_inode : (file_at k' fd).inode ≡ (file_at k fd).inode
  pub same : SameElse k k' fd

module _ (fd buf : ℕ) (k : Kernel) where
  abbrev pub size : ℕ
  size = file_size k.display.mem k.fs (file_at k fd).inode

  abbrev pub pos : ℕ
  pos = (file_at k fd).file_position

  -- On a mounted image and a sound file, with a buffer apart from the image: before the end of the file
  -- `file_read` returns the smaller of `nbytes` and the bytes left, with that many bytes from the
  -- position on in the buffer and the position moved on by as many; at or past the end it returns 0 and
  -- sets the position back to 0.
  pub file_read_lem :
      (nbytes : ℕ)
      → IsMounted k.display.mem k.fs
      → IsFile k.display.mem k.fs (file_at k fd).inode
      → IsApart k.display.mem k.fs buf (min nbytes (size - pos))
      → ((pos < size)
          × ((file_read fd buf nbytes k).0 ≡ min nbytes (size - pos))
          × IsRead k (file_read fd buf nbytes k).1 fd buf (min nbytes (size - pos)))
        ⊎ ((size ≤ pos)
            × (file_read fd buf nbytes k
                ≡ (0, with_file k fd (record (file_at k fd) { file_position = 0 }))))
  unfolding file_read
  file_read_lem nbytes mounted file apart = elim (Bool-cases (leb size pos)) [
    | inl past ↦ rw past (inr (ground arith, refl))
    | inr before ↦
        let lt : pos < size = ground arith in
        let (count, into) =
          read_data-ReadInto k.display.mem k.fs (file_at k fd).inode pos buf nbytes mounted file
            (omega arith) apart in
        let valid : (min nbytes (size - pos) == minus_one) ≡ false =
          ==_ne _ minus_one (omega (arith, file.small)) in
        rw (before, count, valid)
          (inl (
            lt,
            refl,
            record {
              into = into;
              position =
                  ap (λ (g : FileDescriptor). g.file_position)
                    (file_at-with_file_self (with_memory k stored) fd _)
                  ∙ small_sum (omega arith) (omega (arith, file.small));
              same_inode =
                  ap (λ (g : FileDescriptor). g.inode)
                    (file_at-with_file_self (with_memory k stored) fd _);
              same = with_file-SameElse k stored fd _;
            },
          ))
  ]
    where
      stored : Memory
      stored = (read_data k.display.mem k.fs (file_at k fd).inode pos buf nbytes).1

      small_sum :
          pos + min nbytes (size - pos) ≤ size
          → size < 0x1_0000_0000
          → u32 (pos + min nbytes (size - pos)) ≡ pos + min nbytes (size - pos)
      small_sum a b = omega arith
