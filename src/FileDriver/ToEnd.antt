-- ===== src/FileDriver/ToEnd.antt =====
-- Reading a regular file of src/file_sys.c to its end, chunk by chunk.
use native.Mathlib.Nat.{add-zero, zero-add, suc-add}
use lightweight_operating_sy.Prelude.{
  ℕ, zero, suc, ◌+◌, ◌-◌, ◌<◌, ◌≤◌, ◌≡◌, inl, inr, refl, sym, ap, ap₂, ◌∙◌, arith, false, Option,
  none, some, List, [], ◌∷◌, ◌++◌, Memory, min, ◌==◌, ==_ne, if◌then◌else◌, minus_one,
}
use lightweight_operating_sy.FileSys.{FileSystem, file_size}
use lightweight_operating_sy.FileSys.Layout.{
  IsMounted, IsFile, IsApart, file_byte, SameImage, IsMounted-same, IsFile-same, file_byte_same,
  size_same, blocks_same,
}
use lightweight_operating_sy.Process.{FileDescriptor}
use lightweight_operating_sy.Kernel.{Kernel}
use lightweight_operating_sy.FileDriver.{file_at, with_file, file_read}
use lightweight_operating_sy.FileDriver.Table.{file_at-with_file_self}
use lightweight_operating_sy.FileDriver.Reading.{IsRead, size, pos, file_read_lem}

-- `n` bytes of memory, and `n` bytes of a file.
unfoldable pub bytes_at : Memory → ℕ → ℕ → List ℕ
bytes_at m a zero = []
bytes_at m a (suc n) = m a ∷ bytes_at m (a + 1) n

unfoldable pub file_bytes : Memory → FileSystem → ℕ → ℕ → ℕ → List ℕ
file_bytes m fs inode i zero = []
file_bytes m fs inode i (suc n) = file_byte m fs inode i ∷ file_bytes m fs inode (i + 1) n

pub bytes_at-same :
    (m m' : Memory) (a b n : ℕ)
    → ((j : ℕ) → j < n → m' (b + j) ≡ m (a + j))
    → bytes_at m' b n ≡ bytes_at m a n
unfolding bytes_at
bytes_at-same m m' a b zero h = refl
bytes_at-same m m' a b (suc n) h =
    ap₂ ◌∷◌ (ap m' (sym (add-zero b)) ∙ h 0 (omega arith) ∙ ap m (add-zero a)) (
      bytes_at-same m m' (a + 1) (b + 1) n
        (λ j p. ap m' (omega arith) ∙ h (suc j) (omega arith) ∙ ap m (omega arith)))

pub bytes_at-file_bytes :
    (m m' : Memory) (fs : FileSystem) (inode i a n : ℕ)
    → ((j : ℕ) → j < n → m' (a + j) ≡ file_byte m fs inode (i + j))
    → bytes_at m' a n ≡ file_bytes m fs inode i n
unfolding bytes_at file_bytes
bytes_at-file_bytes m m' fs inode i a zero h = refl
bytes_at-file_bytes m m' fs inode i a (suc n) h =
    ap₂ ◌∷◌ (ap m' (sym (add-zero a)) ∙ h 0 (omega arith) ∙ ap (file_byte m fs inode) (add-zero i))
      (bytes_at-file_bytes m m' fs inode (i + 1) (a + 1) n (λ j p.
        ap m' (omega arith) ∙ h (suc j) (omega arith) ∙ ap (file_byte m fs inode) (omega arith)))

file_bytes-split :
    (m : Memory) (fs : FileSystem) (inode i a b : ℕ)
    → file_bytes m fs inode i (a + b) ≡ file_bytes m fs inode i a ++ file_bytes m fs inode (i + a) b
unfolding file_bytes
file_bytes-split m fs inode i zero b = rw (zero-add, add-zero)
file_bytes-split m fs inode i (suc a) b = rw suc-add (
    ap (λ t. file_byte m fs inode i ∷ t)
      (file_bytes-split m fs inode (i + 1) a b
        ∙ ap (λ (t : ℕ). file_bytes m fs inode (i + 1) a ++ file_bytes m fs inode t b)
            (omega arith)))

pub file_bytes-same :
    (m m' : Memory) (fs : FileSystem) (inode i n : ℕ)
    → ((j : ℕ) → i ≤ j → j < i + n → file_byte m' fs inode j ≡ file_byte m fs inode j)
    → file_bytes m' fs inode i n ≡ file_bytes m fs inode i n
unfolding file_bytes
file_bytes-same m m' fs inode i zero h = refl
file_bytes-same m m' fs inode i (suc n) h =
    ap₂ ◌∷◌ (h i (omega arith) (omega arith))
      (file_bytes-same m m' fs inode (i + 1) n (λ j p q. h j (omega arith) (omega arith)))

-- The loop of a program that reads `chunk` bytes at a time until it gets 0 (src/syscalls/ece391cat.c),
-- with all that it read; `none` if a read fails or the fuel runs out.
pub read_to_end : ℕ → ℕ → ℕ → ℕ → Kernel → Option (List ℕ × Kernel)
read_to_end zero fd buf chunk k = none
read_to_end (suc fuel) fd buf chunk k =
    let (count, k') = file_read fd buf chunk k in
    let rest : Option (List ℕ × Kernel) = elim (read_to_end fuel fd buf chunk k') [
      | none ↦ none
      | some (more, k'') ↦ some (bytes_at k'.display.mem buf count ++ more, k'')
    ] in
    if count == 0 then some ([], k') else if count == minus_one then none else rest

-- The premises of a read: a mounted image, a sound file, a buffer apart from the image.
pub record IsReadable (k : Kernel) (fd buf chunk : ℕ) : Type 0 where
  pub mounted : IsMounted k.display.mem k.fs
  pub file : IsFile k.display.mem k.fs (file_at k fd).inode
  pub apart : IsApart k.display.mem k.fs buf chunk
  pub chunk_pos : 0 < chunk

module _ (fd buf chunk : ℕ) (k k1 : Kernel) (n : ℕ) (ok : IsReadable k fd buf chunk)
    (le : n ≤ chunk) (r : IsRead k k1 fd buf n) where
  pub image_kept : SameImage k.display.mem k1.display.mem k.fs
  image_kept = record { same = λ a lo hi. r.into.outside a (omega (arith, ok.apart)) }

  pub read-IsReadable : IsReadable k1 fd buf chunk
  read-IsReadable = record {
    mounted =
        rw r.same.same_fs (IsMounted-same k.display.mem k1.display.mem k.fs ok.mounted image_kept);
    file =
        rw (r.same.same_fs, r.same_inode)
          (IsFile-same k.display.mem k1.display.mem k.fs ok.mounted image_kept (file_at k fd).inode
            ok.file);
    apart =
        rw (r.same.same_fs, blocks_same k.display.mem k1.display.mem k.fs ok.mounted image_kept)
          ok.apart;
    chunk_pos = ok.chunk_pos;
  }

  pub read_size : size fd buf k1 ≡ size fd buf k
  read_size =
      rw (r.same.same_fs, r.same_inode)
        (size_same k.display.mem k1.display.mem k.fs ok.mounted image_kept (file_at k fd).inode
          ok.file)

  pub read_bytes :
      pos fd buf k + n ≤ size fd buf k
      → bytes_at k1.display.mem buf n
          ++ file_bytes k1.display.mem k1.fs
              (file_at k1 fd).inode
              (pos fd buf k1)
              (size fd buf k1 - pos fd buf k1)
        ≡ file_bytes k.display.mem k.fs
            (file_at k fd).inode
            (pos fd buf k)
            (size fd buf k - pos fd buf k)
  read_bytes within =
      rw (read_size, r.same.same_fs, r.same_inode, r.position)
        (ap₂ ◌++◌ (bytes_at-file_bytes m k1.display.mem k.fs ino p buf n r.into.inside) (
            file_bytes-same m k1.display.mem k.fs ino (p + n) (sz - (p + n)) (λ j lo hi.
              file_byte_same m k1.display.mem k.fs ok.mounted image_kept ino ok.file j
                (omega arith)))
          ∙ sym (file_bytes-split m k.fs ino p n (sz - (p + n)))
          ∙ ap (file_bytes m k.fs ino p) (omega arith))
    where
      m : Memory
      m = k.display.mem

      ino : ℕ
      ino = (file_at k fd).inode

      p : ℕ
      p = pos fd buf k

      sz : ℕ
      sz = size fd buf k

-- Reading to the end of a sound file: from a position that is not past the end, with more fuel than
-- bytes are left and a buffer of `chunk` bytes apart from the image, the loop ends; what it has read is
-- the bytes of the file from the position to the end, in order, and the position is back at 0.
pub read_to_end_lem :
    (fuel fd buf chunk : ℕ) (k : Kernel)
    → IsReadable k fd buf chunk
    → pos fd buf k ≤ size fd buf k
    → size fd buf k - pos fd buf k < fuel
    → (k' : Kernel) × (read_to_end fuel fd buf chunk k
        ≡ some (
          file_bytes k.display.mem k.fs
              (file_at k fd).inode
              (file_at k fd).file_position
              (file_size k.display.mem k.fs (file_at k fd).inode - (file_at k fd).file_position),
          k',
        ))
      × ((file_at k' fd).file_position ≡ 0)
unfolding read_to_end
read_to_end_lem zero fd buf chunk k ok le h = elim h [ ]
read_to_end_lem (suc fuel) fd buf chunk k ok le h =
    elim (file_read_lem fd buf k chunk ok.mounted ok.file (omega (arith, ok.apart))) [
      | inr (past, e) ↦ (
        with_file k fd (record (file_at k fd) { file_position = 0 }),
        at_end past e,
        ap (λ (g : FileDescriptor). g.file_position) (file_at-with_file_self k fd _),
      )
      | inl (before, count, r) ↦
          let n = min chunk (size fd buf k - pos fd buf k) in
          let k1 = (file_read fd buf chunk k).1 in
          let fewer = read_size fd buf chunk k k1 n ok (omega arith) r in
          let (k', e, z) =
            read_to_end_lem fuel fd buf chunk k1
              (read-IsReadable fd buf chunk k k1 n ok (omega arith) r)
              (omega (arith, fewer, r.position)) (omega (arith, fewer, r.position, ok.chunk_pos)) in
          (
            k',
            more (min chunk (size fd buf k - pos fd buf k)) k' count (omega (arith, ok.chunk_pos))
                (omega (arith, ok.file.small)) e
                (read_bytes fd buf chunk k k1 n ok (omega arith) r (omega arith)),
            z,
          )
    ]
  where
    more :
        (n : ℕ) (k' : Kernel)
        → (file_read fd buf chunk k).0 ≡ n
        → 0 < n
        → n < minus_one
        → read_to_end fuel fd buf chunk (file_read fd buf chunk k).1
          ≡ some (
            file_bytes
                (file_read fd buf chunk k).1.display.mem
                (file_read fd buf chunk k).1.fs
                (file_at (file_read fd buf chunk k).1 fd).inode
                (pos fd buf (file_read fd buf chunk k).1)
                (size fd buf (file_read fd buf chunk k).1
                  - pos fd buf (file_read fd buf chunk k).1),
            k',
          )
        → bytes_at (file_read fd buf chunk k).1.display.mem buf n
            ++ file_bytes
                (file_read fd buf chunk k).1.display.mem
                (file_read fd buf chunk k).1.fs
                (file_at (file_read fd buf chunk k).1 fd).inode
                (pos fd buf (file_read fd buf chunk k).1)
                (size fd buf (file_read fd buf chunk k).1 - pos fd buf (file_read fd buf chunk k).1)
          ≡ file_bytes k.display.mem k.fs
              (file_at k fd).inode
              (pos fd buf k)
              (size fd buf k - pos fd buf k)
        → read_to_end (suc fuel) fd buf chunk k
          ≡ some (
            file_bytes k.display.mem k.fs
                (file_at k fd).inode
                (pos fd buf k)
                (size fd buf k - pos fd buf k),
            k',
          )
    more n k' count positive small rest bytes =
        let nonzero : (n == 0) ≡ false = ==_ne n 0 (omega arith) in
        let valid : (n == minus_one) ≡ false = ==_ne n minus_one (omega arith) in
        rw (rest, count, nonzero, valid) (ap (λ t. some (t, k')) bytes)

    at_end :
        size fd buf k ≤ pos fd buf k
        → file_read fd buf chunk k
          ≡ (0, with_file k fd (record (file_at k fd) { file_position = 0 }))
        → read_to_end (suc fuel) fd buf chunk k
          ≡ some (
            file_bytes k.display.mem k.fs
                (file_at k fd).inode
                (file_at k fd).file_position
                (file_size k.display.mem k.fs (file_at k fd).inode - (file_at k fd).file_position),
            with_file k fd (record (file_at k fd) { file_position = 0 }),
          )
    at_end past e =
        let none_left : size fd buf k - pos fd buf k ≡ 0 = omega arith in
        unfold file_bytes in rw (e, none_left)
