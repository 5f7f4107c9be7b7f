-- ===== src/FileSys/ReadData.antt =====
-- `read_data` copies the bytes of a file.
use native.Mathlib.Nat.{add-zero}
use native.Mathlib.Numerals.{add-one}
use lightweight_operating_sy.Prelude.{
  ℕ, zero, suc, ◌+◌, ◌-◌, ◌*◌, ◌/◌, ◌%◌, ◌<◌, ◌≤◌, ◌≡◌, ◌⊎◌, refl, arith, Memory, leb, ◌∙◌, ap,
  minus_one, false, min, load32, u32, dec_lt,
}
use lightweight_operating_sy.Copy.{memcpy}
use lightweight_operating_sy.Copy.Region.{Copied, memcpy-Copied}
use lightweight_operating_sy.FileSys.{
  FileSystem, num_inodes, num_data_blocks, inode_block, file_size, block_size, clip, read_loop,
  read_data,
}
use lightweight_operating_sy.FileSys.Layout.{
  IsMounted, IsFile, file_byte, IsApart, load32_frame, image_end,
}

-- `k` bytes of the file from `offset` on are at `buf`, and nothing else changed.
pub record ReadInto (m m' : Memory) (fs : FileSystem) (inode offset buf k : ℕ) : Type 0 where
  pub inside : (j : ℕ) → j < k → m' (buf + j) ≡ file_byte m fs inode (offset + j)
  pub outside : (a : ℕ) → (a < buf) ⊎ (buf + k ≤ a) → m' a ≡ m a

module _ (m : Memory) (fs : FileSystem) (inode offset buf n : ℕ) (mounted : IsMounted m fs)
    (file : IsFile m fs inode) (apart : IsApart m fs buf n)
    (within : offset + n ≤ file_size m fs inode) where
  -- What the loop reads of the image is as it was at the start.
  frame :
      (m1 : Memory) (k a : ℕ)
      → ReadInto m m1 fs inode offset buf k
      → k ≤ n
      → fs.boot_block ≤ a
      → a + 4 ≤ image_end m fs
      → load32 m1 a ≡ load32 m a
  frame m1 k a r le lo hi = load32_frame m m1 a (λ j p q. r.outside j (omega arith))

  -- The address of byte `i` of the file.
  abbrev source : ℕ → ℕ
  source i = fs.data_blocks + inode_block m fs inode (i / block_size) * block_size + i % block_size

  block_in :
      (i : ℕ) → i < offset + n → inode_block m fs inode (i / block_size) < num_data_blocks m fs
  block_in i h = file.blocks_in (i / block_size) (omega arith)

  source_kept :
      (m1 : Memory) (i k : ℕ)
      → ReadInto m m1 fs inode offset buf k
      → suc k ≤ n
      → i ≡ offset + k
      → m1 (source i) ≡ file_byte m fs inode (offset + k)
  unfolding file_byte
  source_kept m1 i k r le e =
      r.outside (source i) (omega (arith, block_in i (omega arith), mounted.data_at))
      ∙ ap (λ t. m (source t)) e

  -- One round of the loop.
  ReadInto-suc :
      (m1 : Memory) (i k : ℕ)
      → ReadInto m m1 fs inode offset buf k
      → suc k ≤ n
      → i ≡ offset + k
      → ReadInto m (memcpy m1 (buf + k) (source i) 1) fs inode offset buf (suc k)
  ReadInto-suc m1 i k r le e = grow _ (memcpy-Copied m1 (buf + k) (source i) 1 (omega arith))
    where
      grow :
          (m2 : Memory)
          → Copied m1 m2 (buf + k) (source i) 1
          → ReadInto m m2 fs inode offset buf (suc k)
      grow m2 c = record {
        inside = λ j h. elim (dec_lt j k) [
          | yes old ↦ c.outside (buf + j) (omega arith) ∙ r.inside j old
          | no new ↦
              ap m2 (omega arith)
              ∙ c.inside 0 (omega arith)
              ∙ ap m1 (add-zero (source i))
              ∙ source_kept m1 i k r le e
              ∙ ap (λ t. file_byte m fs inode (offset + t)) (omega arith)
        ];
        outside = λ a o. c.outside a (omega arith) ∙ r.outside a (omega arith);
      }

  block_kept :
      (m1 : Memory) (i k : ℕ)
      → ReadInto m m1 fs inode offset buf k
      → suc k ≤ n
      → i ≡ offset + k
      → inode_block m1 fs inode (i / block_size) ≡ inode_block m fs inode (i / block_size)
  block_kept m1 i k r le e =
      frame m1 k _ r (omega arith) (omega (arith, mounted.inodes_at))
        (grind (arith, mounted.inodes_at, mounted.data_at, file.exists, file.small))

  count_kept :
      (m1 : Memory) (k : ℕ)
      → ReadInto m m1 fs inode offset buf k
      → k ≤ n
      → num_data_blocks m1 fs ≡ num_data_blocks m fs
  count_kept m1 k r le = frame m1 k _ r le (omega arith) (omega (arith, mounted.data_at))

  -- The loop copies all that is left.
  abbrev Done : ℕ → ℕ × Memory → Type 0
  Done k r = (r.0 ≡ k) × ReadInto m r.1 fs inode offset buf k

  read_loop-Done :
      (left i k end : ℕ) (m1 : Memory)
      → ReadInto m m1 fs inode offset buf k
      → k + left ≡ end
      → end ≤ n
      → i ≡ offset + k
      → Done end (read_loop left i k m1 fs inode buf)
  unfolding read_loop
  read_loop-Done zero i k end m1 r e le at =
      let done : k ≡ end = omega arith in rw (← done) (refl, r)
  read_loop-Done (suc left) i k end m1 r e le at =
      let next = ReadInto-suc m1 i k r (omega arith) at in
      let valid : leb (num_data_blocks m1 fs) (inode_block m1 fs inode (i / block_size)) ≡ false =
        ground (
          arith,
          block_kept m1 i k r (omega arith) at,
          count_kept m1 k r (omega arith),
          block_in i (omega arith),
        ) in
      rw (valid, block_kept m1 i k r (omega arith) at)
        (read_loop-Done left (i + 1) (k + 1) end _ (rw add-one next) (omega arith) le (omega arith))

clip-min :
    (size offset length : ℕ)
    → offset ≤ size
    → size < 0x1_0000_0000
    → clip size offset length ≡ min length (size - offset)
clip-min size offset length h small = ground arith

ReadInto-zero :
    (m : Memory) (fs : FileSystem) (inode offset buf : ℕ) → ReadInto m m fs inode offset buf 0
ReadInto-zero m fs inode offset buf = record { inside = λ j h. elim h [ ]; outside = λ a o. refl }

-- On a mounted image, for a sound file, an offset that is not past its end and a buffer apart from
-- the image, `read_data` returns the smaller of `length` and the bytes left, puts that many bytes of
-- the file from `offset` on at `buf`, and changes nothing else.
pub read_data-ReadInto :
    (m : Memory) (fs : FileSystem) (inode offset buf length : ℕ)
    → IsMounted m fs
    → IsFile m fs inode
    → offset ≤ file_size m fs inode
    → IsApart m fs buf (min length (file_size m fs inode - offset))
    → let (ret, m') = read_data m fs inode offset buf length in
      (ret ≡ min length (file_size m fs inode - offset))
      × ReadInto m m' fs inode offset buf (min length (file_size m fs inode - offset))
unfolding read_data
read_data-ReadInto m fs inode offset buf length mounted file h apart =
    let n = min length (file_size m fs inode - offset) in
    let clipped = clip-min (file_size m fs inode) offset length h (omega (arith, file.small)) in
    let rounds : u32 (offset + n) - offset ≡ n = omega (arith, file.small) in
    let known : leb (num_inodes m fs) inode ≡ false = ground (arith, file.exists) in
    rw (known, clipped, rounds)
      (read_loop-Done m fs inode offset buf n mounted file apart (omega arith) n offset 0 n m
        (ReadInto-zero m fs inode offset buf) (omega arith) (omega arith) (omega arith))

-- `read_data` refuses an inode number that the image does not have, and reads nothing then.
pub read_data_refuses :
    (m : Memory) (fs : FileSystem) (inode offset buf length : ℕ)
    → num_inodes m fs ≤ inode
    → read_data m fs inode offset buf length ≡ (minus_one, m)
unfolding read_data
read_data_refuses m fs inode offset buf length h = ground arith
