-- ===== src/FileSys/Layout.antt =====
-- Where the parts of a file system image lie, and what a sound file in it is.
use lightweight_operating_sy.Prelude.{
  ℕ, ◌+◌, ◌*◌, ◌/◌, ◌%◌, ◌<◌, ◌≤◌, ◌≡◌, ◌⊎◌, refl, sym, ap, ◌∙◌, arith, Memory, load32,
}
use lightweight_operating_sy.FileSys.{
  FileSystem, num_inodes, num_data_blocks, inode_at, inode_block, file_size, block_size,
  file_system_init,
}

-- Inodes follow the boot block, and data blocks follow the inodes.
pub record IsMounted (m : Memory) (fs : FileSystem) : Type 0 where
  pub inodes_at : fs.inodes ≡ fs.boot_block + block_size
  pub data_at : fs.data_blocks ≡ fs.boot_block + (1 + num_inodes m fs) * block_size

pub file_system_init-IsMounted :
    (m : Memory) (fs_start : ℕ) → IsMounted m (file_system_init m fs_start)
unfolding file_system_init
file_system_init-IsMounted m fs_start = record { inodes_at = refl; data_at = refl }

-- An inode of the image, small enough for its table of 1023 blocks, whose blocks are all there.
pub record IsFile (m : Memory) (fs : FileSystem) (inode : ℕ) : Type 0 where
  pub exists : inode < num_inodes m fs
  pub small : file_size m fs inode ≤ 1023 * block_size
  pub blocks_in :
      (k : ℕ)
      → k * block_size < file_size m fs inode
      → inode_block m fs inode k < num_data_blocks m fs

-- Byte `i` of a file: the data block that the inode's table gives, at the offset in the block.
unfoldable pub file_byte : Memory → FileSystem → ℕ → ℕ → ℕ
file_byte m fs inode i =
    m (fs.data_blocks + inode_block m fs inode (i / block_size) * block_size + i % block_size)

-- The address past the last data block.
abbrev pub image_end : Memory → FileSystem → ℕ
image_end m fs = fs.data_blocks + num_data_blocks m fs * block_size

-- A buffer of `n` bytes that no part of the image overlaps.
abbrev pub IsApart : Memory → FileSystem → ℕ → ℕ → Type 0
IsApart m fs buf n = (buf + n ≤ fs.boot_block) ⊎ (image_end m fs ≤ buf)

-- A word is read alike from two memories that agree on its four bytes.
pub load32_frame :
    (m m' : Memory) (a : ℕ) → ((j : ℕ) → a ≤ j → j < a + 4 → m' j ≡ m j) → load32 m' a ≡ load32 m a
unfolding load32
load32_frame m m' a h = ground (arith, h a, h (a + 1), h (a + 2), h (a + 3))

-- The second memory has the same image.
pub record SameImage (m m' : Memory) (fs : FileSystem) : Type 0 where
  pub same : (a : ℕ) → fs.boot_block ≤ a → a < image_end m fs → m' a ≡ m a

module _ (m m' : Memory) (fs : FileSystem) (mounted : IsMounted m fs)
    (kept : SameImage m m' fs) where
  load_same : (a : ℕ) → fs.boot_block ≤ a → a + 4 ≤ image_end m fs → load32 m' a ≡ load32 m a
  load_same a lo hi = load32_frame m m' a (λ j p q. kept.same j (omega arith) (omega arith))

  pub blocks_same : num_data_blocks m' fs ≡ num_data_blocks m fs
  blocks_same = load_same (fs.boot_block + 8) (omega arith) (omega (arith, mounted.data_at))

  inodes_same : num_inodes m' fs ≡ num_inodes m fs
  inodes_same = load_same (fs.boot_block + 4) (omega arith) (omega (arith, mounted.data_at))

  word_same :
      (inode w : ℕ)
      → inode < num_inodes m fs
      → w + 4 ≤ block_size
      → load32 m' (inode_at m fs inode + w) ≡ load32 m (inode_at m fs inode + w)
  word_same inode w known within =
      load_same (inode_at m fs inode + w) (omega (arith, mounted.inodes_at))
        (omega (arith, mounted.inodes_at, mounted.data_at))

  pub IsMounted-same : IsMounted m' fs
  IsMounted-same = record {
    inodes_at = mounted.inodes_at;
    data_at =
        mounted.data_at ∙ ap (λ (t : ℕ). fs.boot_block + (1 + t) * block_size) (sym inodes_same);
  }

  module _ (inode : ℕ) (file : IsFile m fs inode) where
    pub size_same : file_size m' fs inode ≡ file_size m fs inode
    size_same =
        load_same (inode_at m fs inode) (omega (arith, mounted.inodes_at))
          (omega (arith, mounted.inodes_at, mounted.data_at, file.exists))

    block_same :
        (k : ℕ)
        → k * block_size < file_size m fs inode
        → inode_block m' fs inode k ≡ inode_block m fs inode k
    block_same k h =
        load_same (inode_at m fs inode + 4 + k * 4) (omega (arith, mounted.inodes_at))
          (omega (arith, mounted.inodes_at, mounted.data_at, file.exists, file.small))

    pub IsFile-same : IsFile m' fs inode
    IsFile-same = record {
      exists = omega (arith, file.exists, inodes_same);
      small = omega (arith, file.small, size_same);
      blocks_in = λ k h. blocks_in_same k (omega (arith, size_same));
    }
      where
        blocks_in_same :
            (k : ℕ)
            → k * block_size < file_size m fs inode
            → inode_block m' fs inode k < num_data_blocks m' fs
        blocks_in_same k h = omega (arith, block_same k h, file.blocks_in k h, blocks_same)

    pub file_byte_same :
        (i : ℕ) → i < file_size m fs inode → file_byte m' fs inode i ≡ file_byte m fs inode i
    unfolding file_byte
    file_byte_same i h =
        let start : i / block_size * block_size < file_size m fs inode = omega arith in
        ap (λ (t : ℕ). m' (fs.data_blocks + t * block_size + i % block_size)) (block_same _ start)
        ∙ kept.same _ (omega (arith, mounted.data_at)) (omega (arith, file.blocks_in _ start))
