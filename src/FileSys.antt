-- ===== src/FileSys.antt =====
-- src/file_sys.c and src/file_sys.h: the read-only file system that is loaded into memory as one
-- image (boot block, inodes, data blocks), and its directory entries. Addresses are those of the
-- kernel's memory; a `dir_entry_t` is 64 bytes, given by their offsets.
pub mod Layout
pub mod Lookup
pub mod ReadData
use lightweight_operating_sy.Prelude.{
  ℕ, zero, suc, ◌+◌, ◌-◌, ◌*◌, ◌/◌, ◌%◌, Bool, ◌||◌, Option, none, some, Memory, update, load32,
  ltb, leb, ◌==◌, if◌then◌else◌, u32, sub32, minus_one,
}
use lightweight_operating_sy.Str.{strlen, strncmp}
use lightweight_operating_sy.Copy.{memcpy}

abbrev pub block_size : ℕ
block_size = 4096

abbrev pub max_file_name : ℕ
max_file_name = 32

abbrev pub dir_entry_size : ℕ
dir_entry_size = 64

-- The three global pointers.
pub record FileSystem : Type 0 where
  pub boot_block : ℕ
  pub inodes : ℕ
  pub data_blocks : ℕ

module _ (m : Memory) (fs : FileSystem) where
  abbrev pub num_dir_entries : ℕ
  num_dir_entries = load32 m fs.boot_block

  abbrev pub num_inodes : ℕ
  num_inodes = load32 m (fs.boot_block + 4)

  abbrev pub num_data_blocks : ℕ
  num_data_blocks = load32 m (fs.boot_block + 8)

  -- `&g_boot_block->dir_entries[i]`: three counters and 52 reserved bytes come first.
  abbrev pub dir_entry : ℕ → ℕ
  dir_entry i = fs.boot_block + 64 + i * dir_entry_size

  -- `&g_inodes[inode]`
  abbrev pub inode_at : ℕ → ℕ
  inode_at inode = fs.inodes + inode * block_size

  -- `g_inodes[inode].size`
  abbrev pub file_size : ℕ → ℕ
  file_size inode = load32 m (inode_at inode)

  -- `g_inodes[inode].blocks[k]`
  abbrev pub inode_block : ℕ → ℕ → ℕ
  inode_block inode k = load32 m (inode_at inode + 4 + k * 4)

unfoldable pub file_system_init : Memory → ℕ → FileSystem
file_system_init m fs_start = record {
  boot_block = fs_start;
  inodes = fs_start + block_size;
  data_blocks = fs_start + (1 + load32 m (fs_start + 4)) * block_size;
}

-- `dentry->file_type` and `dentry->inode_num`
abbrev pub file_type : Memory → ℕ
file_type dentry = load32 dentry 32

abbrev pub inode_num : Memory → ℕ
inode_num dentry = load32 dentry 36

-- `for (i = ...) dentry->field[i] = entry->field[i]` with `left` bytes to go, from offset `i` on
copy_field : ℕ → ℕ → Memory → ℕ → Memory → Memory
copy_field zero i m entry dentry = dentry
copy_field (suc left) i m entry dentry =
    copy_field left (i + 1) m entry (update dentry i (m (entry + i)))

-- The two words are copied first, then the name, then the 24 reserved bytes.
copy_dentry : Memory → ℕ → Memory → Memory
unfolding copy_field
copy_dentry m entry dentry =
    let typed = copy_field 4 32 m entry dentry in
    let numbered = copy_field 4 36 m entry typed in
    let named = copy_field max_file_name 0 m entry numbered in copy_field 24 40 m entry named

-- The result is the return value and `*dentry`. An unsigned index is never below 0.
unfoldable pub read_dentry_by_index : Memory → FileSystem → ℕ → Memory → ℕ × Memory
unfolding copy_dentry
read_dentry_by_index m fs index dentry =
    if leb (num_dir_entries m fs) index
    then (minus_one, dentry)
    else (0, copy_dentry m (dir_entry m fs index) dentry)

-- The loop of `read_dentry_by_name` at entry `i`, with `left` entries to go.
find_dentry : ℕ → ℕ → Memory → FileSystem → ℕ → Memory → ℕ × Memory
find_dentry zero i m fs fname dentry = (minus_one, dentry)
find_dentry (suc left) i m fs fname dentry =
    let rest = find_dentry left (i + 1) m fs fname dentry in
    if strncmp m fname (dir_entry m fs i) max_file_name == 0
    then (i, (read_dentry_by_index m fs i dentry).1)
    else rest

-- `none` means that `strlen` ran out of fuel.
unfoldable pub read_dentry_by_name : ℕ → Memory → FileSystem → ℕ → Memory → Option (ℕ × Memory)
unfolding find_dentry
read_dentry_by_name fuel m fs fname dentry =
    if fname == 0 then some (minus_one, dentry) else elim (strlen fuel m fname) [
      | none ↦ none
      | some len ↦
          if ltb len 1 || ltb max_file_name len
          then some (minus_one, dentry)
          else some (find_dentry (num_dir_entries m fs) 0 m fs fname dentry)
    ]

-- The loop of `read_data` at byte `i` of the file, with `left` rounds to go at most.
read_loop : ℕ → ℕ → ℕ → Memory → FileSystem → ℕ → ℕ → ℕ × Memory
read_loop zero i bytes_read m fs inode buf = (bytes_read, m)
read_loop (suc left) i bytes_read m fs inode buf =
    let block = inode_block m fs inode (i / block_size) in
    let stored =
      memcpy m (buf + bytes_read) (fs.data_blocks + block * block_size + i % block_size) 1 in
    let rest = read_loop left (i + 1) (bytes_read + 1) stored fs inode buf in
    if leb (num_data_blocks m fs) block then (bytes_read, m) else rest

-- `if (length > size - offset) length = size - offset;` on unsigned words
abbrev pub clip : ℕ → ℕ → ℕ → ℕ
clip size offset length = if ltb (sub32 size offset) length then sub32 size offset else length

-- The result is the return value and the memory. The loop ends at `offset + length` as a 32-bit
-- sum; it makes no round if that wrapped below `offset`.
unfoldable pub read_data : Memory → FileSystem → ℕ → ℕ → ℕ → ℕ → ℕ × Memory
unfolding read_loop
read_data m fs inode offset buf length =
    if leb (num_inodes m fs) inode
    then (minus_one, m)
    else let stop = u32 (offset + clip (file_size m fs inode) offset length) in
      read_loop (stop - offset) offset 0 m fs inode buf
