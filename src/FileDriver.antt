-- ===== src/FileDriver.antt =====
-- The drivers of src/file_sys.c for directories and regular files, over the current process's file
-- descriptors. `stack` is what a local `dir_entry_t` and the bytes after it hold before they are written.
pub mod Table
pub mod Reading
pub mod Listing
pub mod ToEnd
use lightweight_operating_sy.Prelude.{
  ℕ, zero, suc, ◌+◌, Option, none, some, Memory, update, leb, ◌==◌, if◌then◌else◌, u32, minus_one,
}
use lightweight_operating_sy.FileSys.{
  FileSystem, num_dir_entries, file_size, read_data, read_dentry_by_index, read_dentry_by_name,
}
use lightweight_operating_sy.Process.{FileDescriptor, ProcessControlBlock}
use lightweight_operating_sy.Kernel.{Kernel, current_block}

abbrev pub file_at : Kernel → ℕ → FileDescriptor
file_at k fd = (current_block k).files fd

-- `current_pcb->files[fd] = f`
abbrev pub with_file : Kernel → ℕ → FileDescriptor → Kernel
with_file k fd f =
    let p = k.processes in
    let block = record (p.pcbs p.current) { files = update (p.pcbs p.current).files fd f } in
    record k { processes = record p { pcbs = update p.pcbs p.current block } }

abbrev pub with_memory : Kernel → Memory → Kernel
with_memory k m = record k { display = record k.display { mem = m } }

-- Each returns the return value and the state.
unfoldable pub file_read : ℕ → ℕ → ℕ → Kernel → ℕ × Kernel
file_read fd buf nbytes k =
    let f = file_at k fd in
    if leb (file_size k.display.mem k.fs f.inode) f.file_position
    then (0, with_file k fd (record f { file_position = 0 }))
    else (let (transfer_size, m) =
          read_data k.display.mem k.fs f.inode f.file_position buf nbytes in
        if transfer_size == minus_one then (minus_one, with_memory k m) else (
          transfer_size,
          with_file (with_memory k m) fd
              (record f { file_position = u32 (f.file_position + transfer_size) }),
        ))

abbrev pub file_write : ℕ
file_write = minus_one

abbrev pub file_close : ℕ
file_close = 0

-- `none`: see `read_dentry_by_name`.
unfoldable pub file_open : ℕ → Memory → ℕ → Kernel → Option ℕ
file_open fuel stack filename k =
    elim (read_dentry_by_name fuel k.display.mem k.fs filename stack) [
      | none ↦ none
      | some (ret, _) ↦ some ret
    ]

-- The loop of `dir_read` with `left` rounds to go: the number of characters, and the memory.
unfoldable pub copy_name : ℕ → ℕ → Memory → ℕ → Memory → ℕ × Memory
copy_name zero i dentry buf m = (i, m)
copy_name (suc left) i dentry buf m =
    let rest = copy_name left (i + 1) dentry buf (update m (buf + i) (dentry i)) in
    if dentry i == 0 then (i, m) else rest

unfoldable pub dir_read : Memory → ℕ → ℕ → ℕ → Kernel → ℕ × Kernel
dir_read stack fd buf nbytes k =
    let f = file_at k fd in
    if leb (num_dir_entries k.display.mem k.fs) f.file_position
    then (0, with_file k fd (record f { file_position = 0 }))
    else (let advanced = with_file k fd (record f { file_position = u32 (f.file_position + 1) }) in
        let (ret, dentry) = read_dentry_by_index k.display.mem k.fs f.file_position stack in
        let (count, m) = copy_name nbytes 0 dentry buf k.display.mem in
        if ret == minus_one then (minus_one, advanced) else (count, with_memory advanced m))

abbrev pub dir_write : ℕ
dir_write = minus_one

abbrev pub dir_close : ℕ
dir_close = 0

-- The copies into the struct at address `p`, from byte `j` on with `left` to go.
unfoldable pub store_entry : ℕ → ℕ → Memory → ℕ → Memory → Memory
store_entry zero j dentry p mem = mem
store_entry (suc left) j dentry p mem =
    store_entry left (j + 1) dentry p (update mem (p + j) (dentry j))

-- The directory entry is written through a pointer that nothing has set: it is the argument
-- `dentry_ptr`, and the 64 bytes there are overwritten when the name is found.
unfoldable pub dir_open : ℕ → ℕ → ℕ → Kernel → Option (ℕ × Kernel)
dir_open fuel dentry_ptr filename k =
    let m = k.display.mem in
    elim (read_dentry_by_name fuel m k.fs filename (λ j. m (dentry_ptr + j))) [
      | none ↦ none
      | some (ret, dentry) ↦
          if ret == minus_one
          then some (minus_one, k)
          else some (0, with_memory k (store_entry 64 0 dentry dentry_ptr m))
    ]
