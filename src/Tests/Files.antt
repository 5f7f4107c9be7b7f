-- ===== src/Tests/Files.antt =====
-- The file system and the system calls on files.
use lightweight_operating_sy.Prelude.{
  ◌+◌, ℕ, ◌-◌, ◌<◌, ◌≤◌, ◌≡◌, ◌≢◌, ◌⊎◌, inl, inr, refl, some, arith, Memory, min, minus_one, load32,
}
use lightweight_operating_sy.Str.{strlen, strncmp}
use lightweight_operating_sy.Str.Length.{IsCString}
use lightweight_operating_sy.FileSys.{
  read_data, read_dentry_by_name, read_dentry_by_index, file_size, file_type,
}
use lightweight_operating_sy.FileSys.Layout.{IsMounted, IsFile}
use lightweight_operating_sy.FileSys.Lookup.{Found, read_dentry_by_name_lem}
use lightweight_operating_sy.FileSys.ReadData.{ReadInto, read_data-ReadInto}
use lightweight_operating_sy.Kernel.{Kernel}
use lightweight_operating_sy.Syscall.Arguments.{Handed, getargs-Handed}
use lightweight_operating_sy.FileDriver.{file_at, with_file, file_read, dir_read}
use lightweight_operating_sy.FileDriver.Table.{SameElse}
use lightweight_operating_sy.FileDriver.Listing.{IsName, Listed, dir_read_lem}
use lightweight_operating_sy.FileDriver.Reading.{IsRead, file_read_lem}
use lightweight_operating_sy.FileDriver.ToEnd.{IsReadable}
use lightweight_operating_sy.Syscall.{returned, open_file, close, getargs}
use lightweight_operating_sy.Syscall.Descriptors.{IsOpened, open_file_lem, close_lem}
use lightweight_operating_sy.Tests.Data.{shell_block, image, mounted_fs, kernel}

abbrev empty : Memory
empty = λ a. 0

name-IsCString : IsCString image 100 1
name-IsCString = record { filled = λ i h e. ground arith; ended = refl }

pub image-IsMounted : IsMounted image mounted_fs
unfolding load32
image-IsMounted = record { inodes_at = refl; data_at = refl }

pub image-IsFile : IsFile image mounted_fs 0
unfolding load32
image-IsFile = record { exists = omega arith; small = omega arith; blocks_in = λ k h. ground arith }

read_dentry_by_name_lem_example :
    (r : ℕ × Memory) × (read_dentry_by_name 2 image mounted_fs 100 empty ≡ some r)
    × Found image mounted_fs 100 0 empty r
read_dentry_by_name_lem_example =
    read_dentry_by_name_lem image (λ a. ground arith) mounted_fs 100 empty 2 1 (λ e. omega arith)
      name-IsCString (omega arith) (omega arith) (omega arith)

pub first-IsName : IsName image 4160 1
first-IsName = record { filled = λ i h e. ground arith; short = omega arith; ended = inr refl }

dir_read_lem_example :
    ((1 ≤ 0)
      × ((dir_read empty 2 200 8 kernel).0 ≡ 0)
      × ((file_at (dir_read empty 2 200 8 kernel).1 2).file_position ≡ 0)
      × ((dir_read empty 2 200 8 kernel).1.display.mem ≡ image)
      × SameElse kernel (dir_read empty 2 200 8 kernel).1 2)
    ⊎ ((0 < 1)
        × ((dir_read empty 2 200 8 kernel).0 ≡ min 8 1)
        × ((file_at (dir_read empty 2 200 8 kernel).1 2).file_position ≡ 1)
        × Listed image
            (dir_read empty 2 200 8 kernel).1.display.mem
            4160
            200
            (dir_read empty 2 200 8 kernel).0
        × SameElse kernel (dir_read empty 2 200 8 kernel).1 2)
unfolding load32
dir_read_lem_example = dir_read_lem empty 2 200 8 1 kernel (λ h. first-IsName) (inl (omega arith))

read_data-ReadInto_example :
    ((read_data image mounted_fs 0 1 200 10).0 ≡ min 10 (file_size image mounted_fs 0 - 1))
    × ReadInto image
        (read_data image mounted_fs 0 1 200 10).1
        mounted_fs
        0
        1
        200
        (min 10 (file_size image mounted_fs 0 - 1))
unfolding load32
read_data-ReadInto_example =
    read_data-ReadInto image mounted_fs 0 1 200 10 image-IsMounted image-IsFile (omega arith)
      (inl (omega arith))

file_read_lem_example :
    ((0 < 3)
      × ((file_read 2 200 2 kernel).0 ≡ min 2 (3 - 0))
      × IsRead kernel (file_read 2 200 2 kernel).1 2 200 (min 2 (3 - 0)))
    ⊎ ((3 ≤ 0)
        × (file_read 2 200 2 kernel
            ≡ (0, with_file kernel 2 (record (file_at kernel 2) { file_position = 0 }))))
unfolding load32
file_read_lem_example =
    file_read_lem 2 200 kernel 2 image-IsMounted image-IsFile (inl (omega arith))

kernel-IsReadable : IsReadable kernel 2 200 2
kernel-IsReadable = record {
  mounted = image-IsMounted;
  file = image-IsFile;
  apart = inl (omega arith);
  chunk_pos = omega arith;
}

abbrev opened : ℕ × Memory
opened = read_dentry_by_index image mounted_fs 0 empty

lookup_computes : read_dentry_by_name 2 image mounted_fs 100 empty ≡ some opened
unfolding read_dentry_by_name read_dentry_by_index load32 strlen strncmp
lookup_computes = refl

open_file_lem_example :
    ((i : ℕ) × (k' : Kernel) × (open_file 2 0 empty 100 kernel ≡ returned i k')
      × IsOpened kernel k' i
      × (opened.0 ≢ minus_one)
      × (file_type opened.1 ≤ 2))
    ⊎ ((open_file 2 0 empty 100 kernel ≡ returned minus_one kernel)
        × (((t : ℕ) → 2 ≤ t → t < 8 → (file_at kernel t).flags ≢ 0)
            ⊎ ((opened.0 ≡ minus_one) ⊎ (2 < file_type opened.1))))
open_file_lem_example = open_file_lem 2 0 empty 100 kernel opened lookup_computes

close_lem_example :
    (k' : Kernel) × (close 2 kernel ≡ returned 0 k')
    × ((file_at k' 2).flags ≡ 0)
    × ((t : ℕ) → t ≢ 2 → file_at k' t ≡ file_at kernel t)
close_lem_example =
    close_lem 2 kernel (omega arith) (omega arith) (λ e. ground arith) (λ e. ground arith)

abbrev buffer : ℕ
buffer = 200

abbrev length : ℕ
length = 1

-- The shell with "a" as its arguments.
abbrev with_args : Kernel
with_args = record kernel {
  processes = record kernel.processes {
    pcbs = λ p. record shell_block { args = λ a. image (a + 100) };
  };
}

args-IsCString : IsCString (λ a. image (a + 100)) 0 length
args-IsCString = record { filled = λ i h e. ground arith; ended = refl }

getargs-Handed_example :
    (((buffer ≡ 0) ⊎ ((1024 < 128) ⊎ (length ≡ 0)))
      × (getargs buffer 128 with_args ≡ returned minus_one with_args))
    ⊎ ((buffer ≢ 0)
        × (128 ≤ 1024)
        × (0 < length)
        × ((k' : Kernel) × (getargs buffer 128 with_args ≡ returned 0 k')
            × (k'.processes ≡ with_args.processes)
            × Handed image k'.display.mem (λ a. image (a + 100)) length buffer 0 128))
getargs-Handed_example = getargs-Handed buffer 128 length with_args args-IsCString (omega arith)
