-- ===== src/Syscall/Descriptors.antt =====
-- How `open` and `close` use the table of file descriptors, and which calls are refused.
use lightweight_operating_sy.Prelude.{
  ℕ, zero, suc, ◌+◌, ◌<◌, ◌≤◌, ◌≡◌, ◌≢◌, ◌⊎◌, inl, inr, refl, arith, true, false, ◌||◌, Option,
  none, some, Memory, slt, ◌==◌, Bool-cases, minus_one, ==_iff, ==_ne, ap, ◌∙◌,
}
use lightweight_operating_sy.FileSys.{read_dentry_by_name, file_type, inode_num}
use lightweight_operating_sy.Process.{FileDescriptor, CloseFunc}
use lightweight_operating_sy.Kernel.{Kernel, Processes}
use lightweight_operating_sy.FileDriver.{file_at, with_file}
use lightweight_operating_sy.FileDriver.Table.{file_at-with_file_self, file_at-with_file_ne}
use lightweight_operating_sy.Rtc
use lightweight_operating_sy.Syscall.{
  returned, free_fd, open_as, open_file, close, call_close, read, write, bad_fd,
}

-- The first descriptor from `from` on that is not in use, below `stop`, or `stop`.
pub record IsFree (k : Kernel) (from stop i : ℕ) : Type 0 where
  pub after : from ≤ i
  pub before : i ≤ stop
  pub busy : (t : ℕ) → from ≤ t → t < i → (file_at k t).flags ≢ 0
  pub free : i < stop → (file_at k i).flags ≡ 0

pub free_fd-IsFree : (left i : ℕ) (k : Kernel) → IsFree k i (i + left) (free_fd left i k)
unfolding free_fd
free_fd-IsFree zero i k = record {
  after = omega arith;
  before = omega arith;
  busy = λ t p q. absurd (omega arith);
  free = λ p. absurd (omega arith);
}
free_fd-IsFree (suc left) i k = elim (Bool-cases ((file_at k i).flags == 0)) [
  | inl free ↦ rw free (record {
    after = omega arith;
    before = omega arith;
    busy = λ t p q. absurd (omega arith);
    free = λ p. (==_iff _ 0).0 free;
  })
  | inr used ↦ rw used (later _ (λ z. ground arith) (free_fd-IsFree left (i + 1) k))
]
  where
    later :
        (j : ℕ)
        → (file_at k i).flags ≢ 0
        → IsFree k (i + 1) (i + 1 + left) j
        → IsFree k i (i + suc left) j
    later j used f = record {
      after = omega (arith, f.after);
      before = omega (arith, f.before);
      busy = λ t p q z. ground (arith, f.busy t, used);
      free = λ p. f.free (omega arith);
    }

-- A descriptor that `open` has set up from an unused one, all others being as they were.
pub record IsOpened (k k' : Kernel) (i : ℕ) : Type 0 where
  pub at_least_two : 2 ≤ i
  pub below_eight : i < 8
  pub was_free : (file_at k i).flags ≡ 0
  pub lower_busy : (t : ℕ) → 2 ≤ t → t < i → (file_at k t).flags ≢ 0
  pub active : (file_at k' i).flags ≡ 1
  pub at_start : (file_at k' i).file_position ≡ 0
  pub others : (t : ℕ) → t ≢ i → file_at k' t ≡ file_at k t

-- Setting up the first free descriptor opens it.
with_file-IsOpened :
    (k : Kernel) (i : ℕ) (f : FileDescriptor)
    → i < 8
    → IsFree k 2 8 i
    → f.flags ≡ 1
    → f.file_position ≡ 0
    → IsOpened k (with_file k i f) i
with_file-IsOpened k i f h free flags position = record {
  at_least_two = free.after;
  below_eight = h;
  was_free = free.free h;
  lower_busy = free.busy;
  active = ap (λ (g : FileDescriptor). g.flags) (file_at-with_file_self k i f) ∙ flags;
  at_start = ap (λ (g : FileDescriptor). g.file_position) (file_at-with_file_self k i f) ∙ position;
  others = λ t ne. file_at-with_file_ne k i t f ne;
}

open_as_lem :
    (prev kind inode i : ℕ) (k : Kernel)
    → i < 8
    → IsFree k 2 8 i
    → ((kind ≤ 2)
        × ((k' : Kernel) × (open_as prev kind inode i k ≡ returned i k') × IsOpened k k' i))
      ⊎ ((2 < kind) × (open_as prev kind inode i k ≡ returned minus_one k))
unfolding open_as Rtc.rtc_open
open_as_lem prev kind inode i k h f = elim (Bool-cases (kind == 0)) [
  | inl rtc ↦
      rw rtc
        (inl (ground arith, (_, refl, elsewhere _ _ refl (with_file-IsOpened k i _ h f refl refl))))
  | inr not0 ↦ elim (Bool-cases (kind == 1)) [
    | inl dir ↦
        rw (not0, dir) (inl (ground arith, (_, refl, with_file-IsOpened k i _ h f refl refl)))
    | inr not1 ↦ elim (Bool-cases (kind == 2)) [
      | inl reg ↦
          rw (not0, not1, reg)
            (inl (ground arith, (_, refl, with_file-IsOpened k i _ h f refl refl)))
      | inr not2 ↦ rw (not0, not1, not2) (inr (ground arith, refl))
    ]
  ]
]
  where
    -- What else changes in the kernel does not matter.
    elsewhere :
        (k' k'' : Kernel) → k''.processes ≡ k'.processes → IsOpened k k' i → IsOpened k k'' i
    elsewhere k' k'' e o = record {
      at_least_two = o.at_least_two;
      below_eight = o.below_eight;
      was_free = o.was_free;
      lower_busy = o.lower_busy;
      active = ap (λ (p : Processes). ((p.pcbs p.current).files i).flags) e ∙ o.active;
      at_start = ap (λ (p : Processes). ((p.pcbs p.current).files i).file_position) e ∙ o.at_start;
      others = λ t ne. ap (λ (p : Processes). (p.pcbs p.current).files t) e ∙ o.others t ne;
    }

open_file-full :
    (fuel prev : ℕ) (stack : Memory) (filename : ℕ) (k : Kernel)
    → (free_fd 6 2 k == 8) ≡ true
    → open_file fuel prev stack filename k ≡ returned minus_one k
unfolding open_file
open_file-full fuel prev stack filename k full = rw full

open_file-missing :
    (fuel prev : ℕ) (stack : Memory) (filename : ℕ) (k : Kernel) (found : ℕ × Memory)
    → read_dentry_by_name fuel k.display.mem k.fs filename stack ≡ some found
    → (found.0 == minus_one) ≡ true
    → open_file fuel prev stack filename k ≡ returned minus_one k
unfolding open_file
open_file-missing fuel prev stack filename k found e missing =
    elim (Bool-cases (free_fd 6 2 k == 8)) [
      | inl full ↦ rw full
      | inr room ↦ rw (room, e, open_file) (rw missing)
    ]

pub open_file-found :
    (fuel prev : ℕ) (stack : Memory) (filename : ℕ) (k : Kernel) (found : ℕ × Memory)
    → read_dentry_by_name fuel k.display.mem k.fs filename stack ≡ some found
    → (free_fd 6 2 k == 8) ≡ false
    → (found.0 == minus_one) ≡ false
    → open_file fuel prev stack filename k
      ≡ open_as prev (file_type found.1) (inode_num found.1) (free_fd 6 2 k) k
unfolding open_file
open_file-found fuel prev stack filename k found e room hit = rw (room, e, open_file) (rw hit)

-- Every call of `open` whose name lookup ends returns. It returns -1 and changes nothing if the six
-- descriptors from 2 on are in use, if the lookup finds no entry, or if the entry's type is above 2; in
-- every other case it returns the lowest of those descriptors that was not in use, which is now active
-- at position 0, with the other descriptors as they were.
pub open_file_lem :
    (fuel prev : ℕ) (stack : Memory) (filename : ℕ) (k : Kernel) (found : ℕ × Memory)
    → read_dentry_by_name fuel k.display.mem k.fs filename stack ≡ some found
    → ((i : ℕ) × (k' : Kernel) × (open_file fuel prev stack filename k ≡ returned i k')
        × IsOpened k k' i
        × (found.0 ≢ minus_one)
        × (file_type found.1 ≤ 2))
      ⊎ ((open_file fuel prev stack filename k ≡ returned minus_one k)
          × (((t : ℕ) → 2 ≤ t → t < 8 → (file_at k t).flags ≢ 0)
              ⊎ ((found.0 ≡ minus_one) ⊎ (2 < file_type found.1))))
open_file_lem fuel prev stack filename k found e = elim (Bool-cases (free_fd 6 2 k == 8)) [
  | inl full ↦ inr (
    open_file-full fuel prev stack filename k full,
    inl (λ t p q. slot.busy t p (ground (arith, full))),
  )
  | inr room ↦ elim (Bool-cases (found.0 == minus_one)) [
    | inl missing ↦ inr (
      open_file-missing fuel prev stack filename k found e missing,
      inr (inl ((==_iff found.0 minus_one).0 missing)),
    )
    | inr hit ↦
        let same = open_file-found fuel prev stack filename k found e room hit in
        elim (open_as_lem prev (file_type found.1) (inode_num found.1) (free_fd 6 2 k) k
          (ground (arith, room, slot.before)) slot) [
            | inl (le, (k', eq, o)) ↦
                inl (free_fd 6 2 k, k', same ∙ eq, o, (λ z. ground (arith, hit, z)), le)
            | inr (gt, eq) ↦ inr (same ∙ eq, inr (inr gt))
          ]
  ]
]
  where
    slot : IsFree k 2 8 (free_fd 6 2 k)
    slot = free_fd-IsFree 6 2 k

-- A descriptor from 2 to 7 that is in use, with a close function as every table that `open` installs
-- has, is closed with result 0: it is not in use afterwards, and the others are as they were.
pub close_lem :
    (fd : ℕ) (k : Kernel)
    → 2 ≤ fd
    → fd < 8
    → (file_at k fd).flags ≢ 0
    → (file_at k fd).operations_table.close ≢ none
    → (k' : Kernel) × (close fd k ≡ returned 0 k')
      × ((file_at k' fd).flags ≡ 0)
      × ((t : ℕ) → t ≢ fd → file_at k' t ≡ file_at k t)
unfolding close
close_lem fd k lo hi used has = (
  freed,
  rw (fd_ok, ==_ne (file_at k fd).flags 0 used) (always _ has),
  ap (λ (g : FileDescriptor). g.flags) (file_at-with_file_self k fd _),
  λ t ne. file_at-with_file_ne k fd t _ ne,
)
  where
    freed : Kernel
    freed = with_file k fd (record (file_at k fd) { flags = 0 })

    fd_ok : (slt fd 2 || slt 7 fd) ≡ false
    fd_ok = ground arith

    always : (f : Option CloseFunc) → f ≢ none → call_close f freed ≡ returned 0 freed
    always f h = unfold call_close in ground arith

-- The calls that every descriptor refuses: `read` and `write` with a descriptor outside 0 to 7, a null
-- buffer, a negative count or a descriptor that is not in use, `read` of 1 and `write` of 0, and `close`
-- outside 2 to 7 or of one not in use, return -1 and change nothing.
pub refused :
    (stack : Memory) (fd buf nbytes : ℕ) (k : Kernel)
    → (((bad_fd fd ≡ true) ⊎ ((buf ≡ 0) ⊎ ((slt nbytes 0 ≡ true) ⊎ ((file_at k fd).flags ≡ 0))))
        → (read stack fd buf nbytes k ≡ returned minus_one k)
          × (write fd buf nbytes k ≡ returned minus_one k))
      × (read stack 1 buf nbytes k ≡ returned minus_one k)
      × (write 0 buf nbytes k ≡ returned minus_one k)
      × ((slt fd 2 ≡ true) ⊎ ((slt 7 fd ≡ true) ⊎ ((file_at k fd).flags ≡ 0))
          → close fd k ≡ returned minus_one k)
unfolding read write close
refused stack fd buf nbytes k =
    (λ o. (ground arith, ground arith), ground arith, ground arith, λ o. ground arith)
