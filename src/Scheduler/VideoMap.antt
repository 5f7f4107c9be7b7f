-- ===== src/Scheduler/VideoMap.antt =====
-- The user's page of video memory, at 136 MB: as `vidmap` maps it, and as the timer does.
use lightweight_operating_sy.Prelude.{
  ℕ, ◌+◌, ◌*◌, ◌/◌, ◌%◌, ◌<◌, ◌≤◌, ◌≡◌, ◌≢◌, ◌⊎◌, inl, inr, true, some, arith, ◌==◌, Bool-cases,
  if◌then◌else◌, load32,
}
use lightweight_operating_sy.Kernel.{Kernel}
use lightweight_operating_sy.Paging.{PtEntry, pt_val}
use lightweight_operating_sy.Paging.Walk.{walk, is_user_page}
use lightweight_operating_sy.Scheduler.{user_video, handler_page}

-- The physical page of the screen of terminal `own`.
pub screen_page : ℕ → ℕ → ℕ
screen_page cur_terminal own = if cur_terminal == own then 0xb8 else 0xb8 + own

page_entry :
    (entry : PtEntry) (page : ℕ)
    → page < 0x10_0000
    → (pt_val (user_video entry page) % 2 ≡ 1)
      × (pt_val (user_video entry page) / 0x1000 ≡ page)
      × (pt_val (user_video entry page) / 4 % 2 ≡ 1)
unfolding pt_val
page_entry entry page h = (omega arith, omega arith, omega arith)

-- What a successful `vidmap` leaves: the address of the user's window stored at `screen_start`, and the
-- window on the screen `page`, for user code.
pub record IsMapped (k k' : Kernel) (pt_vidmap_address screen_start page : ℕ) : Type 0 where
  pub stored : load32 k'.display.mem screen_start ≡ 0x880_0000
  pub window :
      (table : ℕ → ℕ → ℕ) (offset : ℕ)
      → offset < 0x1000
      → table pt_vidmap_address ≡ k'.paging.pt_vidmap
      → (walk k'.paging.pdt table (0x880_0000 + offset) ≡ some (page * 0x1000 + offset))
        × (is_user_page k'.paging.pdt table (0x880_0000 + offset) ≡ true)

-- The page that the timer maps for the thread it switches to is the thread's screen if that thread is
-- shown; for a thread of the other two terminals it is none of the four pages of video memory.
pub handler_page-misses :
    (entry : PtEntry) (cur_terminal cur_process page : ℕ)
    → 1 ≤ cur_process
    → cur_process ≤ 3
    → ((cur_terminal ≡ cur_process)
        × (pt_val (user_video entry (handler_page cur_terminal cur_process)) / 0x1000
            ≡ screen_page cur_terminal cur_process))
      ⊎ ((cur_terminal ≢ cur_process)
          × (0xb8 ≤ page
              → page ≤ 0xbb
              → pt_val (user_video entry (handler_page cur_terminal cur_process)) / 0x1000 ≢ page))
unfolding handler_page screen_page
handler_page-misses entry cur_terminal cur_process page lo hi =
    elim (Bool-cases (cur_terminal == cur_process)) [
      | inl e ↦
          let (present, shown, user) = page_entry entry 0xb8 (omega arith) in
          rw e (inl (ground arith, shown))
      | inr e ↦
          let (present, hidden, user) = page_entry entry (0xb8000 + cur_process) (omega arith) in
          rw (e, hidden) (inr ((λ same. ground arith), λ plo phi is. omega arith))
    ]
