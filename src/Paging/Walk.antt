-- ===== src/Paging/Walk.antt =====
-- How the processor reads the tables, and what the kernel's tables map.
use lightweight_operating_sy.Prelude.{
  ℕ, ◌&&◌, ◌||◌, ◌+◌, ◌*◌, ◌/◌, ◌%◌, ◌<◌, ◌≤◌, ◌≡◌, ◌⊎◌, inl, inr, Bool, false, Option, none, some,
  ◌==◌, if◌then◌else◌, arith, refl, ap, Bool-cases,
}
use lightweight_operating_sy.Kernel.{Paging}
use lightweight_operating_sy.Paging.{
  PdtEntryPage, PdtEntryTable, PtEntry, page_val, pt_val, table_val, pdt_entry_page_setup,
  set_pt_entry, setup_kernel_paging,
}

-- The x86 page walk (32 bits, page size extension) from a directory: the physical address, or `none`
-- for a page fault. Bits 20 to 13 of the entry of a 4 MB page are bits 39 to 32 of the address, and its
-- bit 21 is reserved. `table b` is the page table at physical address `b`.
unfoldable pub walk : (ℕ → ℕ) → (ℕ → ℕ → ℕ) → ℕ → Option ℕ
walk pdt table va =
    let entry = pdt (va / 0x40_0000) in
    let small = table (entry / 0x1000 * 0x1000) (va / 0x1000 % 0x400) in
    if entry % 2 == 0
    then none
    else if entry / 0x80 % 2 == 1
    then if entry / 0x20_0000 % 2 == 1
      then none
      else some
          (entry / 0x2000 % 0x100 * 0x1_0000_0000 + entry / 0x40_0000 * 0x40_0000 + va % 0x40_0000)
    else if small % 2 == 0
    then none
    else some (small / 0x1000 * 0x1000 + va % 0x1000)

-- Whether user code may use the page of `va`: the entry of the directory says so, and for a 4 KB page
-- that of the table as well.
unfoldable pub is_user_page : (ℕ → ℕ) → (ℕ → ℕ → ℕ) → ℕ → Bool
is_user_page pdt table va =
    let entry = pdt (va / 0x40_0000) in
    let small = table (entry / 0x1000 * 0x1000) (va / 0x1000 % 0x400) in
    (entry / 4 % 2 == 1) && ((entry / 0x80 % 2 == 1) || (small / 4 % 2 == 1))

page_val_bits :
    (page : PdtEntryPage) (frame user : ℕ)
    → frame < 0x400
    → user < 2
    → page.address_13_20 % 0x100 ≡ 0
    → (page_val (pdt_entry_page_setup page frame user) % 2 ≡ 1)
      × (page_val (pdt_entry_page_setup page frame user) / 0x80 % 2 ≡ 1)
      × (page_val (pdt_entry_page_setup page frame user) / 0x40_0000 ≡ frame)
      × (page_val (pdt_entry_page_setup page frame user) / 4 % 2 ≡ user)
      × (page_val (pdt_entry_page_setup page frame user) / 0x2000 % 0x100 ≡ 0)
      × (page_val (pdt_entry_page_setup page frame user) / 0x20_0000 % 2 ≡ 0)
unfolding page_val pdt_entry_page_setup
page_val_bits page frame user f u clear =
    (omega arith, omega arith, omega arith, omega arith, omega arith, omega arith)

-- A directory entry that `pdt_entry_page_setup` makes for frame `frame`, from one whose bits 20 to 13,
-- which it does not set, are clear: every address of its 4 MB is mapped to the same offset of the frame, and user code may use it
-- exactly if `user` is 1.
pub pdt_entry_page_setup-walk :
    (page : PdtEntryPage) (frame user va : ℕ) (pdt : ℕ → ℕ) (table : ℕ → ℕ → ℕ)
    → frame < 0x400
    → user < 2
    → page.address_13_20 % 0x100 ≡ 0
    → pdt (va / 0x40_0000) ≡ page_val (pdt_entry_page_setup page frame user)
    → (walk pdt table va ≡ some (frame * 0x40_0000 + va % 0x40_0000))
      × (is_user_page pdt table va ≡ (user == 1))
unfolding walk is_user_page
pdt_entry_page_setup-walk page frame user va pdt table f u clear e =
    let (present, large, base, mode, high, reserved) = page_val_bits page frame user f u clear in
    rw (e, present, large, reserved, high, base, mode)
      (ap (λ (n : ℕ). some n) (omega arith), ground arith)

pt_val_bits :
    (entry : PtEntry) (user offset : ℕ)
    → offset < 4
    → (pt_val (set_pt_entry entry user offset) % 2 ≡ 1)
      × (pt_val (set_pt_entry entry user offset) / 0x1000 ≡ 0xb8 + offset)
unfolding pt_val set_pt_entry
pt_val_bits entry user offset o = (omega arith, omega arith)

module _ (kernal_page : PdtEntryPage) (first_mb : PdtEntryTable) (video : ℕ → PtEntry)
    (pt0_address : ℕ) (g : Paging) (aligned : pt0_address % 0x1000 ≡ 0)
    (low : pt0_address < 0x1_0000_0000) (clear : kernal_page.address_13_20 % 0x100 ≡ 0) where
  abbrev g' : Paging
  g' = setup_kernel_paging kernal_page first_mb video pt0_address g

  first_entry :
      (g'.pdt 0 % 2 ≡ 1)
      × (g'.pdt 0 / 0x80 % 2 ≡ 0)
      × (g'.pdt 0 / 0x1000 * 0x1000 ≡ pt0_address)
      × (g'.pdt 0 / 4 % 2 ≡ 0)
  unfolding setup_kernel_paging table_val
  first_entry = (omega arith, omega arith, omega (arith, aligned, low), omega arith)

  video_page :
      (page : ℕ) → 0xb8 ≤ page → page < 0xbc → (g'.pt0 page % 2 ≡ 1) × (g'.pt0 page / 0x1000 ≡ page)
  unfolding setup_kernel_paging
  video_page page lo hi = elim (Bool-cases (page == 0xb8)) [
    | inl e ↦ let is : page ≡ 0xb8 = ground arith in rw is (pt_val_bits (video 0) 0 0 (omega arith))
    | inr e ↦ elim (Bool-cases (page == 0xb9)) [
      | inl e' ↦
          let is : page ≡ 0xb9 = ground arith in rw is (pt_val_bits (video 1) 0 1 (omega arith))
      | inr e' ↦ elim (Bool-cases (page == 0xba)) [
        | inl e'' ↦
            let is : page ≡ 0xba = ground arith in rw is (pt_val_bits (video 2) 0 2 (omega arith))
        | inr e'' ↦
            let is : page ≡ 0xbb = ground arith in rw is (pt_val_bits (video 3) 0 3 (omega arith))
      ]
    ]
  ]

  -- After `setup_kernel_paging`, with `pt0` on a page boundary and bits 20 to 13 of the local entry, which
  -- the code never sets, clear: every address of the kernel's 4 MB, and
  -- every address of the four pages of video memory (the one shown and the three in the background), is
  -- mapped to itself, and user code may use neither.
  pub setup_kernel_paging-walk :
      (table : ℕ → ℕ → ℕ) (va : ℕ)
      → table pt0_address ≡ g'.pt0
      → ((0x40_0000 ≤ va) × (va < 0x80_0000)) ⊎ ((0xb_8000 ≤ va) × (va < 0xb_c000))
      → (walk g'.pdt table va ≡ some va) × (is_user_page g'.pdt table va ≡ false)
  unfolding walk is_user_page setup_kernel_paging
  setup_kernel_paging-walk table va here (inl (lo, hi)) =
      let dir : va / 0x40_0000 ≡ 1 = omega arith in
      let (present, large, base, mode, high, reserved) =
        page_val_bits kernal_page 1 0 (omega arith) (omega arith) clear in
      rw (dir, present, large, reserved, high, base, mode)
        (ap (λ (n : ℕ). some n) (omega arith), refl)
  setup_kernel_paging-walk table va here (inr (lo, hi)) =
      let dir : va / 0x40_0000 ≡ 0 = omega arith in
      let (present, large, base, mode) = first_entry in
      let (small, page) = video_page (va / 0x1000) (omega arith) (omega arith) in
      let index : va / 0x1000 % 0x400 ≡ va / 0x1000 = omega arith in
      rw (dir, present, large, base, mode, index, here, small, page)
        (ap (λ (n : ℕ). some n) (omega arith), refl)
