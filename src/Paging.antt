-- ===== src/Paging.antt =====
-- src/paging.c and the entry layouts of src/x86_desc.h. An entry that a function fills field by field
-- starts as whatever the stack holds: that value is an argument.
pub mod Walk
use lightweight_operating_sy.Prelude.{ℕ, ◌+◌, ◌*◌, ◌/◌, ◌%◌, update}
use lightweight_operating_sy.Kernel.{Paging}

-- `pdt_entry_page_t`
pub record PdtEntryPage : Type 0 where
  pub p : ℕ
  pub rw : ℕ
  pub us : ℕ
  pub pwt : ℕ
  pub pcd : ℕ
  pub a : ℕ
  pub d : ℕ
  pub ps : ℕ
  pub g : ℕ
  pub avl : ℕ
  pub pat : ℕ
  pub address_13_20 : ℕ
  pub reserved : ℕ
  pub address_22_31 : ℕ

-- Its `val`.
unfoldable pub page_val : PdtEntryPage → ℕ
page_val e =
    e.p % 2
    + 0x2 * (e.rw % 2)
    + 0x4 * (e.us % 2)
    + 0x8 * (e.pwt % 2)
    + 0x10 * (e.pcd % 2)
    + 0x20 * (e.a % 2)
    + 0x40 * (e.d % 2)
    + 0x80 * (e.ps % 2)
    + 0x100 * (e.g % 2)
    + 0x200 * (e.avl % 8)
    + 0x1000 * (e.pat % 2)
    + 0x2000 * (e.address_13_20 % 0x100)
    + 0x20_0000 * (e.reserved % 2)
    + 0x40_0000 * (e.address_22_31 % 0x400)

-- `pt_entry_t`
pub record PtEntry : Type 0 where
  pub p : ℕ
  pub rw : ℕ
  pub us : ℕ
  pub pwt : ℕ
  pub pcd : ℕ
  pub a : ℕ
  pub d : ℕ
  pub pat : ℕ
  pub g : ℕ
  pub avl : ℕ
  pub address_31_12 : ℕ

unfoldable pub pt_val : PtEntry → ℕ
pt_val e =
    e.p % 2
    + 0x2 * (e.rw % 2)
    + 0x4 * (e.us % 2)
    + 0x8 * (e.pwt % 2)
    + 0x10 * (e.pcd % 2)
    + 0x20 * (e.a % 2)
    + 0x40 * (e.d % 2)
    + 0x80 * (e.pat % 2)
    + 0x100 * (e.g % 2)
    + 0x200 * (e.avl % 8)
    + 0x1000 * (e.address_31_12 % 0x10_0000)

-- `pdt_entry_table_t`
pub record PdtEntryTable : Type 0 where
  pub p : ℕ
  pub rw : ℕ
  pub us : ℕ
  pub pwt : ℕ
  pub pcd : ℕ
  pub a : ℕ
  pub avl_6 : ℕ
  pub ps : ℕ
  pub avl_8_11 : ℕ
  pub address : ℕ

unfoldable pub table_val : PdtEntryTable → ℕ
table_val e =
    e.p % 2
    + 0x2 * (e.rw % 2)
    + 0x4 * (e.us % 2)
    + 0x8 * (e.pwt % 2)
    + 0x10 * (e.pcd % 2)
    + 0x20 * (e.a % 2)
    + 0x40 * (e.avl_6 % 2)
    + 0x80 * (e.ps % 2)
    + 0x100 * (e.avl_8_11 % 16)
    + 0x1000 * (e.address % 0x10_0000)

unfoldable pub pdt_entry_page_setup : PdtEntryPage → ℕ → ℕ → PdtEntryPage
pdt_entry_page_setup page physical_memory_22_31 user = record page {
  p = 1;
  rw = 1;
  us = user;
  pwt = 0;
  pcd = 0;
  a = 0;
  d = 0;
  ps = 1;
  g = 0;
  pat = 0;
  reserved = 0;
  address_22_31 = physical_memory_22_31;
}

unfoldable pub set_pt_entry : PtEntry → ℕ → ℕ → PtEntry
set_pt_entry entry user offset = record entry {
  p = 1;
  rw = 1;
  us = user;
  pwt = 0;
  pcd = 0;
  a = 0;
  d = 0;
  pat = 0;
  g = 0;
  address_31_12 = 0xb8 + offset;
}

-- `pt0_address` is the address of `pt0`; the first argument is what the six entries hold before.
unfoldable pub setup_kernel_paging :
    PdtEntryPage → PdtEntryTable → (ℕ → PtEntry) → ℕ → Paging → Paging
unfolding pdt_entry_page_setup set_pt_entry page_val pt_val table_val
setup_kernel_paging kernal_page first_mb video pt0_address g =
    let table : PdtEntryTable = record first_mb {
      p = 1;
      rw = 1;
      us = 0;
      pwt = 0;
      pcd = 0;
      a = 0;
      ps = 0;
      address = pt0_address / 0x1000;
    } in
    let video_entry : ℕ → ℕ = λ i. pt_val (set_pt_entry (video i) 0 i) in
    record g {
      pdt =
          update (update g.pdt 1 (page_val (pdt_entry_page_setup kernal_page 1 0))) 0
            (table_val table);
      pt0 =
          update
            (update (update (update g.pt0 0xb8 (video_entry 0)) (0xb8 + 1) (video_entry 1))
              (0xb8 + 2) (video_entry 2))
            (0xb8 + 3) (video_entry 3);
    }
