-- ===== src/Execute/Accounts.antt =====
-- The count of the programs that run in the terminals, and the slot that one of them gets.
use lightweight_operating_sy.Prelude.{
  ℕ, ◌+◌, ◌-◌, ◌<◌, ◌≤◌, ◌≡◌, ◌≢◌, ◌⊎◌, inl, inr, refl, ap, ◌∙◌, arith, false, none, some, update,
  update_self, update_ne, ◌==◌, ==_iff, Bool-cases, if◌then◌else◌, u32,
}
use lightweight_operating_sy.Kernel.{Processes}
use lightweight_operating_sy.Execute.Slots.{Slot, find_slot, program_slot}

-- 1 for a slot that is active.
unfoldable pub taken : (ℕ → ℕ) → ℕ → ℕ
taken active i = if active i == 0 then 0 else 1

-- The number of programs is that of the slots for them that are active, and the shell to boot is one of
-- the three or none.
pub record IsAccounted (p : Processes) : Type 0 where
  pub counted :
      p.aux_processes
      ≡ taken p.active_processes 3 + taken p.active_processes 4 + taken p.active_processes 5
  pub shells : p.shell_init_boot ≤ 3

-- A slot for a program: free before, taken after, all others as they were.
pub record IsGiven (p : Processes) (s : Slot) : Type 0 where
  pub above_shells : 4 ≤ s.next_pid
  pub below_seven : s.next_pid ≤ 6
  pub was_free : p.active_processes (s.next_pid - 1) ≡ 0
  pub now_taken : s.after.active_processes (s.next_pid - 1) ≡ 1
  pub others : (i : ℕ) → i ≢ s.next_pid - 1 → s.after.active_processes i ≡ p.active_processes i
  pub one_more : s.after.aux_processes ≡ p.aux_processes + 1

find_slot_cases :
    (active : ℕ → ℕ)
    → ((i : ℕ) × (find_slot 3 3 active ≡ some i) × (3 ≤ i) × (i ≤ 5) × (active i ≡ 0))
      ⊎ ((find_slot 3 3 active ≡ none)
          × (taken active 3 ≡ 1)
          × (taken active 4 ≡ 1)
          × (taken active 5 ≡ 1))
unfolding find_slot taken
find_slot_cases active = elim (Bool-cases (active 3 == 0)) [
  | inl e3 ↦ inl (3, rw e3 refl, omega arith, omega arith, ground arith)
  | inr e3 ↦ elim (Bool-cases (active 4 == 0)) [
    | inl e4 ↦ inl (4, rw (e3, e4) refl, omega arith, omega arith, ground arith)
    | inr e4 ↦ elim (Bool-cases (active 5 == 0)) [
      | inl e5 ↦ inl (5, rw (e3, e4, e5) refl, omega arith, omega arith, ground arith)
      | inr e5 ↦ inr (rw (e3, e4, e5) refl, rw e3 refl, rw e4 refl, rw e5 refl)
    ]
  ]
]

-- The sum over the slots after one of them is set.
pub taken-update :
    (active : ℕ → ℕ) (i v : ℕ)
    → 3 ≤ i
    → i ≤ 5
    → taken (update active i v) 3
        + taken (update active i v) 4
        + taken (update active i v) 5
        + taken active i
      ≡ taken active 3 + taken active 4 + taken active 5 + taken (update active i v) i
unfolding taken
taken-update active i v lo hi = elim (Bool-cases (i == 3)) [
  | inl e ↦ let is : i ≡ 3 = (==_iff i 3).0 e in rw is (ground arith)
  | inr e ↦ elim (Bool-cases (i == 4)) [
    | inl e' ↦ let is : i ≡ 4 = (==_iff i 4).0 e' in rw is (ground arith)
    | inr e' ↦ let is : i ≡ 5 = ground arith in rw is (ground arith)
  ]
]

pub taken-le : (active : ℕ → ℕ) (i : ℕ) → taken active i ≤ 1
unfolding taken
taken-le active i = ground arith

pub few : (p : Processes) → IsAccounted p → p.aux_processes ≤ 3
few p c = omega (
  arith,
  c.counted,
  taken-le p.active_processes 3,
  taken-le p.active_processes 4,
  taken-le p.active_processes 5,
)

taken_free : (active : ℕ → ℕ) (i : ℕ) → active i ≡ 0 → taken active i ≡ 0
unfolding taken
taken_free active i e = rw e refl

pub taken_held : (active : ℕ → ℕ) (i : ℕ) → active i ≢ 0 → taken active i ≡ 1
unfolding taken
taken_held active i ne = ground arith

taken_set : (active : ℕ → ℕ) (i : ℕ) → taken (update active i 1) i ≡ 1
unfolding taken
taken_set active i = rw (update_self active i 1) refl

pub taken_reset : (active : ℕ → ℕ) (i : ℕ) → taken (update active i 0) i ≡ 0
unfolding taken
taken_reset active i = rw (update_self active i 0) refl

module _ (p : Processes) (c : IsAccounted p) (i : ℕ) (lo : 3 ≤ i) (hi : i ≤ 5)
    (free : p.active_processes i ≡ 0) where
  abbrev active : ℕ → ℕ
  active = p.active_processes

  room : p.aux_processes < 3
  room = omega (
    arith,
    c.counted,
    taken-update active i 1 lo hi,
    taken_free active i free,
    taken_set active i,
    taken-le (update active i 1) 3,
    taken-le (update active i 1) 4,
    taken-le (update active i 1) 5,
  )

  more : u32 (p.aux_processes + 1) ≡ p.aux_processes + 1
  more = omega (arith, room)

  given-IsAccounted :
      IsAccounted (record p {
        active_processes = update active i 1;
        aux_processes = u32 (p.aux_processes + 1);
      })
  given-IsAccounted = record {
    counted = omega (
      arith,
      more,
      c.counted,
      taken-update active i 1 lo hi,
      taken_free active i free,
      taken_set active i,
    );
    shells = c.shells;
  }

-- While the count is right, the choice for a program gives it a free slot with a right count, or all
-- three slots are taken; then the count becomes 4 and no slot changes.
pub program_slot_lem :
    (unset : ℕ) (p : Processes)
    → IsAccounted p
    → (IsGiven p (program_slot unset p)
        × IsAccounted (program_slot unset p).after
        × (p.aux_processes < 3)
        × ((program_slot unset p).base_boot ≡ false))
      ⊎ ((p.aux_processes ≡ 3) × ((program_slot unset p).after ≡ record p { aux_processes = 4 }))
unfolding program_slot
program_slot_lem unset p c = elim (find_slot_cases p.active_processes) [
  | inl (i, found, lo, hi, free) ↦
      rw (found, program_slot)
        (inl (
          record {
            above_shells = omega arith;
            below_seven = omega arith;
            was_free = ap p.active_processes (omega arith) ∙ free;
            now_taken =
                ap (update p.active_processes i 1) (omega arith)
                ∙ update_self p.active_processes i 1;
            others = λ j ne. update_ne p.active_processes i j 1 (λ e. ne (omega arith));
            one_more = more p c i lo hi free;
          },
          given-IsAccounted p c i lo hi free,
          room p c i lo hi free,
          refl,
        ))
  | inr (full, three, four, five) ↦
      rw (full, program_slot)
        (inr (
          omega (arith, c.counted),
          ap (λ (n : ℕ). record p { aux_processes = n }) (omega (arith, c.counted)),
        ))
]
