-- ===== src/Rtc/Ticks.antt =====
-- The ticks that end a read, and those that fault.
use native.Mathlib.Nat.{add-zero, mod-lt, div-add-mod, mul-mod_right}
use lightweight_operating_sy.Prelude.{
  ap, ℕ, zero, suc, ◌+◌, ◌-◌, ◌*◌, ◌/◌, ◌%◌, ◌<◌, ◌≤◌, ◌≡◌, ◌≢◌, ◌⊎◌, ◌↔◌, inl, inr, refl, arith,
  update, ◌==◌, Option, none, some, ℕ_discrete, if◌then◌else◌, u32, ◌∙◌,
}
use lightweight_operating_sy.Kernel.{Rtc}
use lightweight_operating_sy.Rtc.{
  rtc_tick, tick_divisor, processes_active, get_current_process, max_freq, rtc_read_start,
}

-- `n` interrupts of the clock while one terminal runs.
pub rtc_ticks : ℕ → ℕ → ℕ → Rtc → Option Rtc
rtc_ticks zero cur booted r = some r
rtc_ticks (suc n) cur booted r = elim (rtc_tick cur booted r) [
  | none ↦ none
  | some r' ↦ rtc_ticks n cur booted r'
]

small_quotient : (p : ℕ) → 1024 < p → max_freq / p ≡ 0
small_quotient p h = grind arith

large_quotient : (p : ℕ) → 0 < p → p ≤ 1024 → max_freq / p ≢ 0
large_quotient p pos h z = grind arith

-- The two outcomes of the divisions.
tick_divisor-cases :
    (freq active : ℕ)
    → freq * active < 0x1_0000_0000
    → (((freq * active ≡ 0) ⊎ (1024 < freq * active)) × (tick_divisor freq active ≡ none))
      ⊎ ((0 < freq * active)
          × (freq * active ≤ 1024)
          × (tick_divisor freq active ≡ some (max_freq / (freq * active))))
unfolding tick_divisor
tick_divisor-cases freq active fits =
    let word : u32 (freq * active) ≡ freq * active = omega arith in
    rw word (ground (arith, small_quotient (freq * active), large_quotient (freq * active)))

tick-none :
    (cur booted : ℕ) (r : Rtc)
    → tick_divisor (r.rtc_freq (get_current_process cur)) (processes_active booted) ≡ none
    → rtc_tick cur booted r ≡ none
unfolding rtc_tick
tick-none cur booted r e = rw (e, rtc_tick)

tick-some :
    (cur booted : ℕ) (r : Rtc) {d : ℕ}
    → tick_divisor (r.rtc_freq (get_current_process cur)) (processes_active booted) ≡ some d
    → rtc_tick cur booted r ≢ none
unfolding rtc_tick
tick-some cur booted r e z = ground (arith, e, z)

-- A tick is a divide error in the kernel exactly when the running terminal's frequency times the number
-- of booted terminals is 0 or above 1024, as long as that product fits a word.
pub rtc_tick_faults_iff :
    (cur booted : ℕ) (r : Rtc)
    → r.rtc_freq (get_current_process cur) * processes_active booted < 0x1_0000_0000
    → let product = r.rtc_freq (get_current_process cur) * processes_active booted in
      (rtc_tick cur booted r ≡ none) ↔ ((product ≡ 0) ⊎ (1024 < product))
rtc_tick_faults_iff cur booted r fits =
    elim (tick_divisor-cases (r.rtc_freq (get_current_process cur)) (processes_active booted)
      fits) [
        | inl (bad, e) ↦ (λ _. bad, λ _. tick-none cur booted r e)
        | inr (pos, le, e) ↦ (λ z. absurd (tick-some cur booted r e z), λ o. absurd (omega arith))
      ]

module _ (cur booted divisor : ℕ) where
  abbrev own : ℕ
  own = get_current_process cur

  -- The clock is set for the terminal, and its counter does not wrap in the next `n` ticks.
  record Ready (r : Rtc) (n : ℕ) : Type 0 where
    divides : tick_divisor (r.rtc_freq own) (processes_active booted) ≡ some divisor
    room : r.rtc_counter own + n < 0x1_0000_0000

  step_lem :
      (r : Rtc) (n : ℕ)
      → Ready r (suc n)
      → (r' : Rtc) × (rtc_tick cur booted r ≡ some r')
        × Ready r' n
        × (r'.rtc_counter own ≡ r.rtc_counter own + 1)
        × (r'.rtc_flag own ≡ (if r.rtc_counter own % divisor == 0 then 0 else r.rtc_flag own))
  unfolding rtc_tick
  step_lem r n ready = (
    record r {
      rtc_flag = if r.rtc_counter own % divisor == 0 then update r.rtc_flag own 0 else r.rtc_flag;
      rtc_counter = update r.rtc_counter own (u32 (r.rtc_counter own + 1));
    },
    rw (ready.divides, rtc_tick),
    ground (arith, ready.room, ready.divides),
    ground (arith, ready.room),
    ground arith,
  )

  -- A flag that is clear stays clear.
  ticks_keep :
      (n : ℕ) (r : Rtc)
      → Ready r n
      → r.rtc_flag own ≡ 0
      → (r' : Rtc) × (rtc_ticks n cur booted r ≡ some r') × (r'.rtc_flag own ≡ 0)
  unfolding rtc_ticks
  ticks_keep zero r ready clear = (r, refl, clear)
  ticks_keep (suc n) r ready clear =
      let (r1, e, ready1, count, flag) = step_lem r n ready in
      let (r', e', clear') = ticks_keep n r1 ready1 (ground (arith, flag)) in
      (r', rw (e, rtc_ticks) e', clear')

  ticks_clear :
      (n i : ℕ) (r : Rtc)
      → Ready r n
      → i < n
      → (r.rtc_counter own + i) % divisor ≡ 0
      → (r' : Rtc) × (rtc_ticks n cur booted r ≡ some r') × (r'.rtc_flag own ≡ 0)
  unfolding rtc_ticks
  ticks_clear zero i r ready h z = elim h [ ]
  ticks_clear (suc n) zero r ready h z =
      let (r1, e, ready1, count, flag) = step_lem r n ready in
      let now : r.rtc_counter own % divisor ≡ 0 = rw add-zero at z in
      let (r', e', clear') = ticks_keep n r1 ready1 (ground (arith, flag, now)) in
      (r', rw (e, rtc_ticks) e', clear')
  ticks_clear (suc n) (suc i) r ready h z =
      let (r1, e, ready1, count, flag) = step_lem r n ready in
      let later : (r1.rtc_counter own + i) % divisor ≡ 0 =
        ap (λ (t : ℕ). t % divisor) (omega (arith, count)) ∙ z in
      let (r', e', clear') = ticks_clear n i r1 ready1 (omega arith) later in
      (r', rw (e, rtc_ticks) e', clear')

next_multiple : (c d : ℕ) → 0 < d → (i : ℕ) × (i < d) × ((c + i) % d ≡ 0)
next_multiple c d pos = elim (ℕ_discrete (c % d) 0) [
  | yes e ↦ (0, pos, rw add-zero e)
  | no ne ↦ (d - c % d, omega arith, ap (λ (t : ℕ). t % d) (whole ne) ∙ mul-mod_right d (c / d + 1))
]
  where
    whole : c % d ≢ 0 → c + (d - c % d) ≡ d * (c / d + 1)
    whole ne = omega (arith, div-add-mod c d, mod-lt c {m = d} pos)

-- A read ends: while one terminal runs and nothing else changes the clock's state, with a product of its
-- frequency and the booted terminals from 1 to 1024 and no wrap of its counter, as many ticks as 1024
-- divided by the product, from the start of the read, do not fault and leave the flag clear.
pub rtc_read_ends :
    (cur booted : ℕ) (r : Rtc)
    → let product = r.rtc_freq (get_current_process cur) * processes_active booted in
      0 < product
      → product ≤ 1024
      → r.rtc_counter (get_current_process cur) + max_freq / product < 0x1_0000_0000
      → (r' : Rtc) × (rtc_ticks (max_freq / product) cur booted (rtc_read_start cur r) ≡ some r')
        × (r'.rtc_flag (get_current_process cur) ≡ 0)
unfolding rtc_read_start
rtc_read_ends cur booted r pos le room =
    elim (tick_divisor-cases (r.rtc_freq t) (processes_active booted) (omega arith)) [
      | inl (bad, e) ↦ absurd (omega arith)
      | inr (_, _, e) ↦
          let d = max_freq / (r.rtc_freq t * processes_active booted) in
          let (i, below, z) =
            next_multiple (r.rtc_counter t) d (ground (arith, large_quotient _ pos le)) in
          ticks_clear cur booted d d i (rtc_read_start cur r) (record { divides = e; room = room })
            below z
    ]
  where
    t : ℕ
    t = get_current_process cur
