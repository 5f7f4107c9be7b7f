-- ===== src/Terminal/PlainText.antt =====
-- Text without `%`: `printf` prints it as `puts` does.
use lightweight_operating_sy.Prelude.{
  ℕ, zero, suc, ◌+◌, ◌-◌, ◌*◌, ◌<◌, ◌≤◌, ◌≡◌, ◌≢◌, ◌⊎◌, inl, inr, refl, ◌∙◌, arith, true, false,
  some, Memory, Bool-cases, ◌==◌, ==_iff, ==_ne, sub32,
}
use lightweight_operating_sy.Screen.{Display, video, put_char, putc_on}
use lightweight_operating_sy.Screen.Printing.{IsOnScreen, Within, put_char-IsOnScreen}
use lightweight_operating_sy.Str.Length.{IsCString}
use lightweight_operating_sy.Kernel.{Kernel, cur_process_local}
use lightweight_operating_sy.Terminal.{puts}
use lightweight_operating_sy.Terminal.Writing.{putc_lem}
use lightweight_operating_sy.Terminal.Printf.{printf_loop, printf}

-- The display keeps this while a process of terminal `own` prints and terminal `cur` is shown.
pub record IsPrinting (cur own : ℕ) (d : Display) : Type 0 where
  pub cur_lo : 1 ≤ cur
  pub cur_hi : cur ≤ 3
  pub own_lo : 1 ≤ own
  pub own_hi : own ≤ 3
  pub cur_on : IsOnScreen d (cur - 1)
  pub own_on : IsOnScreen d (own - 1)

-- Memory outside the four video pages is the same.
abbrev IsSameElsewhere : Memory → Memory → Type 0
IsSameElsewhere m m' = (a : ℕ) → (a < 0xb_8000) ⊎ (0xb_c000 ≤ a) → m' a ≡ m a

moved-IsOnScreen :
    (d d' : Display) (page idx other : ℕ)
    → IsOnScreen d' idx
    → Within d d' page idx
    → IsOnScreen d other
    → IsOnScreen d' other
moved-IsOnScreen d d' page idx other on w kept = elim (Bool-cases (other == idx)) [
  | inl same ↦ rw ((==_iff other idx).0 same) on
  | inr apart ↦
      let ne : other ≢ idx = λ e. ground arith in
      record {
        col_in = rw (w.x_others other ne) kept.col_in;
        row_in = rw (w.y_others other ne) kept.row_in;
      }
]

module _ (cur own : ℕ) (d d' : Display) (p : IsPrinting cur own d) where
  printed_on :
      (page idx : ℕ)
      → 0xb_8000 ≤ page
      → page + 4000 ≤ 0xb_c000
      → IsOnScreen d' idx × Within d d' page idx
      → IsPrinting cur own d' × IsSameElsewhere d.mem d'.mem
  printed_on page idx lo hi (on, within) = (
    record {
      cur_lo = p.cur_lo;
      cur_hi = p.cur_hi;
      own_lo = p.own_lo;
      own_hi = p.own_hi;
      cur_on = moved-IsOnScreen d d' page idx (cur - 1) on within p.cur_on;
      own_on = moved-IsOnScreen d d' page idx (own - 1) on within p.own_on;
    },
    λ a h. within.mem_outside a (omega arith),
  )

pub putc_on-IsPrinting :
    (cur own c : ℕ) (d : Display)
    → IsPrinting cur own d
    → IsPrinting cur own (putc_on cur own false c d)
      × IsSameElsewhere d.mem (putc_on cur own false c d).mem
unfolding putc_on
putc_on-IsPrinting cur own c d p = elim (Bool-cases (cur == own)) [
  | inl same ↦ rw same (
      printed_on cur own d (put_char video (cur - 1) true c d) p video (cur - 1) (omega arith)
        (omega arith) (put_char-IsOnScreen video (cur - 1) d p.cur_on (omega arith) true c))
  | inr apart ↦
      let page = video + 4096 * own in
      rw apart (
        printed_on cur own d (put_char page (own - 1) false c d) p page (own - 1)
          (omega (arith, p.own_lo)) (omega (arith, p.own_hi))
          (put_char-IsOnScreen page (own - 1) d p.own_on (omega (arith, p.own_hi)) false c))
]

-- A C string without `%` that lies outside the video pages.
pub record IsPlain (m : Memory) (s n : ℕ) : Type 0 where
  pub string : IsCString m s n
  pub no_conversion : (i : ℕ) → i < n → m (s + i) ≢ b'%'
  pub away : (s + n < 0xb_8000) ⊎ (0xb_c000 ≤ s)

kept-IsPlain : (m m' : Memory) (s n : ℕ) → IsSameElsewhere m m' → IsPlain m s n → IsPlain m' s n
kept-IsPlain m m' s n same p = record {
  string = record {
    filled = λ i h. rw (same (s + i) (ground (arith, p.away))) (p.string.filled i h);
    ended = same (s + n) (ground (arith, p.away)) ∙ p.string.ended;
  };
  no_conversion = λ i h. rw (same (s + i) (ground (arith, p.away))) (p.no_conversion i h);
  away = p.away;
}

both_loops :
    (fuel left index s n conv_buf esp own : ℕ) (k : Kernel)
    → left < fuel
    → index + left ≡ n
    → IsPlain k.display.mem s n
    → cur_process_local k.processes ≡ some own
    → IsPrinting k.keyboard.cur_terminal own k.display
    → (d : Display) × (puts fuel s index k ≡ some (n, record k { display = d }))
      × (printf_loop fuel conv_buf (s + index) esp k ≡ some (s + n, record k { display = d }))
unfolding puts printf_loop
both_loops zero left index s n conv_buf esp own k enough at plain found p = absurd (omega arith)
both_loops (suc fuel) zero index s n conv_buf esp own k enough at plain found p =
    let same : index ≡ n = omega arith in
    (k.display, rw (same, plain.string.ended) refl, rw (same, plain.string.ended) refl)
both_loops (suc fuel) (suc left) index s n conv_buf esp own k enough at plain found p =
    let c = k.display.mem (s + index) in
    let d = putc_on k.keyboard.cur_terminal own false c k.display in
    let (p', same) = putc_on-IsPrinting k.keyboard.cur_terminal own c k.display p in
    let go_on : (c == 0) ≡ false = ==_ne c 0 (plain.string.filled index (omega arith)) in
    let literal : (c == b'%') ≡ false = ==_ne c b'%' (plain.no_conversion index (omega arith)) in
    let put = putc_lem c false k own found in
    let next : s + index + 1 ≡ s + (index + 1) = omega arith in
    let (d', putting, printing) =
      both_loops fuel left (index + 1) s n conv_buf esp own (record k { display = d }) (omega arith)
        (omega arith) (kept-IsPlain k.display.mem d.mem s n same plain) found p' in
    (d', rw (go_on, put) putting, rw (go_on, literal, put, next) printing)

-- A format without `%`, outside the video pages: for a process of a terminal, with the cursors on their
-- pages and more fuel than the text is long, `printf` and `puts` both end, in the same state, which
-- differs from the first in the display only, and both return the length.
pub printf-puts :
    (fuel conv_buf format esp n own : ℕ) (k : Kernel)
    → n < fuel
    → IsPlain k.display.mem format n
    → format + n < 0x1_0000_0000
    → cur_process_local k.processes ≡ some own
    → IsPrinting k.keyboard.cur_terminal own k.display
    → (d : Display) × (printf fuel conv_buf format esp k ≡ some (n, record k { display = d }))
      × (puts fuel format 0 k ≡ some (n, record k { display = d }))
unfolding printf
printf-puts fuel conv_buf format esp n own k enough plain fits found p =
    let length : sub32 (format + n) format ≡ n = omega arith in
    let start : format + 0 ≡ format = omega arith in
    let (d, putting, printing) =
      both_loops fuel n 0 format n conv_buf esp own k enough (omega arith) plain found p in
    (d, rw (rw start at printing, printf) (rw length refl), putting)
