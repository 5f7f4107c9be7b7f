-- ===== src/Screen/Printing.antt =====
-- What printing one character does to a page, its cursor and everything else.
use lightweight_operating_sy.Prelude.{
  ℕ, ◌+◌, ◌-◌, ◌*◌, ◌%◌, ◌<◌, ◌≤◌, ◌≡◌, ◌≢◌, ◌⊎◌, inl, inr, refl, arith, ◌==◌, ◌||◌, Bool, false,
  Bool-cases, ==_ne, u32, slt, srem, sdiv,
}
use lightweight_operating_sy.Screen.{
  Display, num_cols, num_rows, attrib, video, cell, put_newline, put_glyph, put_char, putc_on,
}
use lightweight_operating_sy.Screen.Scroll.{Scrolled, scroll-Scrolled}

-- The cursor of the terminal is on the page.
pub record IsOnScreen (d : Display) (idx : ℕ) : Type 0 where
  pub col_in : d.screen_x idx < num_cols
  pub row_in : d.screen_y idx < num_rows

-- The page lies in 32-bit addresses.
abbrev pub IsPage : ℕ → Type 0
IsPage page = page + 4000 < 0x1_0000_0000

-- Only the page and the terminal's cursor have changed.
pub record Within (d d' : Display) (page idx : ℕ) : Type 0 where
  pub mem_outside : (a : ℕ) → (a < page) ⊎ (page + 4000 ≤ a) → d'.mem a ≡ d.mem a
  pub x_others : (t : ℕ) → t ≢ idx → d'.screen_x t ≡ d.screen_x t
  pub y_others : (t : ℕ) → t ≢ idx → d'.screen_y t ≡ d.screen_y t

module _ (page idx : ℕ) (d : Display) (on : IsOnScreen d idx) (fits : IsPage page) where
  col_next : srem (u32 (d.screen_x idx + 1)) num_cols ≡ (d.screen_x idx + 1) % num_cols
  unfolding srem
  col_next = ground (arith, on.col_in)

  row_kept :
      u32 (d.screen_y idx + sdiv (srem (u32 (d.screen_x idx + 1)) num_cols) num_cols)
      ≡ d.screen_y idx
  unfolding sdiv
  row_kept = ground (arith, on.row_in, col_next)

  at_cell :
      u32 (cell page (d.screen_y idx) (d.screen_x idx))
      ≡ cell page (d.screen_y idx) (d.screen_x idx)
  at_cell = omega (arith, on.row_in, on.col_in)

  -- With the cursor on the page, a character other than the two line ends is stored with its attribute
  -- in the cell under the cursor, and no other byte changes. The column goes on by one, and from 79 back
  -- to 0; the row stays the same also then.
  pub put_glyph_lem :
      (shown : Bool) (c : ℕ)
      → let d' = put_glyph page idx shown c d in
        let at = cell page (d.screen_y idx) (d.screen_x idx) in
        (d'.mem at ≡ c)
        × (d'.mem (at + 1) ≡ attrib)
        × ((a : ℕ) → a ≢ at → a ≢ at + 1 → d'.mem a ≡ d.mem a)
        × (d'.screen_x idx ≡ (d.screen_x idx + 1) % num_cols)
        × (d'.screen_y idx ≡ d.screen_y idx)
  unfolding put_glyph
  put_glyph_lem shown c = (
    ground (arith, at_cell, on.row_in, on.col_in),
    ground (arith, at_cell, on.row_in, on.col_in),
    λ a p q. ground (arith, at_cell, on.row_in, on.col_in),
    ground (arith, col_next),
    ground (arith, row_kept),
  )

  -- With the cursor on the page, a line end above the last row changes no byte and moves the cursor to
  -- the start of the next row; on the last row it scrolls the page and leaves the cursor at the start of
  -- the last row.
  pub put_newline_lem :
      (shown : Bool)
      → let d' = put_newline page idx shown d in
        (d'.screen_x idx ≡ 0)
        × (((d.screen_y idx < 24) × (d'.screen_y idx ≡ d.screen_y idx + 1) × (d'.mem ≡ d.mem))
            ⊎ ((d.screen_y idx ≡ 24) × (d'.screen_y idx ≡ 24) × Scrolled d.mem d'.mem page))
  unfolding put_newline
  put_newline_lem shown = elim (Bool-cases (slt (u32 (d.screen_y idx + 1)) num_rows)) [
    | inl above ↦
        rw above (ground arith, inl (ground (arith, on.row_in), ground (arith, on.row_in), refl))
    | inr last ↦
        rw last
          (ground arith, inr (ground (arith, on.row_in), ground arith, scroll-Scrolled page d.mem))
  ]

  put_newline-Within : (shown : Bool) → Within d (put_newline page idx shown d) page idx
  unfolding put_newline
  put_newline-Within shown = elim (Bool-cases (slt (u32 (d.screen_y idx + 1)) num_rows)) [
    | inl above ↦ rw above (record {
      mem_outside = λ a o. refl;
      x_others = λ t ne. ground arith;
      y_others = λ t ne. ground arith;
    })
    | inr last ↦ rw last (record {
      mem_outside = (scroll-Scrolled page d.mem).outside;
      x_others = λ t ne. ground arith;
      y_others = λ t ne. ground arith;
    })
  ]

  put_glyph-Within : (shown : Bool) (c : ℕ) → Within d (put_glyph page idx shown c d) page idx
  put_glyph-Within shown c =
      let (stored, attr, others, x, y) = put_glyph_lem shown c in
      record {
        mem_outside = λ a o.
            others a (omega (arith, on.row_in, on.col_in)) (omega (arith, on.row_in, on.col_in));
        x_others = λ t ne. unfold put_glyph in ground arith;
        y_others = λ t ne. unfold put_glyph in ground arith;
      }

  -- With the cursor on the page, any character leaves it on the page, and changes no byte outside the
  -- page and no other terminal's cursor.
  pub put_char-IsOnScreen :
      (shown : Bool) (c : ℕ)
      → IsOnScreen (put_char page idx shown c d) idx
        × Within d (put_char page idx shown c d) page idx
  unfolding put_char
  put_char-IsOnScreen shown c = elim (Bool-cases (c == b'\n' || c == b'\r')) [
    | inl line_end ↦ rw line_end (ground (arith, put_newline_lem shown), put_newline-Within shown)
    | inr glyph ↦
        rw glyph (ground (arith, put_glyph_lem shown c, on.row_in), put_glyph-Within shown c)
  ]

-- What one terminal's program prints while another is shown stays off the screen: the page in view, the
-- other terminals' pages and cursors, and the machine's cursor are as they were.
pub putc_on_hidden :
    (cur own : ℕ) (c : ℕ) (d : Display)
    → 1 ≤ own
    → own ≤ 3
    → cur ≢ own
    → IsOnScreen d (own - 1)
    → let d' = putc_on cur own false c d in
      Within d d' (video + 4096 * own) (own - 1)
      × ((a : ℕ) → video ≤ a → a < video + 4000 → d'.mem a ≡ d.mem a)
      × (d'.hw ≡ d.hw)
unfolding putc_on
putc_on_hidden cur own c d lo hi ne on =
    let hidden : cur == own ≡ false = ==_ne cur own ne in
    let kept = (put_char-IsOnScreen (video + 4096 * own) (own - 1) d on (omega arith) false c).1 in
    rw hidden (kept, λ a p q. kept.mem_outside a (omega arith), hw_kept)
  where
    hw_kept : (put_char (video + 4096 * own) (own - 1) false c d).hw ≡ d.hw
    hw_kept = unfold put_char put_newline put_glyph in ground arith
