-- ===== src/Screen/Scroll.antt =====
-- The loops that move and blank the cells of a page.
use lightweight_operating_sy.Prelude.{
  ℕ, zero, suc, ◌+◌, ◌-◌, ◌*◌, ◌<◌, ◌≤◌, ◌≡◌, ◌⊎◌, refl, arith, Memory, update, ◌∙◌, ap,
}
use lightweight_operating_sy.Copy.Region.{Copied, Copied-split, Copied-zero}
use lightweight_operating_sy.Screen.{
  num_cols, attrib, cell, scroll_cols, scroll_rows, blank_cells, scroll,
}

-- `n` cells from `dst` on are blank in `m'`, which else is `m`.
pub record Blanked (m m' : Memory) (dst n : ℕ) : Type 0 where
  pub spaces : (j : ℕ) → j < n → m' (dst + 2 * j) ≡ b' '
  pub attribs : (j : ℕ) → j < n → m' (dst + 2 * j + 1) ≡ attrib
  pub outside : (a : ℕ) → (a < dst) ⊎ (dst + 2 * n ≤ a) → m' a ≡ m a

Blanked-suc :
    (m m' : Memory) (dst n : ℕ)
    → Blanked (update (update m dst b' ') (dst + 1) attrib) m' (dst + 2) n
    → Blanked m m' dst (suc n)
Blanked-suc m m' dst n b = record { spaces = sp; attribs = at; outside = outs }
  where
    sp : (j : ℕ) → j < suc n → m' (dst + 2 * j) ≡ b' '
    sp zero h = ground (arith, b.outside dst)
    sp (suc j) h = ap m' (omega arith) ∙ b.spaces j (omega arith)

    at : (j : ℕ) → j < suc n → m' (dst + 2 * j + 1) ≡ attrib
    at zero h = ground (arith, b.outside (dst + 1))
    at (suc j) h = ap m' (omega arith) ∙ b.attribs j (omega arith)

    outs : (a : ℕ) → (a < dst) ⊎ (dst + 2 * suc n ≤ a) → m' a ≡ m a
    outs a o = ground (arith, b.outside a)

pub blank_cells-Blanked : (n dst : ℕ) (m : Memory) → Blanked m (blank_cells n dst m) dst n
unfolding blank_cells
blank_cells-Blanked zero dst m = record {
  spaces = λ j h. elim h [ ];
  attribs = λ j h. elim h [ ];
  outside = λ a o. refl;
}
blank_cells-Blanked (suc n) dst m = Blanked-suc m _ dst n (blank_cells-Blanked n (dst + 2) _)

-- One cell moved from `src` to `dst`.
Copied-cell :
    (m : Memory) (dst src : ℕ)
    → dst + 2 ≤ src
    → let moved = update m dst (m src) in
      Copied m (update moved (dst + 1) (moved (src + 1))) dst src 2
Copied-cell m dst src h = record { inside = two; outside = λ a o. ground arith }
  where
    two :
        (i : ℕ)
        → i < 2
        → update (update m dst (m src)) (dst + 1) (update m dst (m src) (src + 1)) (dst + i)
          ≡ m (src + i)
    two zero p = ground arith
    two (suc zero) p = ground arith
    two (suc (suc i)) p = absurd (omega arith)

scroll_cols-Copied :
    (left col row page n dst src : ℕ) (m : Memory)
    → 1 ≤ row
    → dst ≡ cell page (row - 1) col
    → src ≡ cell page row col
    → n ≡ 2 * left
    → Copied m (scroll_cols left col row page m) dst src n
unfolding scroll_cols
scroll_cols-Copied zero col row page n dst src m r e f g =
    let done : n ≡ 0 = omega arith in rw done (Copied-zero m dst src)
scroll_cols-Copied (suc left) col row page n dst src m r e f g =
    let count : n ≡ 2 + 2 * left = omega arith in
    rw (count, ← e, ← f)
      (Copied-split m _ _ dst src 2 (2 * left) (omega arith) (Copied-cell m dst src (omega arith)) (
        scroll_cols-Copied left (col + 1) row page (2 * left) (dst + 2) (src + 2) _ r (omega arith)
          (omega arith) refl))

scroll_rows-Copied :
    (left row page n dst src : ℕ) (m : Memory)
    → 1 ≤ row
    → dst ≡ cell page (row - 1) 0
    → src ≡ cell page row 0
    → n ≡ 160 * left
    → Copied m (scroll_rows left row page m) dst src n
unfolding scroll_rows
scroll_rows-Copied zero row page n dst src m r e f g =
    let done : n ≡ 0 = omega arith in rw done (Copied-zero m dst src)
scroll_rows-Copied (suc left) row page n dst src m r e f g =
    let count : n ≡ 160 + 160 * left = omega arith in
    rw count (
      Copied-split m _ _ dst src 160 (160 * left) (omega arith)
        (scroll_cols-Copied num_cols 0 row page 160 dst src m r e f refl)
        (scroll_rows-Copied left (row + 1) page (160 * left) (dst + 160) (src + 160) _ (omega arith)
          (omega arith) (omega arith) refl))

-- What a scroll does to a page: byte `b` of rows 0 to 23 is byte `b` of the row below, the last row is
-- blank, and nothing outside the page changes.
pub record Scrolled (m m' : Memory) (page : ℕ) : Type 0 where
  pub moved : (b : ℕ) → b < 3840 → m' (page + b) ≡ m (page + 160 + b)
  pub spaces : (j : ℕ) → j < num_cols → m' (page + 3840 + 2 * j) ≡ b' '
  pub attribs : (j : ℕ) → j < num_cols → m' (page + 3840 + 2 * j + 1) ≡ attrib
  pub outside : (a : ℕ) → (a < page) ⊎ (page + 4000 ≤ a) → m' a ≡ m a

pub scroll-Scrolled : (page : ℕ) (m : Memory) → Scrolled m (scroll page m) page
unfolding scroll
scroll-Scrolled page m =
    let up =
      scroll_rows-Copied 24 1 page 3840 page (page + 160) m (omega arith) (omega arith)
        (omega arith) refl in
    let b = blank_cells-Blanked num_cols (cell page 24 0) (scroll_rows 24 1 page m) in
    record {
      moved = λ i h. b.outside (page + i) (omega arith) ∙ up.inside i h;
      spaces = b.spaces;
      attribs = b.attribs;
      outside = λ a o. b.outside a (omega arith) ∙ up.outside a (omega arith);
    }
