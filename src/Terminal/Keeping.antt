-- ===== src/Terminal/Keeping.antt =====
-- What `terminal_write` of src/keyboard.c leaves alone.
use lightweight_operating_sy.Prelude.{
  ap, subst, List, ℕ, zero, suc, ◌+◌, ◌-◌, ◌*◌, ◌<◌, ◌≤◌, ◌≡◌, ◌≢◌, ◌⊎◌, inl, inr, refl, ◌∙◌, arith,
  true, false, some, slt, ◌==◌, ◌||◌, Bool-cases, if◌then◌else◌,
}
use lightweight_operating_sy.FileDriver.ToEnd.{bytes_at, bytes_at-same}
use lightweight_operating_sy.Screen.{Display, video, putc_on}
use lightweight_operating_sy.Screen.Printing.{IsOnScreen, put_char-IsOnScreen}
use lightweight_operating_sy.Kernel.{Kernel, cur_process_local}
use lightweight_operating_sy.Terminal.Showing.{
  SameScreens, SameScreens-refl, glyph, Shows, Shows-after, Shows-then,
}
use lightweight_operating_sy.Terminal.{write_loop, terminal_write, set_cli, set_sti}
use lightweight_operating_sy.Terminal.Writing.{putc_lem}

-- No byte outside the four video pages has changed, and the cursor of terminal `own` is on its page.
pub record Keeps (d d' : Display) (own : ℕ) : Type 0 where
  pub outside : (a : ℕ) → (a < video) ⊎ (video + 0x4000 ≤ a) → d'.mem a ≡ d.mem a
  pub on : IsOnScreen d' (own - 1)

module _ (own : ℕ) (lo : 1 ≤ own) (hi : own ≤ 3) where
  putc_on-Keeps :
      (cur c : ℕ) (d : Display) → IsOnScreen d (own - 1) → Keeps d (putc_on cur own false c d) own
  unfolding putc_on
  putc_on-Keeps cur c d on = elim (Bool-cases (cur == own || false)) [
    | inl shown ↦
        let same : cur ≡ own = ground arith in
        let (on', within) = put_char-IsOnScreen video (own - 1) d on (omega arith) true c in
        rw (shown, same) (record { outside = λ a o. within.mem_outside a (omega arith); on = on' })
    | inr hidden ↦
        let (on', within) =
          put_char-IsOnScreen (video + 4096 * own) (own - 1) d on (omega arith) false c in
        rw hidden (record { outside = λ a o. within.mem_outside a (omega arith); on = on' })
  ]

  write_loop-Keeps :
      (left i input : ℕ) (k : Kernel)
      → cur_process_local k.processes ≡ some own
      → IsOnScreen k.display (own - 1)
      → (input + i + left ≤ video) ⊎ (video + 0x4000 ≤ input + i)
      → (d : Display) × (write_loop left i input k ≡ some (record k { display = d }))
        × Keeps k.display d own
        × Shows k.keyboard.cur_terminal own (bytes_at k.display.mem (input + i) left) k.display d
  unfolding write_loop bytes_at Shows glyph
  write_loop-Keeps zero i input k found on apart =
      (k.display, refl, record { outside = λ a o. refl; on = on }, SameScreens-refl k.display)
  write_loop-Keeps (suc left) i input k found on apart =
      let c : ℕ = if k.display.mem (input + i) == b'\t' then b' ' else k.display.mem (input + i) in
      let d = putc_on k.keyboard.cur_terminal own false c k.display in
      let first = putc_on-Keeps k.keyboard.cur_terminal c k.display on in
      let (d', rest, later, shown) =
        write_loop-Keeps left (i + 1) input (record k { display = d }) found first.on
          (omega (arith, apart)) in
      let same_bytes : bytes_at d.mem (input + (i + 1)) left
          ≡ bytes_at k.display.mem (input + i + 1) left =
        bytes_at-same k.display.mem d.mem (input + i + 1) (input + (i + 1)) left (λ j h.
          first.outside (input + (i + 1) + j) (omega (arith, apart))
          ∙ ap k.display.mem (omega arith)) in
      (
        d',
        rw (putc_lem c false k own found, write_loop) rest,
        record { outside = λ a o. later.outside a o ∙ first.outside a o; on = later.on },
        (
          k.display,
          SameScreens-refl k.display,
          subst (λ (t : List ℕ). Shows k.keyboard.cur_terminal own t d d') same_bytes shown,
        ),
      )

  -- A write of some bytes from outside video memory returns their count and changes the display only: it
  -- puts the bytes, in order, on the screen of the process's terminal, changes no memory outside the video
  -- pages, and leaves the cursor of that terminal on its page.
  pub terminal_write-Keeps :
      (buffer bytes : ℕ) (k : Kernel)
      → cur_process_local k.processes ≡ some own
      → IsOnScreen k.display (own - 1)
      → (buffer + bytes ≤ video) ⊎ (video + 0x4000 ≤ buffer)
      → buffer ≢ 0
      → 0 < bytes
      → bytes < 0x8000_0000
      → (d : Display) × (terminal_write buffer bytes k ≡ some (bytes, record k { display = d }))
        × Keeps k.display d own
        × Shows k.keyboard.cur_terminal own (bytes_at k.display.mem buffer bytes) k.display d
  unfolding terminal_write
  terminal_write-Keeps buffer bytes k found on apart nonnull positive small =
      let good : (buffer == 0 || bytes == 0) ≡ false = ground arith in
      let count : (slt bytes 0) ≡ false = ground arith in
      let (d, loop, keeps, shown) =
        write_loop-Keeps bytes 0 buffer (set_cli k) found
          (record { col_in = on.col_in; row_in = on.row_in }) (omega (arith, apart)) in
      let d' = (set_sti (record k { display = d })).display in
      let cur = k.keyboard.cur_terminal in
      let at : buffer + 0 ≡ buffer = omega arith in
      let alike : SameScreens k.display (set_cli k).display = record {
        pages = λ a lo hi. refl;
        cursors = (refl, refl);
      } in
      let alike' : SameScreens d d' = record { pages = λ a lo hi. refl; cursors = (refl, refl) } in
      let all = bytes_at k.display.mem buffer bytes in
      (
        d',
        rw (good, count, loop, count) refl,
        record {
          outside = keeps.outside;
          on = record { col_in = keeps.on.col_in; row_in = keeps.on.row_in };
        },
        Shows-after cur own all k.display (set_cli k).display d' alike (
            Shows-then cur own all (set_cli k).display d d'
              (subst
                (λ (a : ℕ). Shows cur own (bytes_at k.display.mem a bytes) (set_cli k).display d) at
                shown)
              alike'),
      )
