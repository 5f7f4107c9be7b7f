-- ===== src/Keyboard/Typing.antt =====
-- What a printing key does to the line being typed.
use lightweight_operating_sy.Prelude.{
  ℕ, ◌+◌, ◌<◌, ◌≤◌, ◌≡◌, ◌≢◌, ◌⊎◌, inl, inr, refl, ◌∙◌, arith, true, false, some, Bool-cases, slt,
  u32, update_self, update_ne,
}
use lightweight_operating_sy.Kernel.{Kernel, putc, cur_process_local}
use lightweight_operating_sy.Screen.{putc_on}
use lightweight_operating_sy.Terminal.{key_at}
use lightweight_operating_sy.Keyboard.Codes.{char_of}
use lightweight_operating_sy.Keyboard.Line.{
  shown, key_index, key, set_key, set_index, types_char, press_char,
}

putc-keyboard :
    (c own : ℕ) (k : Kernel)
    → cur_process_local k.processes ≡ some own
    → putc c true k
      ≡ some (record k { display = putc_on k.keyboard.cur_terminal own true c k.display })
unfolding putc
putc-keyboard c own k base = rw (base, putc) refl

-- While the line holds at most 126 characters, and the running process descends from a terminal's shell:
-- a code that types a character appends the character of the modifiers to a line of at most 125 and
-- leaves a full line alone, as every other code does; no other byte of the buffers changes, and the line
-- still holds at most 126.
pub press_char-appends :
    (scan_code own : ℕ) (k : Kernel)
    → cur_process_local k.processes ≡ some own
    → key_index k ≤ 126
    → (k' : Kernel) × (press_char scan_code k ≡ some k')
      × (key_index k' ≤ 126)
      × (((types_char k scan_code ≡ true)
            × (key_index k < 126)
            × (key_index k' ≡ key_index k + 1)
            × (key k' (key_index k) ≡ char_of k.keyboard scan_code)
            × ((a : ℕ)
                → a ≢ key_at (shown k) (key_index k)
                → k'.keyboard.buffer a ≡ k.keyboard.buffer a))
          ⊎ (((types_char k scan_code ≡ false) ⊎ (key_index k ≡ 126)) × (k' ≡ k)))
unfolding press_char
press_char-appends scan_code own k base le = elim (Bool-cases (types_char k scan_code)) [
  | inl e ↦ elim (Bool-cases (slt (key_index k) 126)) [
    | inl room ↦
        let below : key_index k < 126 = ground (arith, le) in
        (
          appended,
          rw (e, room, putc-keyboard (key typed (key_index k)) own typed base) refl,
          omega (arith, advanced below),
          inl (e, below, advanced below, stored, elsewhere),
        )
    | inr full ↦
        let is_full : key_index k ≡ 126 = ground (arith, le) in
        (k, rw (e, full) refl, le, inr (inr is_full, refl))
  ]
  | inr e ↦ (k, rw e refl, le, inr (inl e, refl))
]
  where
    typed : Kernel
    typed = set_key k (key_index k) (char_of k.keyboard scan_code)

    printed : Kernel
    printed = record typed {
      display = putc_on k.keyboard.cur_terminal own true (key typed (key_index k)) k.display;
    }

    appended : Kernel
    appended = set_index printed (u32 (key_index k + 1))

    advanced : key_index k < 126 → key_index appended ≡ key_index k + 1
    advanced below =
        update_self k.keyboard.index (shown k) (u32 (key_index k + 1)) ∙ omega (arith, below)

    stored : key appended (key_index k) ≡ char_of k.keyboard scan_code
    stored = update_self k.keyboard.buffer (key_at (shown k) (key_index k)) _

    elsewhere :
        (a : ℕ)
        → a ≢ key_at (shown k) (key_index k)
        → appended.keyboard.buffer a ≡ k.keyboard.buffer a
    elsewhere a ne = update_ne k.keyboard.buffer (key_at (shown k) (key_index k)) a _ ne
