-- ===== src/Terminal/ReadingLines.antt =====
-- `terminal_read` of src/keyboard.c once Enter is pressed.
use lightweight_operating_sy.Prelude.{
  ℕ, zero, suc, ◌+◌, ◌-◌, ◌<◌, ◌≤◌, ◌≡◌, ◌≢◌, ◌⊎◌, inl, inr, refl, ap, ◌∙◌, arith, true, false,
  Memory, min, slt, ◌==◌, ==_ne, ==_iff, Bool-cases, ℕ_discrete, update, update_self, update_ne,
}
use lightweight_operating_sy.Kernel.{Kernel}
use lightweight_operating_sy.Terminal.{key_at, read_keys, terminal_read_finish}

-- Row `t` of the keys holds `n` characters, the line end among them, and then a NUL.
pub record IsRow (keys : Memory) (t n : ℕ) : Type 0 where
  pub filled : (i : ℕ) → i < n → keys (key_at t i) ≢ 0
  pub ended : keys (key_at t n) ≡ 0

-- Keys `i` to `stop` of the row are at `output`, and no other byte has changed.
pub record Taken (m m' keys : Memory) (t output i stop : ℕ) : Type 0 where
  pub inside : (j : ℕ) → i ≤ j → j < stop → m' (output + j) ≡ keys (key_at t j)
  pub outside : (a : ℕ) → (a < output + i) ⊎ (output + stop ≤ a) → m' a ≡ m a

read_keys-Taken :
    (left i t n : ℕ) (keys : Memory) (output : ℕ) (m : Memory)
    → IsRow keys t n
    → i ≤ n
    → let (count, m') = read_keys left i t keys output m in
      (count ≡ min (i + left) (n + 1)) × Taken m m' keys t output i count
unfolding read_keys
read_keys-Taken zero i t n keys output m row le =
    (omega arith, record { inside = λ j p q. absurd (omega arith); outside = λ a o. refl })
read_keys-Taken (suc left) i t n keys output m row le =
    let c = keys (key_at t i) in
    let first = update m (output + i) c in
    elim (Bool-cases (c == 0)) [
      | inl nul ↦
          let last : i ≡ n = ground (arith, row.filled i) in
          rw nul (
            omega arith,
            record {
              inside = λ j p q. elim (ℕ_discrete j i) [
                | yes e ↦ rw e (update_self m (output + i) c)
                | no ne ↦ absurd (omega arith)
              ];
              outside = λ a o. update_ne m (output + i) a c (λ z. omega arith);
            },
          )
      | inr some_key ↦
          let more : i < n = before some_key in
          let (count, rest) =
            read_keys-Taken left (i + 1) t n keys output first row (omega arith) in
          rw some_key (
            count ∙ omega arith,
            record {
              inside = λ j p q. elim (ℕ_discrete j i) [
                | yes e ↦
                    rw e
                      (rest.outside (output + i) (inl (omega arith)) ∙ update_self m (output + i) c)
                | no ne ↦ rest.inside j (omega arith) q
              ];
              outside = λ a o.
                  rest.outside a (omega (arith, count))
                  ∙ update_ne m (output + i) a c (λ z. omega (arith, count));
            },
          )
    ]
  where
    before : (keys (key_at t i) == 0) ≡ false → i < n
    before h = elim (ℕ_discrete i n) [
      | yes is ↦
          let nul : (keys (key_at t i) == 0) ≡ true =
            (==_iff _ 0).1 (ap (λ x. keys (key_at t x)) is ∙ row.ended) in
          cc
      | no ne ↦ omega arith
    ]

-- Once Enter is pressed, with `n` characters before the NUL of the shown terminal's row and byte 127 from
-- its start not a line end: `terminal_read` stores the characters and the NUL, as many of these as
-- `bytes` allows, changes nothing else, and returns one less than it has stored.
pub terminal_read_finish_lem :
    (buf bytes n : ℕ) (k : Kernel)
    → let t = k.keyboard.cur_terminal - 1 in
      let keys = k.keyboard.buffer in
      IsRow keys t n
      → keys (key_at t 127) ≢ b'\n'
      → 0 < bytes
      → bytes < 0x8000_0000
      → n < 0x8000_0000
      → let (ret, k') = terminal_read_finish buf bytes k in
        (ret ≡ min bytes (n + 1) - 1)
        × Taken k.display.mem k'.display.mem keys t buf 0 (min bytes (n + 1))
        × (k' ≡ record k { display = record k.display { mem = k'.display.mem } })
unfolding terminal_read_finish
terminal_read_finish_lem buf bytes n k row plain positive small short =
    let t = k.keyboard.cur_terminal - 1 in
    let keys = k.keyboard.buffer in
    let room : (slt bytes 0) ≡ false = ground arith in
    let end : (keys (key_at t 127) == b'\n') ≡ false = ==_ne _ _ plain in
    let (counted, taken) = read_keys-Taken bytes 0 t n keys buf k.display.mem row (omega arith) in
    let count : (read_keys bytes 0 t keys buf k.display.mem).0 ≡ min bytes (n + 1) =
      counted ∙ omega arith in
    rw (room, end) (rw count (omega arith), rw (← count) taken, refl)
