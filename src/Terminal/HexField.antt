-- ===== src/Terminal/HexField.antt =====
-- The alternate form of `%x` in `printf`: eight digits, whatever the value.
use lightweight_operating_sy.Prelude.{
  ℕ, zero, suc, ◌+◌, ◌-◌, ◌<◌, ◌≤◌, ◌≡◌, ◌≢◌, ◌⊎◌, inl, inr, refl, sym, ap, ◌∙◌, arith, some,
  Memory, update, Bool-cases, ltb, update_self,
}
use lightweight_operating_sy.Str.Length.{IsCString, strlen-IsCString}
use lightweight_operating_sy.Str.Digits.{
  digit_value, AreDigits, number_of, number_of_zeros, number_of_same, itoa_spells,
}
use lightweight_operating_sy.Terminal.Printf.{pad_zeros, hex_field}

pad_zeros_lem :
    (left at : ℕ) (m : Memory)
    → ((i : ℕ) → i < left → pad_zeros left at m (at + i) ≡ b'0')
      × ((a : ℕ) → (a < at) ⊎ (at + left ≤ a) → pad_zeros left at m a ≡ m a)
unfolding pad_zeros
pad_zeros_lem zero at m = ((λ i h. absurd (omega arith)), (λ a h. refl))
pad_zeros_lem (suc left) at m =
    let (inside, outside) = pad_zeros_lem left (at + 1) (update m at b'0') in
    (zeros inside outside, (λ a h. ground (arith, outside a)))
  where
    zeros :
        ((i : ℕ) → i < left → pad_zeros left (at + 1) (update m at b'0') (at + 1 + i) ≡ b'0')
        → ((a : ℕ)
            → (a < at + 1) ⊎ (at + 1 + left ≤ a)
            → pad_zeros left (at + 1) (update m at b'0') a ≡ update m at b'0' a)
        → (i : ℕ) → i < suc left
        → pad_zeros left (at + 1) (update m at b'0') (at + i) ≡ b'0'
    zeros inside outside zero h =
        ap (pad_zeros left (at + 1) (update m at b'0')) (omega arith)
        ∙ outside at (inl (omega arith))
        ∙ update_self m at b'0'
    zeros inside outside (suc i) h =
        ap (pad_zeros left (at + 1) (update m at b'0')) (omega arith) ∙ inside i (omega arith)

-- The field, once `itoa` has left `n` digits 8 bytes into the buffer.
padded :
    (conv_buf value n : ℕ) (m : Memory)
    → n ≤ 8
    → IsCString m (conv_buf + 8) n
    → number_of 16 m (conv_buf + 8) n ≡ value
    → AreDigits 16 m (conv_buf + 8) n
    → let start = conv_buf + n in
      let m' = pad_zeros (8 - n) start m in
      IsCString m' start 8
      × (number_of 16 m' start 8 ≡ value)
      × AreDigits 16 m' start 8
      × ((a : ℕ) → a < conv_buf → m' a ≡ m a)
unfolding AreDigits digit_value
padded conv_buf value n m short string number are_digits =
    let start = conv_buf + n in
    let m' = pad_zeros (8 - n) start m in
    let (inside, outside) = pad_zeros_lem (8 - n) start m in
    let digits : (i : ℕ) → i < n → m' (conv_buf + 8 + i) ≡ m (conv_buf + 8 + i) =
      λ i h. outside (conv_buf + 8 + i) (inr (omega arith)) in
    let at_digits : start + (8 - n) ≡ conv_buf + 8 = omega arith in
    let eight : 8 - n + n ≡ 8 = omega arith in
    (
      record {
        filled = filled_in start m' inside digits;
        ended = outside (start + 8) (inr (omega arith)) ∙ ap m (omega arith) ∙ string.ended;
      },
      ap (number_of 16 m' start) (sym eight)
          ∙ number_of_zeros 16 m' start (8 - n) n inside
          ∙ ap (λ (s : ℕ). number_of 16 m' s n) at_digits
          ∙ number_of_same 16 m m' (conv_buf + 8) n digits
          ∙ number,
      digits_in start m' inside digits,
      λ a h. outside a (inl (omega arith)),
    )
  where
    digits_in :
        (start : ℕ) (m' : Memory)
        → ((i : ℕ) → i < 8 - n → m' (conv_buf + n + i) ≡ b'0')
        → ((i : ℕ) → i < n → m' (conv_buf + 8 + i) ≡ m (conv_buf + 8 + i))
        → (i : ℕ) → i < 8
        → digit_value (m' (conv_buf + n + i)) < 16
    digits_in start m' inside digits i h = elim (Bool-cases (ltb (i + n) 8)) [
      | inl zero_part ↦ rw (inside i (ground arith)) (omega arith)
      | inr digit_part ↦
          let past : 8 ≤ i + n = ground arith in
          let at : m' (conv_buf + n + i) ≡ m (conv_buf + 8 + (i + n - 8)) =
            ap m' (omega arith) ∙ digits (i + n - 8) (omega arith) in
          rw at (are_digits (i + n - 8) (omega arith))
    ]

    filled_in :
        (start : ℕ) (m' : Memory)
        → ((i : ℕ) → i < 8 - n → m' (conv_buf + n + i) ≡ b'0')
        → ((i : ℕ) → i < n → m' (conv_buf + 8 + i) ≡ m (conv_buf + 8 + i))
        → (i : ℕ) → i < 8
        → m' (conv_buf + n + i) ≢ 0
    filled_in start m' inside digits i h e = elim (Bool-cases (ltb (i + n) 8)) [
      | inl zero_part ↦ omega (arith, inside i (ground arith), e)
      | inr digit_part ↦
          let past : 8 ≤ i + n = ground arith in
          string.filled (i + n - 8) (omega arith)
            (sym (digits (i + n - 8) (omega arith)) ∙ ap m' (omega arith) ∙ e)
    ]

-- `printf("%#x", value)`, with more fuel than 8: the conversion ends, and what `puts` is given is a C
-- string of exactly eight characters, all of them hexadecimal digits, that spell the value in base 16. Nothing below the buffer changes.
pub hex_field_lem :
    (fuel conv_buf value : ℕ) (m : Memory)
    → 8 < fuel
    → value < 0x1_0000_0000
    → (start : ℕ) × (m' : Memory) × (hex_field fuel conv_buf value m ≡ some (start, m'))
      × IsCString m' start 8
      × (number_of 16 m' start 8 ≡ value)
      × AreDigits 16 m' start 8
      × ((a : ℕ) → a < conv_buf → m' a ≡ m a)
unfolding hex_field
hex_field_lem fuel conv_buf value m enough small =
    let (n, m1, spelled, short, string, number, are_digits, below) =
      itoa_spells fuel 8 m value (conv_buf + 8) 16 (omega arith) (omega arith) (omega arith)
        (omega arith) enough in
    let (field, value', digits, kept) = padded conv_buf value n m1 short string number are_digits in
    let sized = strlen-IsCString fuel m1 (conv_buf + 8) n string (omega arith) in
    (
      conv_buf + n,
      pad_zeros (8 - n) (conv_buf + n) m1,
      rw (spelled, hex_field) (rw sized refl),
      field,
      value',
      digits,
      λ a h. kept a h ∙ below a (omega arith),
    )
