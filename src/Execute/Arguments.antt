-- ===== src/Execute/Arguments.antt =====
-- The loops of `execute` over the command end, and what they take from it.
use lightweight_operating_sy.Prelude.{
  ℕ, zero, suc, ◌+◌, ◌<◌, ◌≡◌, ◌≢◌, refl, ap, ◌∙◌, arith, false, true, some, Memory, update,
  update_self, update_ne, ◌==◌, ==_iff, ==_ne,
}
use lightweight_operating_sy.Str.Length.{IsCString}
use lightweight_operating_sy.Execute.Command.{skip_spaces, take_args, name_block}

-- With more fuel than there are spaces, the loop ends at the first other character.
pub skip_spaces_ends :
    (fuel at s command : ℕ) (m : Memory)
    → ((i : ℕ) → i < s → m (command + at + i) ≡ b' ')
    → m (command + at + s) ≢ b' '
    → s < fuel
    → skip_spaces fuel at command m ≡ some (at + s)
unfolding skip_spaces
skip_spaces_ends zero at s command m spaces stop room = absurd (omega arith)
skip_spaces_ends (suc fuel) at zero command m spaces stop room =
    let no_space : (m (command + at) == b' ') ≡ false =
      ==_ne _ _ (λ z. stop (ap m (omega arith) ∙ z)) in
    rw no_space (ap (λ (n : ℕ). some n) (omega arith))
skip_spaces_ends (suc fuel) at (suc s) command m spaces stop room =
    let space : (m (command + at) == b' ') ≡ true =
      (==_iff _ _).1 (ap m (omega arith) ∙ spaces 0 (omega arith)) in
    let rest =
      skip_spaces_ends fuel (at + 1) s command m
        (λ i h. ap m (omega arith) ∙ spaces (i + 1) (omega arith))
        (λ z. stop (ap m (omega arith) ∙ z)) (omega arith) in
    rw space (rest ∙ ap (λ (n : ℕ). some n) (omega arith))

-- With more fuel than the name is long, the copy of the name ends.
pub name_block_ends :
    (fuel i n file_name : ℕ) (m name : Memory)
    → IsCString m (file_name + i) n
    → n < fuel
    → (name' : Memory) × (name_block fuel i file_name m name ≡ some name')
unfolding name_block
name_block_ends zero i n file_name m name c room = absurd (omega arith)
name_block_ends (suc fuel) i zero file_name m name c room =
    let nul : m (file_name + i) ≡ 0 = ap m (omega arith) ∙ c.ended in (update name i 0, rw nul refl)
name_block_ends (suc fuel) i (suc n) file_name m name c room =
    let char = m (file_name + i) in
    let more : (char == 0) ≡ false =
      ==_ne _ _ (λ z. c.filled 0 (omega arith) (ap m (omega arith) ∙ z)) in
    let tail : IsCString m (file_name + (i + 1)) n = record {
      filled = λ j h z. c.filled (j + 1) (omega arith) (ap m (omega arith) ∙ z);
      ended = ap m (omega arith) ∙ c.ended;
    } in
    let (name', done) =
      name_block_ends fuel (i + 1) n file_name m (update name i char) tail (omega arith) in
    (name', rw more done)

-- The characters of a string, and its NUL, from place `i` on.
pub take_args_lem :
    (left i at n command : ℕ) (m args : Memory)
    → IsCString m (command + at) n
    → n < left
    → ((j : ℕ) → j < n → take_args left i at command m args (i + j) ≡ m (command + at + j))
      × (take_args left i at command m args (i + n) ≡ 0)
      × ((a : ℕ) → a < i → take_args left i at command m args a ≡ args a)
unfolding take_args
take_args_lem zero i at n command m args c room = absurd (omega arith)
take_args_lem (suc left) i at zero command m args c room =
    let nul : m (command + at) ≡ 0 = ap m (omega arith) ∙ c.ended in
    rw nul (
      (λ j h. absurd (omega arith)),
      ap (update args i 0) (omega arith) ∙ update_self args i 0,
      λ a h. update_ne args i a 0 (λ e. omega arith),
    )
take_args_lem (suc left) i at (suc n) command m args c room =
    let char = m (command + at) in
    let more : (char == 0) ≡ false =
      ==_ne _ _ (λ z. c.filled 0 (omega arith) (ap m (omega arith) ∙ z)) in
    let tail : IsCString m (command + (at + 1)) n = record {
      filled = λ j h z. c.filled (j + 1) (omega arith) (ap m (omega arith) ∙ z);
      ended = ap m (omega arith) ∙ c.ended;
    } in
    let after = take_args left (i + 1) (at + 1) command m (update args i char) in
    let (inside, ended, below) =
      take_args_lem left (i + 1) (at + 1) n command m (update args i char) tail (omega arith) in
    rw more (
      chars after inside (below i (omega arith) ∙ update_self args i char),
      ap after (omega arith) ∙ ended,
      λ a h. below a (omega arith) ∙ update_ne args i a char (λ e. omega arith),
    )
  where
    chars :
        (after : Memory)
        → ((j : ℕ) → j < n → after (i + 1 + j) ≡ m (command + (at + 1) + j))
        → after i ≡ m (command + at)
        → (j : ℕ) → j < suc n
        → after (i + j) ≡ m (command + at + j)
    chars after inside first zero h = ap after (omega arith) ∙ first ∙ ap m (omega arith)
    chars after inside first (suc j) h =
        ap after (omega arith) ∙ inside j (omega arith) ∙ ap m (omega arith)
