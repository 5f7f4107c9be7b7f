-- ===== src/Tests/Strings.antt =====
-- The string and block routines.
use lightweight_operating_sy.Prelude.{
  ℕ, ◌<◌, ◌≤◌, ◌≡◌, ◌↔◌, ◌↔◌, inl, refl, some, arith, Memory, u8,
}
use lightweight_operating_sy.Str.{strlen, itoa}
use lightweight_operating_sy.Str.Length.{IsCString, strlen_iff}
use lightweight_operating_sy.Str.Digits.{AreDigits, number_of, itoa_spells}
use lightweight_operating_sy.Copy.{memcpy, memmove, memset}
use lightweight_operating_sy.Copy.Region.{Copied, memcpy-Copied, memmove-Copied}
use lightweight_operating_sy.Copy.Fill.{Filled, memset-Filled}
use lightweight_operating_sy.Tests.Data.{image}

-- The string "a" at 100.
name-IsCString : IsCString image 100 1
name-IsCString = record { filled = λ i h e. ground arith; ended = refl }

strlen_iff_example : (strlen 2 image 100 ≡ some 1) ↔ (IsCString image 100 1 × (1 < 2))
strlen_iff_example = strlen_iff 2 image 100 1

itoa_spells_example :
    (n : ℕ) × (m' : Memory) × (itoa 4 image 391 200 10 ≡ some m')
    × (n ≤ 3)
    × IsCString m' 200 n
    × (number_of 10 m' 200 n ≡ 391)
    × AreDigits 10 m' 200 n
    × ((a : ℕ) → a < 200 → m' a ≡ image a)
itoa_spells_example =
    itoa_spells 4 3 image 391 200 10 (omega arith) (omega arith) (omega arith) (omega arith)
      (omega arith)

memcpy-Copied_example : Copied image (memcpy image 201 4160 9) 201 4160 9
memcpy-Copied_example = memcpy-Copied image 201 4160 9 (inl (omega arith))

memmove-Copied_example : Copied image (memmove image 12289 12288 3) 12289 12288 3
memmove-Copied_example = memmove-Copied image 12289 12288 3

memset-Filled_example : Filled image (memset image 12289 7 11) 12289 (u8 7) 11
memset-Filled_example = memset-Filled image 12289 7 11
