-- ===== src/Str/Compare.antt =====
-- `strncmp` returns 0 exactly when the two strings agree.
use lightweight_operating_sy.Prelude.{ℕ, zero, suc, ◌+◌, ◌<◌, ◌≡◌, ◌≢◌, ◌↔◌, refl, arith, Memory}
use lightweight_operating_sy.Str.{strncmp}

-- The two strings agree on `n` characters, or up to a NUL that both have within them.
unfoldable pub Agree : Memory → ℕ → ℕ → ℕ → Type 0
Agree m s1 s2 zero = Unit
Agree m s1 s2 (suc n) = (m s1 ≡ m s2) × (m s1 ≢ 0 → Agree m (s1 + 1) (s2 + 1) n)

-- Memory that holds bytes.
abbrev pub IsBytes : Memory → Type 0
IsBytes m = (a : ℕ) → m a < 0x100

-- `strncmp` returns 0 exactly when the strings agree on `n` characters or up to a common NUL.
pub strncmp_iff :
    (m : Memory) → IsBytes m → (s1 s2 n : ℕ) → (strncmp m s1 s2 n ≡ 0) ↔ Agree m s1 s2 n
unfolding strncmp Agree
strncmp_iff m bytes s1 s2 zero = (λ h. tt, λ h. refl)
strncmp_iff m bytes s1 s2 (suc n) =
    let ih = strncmp_iff m bytes (s1 + 1) (s2 + 1) n in
    (
      λ h. (ground (arith, bytes s1, bytes s2), λ ne. ih.0 (ground (arith, bytes s1, bytes s2))),
      λ h. ground (arith, ih.1, h.1),
    )
