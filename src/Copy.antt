-- ===== src/Copy.antt =====
-- The memory routines of src/lib.c, which are inline assembly: `memset`, `memcpy`, `memmove`. A model's
-- argument `n` is ECX, `dst` is EDI and `src` is ESI.
pub mod Region
pub mod Fill
use lightweight_operating_sy.Prelude.{
  ℕ, zero, suc, ◌+◌, ◌-◌, ◌*◌, ◌/◌, ◌%◌, Memory, update, leb, ◌==◌, if◌then◌else◌, bit_and, bit_or,
  u32,
}

-- `n` bytes upwards: `rep movsb` with the direction flag clear, and the loop of `.memcpy_bottom`.
copy_bytes : ℕ → Memory → ℕ → ℕ → Memory
copy_bytes zero m dst src = m
copy_bytes (suc n) m dst src = copy_bytes n (update m dst (m src)) (dst + 1) (src + 1)

-- `n` bytes downwards: `rep movsb` with the direction flag set.
copy_bytes_down : ℕ → Memory → ℕ → ℕ → Memory
copy_bytes_down zero m dst src = m
copy_bytes_down (suc n) m dst src = copy_bytes_down n (update m dst (m src)) (dst - 1) (src - 1)

-- A 32-bit store of the four bytes `a b c d`.
abbrev pub store4 : Memory → ℕ → ℕ → ℕ → ℕ → ℕ → Memory
store4 m p a b c d = update (update (update (update m p a) (p + 1) b) (p + 2) c) (p + 3) d

-- `rep movsl`: `n` double words upwards, each read whole before it is written.
copy_dwords : ℕ → Memory → ℕ → ℕ → Memory
copy_dwords zero m dst src = m
copy_dwords (suc n) m dst src =
    copy_dwords n (store4 m dst (m src) (m (src + 1)) (m (src + 2)) (m (src + 3))) (dst + 4)
      (src + 4)

-- `.memcpy_aligned` and `.memcpy_bottom`
memcpy_aligned : ℕ → Memory → ℕ → ℕ → Memory
memcpy_aligned n m dst src =
    copy_bytes (n % 4) (copy_dwords (n / 4) m dst src) (dst + 4 * (n / 4)) (src + 4 * (n / 4))

-- `.memcpy_top`: single bytes until the destination is aligned to 4
memcpy_top : ℕ → Memory → ℕ → ℕ → Memory
memcpy_top zero m dst src = m
memcpy_top (suc n) m dst src =
    let rest = memcpy_top n (update m dst (m src)) (dst + 1) (src + 1) in
    if dst % 4 == 0 then memcpy_aligned (suc n) m dst src else rest

unfoldable pub memcpy : Memory → ℕ → ℕ → ℕ → Memory
unfolding memcpy_top memcpy_aligned copy_bytes copy_dwords
memcpy m dest src n = memcpy_top n m dest src

-- `jae` compares ESI with EDI.
pub memmove : Memory → ℕ → ℕ → ℕ → Memory
memmove m dest src n =
    if leb dest src
    then copy_bytes n m dest src
    else copy_bytes_down n m (dest + n - 1) (src + n - 1)

-- `rep stosl`
set_dwords : ℕ → Memory → ℕ → ℕ → Memory
set_dwords zero m dst eax = m
set_dwords (suc n) m dst eax =
    set_dwords n
      (store4 m dst (eax % 256) (eax / 256 % 256) (eax / 65536 % 256) (eax / 16777216 % 256))
      (dst + 4) eax

-- `.memset_bottom`: AL, byte by byte
set_bytes : ℕ → Memory → ℕ → ℕ → Memory
set_bytes zero m dst eax = m
set_bytes (suc n) m dst eax = set_bytes n (update m dst (eax % 256)) (dst + 1) eax

memset_aligned : ℕ → Memory → ℕ → ℕ → Memory
memset_aligned n m dst eax =
    set_bytes (n % 4) (set_dwords (n / 4) m dst eax) (dst + 4 * (n / 4)) eax

memset_top : ℕ → Memory → ℕ → ℕ → Memory
memset_top zero m dst eax = m
memset_top (suc n) m dst eax =
    let rest = memset_top n (update m dst (eax % 256)) (dst + 1) eax in
    if dst % 4 == 0 then memset_aligned (suc n) m dst eax else rest

-- `c << 24 | c << 16 | c << 8 | c`
fill_word : ℕ → ℕ
fill_word c = bit_or (bit_or (bit_or (u32 (c * 16777216)) (c * 65536)) (c * 256)) c

pub memset : Memory → ℕ → ℕ → ℕ → Memory
memset m s c n = memset_top n m s (fill_word (bit_and c 0xff))

-- `rep stosw`: AX, `n` times.
set_words : ℕ → Memory → ℕ → ℕ → Memory
set_words zero m dst eax = m
set_words (suc n) m dst eax =
    set_words n (update (update m dst (eax % 256)) (dst + 1) (eax / 256 % 256)) (dst + 2) eax

pub memset_word : Memory → ℕ → ℕ → ℕ → Memory
unfolding set_words
memset_word m s c n = set_words n m s c

pub memset_dword : Memory → ℕ → ℕ → ℕ → Memory
unfolding set_dwords
memset_dword m s c n = set_dwords n m s c
