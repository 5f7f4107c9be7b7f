-- ===== src/FileDriver/Listing.antt =====
-- `dir_read`: the name of one entry at each call.
use lightweight_operating_sy.Prelude.{
  ℕ, zero, suc, ◌+◌, ◌<◌, ◌≤◌, ◌≡◌, ◌≢◌, ◌⊎◌, inl, inr, refl, sym, ap, ◌∙◌, arith, Memory, update,
  update_self, update_ne, Bool-cases, ℕ_discrete, ◌==◌, ==_iff, leb, min, u32,
}
use lightweight_operating_sy.FileSys.{
  num_dir_entries, dir_entry, max_file_name, read_dentry_by_index,
}
use lightweight_operating_sy.FileSys.Lookup.{IsEntry, read_dentry_by_index_lem}
use lightweight_operating_sy.FileDriver.Table.{file_at-with_file_self, SameElse, with_file-SameElse}
use lightweight_operating_sy.Process.{FileDescriptor}
use lightweight_operating_sy.Kernel.{Kernel}
use lightweight_operating_sy.FileDriver.{file_at, copy_name, dir_read}

-- A name of `len` characters at `entry`: 32 at most, and a NUL after fewer.
pub record IsName (m : Memory) (entry len : ℕ) : Type 0 where
  pub filled : (i : ℕ) → i < len → m (entry + i) ≢ 0
  pub short : len ≤ max_file_name
  pub ended : (len ≡ max_file_name) ⊎ (m (entry + len) ≡ 0)

-- `count` bytes from `entry` on are at `buf`, and no other byte changed.
pub record Listed (m m' : Memory) (entry buf count : ℕ) : Type 0 where
  pub inside : (i : ℕ) → i < count → m' (buf + i) ≡ m (entry + i)
  pub outside : (a : ℕ) → (a < buf) ⊎ (buf + count ≤ a) → m' a ≡ m a

not_ended :
    (i len left : ℕ) (dentry : Memory)
    → dentry i ≢ 0
    → i ≤ len
    → (i + suc left ≤ len) ⊎ (dentry len ≡ 0)
    → i < len
not_ended i len left dentry full le stop = elim stop [
  | inl room ↦ omega arith
  | inr nul ↦ elim (ℕ_discrete i len) [
    | yes e ↦ absurd (full (ap dentry e ∙ nul))
    | no n ↦ omega arith
  ]
]

next_stop :
    (i left len : ℕ) (dentry : Memory)
    → (i + suc left ≤ len) ⊎ (dentry len ≡ 0)
    → (i + 1 + left ≤ len) ⊎ (dentry len ≡ 0)
next_stop i left len dentry stop = elim stop [ inl room ↦ inl (omega arith) | inr nul ↦ inr nul ]

copy_name_lem :
    (left i len : ℕ) (dentry : Memory) (buf : ℕ) (m : Memory)
    → ((j : ℕ) → j < len → dentry j ≢ 0)
    → i ≤ len
    → (i + left ≤ len) ⊎ (dentry len ≡ 0)
    → let (count, m') = copy_name left i dentry buf m in
      (count ≡ min (i + left) len)
      × ((j : ℕ) → i ≤ j → j < min (i + left) len → m' (buf + j) ≡ dentry j)
      × ((a : ℕ) → (a < buf + i) ⊎ (buf + min (i + left) len ≤ a) → m' a ≡ m a)
unfolding copy_name
copy_name_lem zero i len dentry buf m filled le stop =
    (omega arith, (λ j p q. absurd (omega arith)), (λ a o. refl))
copy_name_lem (suc left) i len dentry buf m filled le stop = elim (Bool-cases (dentry i == 0)) [
  | inl z ↦
      let nul : dentry i ≡ 0 = (==_iff _ _).0 z in
      let last : i ≡ len = ground (arith, le, nul, filled i) in
      rw z (omega arith, (λ j p q. absurd (omega arith)), (λ a o. refl))
  | inr nz ↦
      let full : dentry i ≢ 0 = ground (arith, nz) in
      let more : i < len = not_ended i len left dentry full le stop in
      let same : i + suc left ≡ i + 1 + left = omega arith in
      let (counted, inside, outside) =
        copy_name_lem left (i + 1) len dentry buf (update m (buf + i) (dentry i)) filled
          (omega arith) (next_stop i left len dentry stop) in
      rw (nz, same)
        (
          counted,
          (λ j p q. elim (ℕ_discrete i j) [
            | yes e ↦
                rw (sym e)
                  (outside (buf + i) (inl (omega arith)) ∙ update_self m (buf + i) (dentry i))
            | no n ↦ inside j (omega arith) q
          ]),
          (λ a o. outside a (omega arith) ∙ update_ne m (buf + i) a (dentry i) (λ e. omega arith)),
        )
]

stop_at :
    (m d : Memory) (entry nbytes len : ℕ)
    → IsEntry m entry d
    → IsName m entry len
    → (nbytes ≤ max_file_name) ⊎ (len < max_file_name)
    → (0 + nbytes ≤ len) ⊎ (d len ≡ 0)
unfolding IsEntry
stop_at m d entry nbytes len held name room = elim name.ended [
  | inr nul ↦ inr (held len (omega (arith, name.short)) ∙ nul)
  | inl full ↦ inl (omega (arith, room))
]

-- The copy of an entry's name out of the struct that holds the entry.
copy_name-Listed :
    (m d : Memory) (entry buf nbytes len : ℕ)
    → IsEntry m entry d
    → IsName m entry len
    → (nbytes ≤ max_file_name) ⊎ (len < max_file_name)
    → let (count, m') = copy_name nbytes 0 d buf m in
      (count ≡ min nbytes len) × Listed m m' entry buf count
unfolding IsEntry
copy_name-Listed m d entry buf nbytes len held name room =
    let small : len ≤ 32 = name.short in
    let stop : (0 + nbytes ≤ len) ⊎ (d len ≡ 0) = stop_at m d entry nbytes len held name room in
    let (count, inside, outside) =
      copy_name_lem nbytes 0 len d buf m (λ j h e. name.filled j h (sym (held j (omega arith)) ∙ e))
        (omega arith) stop in
    (
      count ∙ omega arith,
      record {
        inside = λ j h. inside j (omega arith) (omega arith) ∙ held j (omega arith);
        outside = λ a o. outside a (omega arith);
      },
    )

-- For a position whose entry, if it is one, has a name of `len` characters, and a `nbytes` of at most
-- 32 unless the name is shorter than that: at the end of the directory `dir_read` returns 0, sets the
-- position to 0 and leaves the memory; before it, it returns the smaller of `nbytes` and `len`, writes
-- as many characters of the name to `buf` and nothing else, and moves the position on by one entry;
-- nothing else in the process and the file system changes.
pub dir_read_lem :
    (stack : Memory) (fd buf nbytes len : ℕ) (k : Kernel)
    → let p = (file_at k fd).file_position in
      let m = k.display.mem in
      let entry = dir_entry m k.fs p in
      (p < num_dir_entries m k.fs → IsName m entry len)
      → (nbytes ≤ max_file_name) ⊎ (len < max_file_name)
      → let (count, k') = dir_read stack fd buf nbytes k in
        ((num_dir_entries m k.fs ≤ p)
          × (count ≡ 0)
          × ((file_at k' fd).file_position ≡ 0)
          × (k'.display.mem ≡ m)
          × SameElse k k' fd)
        ⊎ ((p < num_dir_entries m k.fs)
            × (count ≡ min nbytes len)
            × ((file_at k' fd).file_position ≡ u32 (p + 1))
            × Listed m k'.display.mem entry buf count
            × SameElse k k' fd)
unfolding dir_read
dir_read_lem stack fd buf nbytes len k name room =
    let p = (file_at k fd).file_position in
    let m = k.display.mem in
    elim (Bool-cases (leb (num_dir_entries m k.fs) p)) [
      | inl past ↦ rw past (
          inl (
            ground arith,
            refl,
            ap (λ (g : FileDescriptor). g.file_position) (file_at-with_file_self k fd _),
            refl,
            with_file-SameElse k m fd 0,
          ))
      | inr before ↦
          let within : p < num_dir_entries m k.fs = ground arith in
          elim (read_dentry_by_index_lem m k.fs p stack) [
            | inl (_, found, held) ↦
                let (count, listed) =
                  copy_name-Listed m (read_dentry_by_index m k.fs p stack).1 (dir_entry m k.fs p)
                    buf nbytes len held (name within) room in
                rw (before, found)
                  (inr (
                    within,
                    count,
                    ap (λ (g : FileDescriptor). g.file_position) (file_at-with_file_self k fd _),
                    listed,
                    with_file-SameElse k _ fd (u32 (p + 1)),
                  ))
            | inr (past, _, _) ↦ absurd (omega arith)
          ]
    ]
