-- ===== src/FileSys/Lookup.antt =====
-- What `read_dentry_by_index` and `read_dentry_by_name` find.
use lightweight_operating_sy.Prelude.{
  ℕ, zero, suc, ◌+◌, ◌<◌, ◌≤◌, ◌≡◌, ◌≢◌, ◌⊎◌, inl, inr, refl, some, arith, Memory, update, leb,
  ◌==◌, Bool-cases, ==_iff, minus_one, ==_ne, ℕ_discrete,
}
use lightweight_operating_sy.Str.{strncmp}
use lightweight_operating_sy.Str.Length.{IsCString, strlen-IsCString}
use lightweight_operating_sy.Str.Compare.{Agree, IsBytes, strncmp_iff}
use lightweight_operating_sy.FileSys.{
  FileSystem, num_dir_entries, dir_entry, max_file_name, copy_field, copy_dentry,
  read_dentry_by_index, find_dentry, read_dentry_by_name,
}

-- Bytes `lo` to `lo + n` of the entry are in the struct, and the others are as they were.
record FieldCopied (m : Memory) (entry : ℕ) (d d' : Memory) (lo n : ℕ) : Type 0 where
  inside : (j : ℕ) → lo ≤ j → j < lo + n → d' j ≡ m (entry + j)
  outside : (j : ℕ) → (j < lo) ⊎ (lo + n ≤ j) → d' j ≡ d j

copy_field-FieldCopied :
    (n lo : ℕ) (m : Memory) (entry : ℕ) (d : Memory)
    → FieldCopied m entry d (copy_field n lo m entry d) lo n
unfolding copy_field
copy_field-FieldCopied zero lo m entry d = record {
  inside = λ j p q. absurd (omega arith);
  outside = λ j o. refl;
}
copy_field-FieldCopied (suc n) lo m entry d =
    grow _ (copy_field-FieldCopied n (lo + 1) m entry (update d lo (m (entry + lo))))
  where
    grow :
        (d' : Memory)
        → FieldCopied m entry (update d lo (m (entry + lo))) d' (lo + 1) n
        → FieldCopied m entry d d' lo (suc n)
    grow d' f = record {
      inside = λ j p q. ground (arith, f.inside j, f.outside j);
      outside = λ j o. ground (arith, f.outside j);
    }

-- The struct holds the 64 bytes of the entry.
unfoldable pub IsEntry : Memory → ℕ → Memory → Type 0
IsEntry m entry d = (j : ℕ) → j < 64 → d j ≡ m (entry + j)

copy_dentry-IsEntry :
    (m : Memory) (entry : ℕ) (d : Memory) → IsEntry m entry (copy_dentry m entry d)
unfolding copy_dentry IsEntry
copy_dentry-IsEntry m entry d j h =
    let d1 = copy_field 4 32 m entry d in
    let d2 = copy_field 4 36 m entry d1 in
    let d3 = copy_field 32 0 m entry d2 in
    ground (
      arith,
      (copy_field-FieldCopied 4 32 m entry d).inside j,
      (copy_field-FieldCopied 4 36 m entry d1).inside j,
      (copy_field-FieldCopied 4 36 m entry d1).outside j,
      (copy_field-FieldCopied 32 0 m entry d2).inside j,
      (copy_field-FieldCopied 32 0 m entry d2).outside j,
      (copy_field-FieldCopied 24 40 m entry d3).inside j,
      (copy_field-FieldCopied 24 40 m entry d3).outside j,
    )

-- `read_dentry_by_index` fails exactly for an index that is no entry's, and leaves the struct then;
-- else it returns 0 and copies all 64 bytes of the entry.
pub read_dentry_by_index_lem :
    (m : Memory) (fs : FileSystem) (index : ℕ) (d : Memory)
    → let (ret, d') = read_dentry_by_index m fs index d in
      ((index < num_dir_entries m fs) × (ret ≡ 0) × IsEntry m (dir_entry m fs index) d')
      ⊎ ((num_dir_entries m fs ≤ index) × (ret ≡ minus_one) × (d' ≡ d))
unfolding read_dentry_by_index
read_dentry_by_index_lem m fs index d = elim (Bool-cases (leb (num_dir_entries m fs) index)) [
  | inl past ↦ rw past (inr (ground arith, refl, refl))
  | inr within ↦
      rw within (inl (ground arith, refl, copy_dentry-IsEntry m (dir_entry m fs index) d))
]

-- The entry whose name agrees with the string, and no earlier one does.
pub record IsFirst (m : Memory) (fs : FileSystem) (fname from i : ℕ) : Type 0 where
  pub late : from ≤ i
  pub within : i < num_dir_entries m fs
  pub agrees : Agree m fname (dir_entry m fs i) max_file_name
  pub first : (j : ℕ) → from ≤ j → j < i → Agree m fname (dir_entry m fs j) max_file_name → ⊥

-- The two outcomes of a search from entry `from` on.
abbrev pub Found : Memory → FileSystem → ℕ → ℕ → Memory → ℕ × Memory → Type 0
Found m fs fname from d r =
    ((i : ℕ) × (r.0 ≡ i) × IsFirst m fs fname from i × IsEntry m (dir_entry m fs i) r.1)
    ⊎ ((r ≡ (minus_one, d))
        × ((j : ℕ)
            → from ≤ j
            → j < num_dir_entries m fs
            → Agree m fname (dir_entry m fs j) max_file_name
            → ⊥))

module _ (m : Memory) (bytes : IsBytes m) (fs : FileSystem) (fname : ℕ) (d : Memory) where
  Found-here :
      (i : ℕ)
      → i < num_dir_entries m fs
      → strncmp m fname (dir_entry m fs i) max_file_name ≡ 0
      → Found m fs fname i d (i, (read_dentry_by_index m fs i d).1)
  unfolding read_dentry_by_index
  Found-here i h e = inl (
    i,
    refl,
    record {
      late = omega arith;
      within = h;
      agrees = (strncmp_iff m bytes fname (dir_entry m fs i) max_file_name).0 e;
      first = λ j p q. absurd (omega arith);
    },
    ground (arith, copy_dentry-IsEntry m (dir_entry m fs i) d),
  )

  Found-skip :
      (i : ℕ) (r : ℕ × Memory)
      → strncmp m fname (dir_entry m fs i) max_file_name ≢ 0
      → Found m fs fname (i + 1) d r
      → Found m fs fname i d r
  Found-skip i r ne (inl (k, e, f, c)) = inl (
    k,
    e,
    record {
      late = omega (arith, f.late);
      within = f.within;
      agrees = f.agrees;
      first = λ j p q a. elim (ℕ_discrete j i) [
        | yes same ↦ miss j same a
        | no other ↦ f.first j (omega arith) q a
      ];
    },
    c,
  )
    where
      miss : (j : ℕ) → j ≡ i → Agree m fname (dir_entry m fs j) max_file_name → ⊥
      miss j same a =
          ne ((strncmp_iff m bytes fname (dir_entry m fs i) max_file_name).1 (rw same at a))
  Found-skip i r ne (inr (e, none_later)) = inr (
    e,
    λ j p q a. elim (ℕ_discrete j i) [
      | yes same ↦ miss j same a
      | no other ↦ none_later j (omega arith) q a
    ],
  )
    where
      miss : (j : ℕ) → j ≡ i → Agree m fname (dir_entry m fs j) max_file_name → ⊥
      miss j same a =
          ne ((strncmp_iff m bytes fname (dir_entry m fs i) max_file_name).1 (rw same at a))

  find_dentry-Found :
      (left i : ℕ)
      → i + left ≡ num_dir_entries m fs
      → Found m fs fname i d (find_dentry left i m fs fname d)
  unfolding find_dentry
  find_dentry-Found zero i e = inr (refl, λ j p q a. omega arith)
  find_dentry-Found (suc left) i e =
      let test = strncmp m fname (dir_entry m fs i) max_file_name in
      elim (Bool-cases (test == 0)) [
        | inl hit ↦ rw hit (Found-here i (omega arith) ((==_iff test 0).0 hit))
        | inr miss ↦
            rw miss
              (Found-skip i _ (λ z. ground arith) (find_dentry-Found left (i + 1) (omega arith)))
      ]

  -- In memory of bytes, for a C string of 1 to 32 characters and with more fuel than its length,
  -- `read_dentry_by_name` ends. It returns the index of the first entry whose name agrees with the
  -- string on 32 characters or up to a common NUL, with all 64 bytes of that entry in the struct; or
  -- it returns -1, the struct is as it was, and no entry agrees.
  pub read_dentry_by_name_lem :
      (fuel n : ℕ)
      → fname ≢ 0
      → IsCString m fname n
      → 1 ≤ n
      → n ≤ max_file_name
      → n < fuel
      → (r : ℕ × Memory) × (read_dentry_by_name fuel m fs fname d ≡ some r) × Found m fs fname 0 d r
  unfolding read_dentry_by_name
  read_dentry_by_name_lem fuel n nonnull c lo hi f = (
    find_dentry (num_dir_entries m fs) 0 m fs fname d,
    rw (==_ne fname 0 nonnull, strlen-IsCString fuel m fname n c f) (ground arith),
    find_dentry-Found (num_dir_entries m fs) 0 (omega arith),
  )

-- A null pointer, an empty string and a string of more than 32 characters are refused with -1.
read_dentry_by_name_refuses :
    (m : Memory) (fs : FileSystem) (fname : ℕ) (d : Memory) (fuel n : ℕ)
    → (fname ≡ 0) ⊎ (IsCString m fname n × (n < fuel) × ((n ≡ 0) ⊎ (max_file_name < n)))
    → read_dentry_by_name fuel m fs fname d ≡ some (minus_one, d)
unfolding read_dentry_by_name
read_dentry_by_name_refuses m fs fname d fuel n (inl z) = rw z
read_dentry_by_name_refuses m fs fname d fuel n (inr (c, f, bad)) =
    ground (arith, strlen-IsCString fuel m fname n c f)
