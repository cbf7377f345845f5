-- ===== src/DirectoryListing/Sizes.antt =====
-- The unit of a size.
use static_web_server.Common.{
  ℕ, Str, true, false, ◌≡◌, ◌++◌, codes, ltb, ◌/◌, ◌≤◌, ◌<◌, arith, Bool-cases, inl, inr,
}
use static_web_server.DirectoryListing.{format_file_size, scale}

module _ (decimal fixed2 : ℕ → Str) where
  -- The text of a size: the bytes, if they are fewer than 1024; else the whole units of 1024 ^ k, times
  -- 1024, over 1024, with the name of the unit. That number is at least 1 and, but for the last unit,
  -- less than 1024.
  pub data IsSize (size : ℕ) : Str → Type 0 where
    in_bytes : size < 1024 → IsSize size (decimal size ++ codes " B")
    in_kib : 1024 ≤ size → size < 1048576 → IsSize size (fixed2 size ++ codes " " ++ codes "KiB")
    in_mib :
        1024 ≤ size / 1024
        → size / 1024 < 1048576
        → IsSize size (fixed2 (size / 1024) ++ codes " " ++ codes "MiB")
    in_gib :
        1024 ≤ size / 1024 / 1024
        → size / 1024 / 1024 < 1048576
        → IsSize size (fixed2 (size / 1024 / 1024) ++ codes " " ++ codes "GiB")
    in_tib :
        1024 ≤ size / 1024 / 1024 / 1024
        → size / 1024 / 1024 / 1024 < 1048576
        → IsSize size (fixed2 (size / 1024 / 1024 / 1024) ++ codes " " ++ codes "TiB")
    in_pib :
        1024 ≤ size / 1024 / 1024 / 1024 / 1024
        → IsSize size (fixed2 (size / 1024 / 1024 / 1024 / 1024) ++ codes " PiB")

  ltb_of : (a b : ℕ) → ltb a b ≡ true → a < b
  ltb_of a b h = ground (arith, h)

  ltb_not : (a b : ℕ) → ltb a b ≡ false → b ≤ a
  ltb_not a b h = ground (arith, h)

  next_unit : (a : ℕ) → ltb a 1048576 ≡ false → 1024 ≤ a / 1024
  next_unit a h = let k = ltb_not a 1048576 h in omega arith

  -- The text of a size has the unit in which the size is at least one and, but for the last, less than
  -- 1024 units.
  pub format_file_size-IsSize : (size : ℕ) → IsSize size (format_file_size decimal fixed2 size)
  unfolding format_file_size scale
  format_file_size-IsSize size = elim (Bool-cases (ltb size 1024)) [
    | inl a ↦ rw (a, format_file_size) (in_bytes (ltb_of _ _ a))
    | inr a ↦ elim (Bool-cases (ltb size 1048576)) [
      | inl b ↦ rw (a, b, format_file_size, scale) (in_kib (ltb_not _ _ a) (ltb_of _ _ b))
      | inr b ↦ elim (Bool-cases (ltb (size / 1024) 1048576)) [
        | inl c ↦ rw (a, b, c, format_file_size, scale) (in_mib (next_unit _ b) (ltb_of _ _ c))
        | inr c ↦ elim (Bool-cases (ltb (size / 1024 / 1024) 1048576)) [
          | inl d ↦ rw (a, b, c, d, format_file_size, scale) (in_gib (next_unit _ c) (ltb_of _ _ d))
          | inr d ↦ elim (Bool-cases (ltb (size / 1024 / 1024 / 1024) 1048576)) [
            | inl e ↦
                rw (a, b, c, d, e, format_file_size, scale) (in_tib (next_unit _ d) (ltb_of _ _ e))
            | inr e ↦ rw (a, b, c, d, e, format_file_size, scale) (in_pib (next_unit _ e))
          ]
        ]
      ]
    ]
  ]
