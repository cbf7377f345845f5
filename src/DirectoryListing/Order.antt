-- ===== src/DirectoryListing/Order.antt =====
-- The entries of a listing are in the order that was asked for, and all there.
use mathlib.Core.List.{reverse, reverse-reverse, reverse-cons}
use static_web_server.Common.{
  ℕ, zero, suc, ◌+◌, ◌<◌, ◌++◌, Str, Bytes, Bool, true, false, ◌≡◌, refl, ap, ◌∙◌, Option, List, [],
  ◌∷◌, All, if◌then◌else◌, arith, Bool-cases, inl, inr,
}
use static_web_server.DirectoryListing.{
  FileEntry, insert_by, sort_by, str_leb, option_leb, by_name, by_mtime, by_size, sort_file_entries,
}

-- No member comes before one that is smaller.
abbrev pub IsSortedBy {ℓ} : {A : Type ℓ} → (A → A → Bool) → List A → Type 0
IsSortedBy le [] = Unit
IsSortedBy le (x ∷ xs) = All (λ y. le x y ≡ true) xs × IsSortedBy le xs

module _ {A : Type 0} (le : A → A → Bool) where
  -- A comparison that a sort can go by.
  pub record IsOrder : Type 0 where
    pub total : (a b : A) → le a b ≡ false → le b a ≡ true
    pub trans : (a b c : A) → le a b ≡ true → le b c ≡ true → le a c ≡ true

  All-insert_by :
      (n x : A) (ys : List A)
      → le n x ≡ true
      → All (λ y. le n y ≡ true) ys
      → All (λ y. le n y ≡ true) (insert_by le x ys)
  unfolding insert_by
  All-insert_by n x [] h k = (h, tt)
  All-insert_by n x (y ∷ ys) h (p, k) = elim (Bool-cases (le x y)) [
    | inl e ↦ rw (e, insert_by) (h, (p, k))
    | inr e ↦ rw (e, insert_by) (p, All-insert_by n x ys h k)
  ]

  All-trans :
      (o : IsOrder) (x y : A) (ys : List A)
      → le x y ≡ true
      → All (λ z. le y z ≡ true) ys
      → All (λ z. le x z ≡ true) ys
  All-trans o x y [] h k = tt
  All-trans o x y (z ∷ ys) h (p, k) = (o.trans x y z h p, All-trans o x y ys h k)

  insert_by-IsSortedBy :
      (o : IsOrder) (x : A) (ys : List A) → IsSortedBy le ys → IsSortedBy le (insert_by le x ys)
  unfolding insert_by
  insert_by-IsSortedBy o x [] s = (tt, tt)
  insert_by-IsSortedBy o x (y ∷ ys) (a, s) = elim (Bool-cases (le x y)) [
    | inl e ↦ rw (e, insert_by) ((e, All-trans o x y ys e a), (a, s))
    | inr e ↦
        rw (e, insert_by) (All-insert_by y x ys (o.total x y e) a, insert_by-IsSortedBy o x ys s)
  ]

  pub sort_by-IsSortedBy : (o : IsOrder) (xs : List A) → IsSortedBy le (sort_by le xs)
  unfolding sort_by
  sort_by-IsSortedBy o [] = tt
  sort_by-IsSortedBy o (x ∷ xs) = insert_by-IsSortedBy o x (sort_by le xs) (sort_by-IsSortedBy o xs)

str_leb_total : (a b : Str) → str_leb a b ≡ false → str_leb b a ≡ true
unfolding str_leb
str_leb_total [] b h = cc
str_leb_total (x ∷ a) [] h = refl
str_leb_total (x ∷ a) (y ∷ b) h = ground (arith, h, str_leb_total a b)

str_leb_trans : (a b c : Str) → str_leb a b ≡ true → str_leb b c ≡ true → str_leb a c ≡ true
unfolding str_leb
str_leb_trans [] b c h k = refl
str_leb_trans (x ∷ a) [] c h k = cc
str_leb_trans (x ∷ a) (y ∷ b) [] h k = cc
str_leb_trans (x ∷ a) (y ∷ b) (z ∷ c) h k = ground (arith, h, k, str_leb_trans a b c)

option_leb_total : (a b : Option ℕ) → option_leb a b ≡ false → option_leb b a ≡ true
unfolding option_leb
option_leb_total a b h = ground (arith, h)

option_leb_trans :
    (a b c : Option ℕ) → option_leb a b ≡ true → option_leb b c ≡ true → option_leb a c ≡ true
unfolding option_leb
option_leb_trans a b c h k = ground (arith, h, k)

-- how many members pass a test
pub count : {A : Type 0} → (A → Bool) → List A → ℕ
count p [] = 0
count p (x ∷ xs) = (if p x then 1 else 0) + count p xs

module _ {A : Type 0} (p : A → Bool) where
  count-append : (xs ys : List A) → count p (xs ++ ys) ≡ count p xs + count p ys
  unfolding count
  count-append [] ys = omega arith
  count-append (x ∷ xs) ys = omega (arith, count-append xs ys)

  count-reverse : (xs : List A) → count p (reverse xs) ≡ count p xs
  unfolding count
  count-reverse [] = refl
  count-reverse (x ∷ xs) =
      ap (count p) (reverse-cons x xs)
      ∙ omega (arith, count-append (reverse xs) (x ∷ []), count-reverse xs)

  count-insert_by :
      (le : A → A → Bool) (x : A) (ys : List A)
      → count p (insert_by le x ys) ≡ (if p x then 1 else 0) + count p ys
  unfolding count insert_by
  count-insert_by le x [] = refl
  count-insert_by le x (y ∷ ys) = elim (Bool-cases (le x y)) [
    | inl e ↦ rw (e, insert_by) refl
    | inr e ↦ rw (e, insert_by) (omega (arith, count-insert_by le x ys))
  ]

  count-sort_by : (le : A → A → Bool) (xs : List A) → count p (sort_by le xs) ≡ count p xs
  unfolding count sort_by
  count-sort_by le [] = refl
  count-sort_by le (x ∷ xs) =
      omega (arith, count-insert_by le x (sort_by le xs), count-sort_by le xs)

module _ (name_key : Bytes → Str) where
  -- The order of a listing for a code: by name, by time or by size, and of each pair of codes the
  -- second turns the list around; other codes leave the entries as they are.
  pub data InOrder (files : List FileEntry) : ℕ → List FileEntry → Type 0 where
    name_up : {l : List FileEntry} → IsSortedBy (by_name name_key) l → InOrder files 0 l
    name_down : {l : List FileEntry} → IsSortedBy (by_name name_key) (reverse l) → InOrder files 1 l
    time_up : {l : List FileEntry} → IsSortedBy (by_mtime name_key) l → InOrder files 2 l
    time_down :
        {l : List FileEntry} → IsSortedBy (by_mtime name_key) (reverse l) → InOrder files 3 l
    size_up : {l : List FileEntry} → IsSortedBy (by_size name_key) l → InOrder files 4 l
    size_down : {l : List FileEntry} → IsSortedBy (by_size name_key) (reverse l) → InOrder files 5 l
    unsorted : {code : ℕ} → 5 < code → InOrder files code files

  turned :
      (le : FileEntry → FileEntry → Bool) (l : List FileEntry)
      → IsSortedBy le l
      → IsSortedBy le (reverse (reverse l))
  turned le l s = rw (reverse-reverse l) s

  name-IsOrder : IsOrder (by_name name_key)
  name-IsOrder = record {
    total = λ a b. str_leb_total (name_key a.name) (name_key b.name);
    trans = λ a b c. str_leb_trans (name_key a.name) (name_key b.name) (name_key c.name);
  }

  mtime-IsOrder : IsOrder (by_mtime name_key)
  mtime-IsOrder = record {
    total = λ a b. option_leb_total a.mtime b.mtime;
    trans = λ a b c. option_leb_trans a.mtime b.mtime c.mtime;
  }

  size-IsOrder : IsOrder (by_size name_key)
  size-IsOrder = record {
    total = λ a b. option_leb_total a.size b.size;
    trans = λ a b c. option_leb_trans a.size b.size c.size;
  }

  other_code :
      (files : List FileEntry) (code : ℕ)
      → 5 < code
      → (sort_file_entries name_key files code).0 ≡ files
  unfolding sort_file_entries
  other_code files code h = ground (arith, h)

  -- A listing has exactly the entries it was given, and they are in the order of the code.
  pub sort_file_entries-InOrder :
      (files : List FileEntry) (order_code : ℕ)
      → InOrder files order_code (sort_file_entries name_key files order_code).0
        × ((p : FileEntry → Bool)
            → count p (sort_file_entries name_key files order_code).0 ≡ count p files)
  unfolding sort_file_entries
  sort_file_entries-InOrder files zero =
      (name_up (sort_by-IsSortedBy _ name-IsOrder files), λ p. count-sort_by p _ files)
  sort_file_entries-InOrder files (suc zero) = (
    name_down (turned _ _ (sort_by-IsSortedBy _ name-IsOrder files)),
    λ p. count-reverse p _ ∙ count-sort_by p _ files,
  )
  sort_file_entries-InOrder files (suc (suc zero)) =
      (time_up (sort_by-IsSortedBy _ mtime-IsOrder files), λ p. count-sort_by p _ files)
  sort_file_entries-InOrder files (suc (suc (suc zero))) = (
    time_down (turned _ _ (sort_by-IsSortedBy _ mtime-IsOrder files)),
    λ p. count-reverse p _ ∙ count-sort_by p _ files,
  )
  sort_file_entries-InOrder files (suc (suc (suc (suc zero)))) =
      (size_up (sort_by-IsSortedBy _ size-IsOrder files), λ p. count-sort_by p _ files)
  sort_file_entries-InOrder files (suc (suc (suc (suc (suc zero))))) = (
    size_down (turned _ _ (sort_by-IsSortedBy _ size-IsOrder files)),
    λ p. count-reverse p _ ∙ count-sort_by p _ files,
  )
  sort_file_entries-InOrder files (suc (suc (suc (suc (suc (suc n)))))) =
      let many : 5 < suc (suc (suc (suc (suc (suc n))))) = omega arith in
      rw (other_code files (suc (suc (suc (suc (suc (suc n)))))) many) (unsorted many, λ p. refl)
