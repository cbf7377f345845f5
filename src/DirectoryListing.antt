-- ===== src/DirectoryListing.antt =====
-- src/directory_listing.rs: the order of the entries of a listing, and their sizes as texts. The key
-- of a name is `name.to_string_lossy().to_lowercase()`, and `fixed2` prints a number over 1024 with
-- two decimals; both are parameters. A time is a number, and `None` comes before every `Some`.
pub mod Order
pub mod Sizes
pub mod Entries
pub mod Page
pub mod Index
use mathlib.Core.List.{reverse}
use static_web_server.Common.{
  ℕ, Str, Bytes, Bool, true, false, ◌&&◌, ◌||◌, Option, none, some, List, [], ◌∷◌, ◌++◌, codes, leb,
  ltb, ◌==◌, ◌/◌, if◌then◌else◌,
}

pub data FileType : Type 0 where
  directory file : FileType

pub record FileEntry : Type 0 where
  pub name : Bytes
  pub mtime : Option ℕ
  pub size : Option ℕ
  pub file_type : FileType
  pub uri : Str

pub record SortingAttr : Type 0 where
  pub name : Str
  pub last_modified : Str
  pub size : Str

-- a stable sort by a comparison: `x` goes before its equals, which come later in the list
module _ {A : Type 0} (le : A → A → Bool) where
  unfoldable pub insert_by : A → List A → List A
  insert_by x [] = x ∷ []
  insert_by x (y ∷ ys) = let rest = insert_by x ys in if le x y then x ∷ y ∷ ys else y ∷ rest

  unfoldable pub sort_by : List A → List A
  sort_by [] = []
  sort_by (x ∷ xs) = insert_by x (sort_by xs)

-- the orders of `String`, and of `Option`
unfoldable pub str_leb : Str → Str → Bool
str_leb [] t = true
str_leb (x ∷ s) [] = false
str_leb (x ∷ s) (y ∷ t) =
    let rest = str_leb s t in if ltb x y then true else if x == y then rest else false

unfoldable pub option_leb : Option ℕ → Option ℕ → Bool
option_leb none _ = true
option_leb (some a) none = false
option_leb (some a) (some b) = leb a b

module _ (name_key : Bytes → Str) where
  abbrev pub by_name : FileEntry → FileEntry → Bool
  by_name a b = str_leb (name_key a.name) (name_key b.name)

  abbrev pub by_mtime : FileEntry → FileEntry → Bool
  by_mtime a b = option_leb a.mtime b.mtime

  abbrev pub by_size : FileEntry → FileEntry → Bool
  by_size a b = option_leb a.size b.size

  attr : Str → Str → Str → SortingAttr
  attr name last_modified size = record { name = name; last_modified = last_modified; size = size }

  unfoldable pub sort_file_entries : List FileEntry → ℕ → List FileEntry × SortingAttr
  unfolding attr
  sort_file_entries files order_code =
      if order_code == 0
      then (sort_by by_name files, attr (codes "1") (codes "2") (codes "4"))
      else if order_code == 1
      then (reverse (sort_by by_name files), attr (codes "0") (codes "2") (codes "4"))
      else if order_code == 2
      then (sort_by by_mtime files, attr (codes "0") (codes "3") (codes "4"))
      else if order_code == 3
      then (reverse (sort_by by_mtime files), attr (codes "0") (codes "2") (codes "4"))
      else if order_code == 4
      then (sort_by by_size files, attr (codes "0") (codes "2") (codes "5"))
      else if order_code == 5
      then (reverse (sort_by by_size files), attr (codes "0") (codes "2") (codes "4"))
      else (files, attr (codes "0") (codes "2") (codes "4"))

abbrev pub inner_units : List Str
inner_units = codes "KiB" ∷ codes "MiB" ∷ codes "GiB" ∷ codes "TiB" ∷ []

module _ (decimal fixed2 : ℕ → Str) where
  -- the loop over the units between the first and the last
  unfoldable pub scale : List Str → ℕ → Str
  scale [] size_tmp = fixed2 size_tmp ++ codes " PiB"
  scale (unit ∷ units) size_tmp =
      let rest = scale units (size_tmp / 1024) in
      if ltb size_tmp 1048576 then fixed2 size_tmp ++ codes " " ++ unit else rest

  unfoldable pub format_file_size : ℕ → Str
  format_file_size size =
      if ltb size 1024 then decimal size ++ codes " B" else scale inner_units size
