-- ===== src/Fs/Paths.antt =====
-- What the program uses of `std::path` on Unix, over bytes: the components of a path, `push`, `pop`,
-- `file_name`, `set_file_name`, `with_file_name`; and whether bytes are UTF-8 (`OsStr::to_str`).
pub mod Laws
pub mod Siblings
use mathlib.Core.List.{reverse}
use static_web_server.Common.{
  ℕ, zero, suc, Bytes, Bool, true, false, Option, none, some, List, [], ◌∷◌, ◌++◌, ◌||◌, ◌&&◌, not,
  if◌then◌else◌, ◌==◌, leb, ltb, codes, equal, split_on, ends_with, is_empty,
}

-- `std::path::Component`
pub data Component : Type 0 where
  root_dir cur_dir parent_dir : Component
  prefix normal : Bytes → Component

-- the component of a piece between slashes, if it stands for one
unfoldable pub piece : Bytes → Option Component
piece s =
    if is_empty s || equal s (b'.' ∷ [])
    then none
    else if equal s (b'.' ∷ b'.' ∷ [])
    then some parent_dir
    else some (normal s)

abbrev pub cons_some {ℓ} : {A : Type ℓ} → Option A → List A → List A
cons_some none l = l
cons_some (some a) l = a ∷ l

unfoldable pub pieces : List Bytes → List Component
pieces [] = []
pieces (s ∷ l) = cons_some (piece s) (pieces l)

-- a leading "." of a relative path is a component
unfoldable pub relative : List Bytes → List Component
unfolding pieces
relative [] = []
relative (s ∷ l) = if equal s (b'.' ∷ []) then cur_dir ∷ pieces l else pieces (s ∷ l)

-- `Path::components`
unfoldable pub components : Bytes → List Component
unfolding relative
components [] = []
components (c ∷ s) =
    if c == b'/' then root_dir ∷ pieces (split_on b'/' s) else relative (split_on b'/' (c ∷ s))

-- `PathBuf::push`
unfoldable pub push : Bytes → Bytes → Bytes
push base [] = if is_empty base || ends_with b'/' base then base else base ++ b'/' ∷ []
push base (c ∷ s) =
    if c == b'/'
    then c ∷ s
    else if is_empty base || ends_with b'/' base
    then base ++ c ∷ s
    else base ++ b'/' ∷ c ∷ s

-- From behind, a path's pieces without those at the end that stand for no component; the flag says
-- that the path is absolute.
strip : Bool → List Bytes → List Bytes
strip abs [] = []
strip true (s ∷ l) =
    let rest = strip true l in if is_empty s || equal s (b'.' ∷ []) then rest else s ∷ l
strip false (s ∷ []) = if is_empty s then [] else s ∷ []
strip false (s ∷ t ∷ l) =
    let rest = strip false (t ∷ l) in if is_empty s || equal s (b'.' ∷ []) then rest else s ∷ t ∷ l

abbrev join : List Bytes → Bytes
join [] = []
join (s ∷ []) = s
join (s ∷ t ∷ l) = s ++ b'/' ∷ join (t ∷ l)

last_name : List Bytes → Option Bytes
last_name [] = none
last_name (s ∷ l) = if equal s (b'.' ∷ []) || equal s (b'.' ∷ b'.' ∷ []) then none else some s

but_last : Bool → List Bytes → Option Bytes
but_last abs [] = none
but_last abs (s ∷ l) = some (join (reverse (strip abs l)))

-- `Path::file_name`: the last component, if it is a name
unfoldable pub file_name : Bytes → Option Bytes
unfolding strip last_name
file_name [] = none
file_name (c ∷ s) =
    if c == b'/'
    then last_name (strip true (reverse (split_on b'/' s)))
    else last_name (strip false (reverse (split_on b'/' (c ∷ s))))

-- `Path::parent`
unfoldable pub parent : Bytes → Option Bytes
unfolding strip but_last
parent [] = none
parent (c ∷ s) =
    if c == b'/'
    then elim (but_last true (strip true (reverse (split_on b'/' s)))) [
      | none ↦ none
      | some p ↦ some (b'/' ∷ p)
    ]
    else but_last false (strip false (reverse (split_on b'/' (c ∷ s))))

-- `PathBuf::pop`
unfoldable pub pop : Bytes → Bytes
unfolding parent
pop p = elim (parent p) [ none ↦ p | some q ↦ q ]

-- `PathBuf::set_file_name`, `Path::with_file_name`
unfoldable pub set_file_name : Bytes → Bytes → Bytes
unfolding file_name pop push
set_file_name p n = elim (file_name p) [ none ↦ push p n | some _ ↦ push (pop p) n ]

-- How many continuation bytes follow a leading byte, and the bounds of the first of them.
lead : ℕ → Option (ℕ × ℕ × ℕ)
lead c =
    if ltb c 0x80
    then some (0, 0x80, 0xbf)
    else if ltb c 0xc2
    then none
    else if ltb c 0xe0
    then some (1, 0x80, 0xbf)
    else if ltb c 0xf0
    then some (2, if c == 0xe0 then 0xa0 else 0x80, if c == 0xed then 0x9f else 0xbf)
    else if ltb c 0xf5
    then some (3, if c == 0xf0 then 0x90 else 0x80, if c == 0xf4 then 0x8f else 0xbf)
    else none

utf8_from : ℕ → ℕ → ℕ → Bytes → Bool
utf8_from zero lo hi [] = true
utf8_from (suc n) lo hi [] = false
utf8_from zero lo hi (c ∷ s) = elim (lead c) [
  | none ↦ false
  | some (n, lo', hi') ↦ utf8_from n lo' hi' s
]
utf8_from (suc n) lo hi (c ∷ s) = leb lo c && leb c hi && utf8_from n 0x80 0xbf s

-- `std::str::from_utf8(s).is_ok()`
unfoldable pub is_utf8 : Bytes → Bool
unfolding utf8_from lead
is_utf8 s = utf8_from 0 0 0 s
