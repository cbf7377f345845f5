-- ===== src/Common/Text.antt =====
-- What the program uses of `str`: splitting, trimming, prefixes and suffixes, on lists of code
-- points. `trim` takes the white space of ASCII off; where the program trims a text that may hold
-- more, the trimmed text is a parameter.
use Prim.Native.Nat.{ℕ, ◌+◌}
use mathlib.Core.Path.{◌≡◌, refl, ap}
use mathlib.Core.Logic.{◌≢◌}
use mathlib.Core.Bool.{Bool, true, false, ◌&&◌, ◌||◌}
use mathlib.Core.Option.{Option, none, some}
use mathlib.Core.List.{List, [], ◌∷◌, ◌++◌, reverse}
use native.Mathlib.Omega.{arith}
use static_web_server.Common.Tests.{◌==◌, leb, ltb, if◌then◌else◌}
use static_web_server.Common.Lists.{Str, All}

abbrev pub cons_first : ℕ → List Str → List Str
cons_first x [] = (x ∷ []) ∷ []
cons_first x (p ∷ ps) = (x ∷ p) ∷ ps

-- `s.split(c)`: the pieces between the marks, at least one
unfoldable pub split_on : ℕ → Str → List Str
split_on c [] = [] ∷ []
split_on c (x ∷ s) = let rest = split_on c s in if x == c then [] ∷ rest else cons_first x rest

-- `s.trim_start_matches(c)`
unfoldable pub trim_start_matches : ℕ → Str → Str
trim_start_matches c [] = []
trim_start_matches c (x ∷ s) = let rest = trim_start_matches c s in if x == c then rest else x ∷ s

abbrev pub is_whitespace : ℕ → Bool
is_whitespace c = (leb 9 c && leb c 13) || c == 32

-- `s.trim_start()`, `s.trim()`
unfoldable pub trim_start : Str → Str
trim_start [] = []
trim_start (x ∷ s) = let rest = trim_start s in if is_whitespace x then rest else x ∷ s

unfoldable pub trim : Str → Str
unfolding trim_start
trim s = reverse (trim_start (reverse (trim_start s)))

-- `s.strip_prefix(p)`
unfoldable pub strip_prefix : Str → Str → Option Str
strip_prefix [] s = some s
strip_prefix (x ∷ p) [] = none
strip_prefix (x ∷ p) (y ∷ s) = if x == y then strip_prefix p s else none

-- `s.starts_with(c)` and `s.ends_with(c)`, for one character
unfoldable pub starts_with : ℕ → Str → Bool
starts_with c [] = false
starts_with c (x ∷ s) = x == c

unfoldable pub ends_with : ℕ → Str → Bool
ends_with c [] = false
ends_with c (x ∷ []) = x == c
ends_with c (x ∷ y ∷ s) = ends_with c (y ∷ s)

-- `s.is_empty()`
unfoldable pub is_empty : Str → Bool
is_empty [] = true
is_empty (x ∷ s) = false

-- `s.split_once(c)`: around the first mark
unfoldable pub split_once : ℕ → Str → Option (Str × Str)
split_once c [] = none
split_once c (x ∷ s) =
    let rest = split_once c s in
    if x == c then some ([], s) else elim rest [ none ↦ none | some (a, b) ↦ some (x ∷ a, b) ]

-- `s.rsplit_once(c)`: around the last mark
unfoldable pub rsplit_once : ℕ → Str → Option (Str × Str)
rsplit_once c [] = none
rsplit_once c (x ∷ s) = elim (rsplit_once c s) [
  | some (a, b) ↦ some (x ∷ a, b)
  | none ↦ if x == c then some ([], s) else none
]

-- `s.len()`: the bytes of the UTF-8 of a text
unfoldable pub utf8_len : Str → ℕ
utf8_len [] = 0
utf8_len (c ∷ s) =
    (if ltb c 0x80 then 1 else if ltb c 0x800 then 2 else if ltb c 0x10000 then 3 else 4)
    + utf8_len s

-- No `c` in the text.
abbrev pub Lacks : ℕ → Str → Type 0
Lacks c = All (λ x. x ≢ c)

pub split_on-ne-nil : (c : ℕ) (s : Str) → split_on c s ≢ []
unfolding split_on
split_on-ne-nil c [] = λ e. cc
split_on-ne-nil c (x ∷ s) = ground (arith, split_on-ne-nil c s)

cons_first-append : (x : ℕ) (l m : List Str) → l ≢ [] → cons_first x (l ++ m) ≡ cons_first x l ++ m
cons_first-append x [] m h = absurd (h refl)
cons_first-append x (p ∷ l) m h = refl

pub split_on-append : (c : ℕ) (a b : Str) → split_on c (a ++ c ∷ b) ≡ split_on c a ++ split_on c b
unfolding split_on
split_on-append c [] b = ground arith
split_on-append c (x ∷ a) b = ground (
  arith,
  split_on-append c a b,
  split_on-ne-nil c a,
  cons_first-append x (split_on c a) (split_on c b),
)

pub split_on-Lacks : (c : ℕ) (s : Str) → All (Lacks c) (split_on c s)
unfolding split_on
split_on-Lacks c [] = (tt, tt)
split_on-Lacks c (x ∷ s) = ground (arith, split_on-Lacks c s)

pub split_on_of_Lacks : (c : ℕ) (s : Str) → Lacks c s → split_on c s ≡ s ∷ []
unfolding split_on
split_on_of_Lacks c [] h = refl
split_on_of_Lacks c (x ∷ s) (p, h) = ground (arith, split_on_of_Lacks c s h)

-- What ends with `c` is something with `c` behind it.
pub ends_with-append : (c : ℕ) (s : Str) → ends_with c s ≡ true → (a : Str) × (s ≡ a ++ c ∷ [])
unfolding ends_with
ends_with-append c [] h = cc
ends_with-append c (x ∷ []) h = ([], ground arith)
ends_with-append c (x ∷ y ∷ s) h =
    let (a, e) = ends_with-append c (y ∷ s) h in (x ∷ a, ap (◌∷◌ x) e)
