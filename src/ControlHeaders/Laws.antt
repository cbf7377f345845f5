-- ===== src/ControlHeaders/Laws.antt =====
-- What the extension of a path is.
use static_web_server.Common.{
  ℕ, Str, ◌≡◌, refl, ap, Option, none, some, [], ◌∷◌, ◌++◌, Lacks, rsplit_once, ==_iff, ◌==◌,
  Bool-cases, inl, inr, if◌then◌else◌,
}
use static_web_server.ControlHeaders.{get_file_extension}

-- Around the last dot, or none if there is no dot.
pub IsSplit : Str → Option (Str × Str) → Type 0
IsSplit uri none = Lacks b'.' uri
IsSplit uri (some (stem, extension)) = (uri ≡ stem ++ b'.' ∷ extension) × Lacks b'.' extension

-- What follows the last dot of a path, if it has one.
pub IsExtension : Str → Option Str → Type 0
IsExtension uri none = Lacks b'.' uri
IsExtension uri (some extension) =
    (stem : Str) × (uri ≡ stem ++ b'.' ∷ extension) × Lacks b'.' extension

IsSplit-step :
    (x : ℕ) (uri : Str) (o : Option (Str × Str))
    → IsSplit uri o
    → IsSplit (x ∷ uri) (elim o [
      | some (a, b) ↦ some (x ∷ a, b)
      | none ↦ if x == b'.' then some ([], uri) else none
    ])
unfolding IsSplit
IsSplit-step x uri (some (a, b)) (e, l) = (ap (◌∷◌ x) e, l)
IsSplit-step x uri none l = elim (Bool-cases (x == b'.')) [
  | inl e ↦ let same : x ≡ b'.' = (==_iff x b'.').0 e in rw e (rw same refl, l)
  | inr e ↦ rw e ((λ same. cc (e, (==_iff x b'.').1 same)), l)
]

rsplit_once-IsSplit : (uri : Str) → IsSplit uri (rsplit_once b'.' uri)
unfolding IsSplit rsplit_once
rsplit_once-IsSplit [] = tt
rsplit_once-IsSplit (x ∷ uri) = IsSplit-step x uri (rsplit_once b'.' uri) (rsplit_once-IsSplit uri)

IsExtension-of_split :
    (uri : Str) (o : Option (Str × Str))
    → IsSplit uri o
    → IsExtension uri (elim o [ none ↦ none | some (_, rest) ↦ some rest ])
unfolding IsSplit IsExtension
IsExtension-of_split uri none l = l
IsExtension-of_split uri (some (a, b)) (e, l) = (a, e, l)

-- The extension of a path is what follows its last dot, whatever slashes that has; there is none
-- exactly when the path has no dot.
pub get_file_extension-IsExtension : (uri : Str) → IsExtension uri (get_file_extension uri)
get_file_extension-IsExtension uri =
    IsExtension-of_split uri (rsplit_once b'.' uri) (rsplit_once-IsSplit uri)
