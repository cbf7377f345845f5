-- ===== src/Fs/Paths/Laws.antt =====
-- The components of a path that a plain name is pushed onto.
use mathlib.Core.List.{append-nil, append_assoc}
use static_web_server.Common.{
  Bytes, true, ◌≡◌, refl, sym, ap, ◌∙◌, ◌≢◌, List, [], ◌∷◌, ◌++◌, All, Lacks, arith, ◌==◌,
  Bool-cases, inl, inr, equal_iff, split_on, split_on-append, split_on-Lacks, split_on_of_Lacks,
  split_on-ne-nil, ends_with, ends_with-append, is_empty,
}
use static_web_server.Fs.Paths.{
  Component, root_dir, normal, piece, cons_some, pieces, relative, components, push,
}

-- A name that stands for an entry of one directory: not "", "." or "..", and free of slashes.
abbrev pub IsName : Bytes → Type 0
IsName s = (s ≢ []) × (s ≢ (b'.' ∷ [])) × (s ≢ (b'.' ∷ b'.' ∷ [])) × Lacks b'/' s

-- Whatever is a name among components is such a name.
abbrev pub IsPlain : Component → Type 0
IsPlain (normal s) = IsName s
IsPlain _ = Unit

pieces-append : (l m : List Bytes) → pieces (l ++ m) ≡ pieces l ++ pieces m
unfolding pieces
pieces-append [] m = refl
pieces-append (s ∷ l) m = ground (arith, pieces-append l m)

relative-append : (l m : List Bytes) → l ≢ [] → relative (l ++ m) ≡ relative l ++ pieces m
unfolding relative
relative-append [] m h = absurd (h refl)
relative-append (s ∷ l) m h = ground (arith, pieces-append l m)

pub components_behind :
    (a b : Bytes) → a ≢ [] → components (a ++ b'/' ∷ b) ≡ components a ++ pieces (split_on b'/' b)
unfolding components
components_behind [] b h = absurd (h refl)
components_behind (c ∷ a) b h = elim (Bool-cases (c == b'/')) [
  | inl e ↦ rw (e, split_on-append) (ap (◌∷◌ root_dir) (pieces-append _ _))
  | inr e ↦ rw e (
      ap relative (split_on-append b'/' (c ∷ a) b)
      ∙ relative-append (split_on b'/' (c ∷ a)) (split_on b'/' b) (split_on-ne-nil b'/' (c ∷ a)))
]

pieces_of_IsName : (s : Bytes) → IsName s → pieces (split_on b'/' s) ≡ normal s ∷ []
pieces_of_IsName s (ne, dot, dots, free) =
    ap pieces (split_on_of_Lacks b'/' s free)
    ∙ unfold pieces piece is_empty in
      ground (arith, equal_iff s (b'.' ∷ []), equal_iff s (b'.' ∷ b'.' ∷ []))

pub components_of_IsName : (s : Bytes) → IsName s → components s ≡ normal s ∷ []
unfolding components
components_of_IsName [] h = absurd (h.0 refl)
components_of_IsName (c ∷ s) h = rw (split_on_of_Lacks b'/' (c ∷ s) h.3) (
    unfold pieces piece is_empty in
    ground (arith, h.3.0, equal_iff (c ∷ s) (b'.' ∷ []), equal_iff (c ∷ s) (b'.' ∷ b'.' ∷ [])))

components-append_behind :
    (a n : Bytes)
    → IsName n
    → components ((a ++ b'/' ∷ []) ++ n) ≡ components (a ++ b'/' ∷ []) ++ normal n ∷ []
components-append_behind [] n h =
    unfold components split_on pieces piece is_empty in ap (◌∷◌ root_dir) (pieces_of_IsName n h)
components-append_behind (c ∷ a) n h =
    ap components (append_assoc (c ∷ a) (b'/' ∷ []) n)
    ∙ components_behind (c ∷ a) n (λ e. cc)
    ∙ rw (pieces_of_IsName n h) (
        ap (λ l. l ++ normal n ∷ [])
          (sym (
            components_behind (c ∷ a) [] (λ e. cc)
            ∙ unfold split_on pieces piece is_empty in append-nil _)))

components-append_name :
    (base n : Bytes)
    → IsName n
    → ends_with b'/' base ≡ true
    → components (base ++ n) ≡ components base ++ normal n ∷ []
components-append_name base n h e =
    let (a, p) = ends_with-append b'/' base e in rw p (components-append_behind a n h)

components-join_name :
    (base n : Bytes)
    → IsName n
    → base ≢ []
    → components (base ++ b'/' ∷ n) ≡ components base ++ normal n ∷ []
components-join_name base n h ne = components_behind base n ne ∙ rw (pieces_of_IsName n h)

-- Pushing a name adds it as the last component, whatever the path.
pub components-push :
    (base n : Bytes) → IsName n → components (push base n) ≡ components base ++ normal n ∷ []
unfolding push is_empty components
components-push base [] h = absurd (h.0 refl)
components-push [] (c ∷ s) h =
    let e : components (c ∷ s) ≡ normal (c ∷ s) ∷ [] = components_of_IsName (c ∷ s) h in
    ground (arith, e, h.3.0)
components-push (b ∷ base) (c ∷ s) h = ground (
  arith,
  h.3.0,
  components-append_name (b ∷ base) (c ∷ s) h,
  components-join_name (b ∷ base) (c ∷ s) h (λ e. cc),
)

All-cons_some :
    (s : Bytes) (l : List Component)
    → Lacks b'/' s
    → All IsPlain l
    → All IsPlain (cons_some (piece s) l)
unfolding piece is_empty
All-cons_some [] l f h = h
All-cons_some (c ∷ s) l f h =
    ground (arith, equal_iff (c ∷ s) (b'.' ∷ []), equal_iff (c ∷ s) (b'.' ∷ b'.' ∷ []))

pieces-IsPlain : (l : List Bytes) → All (Lacks b'/') l → All IsPlain (pieces l)
unfolding pieces
pieces-IsPlain [] h = tt
pieces-IsPlain (s ∷ l) (f, h) = All-cons_some s (pieces l) f (pieces-IsPlain l h)

relative-IsPlain : (l : List Bytes) → All (Lacks b'/') l → All IsPlain (relative l)
unfolding relative
relative-IsPlain [] h = tt
relative-IsPlain (s ∷ l) (f, h) = ground (arith, pieces-IsPlain l h, pieces-IsPlain (s ∷ l) (f, h))

-- The names among a path's components are the names of entries.
pub components-IsPlain : (p : Bytes) → All IsPlain (components p)
unfolding components
components-IsPlain [] = tt
components-IsPlain (c ∷ s) = ground (
  arith,
  pieces-IsPlain (split_on b'/' s) (split_on-Lacks b'/' s),
  relative-IsPlain (split_on b'/' (c ∷ s)) (split_on-Lacks b'/' (c ∷ s)),
)
