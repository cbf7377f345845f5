-- ===== src/HeadersExt/Accept/Laws.antt =====
-- Which coding is chosen for a client.
use static_web_server.Common.{
  ℕ, Str, Bool, true, false, ◌≡◌, refl, ap, ◌∙◌, sym, Option, none, some, List, [], ◌∷◌, map, find,
  keep, head?, all, any, not, ◌||◌, ◌&&◌, leb, arith, Option-cases, Bool-cases, inl, inr,
}
use static_web_server.Http.{Http, ContentCoding}
use static_web_server.HeadersExt.Coding.{from}
use static_web_server.HeadersExt.Quality.{QualityMeta, insert_meta, sort, items}
use static_web_server.HeadersExt.Quality.Laws.{IsSorted, sort_stable}
use static_web_server.HeadersExt.Accept.{
  is_available, accept_encoding, sorted_encodings, get_preferred_encoding, get_encodings,
}

abbrev pub offers : QualityMeta → Bool
offers m = is_available (from m.content)

pub data Member (m : QualityMeta) : List QualityMeta → Type 0 where
  first : {l : List QualityMeta} → Member m (m ∷ l)
  later : {n : QualityMeta} {l : List QualityMeta} → Member m l → Member m (n ∷ l)

-- The choice among the items of a header: none when the server offers none of them, and otherwise
-- the coding of an item that it offers, of which none that it offers has a higher quality.
pub data Best : List QualityMeta → Option ContentCoding → Type 0 where
  nothing : {l : List QualityMeta} → any offers l ≡ false → Best l none
  chosen :
      {l : List QualityMeta} (m : QualityMeta)
      → Member m l
      → offers m ≡ true
      → all (λ (n : QualityMeta). not (offers n) || leb n.quality m.quality) l ≡ true
      → Best l (some (from m.content))

abbrev codings : List QualityMeta → List ContentCoding
codings l = map from (map (λ (m : QualityMeta). m.content) l)

all_weaker :
    (n : ℕ) (l : List QualityMeta)
    → all (λ (m : QualityMeta). leb m.quality n) l ≡ true
    → all (λ (m : QualityMeta). not (offers m) || leb m.quality n) l ≡ true
all_weaker n [] h = refl
all_weaker n (x ∷ l) h = ground (arith, all_weaker n l)

Best-cons :
    (x : QualityMeta) (l : List QualityMeta) (o : Option ContentCoding)
    → offers x ≡ false
    → Best l o
    → Best (x ∷ l) o
Best-cons x l o h (nothing e) = nothing (rw h e)
Best-cons x l o h (chosen m i f a) = chosen m (later i) f (rw h a)

find-Best : (l : List QualityMeta) → IsSorted l → Best l (find is_available (codings l))
find-Best [] h = nothing refl
find-Best (x ∷ l) (h, k) = elim (Bool-cases (offers x)) [
  | inl e ↦ rw e (chosen x first e (ground (arith, all_weaker x.quality l)))
  | inr e ↦ rw e (Best-cons x l _ e (find-Best l k))
]

module _ (p : QualityMeta → Bool) where
  all-insert_meta :
      (x : QualityMeta) (l : List QualityMeta) → all p (insert_meta x l) ≡ (p x && all p l)
  unfolding insert_meta
  all-insert_meta x [] = refl
  all-insert_meta x (y ∷ l) = ground (arith, all-insert_meta x l)

  any-insert_meta :
      (x : QualityMeta) (l : List QualityMeta) → any p (insert_meta x l) ≡ (p x || any p l)
  unfolding insert_meta
  any-insert_meta x [] = refl
  any-insert_meta x (y ∷ l) = ground (arith, any-insert_meta x l)

  all-sort : (l : List QualityMeta) → all p (sort l) ≡ all p l
  unfolding sort
  all-sort [] = refl
  all-sort (x ∷ l) = all-insert_meta x (sort l) ∙ ap (λ b. p x && b) (all-sort l)

  any-sort : (l : List QualityMeta) → any p (sort l) ≡ any p l
  unfolding sort
  any-sort [] = refl
  any-sort (x ∷ l) = any-insert_meta x (sort l) ∙ ap (λ b. p x || b) (any-sort l)

Member-insert_meta :
    {m : QualityMeta} (x : QualityMeta) (l : List QualityMeta)
    → Member m (insert_meta x l)
    → Member m (x ∷ l)
unfolding insert_meta
Member-insert_meta x [] i = i
Member-insert_meta {m} x (y ∷ l) i = elim (Bool-cases (leb y.quality x.quality)) [
  | inl e ↦ rw (e, insert_meta) at i
  | inr e ↦ swapped x y l (Member-insert_meta x l) (rw (e, insert_meta) at i)
]
  where
    swapped :
        (x y : QualityMeta) (l : List QualityMeta)
        → (Member m (insert_meta x l) → Member m (x ∷ l))
        → Member m (y ∷ insert_meta x l)
        → Member m (x ∷ y ∷ l)
    swapped x y l ih first = later first
    swapped x y l ih (later i) = past (ih i)
      where
        past : {x y : QualityMeta} {l : List QualityMeta} → Member m (x ∷ l) → Member m (x ∷ y ∷ l)
        past first = first
        past (later j) = later (later j)

Member-sort : {m : QualityMeta} (l : List QualityMeta) → Member m (sort l) → Member m l
unfolding sort
Member-sort [] i = i
Member-sort {m} (x ∷ l) i = down (Member-insert_meta x (sort l) i) (Member-sort l)
  where
    down :
        {x : QualityMeta} {k l : List QualityMeta}
        → Member m (x ∷ k)
        → (Member m k → Member m l)
        → Member m (x ∷ l)
    down first f = first
    down (later j) f = later (f j)

Best-sort : (l : List QualityMeta) (o : Option ContentCoding) → Best (sort l) o → Best l o
Best-sort l none (nothing e) = nothing (rw any-sort at e)
Best-sort l o (chosen m i f a) = chosen m (Member-sort l i) f (rw all-sort at a)

head?-keep {ℓ} : {A : Type ℓ} (p : A → Bool) (l : List A) → head? (keep p l) ≡ find p l
head?-keep p [] = refl
head?-keep p (x ∷ l) = ground (arith, head?-keep p l)

module _ (quality_of : Str → Option ℕ) (H : Http) where
  -- The preferred coding is the first of the codings, in order of preference, that a precompressed
  -- file is looked for in.
  pub get_preferred_encoding-head :
      (headers : H.HeaderMap)
      → get_preferred_encoding quality_of H headers ≡ head? (get_encodings quality_of H headers)
  unfolding get_preferred_encoding get_encodings
  get_preferred_encoding-head headers = elim (Option-cases (accept_encoding quality_of H headers)) [
    | inl e ↦ rw (e, get_preferred_encoding, get_encodings) refl
    | inr (v, e) ↦
        rw (e, get_preferred_encoding, get_encodings)
          (sym (head?-keep is_available (sorted_encodings quality_of H v)))
  ]

  -- With an `Accept-Encoding` header, the preferred coding is that of an item of the header that the
  -- server offers and than which no item that it offers has a higher quality; there is none exactly
  -- when the server offers none of the items. The quality 0 does not exclude an item.
  pub get_preferred_encoding-Best :
      (headers : H.HeaderMap) (value : Str)
      → accept_encoding quality_of H headers ≡ some value
      → Best (items quality_of H value) (get_preferred_encoding quality_of H headers)
  unfolding get_preferred_encoding sorted_encodings
  get_preferred_encoding-Best headers value e =
      rw (e, get_preferred_encoding)
        (Best-sort (items quality_of H value) _
          (find-Best (sort (items quality_of H value)) (sort_stable (items quality_of H value)).0))
