-- ===== src/HeadersExt/Quality/Laws.antt =====
-- The order of quality values.
use static_web_server.Common.{
  ℕ, true, ◌≡◌, ◌≤◌, refl, ap, ◌∙◌, List, [], ◌∷◌, leb, ◌==◌, if◌then◌else◌, keep, all, arith,
}
use static_web_server.HeadersExt.Quality.{QualityMeta, insert_meta, sort}

-- No item stands before one of a higher quality.
abbrev pub IsSorted : List QualityMeta → Type 0
IsSorted [] = Unit
IsSorted (x ∷ xs) = (all (λ (y : QualityMeta). leb y.quality x.quality) xs ≡ true) × IsSorted xs

all-insert_meta :
    (n : ℕ) (x : QualityMeta) (ys : List QualityMeta)
    → x.quality ≤ n
    → all (λ (y : QualityMeta). leb y.quality n) ys ≡ true
    → all (λ (y : QualityMeta). leb y.quality n) (insert_meta x ys) ≡ true
unfolding insert_meta
all-insert_meta n x [] h k = ground arith
all-insert_meta n x (y ∷ ys) h k = ground (arith, all-insert_meta n x ys h)

all_le :
    (m n : ℕ) (ys : List QualityMeta)
    → m ≤ n
    → all (λ (y : QualityMeta). leb y.quality m) ys ≡ true
    → all (λ (y : QualityMeta). leb y.quality n) ys ≡ true
all_le m n [] h k = refl
all_le m n (y ∷ ys) h k = ground (arith, all_le m n ys h)

insert_meta-IsSorted :
    (x : QualityMeta) (ys : List QualityMeta) → IsSorted ys → IsSorted (insert_meta x ys)
unfolding insert_meta
insert_meta-IsSorted x [] h = (refl, tt)
insert_meta-IsSorted x (y ∷ ys) (k, h) = ground (
  arith,
  all-insert_meta y.quality x ys,
  insert_meta-IsSorted x ys h,
  all_le y.quality x.quality ys,
)

-- The items of one quality, in their order.
abbrev pub of_quality : ℕ → List QualityMeta → List QualityMeta
of_quality q = keep (λ (m : QualityMeta). m.quality == q)

insert_meta-of_quality :
    (q : ℕ) (x : QualityMeta) (ys : List QualityMeta)
    → of_quality q (insert_meta x ys) ≡ of_quality q (x ∷ ys)
unfolding insert_meta
insert_meta-of_quality q x [] = refl
insert_meta-of_quality q x (y ∷ ys) = ground (arith, insert_meta-of_quality q x ys)

sort-IsSorted : (xs : List QualityMeta) → IsSorted (sort xs)
unfolding sort
sort-IsSorted [] = tt
sort-IsSorted (x ∷ xs) = insert_meta-IsSorted x (sort xs) (sort-IsSorted xs)

sort-of_quality : (q : ℕ) (xs : List QualityMeta) → of_quality q (sort xs) ≡ of_quality q xs
unfolding sort
sort-of_quality q [] = refl
sort-of_quality q (x ∷ xs) =
    insert_meta-of_quality q x (sort xs)
    ∙ ap (λ l. if x.quality == q then x ∷ l else l) (sort-of_quality q xs)

-- Sorting puts the items of higher quality first, and keeps the items of each quality, all of them,
-- in the order in which the header names them.
pub sort_stable :
    (xs : List QualityMeta)
    → IsSorted (sort xs) × ((q : ℕ) → of_quality q (sort xs) ≡ of_quality q xs)
sort_stable xs = (sort-IsSorted xs, λ q. sort-of_quality q xs)
