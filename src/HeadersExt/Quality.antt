-- ===== src/HeadersExt/Quality.antt =====
-- src/headers_ext/quality_value.rs. `quality_of` is the float arithmetic there: the u16
-- `(parsed * 1000_f32) as u16` for what `value.parse::<f32>()` gives, `none` where that fails.
pub mod Laws
use static_web_server.Common.{
  ℕ, Str, Bool, true, false, Option, none, some, List, [], ◌∷◌, ◌++◌, map, filter_map, leb, ltb,
  if◌then◌else◌, codes, split_on, trim, trim_start, strip_prefix, Result, ok, err,
}
use static_web_server.Http.{Http}

pub record QualityMeta : Type 0 where
  pub content : Str
  pub quality : ℕ

-- `slice::sort`, which is stable, by the order of `QualityMeta`: the higher quality first
unfoldable pub insert_meta : QualityMeta → List QualityMeta → List QualityMeta
insert_meta x [] = x ∷ []
insert_meta x (y ∷ ys) = if leb y.quality x.quality then x ∷ y ∷ ys else y ∷ insert_meta x ys

unfoldable pub sort : List QualityMeta → List QualityMeta
unfolding insert_meta
sort [] = []
sort (x ∷ xs) = insert_meta x (sort xs)

module _ (quality_of : Str → Option ℕ) where
  -- one round of the loop in `try_from`
  part_quality : ℕ → Str → ℕ
  part_quality quality part = elim (strip_prefix (codes "q=") (trim_start part)) [
    | none ↦ quality
    | some value ↦ elim (quality_of (trim value)) [ none ↦ quality | some parsed ↦ parsed ]
  ]

  parts_quality : ℕ → List Str → ℕ
  parts_quality quality [] = quality
  parts_quality quality (part ∷ parts) = parts_quality (part_quality quality part) parts

  meta_of_parts : List Str → Option QualityMeta
  meta_of_parts [] = none
  meta_of_parts (first ∷ parts) =
      some (record { content = trim first; quality = parts_quality 1000 (first ∷ parts) })

  -- `QualityMeta::try_from`; the error is `None`
  unfoldable pub try_from : Str → Option QualityMeta
  unfolding part_quality parts_quality meta_of_parts
  try_from val = meta_of_parts (split_on b';' val)

  module _ (H : Http) where
    -- the items of `QualityValue::iter`, before they are sorted
    unfoldable pub items : Str → List QualityMeta
    items value = elim (H.to_str value) [
      | none ↦ []
      | some value_str ↦ filter_map try_from (split_on b',' value_str)
    ]

    -- `QualityValue::iter`
    unfoldable pub iter : Str → List Str
    iter value = map (λ (m : QualityMeta). m.content) (sort (items value))

-- `try_from_values`, on the values of all headers of one name
abbrev pub joined : Str → List Str → Str
joined buf [] = buf
joined buf (v ∷ vs) = joined (buf ++ codes ", " ++ v) vs

unfoldable pub try_from_values : Http → List Str → Option Str
try_from_values H [] = some []
try_from_values H (first ∷ []) = some first
try_from_values H (first ∷ v ∷ vs) = H.from_maybe_shared (joined first (v ∷ vs))
