-- ===== src/CompressionStatic/Laws.antt =====
-- What a precompressed variant is.
use static_web_server.Common.{
  ℕ, Str, Bytes, false, ◌≡◌, Option, none, some, List, [], ◌∷◌, arith, Option-cases, inl, inr,
}
use mathlib.Core.Path.{subst}
use static_web_server.Http.{Http, ContentCoding}
use static_web_server.Fs.Meta.{Disk, try_metadata}
use static_web_server.HeadersExt.Accept.{get_encodings}
use static_web_server.CompressionStatic.{
  CompressedFileVariant, variant_path, try_encoding, first_variant, precompressed_variant,
}

module _ {Time : Type 0} (D : Disk Time) (path : Bytes) where
  -- `v` is the file beside `path` for the coding `c`: it is on the disk and no directory.
  pub record IsVariant (c : ContentCoding) (v : CompressedFileVariant Time) : Type 0 where
    pub encoding : v.encoding ≡ c
    pub named : variant_path path c ≡ some v.file_path
    pub found : D.metadata v.file_path ≡ some v.metadata
    pub no_dir : v.metadata.is_dir ≡ false

  -- The variant of the first coding that has one.
  pub data FirstOf : List ContentCoding → Option (CompressedFileVariant Time) → Type 0 where
    nothing : FirstOf [] none
    here :
        {c : ContentCoding} {l : List ContentCoding} {v : CompressedFileVariant Time}
        → IsVariant c v
        → FirstOf (c ∷ l) (some v)
    skip :
        {c : ContentCoding} {l : List ContentCoding} {o : Option (CompressedFileVariant Time)}
        → ((v : CompressedFileVariant Time) → ¬ IsVariant c v)
        → FirstOf l o
        → FirstOf (c ∷ l) o

  try_encoding-IsVariant :
      (c : ContentCoding) (v : CompressedFileVariant Time)
      → try_encoding D path c ≡ some v
      → IsVariant c v
  unfolding try_encoding try_metadata
  try_encoding-IsVariant c v h = record {
    encoding = ground arith;
    named = ground arith;
    found = ground arith;
    no_dir = ground arith;
  }

  try_encoding-none :
      (c : ContentCoding) (v : CompressedFileVariant Time)
      → try_encoding D path c ≡ none
      → ¬ IsVariant c v
  unfolding try_encoding try_metadata
  try_encoding-none c v h i = ground (arith, i.named, i.found, i.no_dir)

  first_variant-FirstOf : (l : List ContentCoding) → FirstOf l (first_variant D path l)
  unfolding first_variant
  first_variant-FirstOf [] = nothing
  first_variant-FirstOf (c ∷ l) = elim (Option-cases (try_encoding D path c)) [
    | inl e ↦ rw (e, first_variant) (skip (λ v. try_encoding-none c v e) (first_variant-FirstOf l))
    | inr (v, e) ↦ rw (e, first_variant) (here (try_encoding-IsVariant c v e))
  ]

-- The precompressed variant of a file is the one for the first coding, in the client's order of
-- preference, whose file is on the disk and is no directory; there is none exactly when no coding
-- that the client accepts and the server offers has such a file.
pub precompressed_variant-FirstOf :
    (quality_of : Str → Option ℕ) (H : Http) (D : Disk H.Time) (path : Bytes)
    (headers : H.HeaderMap)
    → FirstOf D path
        (get_encodings quality_of H headers)
        (precompressed_variant quality_of H D path headers)
unfolding precompressed_variant
precompressed_variant-FirstOf quality_of H D path headers =
    first_variant-FirstOf D path (get_encodings quality_of H headers)

IsVariant-of_FirstOf :
    {Time : Type 0} (D : Disk Time) (path : Bytes) {v : CompressedFileVariant Time}
    {l : List ContentCoding} {o : Option (CompressedFileVariant Time)}
    → FirstOf D path l o
    → o ≡ some v
    → IsVariant D path v.encoding v
IsVariant-of_FirstOf D path {v = v} nothing e = cc
IsVariant-of_FirstOf D path {v = v} (skip _ f) e = IsVariant-of_FirstOf D path f e
IsVariant-of_FirstOf D path {v = v} (here {c} {v = w} i) e =
    let same : w ≡ v = cc in
    subst (λ u. IsVariant D path u.encoding u) same (rw (← i.encoding) at i)

pub precompressed_variant-IsVariant :
    (quality_of : Str → Option ℕ) (H : Http) (D : Disk H.Time) (path : Bytes)
    (headers : H.HeaderMap) (v : CompressedFileVariant H.Time)
    → precompressed_variant quality_of H D path headers ≡ some v
    → IsVariant D path v.encoding v
precompressed_variant-IsVariant quality_of H D path headers v =
    IsVariant-of_FirstOf D path (precompressed_variant-FirstOf quality_of H D path headers)
