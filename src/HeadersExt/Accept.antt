-- ===== src/HeadersExt/Accept.antt =====
-- src/headers_ext/accept_encoding.rs, and the choice of a coding in src/compression.rs, built with
-- every compression feature.
pub mod Laws
use static_web_server.Common.{ℕ, Str, Bool, Option, none, some, List, [], ◌∷◌, map, find, keep, any}
use static_web_server.Http.{Http, ContentCoding, brotli, deflate, gzip, zstd}
use static_web_server.HeadersExt.Coding.{from, coding_eq}
use static_web_server.HeadersExt.Quality.{QualityMeta, sort, items, iter, try_from_values}

abbrev pub available_encodings : List ContentCoding
available_encodings = deflate ∷ gzip ∷ brotli ∷ zstd ∷ []

-- `AVAILABLE_ENCODINGS.contains`
unfoldable pub is_available : ContentCoding → Bool
unfolding coding_eq
is_available c = any (λ a. coding_eq a c) available_encodings

module _ (quality_of : Str → Option ℕ) (H : Http) where
  -- `headers.typed_get::<AcceptEncoding>()`, which is `None` with no such header
  unfoldable pub accept_encoding : H.HeaderMap → Option Str
  accept_encoding headers = elim (H.get_all headers "accept-encoding") [
    | [] ↦ none
    | v ∷ vs ↦ try_from_values H (v ∷ vs)
  ]

  -- `AcceptEncoding::sorted_encodings`
  unfoldable pub sorted_encodings : Str → List ContentCoding
  unfolding iter
  sorted_encodings value = map from (iter quality_of H value)

  unfoldable pub get_preferred_encoding : H.HeaderMap → Option ContentCoding
  get_preferred_encoding headers = elim (accept_encoding headers) [
    | none ↦ none
    | some value ↦ find is_available (sorted_encodings value)
  ]

  unfoldable pub get_encodings : H.HeaderMap → List ContentCoding
  get_encodings headers = elim (accept_encoding headers) [
    | none ↦ []
    | some value ↦ keep is_available (sorted_encodings value)
  ]
