-- ===== src/Http/Values.antt =====
-- The plain values of the HTTP layer: methods, bounds of ranges, codings of contents, bodies, and
-- src/http_ext.rs, the methods that the server supports.
use static_web_server.Common.{
  ℕ, Str, Bytes, Bool, true, false, Option, ◌≡◌, ◌↔◌, List, [], ◌∷◌, any, equal, equal_iff, arith,
}

pub data Method : Type 0 where
  options head get : Method
  other : Str → Method

unfoldable pub method_eq : Method → Method → Bool
method_eq options options = true
method_eq head head = true
method_eq get get = true
method_eq (other a) (other b) = equal a b
method_eq _ _ = false

pub method_eq_iff : (a b : Method) → (method_eq a b ≡ true) ↔ (a ≡ b)
unfolding method_eq
method_eq_iff (other a) (other b) = ground (arith, equal_iff a b)
method_eq_iff options b = ground arith
method_eq_iff head b = ground arith
method_eq_iff get b = ground arith
method_eq_iff (other a) _ = ground arith

abbrev pub http_supported_methods : List Method
http_supported_methods = options ∷ head ∷ get ∷ []

unfoldable pub is_allowed : Method → Bool
unfolding method_eq
is_allowed m = any (λ s. method_eq s m) http_supported_methods

unfoldable pub is_get : Method → Bool
unfolding method_eq
is_get m = method_eq m get

unfoldable pub is_head : Method → Bool
unfolding method_eq
is_head m = method_eq m head

unfoldable pub is_options : Method → Bool
unfolding method_eq
is_options m = method_eq m options

-- `std::ops::Bound<u64>`, in the two forms that the pieces of a `headers::Range` have
pub data Bound : Type 0 where
  unbounded : Bound
  included : ℕ → Bound

-- `ContentCoding` of src/headers_ext/content_coding.rs
pub data ContentCoding : Type 0 where
  brotli compress deflate gzip identity zstd : ContentCoding

-- `async_compression::Level`, in the forms that the program makes
pub data Level : Type 0 where
  level_fastest level_best : Level
  precise : ℕ → Level

-- What the program makes a `hyper::Body` of: nothing, a string, bytes, the stream of `len` bytes of a
-- file from `start` read `buf_size` at a time, the same of bytes in memory, or a compressing encoder
-- at a level over a body.
pub data Body : Type 0 where
  empty : Body
  string : Str → Body
  bytes : Bytes → Body
  file_stream : Bytes → ℕ → ℕ → ℕ → Body
  memory_stream : Bytes → ℕ → ℕ → ℕ → Body
  encoded : ContentCoding → Level → Body → Body

-- `http::uri::Parts`
pub record UriParts : Type 0 where
  pub scheme : Option Str
  pub authority : Option Str
  pub path_and_query : Option Str
