-- ===== src/HeadersExt/Coding.antt =====
-- src/headers_ext/content_coding.rs
use static_web_server.Common.{
  Str, ◌≡◌, refl, codes, ◌||◌, if◌then◌else◌, Option, none, some, equal, Bool, true, false,
}
use static_web_server.Http.{ContentCoding, brotli, compress, deflate, gzip, identity, zstd}

unfoldable pub as_str : ContentCoding → Str
as_str brotli = codes "br"
as_str compress = codes "compress"
as_str deflate = codes "deflate"
as_str gzip = codes "gzip"
as_str identity = codes "identity"
as_str zstd = codes "zstd"

abbrev named : Str → Str → Str → Bool
named s a b = equal s a || equal s b

-- `FromStr`: the identifier or the token, in this case of letters only
unfoldable pub from_str : Str → Option ContentCoding
unfolding equal
from_str s =
    if named s (codes "BROTLI") (codes "br")
    then some brotli
    else if named s (codes "COMPRESS") (codes "compress")
    then some compress
    else if named s (codes "DEFLATE") (codes "deflate")
    then some deflate
    else if named s (codes "GZIP") (codes "gzip")
    then some gzip
    else if named s (codes "IDENTITY") (codes "identity")
    then some identity
    else if named s (codes "ZSTD") (codes "zstd")
    then some zstd
    else none

-- `From<&str>`
unfoldable pub from : Str → ContentCoding
unfolding from_str
from s = elim (from_str s) [ none ↦ identity | some c ↦ c ]

unfoldable pub coding_eq : ContentCoding → ContentCoding → Bool
coding_eq brotli brotli = true
coding_eq compress compress = true
coding_eq deflate deflate = true
coding_eq gzip gzip = true
coding_eq identity identity = true
coding_eq zstd zstd = true
coding_eq _ _ = false

-- A coding is read back from the token that is written for it.
pub from-as_str : (c : ContentCoding) → from (as_str c) ≡ c
unfolding from as_str
from-as_str brotli = refl
from-as_str compress = refl
from-as_str deflate = refl
from-as_str gzip = refl
from-as_str identity = refl
from-as_str zstd = refl
