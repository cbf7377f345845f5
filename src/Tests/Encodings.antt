-- ===== src/Tests/Encodings.antt =====
-- Content codings: what a client accepts, and what it gets.
use static_web_server.Common.{
  ℕ, Str, Bytes, Bool, true, false, ◌≡◌, refl, Option, none, some, List, [], ◌∷◌, codes, Result, ok,
  err, ◌⊎◌, head?,
}
use static_web_server.Http.{Response, ContentCoding, string, response}
use static_web_server.HeadersExt.Coding.{as_str, from, from-as_str}
use static_web_server.HeadersExt.Quality.{QualityMeta, sort, items}
use static_web_server.HeadersExt.Accept.{accept_encoding, get_preferred_encoding, get_encodings}
use static_web_server.HeadersExt.Accept.Laws.{Best, get_preferred_encoding-Best}
use static_web_server.Compression.{compression_post_process}
use static_web_server.Compression.Laws.{Compresses, compression_post_process-IsCompressed}
use static_web_server.Env.Options.{RequestHandlerOpts}
use static_web_server.Tests.Http.{http, get_request}
use static_web_server.Tests.Disk.{env, plain_opts}

abbrev half : Str → Option ℕ
half s = some 500

from-as_str_example : from (as_str ContentCoding.zstd) ≡ ContentCoding.zstd
from-as_str_example = from-as_str ContentCoding.zstd

abbrev metas : List QualityMeta
metas =
    record { content = codes "br"; quality = 500 }
    ∷ record { content = codes "gzip"; quality = 1000 }
    ∷ record { content = codes "zstd"; quality = 500 }
    ∷ []

abbrev accepts : http.HeaderMap
accepts = ("accept-encoding", codes "br;q=0.5, gzip") ∷ []

accepted : accept_encoding half http accepts ≡ some (codes "br;q=0.5, gzip")
unfolding accept_encoding static_web_server.HeadersExt.Quality.try_from_values
accepted = refl

prefers_gzip : get_preferred_encoding half http accepts ≡ some ContentCoding.gzip
unfolding get_preferred_encoding accept_encoding
    static_web_server.HeadersExt.Quality.try_from_values
    static_web_server.HeadersExt.Accept.sorted_encodings sort items mathlib.Core.List.filter_map
    static_web_server.Common.split_on static_web_server.HeadersExt.Quality.try_from
    static_web_server.Common.strip_prefix static_web_server.Common.trim_start
    static_web_server.HeadersExt.Accept.is_available from static_web_server.Common.trim
prefers_gzip = refl

get_preferred_encoding-Best_example :
    Best (items half http (codes "br;q=0.5, gzip")) (get_preferred_encoding half http accepts)
get_preferred_encoding-Best_example =
    get_preferred_encoding-Best half http accepts (codes "br;q=0.5, gzip") accepted

abbrev compressing : RequestHandlerOpts env
compressing = record plain_opts { compression = true }

abbrev page : Response http
page = record (response http (string (codes "hello"))) {
  headers = ("content-length", codes "5") ∷ [];
}

compression_post_process-IsCompressed_example :
    (r : Response http) × (compression_post_process env compressing
        (get_request (codes "/a.txt") accepts)
        page
      ≡ ok r)
    × Compresses env compressing (get_request (codes "/a.txt") accepts) page r
compression_post_process-IsCompressed_example =
    compression_post_process-IsCompressed env compressing (get_request (codes "/a.txt") accepts)
      page
