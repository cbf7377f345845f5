-- ===== src/ControlHeaders.antt =====
-- src/control_headers.rs: `Cache-Control` by the extension of a path.
pub mod Laws
use static_web_server.Common.{
  ℕ, Str, Bool, Option, none, some, List, [], ◌∷◌, ◌++◌, codes, equal, any, min, if◌then◌else◌,
  Result, ok, rsplit_once,
}
use static_web_server.Http.{Request, Response, insert_header}
use static_web_server.Env.{Env}
use static_web_server.Env.Options.{RequestHandlerOpts}

abbrev pub max_age_one_hour : ℕ
max_age_one_hour = 3600

abbrev pub max_age_one_day : ℕ
max_age_one_day = 86400

abbrev pub max_age_one_year : ℕ
max_age_one_year = 31536000

-- `CACHE_EXT_ONE_HOUR` and `CACHE_EXT_ONE_YEAR`, in their sorted order
abbrev pub cache_ext_one_hour : List Str
cache_ext_one_hour = codes "atom" ∷ codes "json" ∷ codes "rss" ∷ codes "xml" ∷ []

abbrev pub cache_ext_one_year : List Str
cache_ext_one_year =
    codes "avif"
    ∷ codes "bmp"
    ∷ codes "bz2"
    ∷ codes "css"
    ∷ codes "doc"
    ∷ codes "gif"
    ∷ codes "gz"
    ∷ codes "htc"
    ∷ codes "ico"
    ∷ codes "jpeg"
    ∷ codes "jpg"
    ∷ codes "js"
    ∷ codes "jxl"
    ∷ codes "map"
    ∷ codes "mjs"
    ∷ codes "mp3"
    ∷ codes "mp4"
    ∷ codes "ogg"
    ∷ codes "ogv"
    ∷ codes "pdf"
    ∷ codes "png"
    ∷ codes "rar"
    ∷ codes "rtf"
    ∷ codes "tar"
    ∷ codes "tgz"
    ∷ codes "wav"
    ∷ codes "weba"
    ∷ codes "webm"
    ∷ codes "webp"
    ∷ codes "woff"
    ∷ codes "woff2"
    ∷ codes "zip"
    ∷ []

-- `binary_search(…).is_ok()` on a sorted list
abbrev pub listed_ext : List Str → Str → Bool
listed_ext l extension = any (λ e. equal e extension) l

abbrev pub get_file_extension : Str → Option Str
get_file_extension uri = elim (rsplit_once b'.' uri) [ none ↦ none | some (_, rest) ↦ some rest ]

abbrev pub extension_max_age : Str → ℕ
extension_max_age extension =
    if listed_ext cache_ext_one_hour extension
    then max_age_one_hour
    else if listed_ext cache_ext_one_year extension
    then max_age_one_year
    else max_age_one_day

unfoldable pub get_max_age : Str → ℕ
get_max_age uri = elim (get_file_extension uri) [
  | none ↦ max_age_one_day
  | some extension ↦ extension_max_age extension
]

module _ (E : Env) where
  unfoldable pub append_cache_control : Str → Response E.http → Response E.http
  append_cache_control uri resp =
      insert_header E.http resp "cache-control"
        (codes "public, max-age=" ++ E.http.decimal (min (get_max_age uri) 4294967295))

  -- `post_process`
  unfoldable pub control_post_process :
      RequestHandlerOpts E → Request E.http → Response E.http → Result Str (Response E.http)
  control_post_process opts req resp = ok (
      if opts.cache_control_headers
      then append_cache_control (E.http.uri_path req.uri) resp
      else resp)
