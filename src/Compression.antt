-- ===== src/Compression.antt =====
-- src/compression.rs, built with every compression feature. An encoder of async_compression over a
-- body is the body `encoded`.
pub mod Laws
pub mod Text
use static_web_server.Common.{
  ℕ, Str, Bool, true, false, not, ◌||◌, Option, none, some, List, [], ◌∷◌, ◌++◌, codes, equal, any,
  if◌then◌else◌, Result, ok, err, get_or,
}
use static_web_server.Http.{
  Http, Request, Response, Method, Body, encoded, Level, level_fastest, level_best, precise,
  ContentCoding, brotli, compress, deflate, gzip, identity, zstd, is_head, is_options, get,
}
use static_web_server.HeadersExt.Coding.{as_str}
use static_web_server.HeadersExt.Accept.{get_preferred_encoding}
use static_web_server.Env.{Env}
use static_web_server.Env.Options.{RequestHandlerOpts, CompressionLevel, fastest, best, default}
use static_web_server.ErrorPage.{error_response}

abbrev pub text_mime_types : List Str
text_mime_types =
    codes "application/rtf"
    ∷ codes "application/javascript"
    ∷ codes "application/json"
    ∷ codes "application/xml"
    ∷ codes "font/ttf"
    ∷ codes "application/font-sfnt"
    ∷ codes "application/vnd.ms-fontobject"
    ∷ codes "application/wasm"
    ∷ []

-- `CompressionLevel::into_algorithm_level` of src/settings/file.rs
abbrev pub into_algorithm_level : CompressionLevel → ℕ → Level
into_algorithm_level fastest n = level_fastest
into_algorithm_level best n = level_best
into_algorithm_level default n = precise n

module _ (H : Http) where
  unfoldable pub is_text : H.Mime → Bool
  is_text mime =
      equal (H.mime_type mime) (codes "text")
      || (elim (H.mime_suffix mime) [
        | none ↦ false
        | some suffix ↦ equal suffix (codes "xml") || equal suffix (codes "json")
      ]
          || any (λ t. equal t (H.mime_essence mime)) text_mime_types)

  unfoldable pub create_encoding_header : Option Str → ContentCoding → Str
  create_encoding_header existing coding = elim existing [
    | none ↦ as_str coding
    | some val ↦ elim (H.to_str val) [
      | none ↦ as_str coding
      | some str_val ↦ get_or (H.from_str (str_val ++ codes ", " ++ as_str coding)) (as_str coding)
    ]
  ]

  -- what `gzip`, `deflate`, `brotli` and `zstd` do: the coding and its own default level
  unfoldable pub compressed : ContentCoding → ℕ → CompressionLevel → Response H → Response H
  compressed coding default_level level resp =
      let header = create_encoding_header (get H resp.headers "content-encoding") coding in
      record {
        status = resp.status;
        headers =
            H.insert (H.remove (H.remove resp.headers "content-encoding") "content-length")
              "content-encoding" header;
        body = encoded coding (into_algorithm_level level default_level) resp.body;
      }

  -- the default level of each coding that is built in
  abbrev pub default_level : ContentCoding → Option ℕ
  default_level gzip = some 4
  default_level deflate = some 4
  default_level brotli = some 4
  default_level zstd = some 3
  default_level _ = none

  compress_as : ContentCoding → CompressionLevel → Response H → Response H
  compress_as encoding level resp = elim (default_level encoding) [
    | none ↦ resp
    | some n ↦ compressed encoding n level resp
  ]

  abbrev pub is_text_response : Response H → Bool
  is_text_response resp = elim (H.typed_content_type resp.headers) [
    | none ↦ true
    | some mime ↦ is_text mime
  ]

  unfoldable pub auto :
      (Str → Option ℕ)
      → Method
      → H.HeaderMap
      → CompressionLevel
      → Response H
      → Result Str (Response H)
  unfolding compress_as
  auto quality_of method headers level resp =
      if is_head method || is_options method
      then ok resp
      else elim (get_preferred_encoding quality_of H headers) [
        | none ↦ ok resp
        | some encoding ↦
            if is_text_response resp then ok (compress_as encoding level resp) else ok resp
      ]

module _ (E : Env) where
  vary : Response E.http → Response E.http
  vary resp = record resp { headers = E.http.insert resp.headers "vary" (codes "accept-encoding") }

  auto_or_error :
      RequestHandlerOpts E
      → Request E.http
      → Result Str (Response E.http)
      → Result Str (Response E.http)
  auto_or_error opts req (ok resp) = ok resp
  auto_or_error opts req (err _) = error_response E req.uri req.method 500 opts.page404 opts.page50x

  -- `post_process`
  unfoldable pub compression_post_process :
      RequestHandlerOpts E → Request E.http → Response E.http → Result Str (Response E.http)
  unfolding vary auto_or_error
  compression_post_process opts req resp =
      if not opts.compression then ok resp else elim (get E.http resp.headers "content-encoding") [
        | some _ ↦ ok resp
        | none ↦
            auto_or_error opts req
              (auto E.http E.quality_of req.method req.headers opts.compression_level (vary resp))
      ]
