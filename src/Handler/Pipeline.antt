-- ===== src/Handler/Pipeline.antt =====
-- The parts of `RequestHandler::handle`.
use static_web_server.Common.{
  ℕ, Str, Bytes, not, Option, none, some, if◌then◌else◌, Result, ok, err, ◌>>=◌, get_or,
}
use static_web_server.Http.{Request, Response, is_allowed}
use static_web_server.Fs.Meta.{FileMetadata}
use static_web_server.StaticFiles.{HandleOpts, StaticFileResponse, handle}
use static_web_server.CompressionStatic.{add_vary}
use static_web_server.Env.{Env}
use static_web_server.Env.Options.{RequestHandlerOpts}
use static_web_server.ErrorPage.{error_response}
use static_web_server.VirtualHosts.{get_real_root}
use static_web_server.Rewrites.{Rewritten, answered, passed}
use static_web_server.FallbackPage.{fallback_post_process}
use static_web_server.Cors.{cors_post_process}
use static_web_server.Compression.{compression_post_process}
use static_web_server.ControlHeaders.{control_post_process}
use static_web_server.SecurityHeaders.{security_post_process}
use static_web_server.CustomHeaders.{custom_post_process}

-- `if let Some(result) = … { return result; }`
abbrev pub answer_or {ℓ} : {A : Type ℓ} → Option A → A → A
answer_or none rest = rest
answer_or (some result) rest = result

-- the response for a file, and the file's path if there is one
pub record Served (E : Env) : Type 0 where
  pub resp : Response E.http
  pub path : Option Bytes

module _ (E : Env) where
  -- the refusal of a method that is not allowed
  unfoldable pub method_pre_process :
      RequestHandlerOpts E → Request E.http → Option (Result Str (Response E.http))
  method_pre_process opts req =
      if not (is_allowed req.method)
      then some (error_response E req.uri req.method 405 opts.page404 opts.page50x)
      else none

  unfoldable pub real_root : RequestHandlerOpts E → Request E.http → Bytes
  real_root opts req = elim opts.advanced_opts [
    | none ↦ opts.root_dir
    | some advanced ↦ get_or (get_real_root E req.headers advanced.virtual_hosts) opts.root_dir
  ]

  abbrev pub handle_opts : RequestHandlerOpts E → Request E.http → HandleOpts E.http
  handle_opts opts req = record {
    method = req.method;
    headers = req.headers;
    base_path = real_root opts req;
    uri_path = E.http.uri_path req.uri;
    index_files = opts.index_files;
    uri_query = E.http.uri_query req.uri;
    dir_listing = opts.dir_listing;
    redirect_trailing_slash = opts.redirect_trailing_slash;
    compression_static = opts.compression_static;
    ignore_hidden_files = opts.ignore_hidden_files;
    disable_symlinks = opts.disable_symlinks;
  }

  unfoldable pub served_or_error :
      RequestHandlerOpts E
      → Request E.http
      → Result ℕ (StaticFileResponse E.http)
      → Result Str (Served E)
  served_or_error opts req (ok result) =
      ok (record { resp = result.resp; path = some result.file_path })
  served_or_error opts req (err status) =
      error_response E req.uri req.method status opts.page404 opts.page50x >>= λ resp.
      ok (record { resp = resp; path = none })

  module _
      (auto_index : Request E.http → FileMetadata E.http.Time → Result ℕ (Response E.http)) where
    -- the response of the static files, or the page for its error
    unfoldable pub serve_file : RequestHandlerOpts E → Request E.http → Result Str (Served E)
    unfolding served_or_error
    serve_file opts req =
        served_or_error opts req (
          handle E.http E.percent_decode E.quality_of (handle_opts opts req) E.disk
            (auto_index req))

    -- what follows: the fallback page, and the headers
    unfoldable pub finish :
        RequestHandlerOpts E → Request E.http → Served E → Result Str (Response E.http)
    finish opts req served = fallback_post_process E opts req served.resp >>= λ fallback.
        cors_post_process E opts req fallback >>= λ cors.
        compression_post_process E opts req (add_vary E.http opts.compression_static cors)
        >>= λ compressed. control_post_process E opts req compressed >>= λ controlled.
            security_post_process E opts controlled >>= λ secured.
            custom_post_process E opts req secured served.path

    unfoldable pub serve_static :
        RequestHandlerOpts E → Request E.http → Result Str (Response E.http)
    serve_static opts req = serve_file opts req >>= λ served. finish opts req served

    unfoldable pub serve_rewritten :
        RequestHandlerOpts E → Rewritten E → Result Str (Response E.http)
    serve_rewritten opts (answered result) = result
    serve_rewritten opts (passed req) = serve_static opts req
