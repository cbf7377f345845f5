-- ===== src/Handler.antt =====
-- src/handler.rs, built with the default features: the main request handler, which puts the modules
-- in their order. Experimental is the handler of a build with the experimental features.
mod Pipeline
pub mod Order
pub mod Finish
pub mod Access
pub mod Listing
pub mod Experimental
pub use Pipeline.{Served}
unfoldable pub use Pipeline.{
  method_pre_process, real_root, handle_opts, served_or_error, serve_file, finish, serve_static,
  serve_rewritten, answer_or,
}
use static_web_server.Common.{ℕ, Str, Result}
use static_web_server.Http.{Request, Response}
use static_web_server.Fs.Meta.{FileMetadata}
use static_web_server.Env.{Env}
use static_web_server.Env.Options.{RequestHandlerOpts}
use static_web_server.ErrorPage.{maintenance_pre_process}
use static_web_server.Health.{health_pre_process}
use static_web_server.Cors.{cors_pre_process}
use static_web_server.BasicAuth.{auth_pre_process}
use static_web_server.Redirects.{redirects_pre_process}
use static_web_server.Rewrites.{rewrites_pre_process}

module _ (E : Env) where
  -- `RequestHandler::handle`, whose error is an internal error of the server. `auto_index` is
  -- `directory_listing::auto_index` for a request and the directory of a file.
  unfoldable pub handle_request :
      (Request E.http → FileMetadata E.http.Time → Result ℕ (Response E.http))
      → RequestHandlerOpts E
      → Request E.http
      → Result Str (Response E.http)
  handle_request auto_index opts req = answer_or (method_pre_process E opts req) (
      answer_or (health_pre_process E opts req) (
        answer_or (cors_pre_process E opts req) (
          answer_or (auth_pre_process E opts req) (
            answer_or (maintenance_pre_process E opts req.method) (
              answer_or (redirects_pre_process E opts req)
                (serve_rewritten E auto_index opts (rewrites_pre_process E opts req)))))))
