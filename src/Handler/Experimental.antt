-- ===== src/Handler/Experimental.antt =====
-- src/handler.rs, built with the feature `experimental`: the handler with the endpoint for metrics, and
-- with files from the cache.
pub mod Access
use static_web_server.Common.{ℕ, Str, Bytes, Bool, Option, none, some, Result, ok, err, ◌>>=◌}
use static_web_server.Http.{Outcome, panics, done, Http, Request, Response}
use static_web_server.Fs.Meta.{FileMetadata}
use static_web_server.StaticFiles.Cached
use static_web_server.StaticFiles.Cached.{Served, panicked, served, handle_cached}
use static_web_server.Env.{Env}
use static_web_server.Env.Options.{RequestHandlerOpts}
use static_web_server.ErrorPage.{maintenance_pre_process}
use static_web_server.Health.{health_pre_process}
use static_web_server.Cors.{cors_pre_process}
use static_web_server.BasicAuth.{auth_pre_process}
use static_web_server.Redirects.{redirects_pre_process}
use static_web_server.Rewrites.{Rewritten, answered, passed, rewrites_pre_process}
use static_web_server.MemCache.{Cache, Globals}
use static_web_server.MemCache.File.{MemFile}
use static_web_server.Metrics.{Registry, metrics_pre_process}
use static_web_server.Handler.{method_pre_process, handle_opts, served_or_error, finish, answer_or}

-- the experimental options of the handler, and the store
pub record Experimental (H : Http) (C : Cache (MemFile H)) : Type 0 where
  pub experimental_metrics : Bool
  pub globals : Globals H C

-- `if let Some(result) = … { return result; }`
abbrev pub done_or : {H : Http} → Option (Result Str (Response H)) → Outcome H Str → Outcome H Str
done_or none rest = rest
done_or (some result) rest = done result

module _ (E : Env) (C : Cache (MemFile E.http)) (R : Registry E.http)
    (path_str : Bytes → Option Str) (permit : Bool) (X : Experimental E.http C)
    (auto_index : Request E.http → FileMetadata E.http.Time → Result ℕ (Response E.http))
    (opts : RequestHandlerOpts E) where
  -- the response of the static files, and what follows
  unfoldable pub finish_served : Request E.http → Served E.http → Outcome E.http Str
  finish_served req panicked = panics
  finish_served req (served result) =
      done (served_or_error E opts req result >>= λ s. finish E auto_index opts req s)

  unfoldable pub serve_cached : Rewritten E → Outcome E.http Str
  unfolding finish_served
  serve_cached (answered result) = done result
  serve_cached (passed req) = finish_served req (
      handle_cached E.http C E.percent_decode E.quality_of path_str permit X.globals
        (handle_opts E opts req) E.disk (auto_index req))

  -- `RequestHandler::handle`
  unfoldable pub handle_experimental : Request E.http → Outcome E.http Str
  unfolding serve_cached
  handle_experimental req = done_or (method_pre_process E opts req) (
      done_or (health_pre_process E opts req) (
        answer_or (metrics_pre_process E.http R X.experimental_metrics req) (
          done_or (cors_pre_process E opts req) (
            done_or (auth_pre_process E opts req) (
              done_or (maintenance_pre_process E opts req.method) (
                done_or (redirects_pre_process E opts req)
                  (serve_cached (rewrites_pre_process E opts req))))))))
