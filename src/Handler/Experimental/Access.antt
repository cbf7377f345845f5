-- ===== src/Handler/Experimental/Access.antt =====
-- Who gets past the checks of the experimental handler.
use static_web_server.Common.{
  ℕ, Str, Bytes, Bool, false, ◌≡◌, refl, Option, none, some, Result, ok, is_empty, split_once,
}
use static_web_server.Http.{done, Request, Response, is_options}
use static_web_server.Fs.Meta.{FileMetadata}
use static_web_server.Env.{Env}
use static_web_server.Env.Options.{RequestHandlerOpts}
use static_web_server.BasicAuth.Laws.{HasCredentials}
use static_web_server.MemCache.{Cache}
use static_web_server.MemCache.File.{MemFile}
use static_web_server.Metrics.{Registry, metrics_pre_process}
use static_web_server.Handler.{method_pre_process}
use static_web_server.Handler.Access.{IsAdmitted, IsChallenge, auth_refuses}
use static_web_server.Handler.Experimental.{Experimental, handle_experimental}

module _ (E : Env) (C : Cache (MemFile E.http)) (R : Registry E.http)
    (path_str : Bytes → Option Str) (permit : Bool) (X : Experimental E.http C)
    (auto_index : Request E.http → FileMetadata E.http.Time → Result ℕ (Response E.http))
    (opts : RequestHandlerOpts E) where
  -- With the cache and the metrics too, an admitted request that is none for the metrics and lacks the
  -- credentials that are configured is asked for them, whatever files are in memory.
  pub handle_experimental-IsChallenge :
      (req : Request E.http) (user hash : Str)
      → IsAdmitted E opts req
      → metrics_pre_process E.http R X.experimental_metrics req ≡ none
      → is_empty opts.basic_auth ≡ false
      → split_once b':' opts.basic_auth ≡ some (user, hash)
      → is_options req.method ≡ false
      → ¬ HasCredentials E req.headers user hash
      → (r : Response E.http) × (handle_experimental E C R path_str permit X auto_index opts req
          ≡ done (ok r))
        × IsChallenge E req r
  unfolding handle_experimental method_pre_process
  handle_experimental-IsChallenge req user hash a other e g f h =
      let (r, refused, c) = auth_refuses E opts req user hash e f g h in
      (r, rw (a.supported, a.no_health, other, a.cors_passes, refused, method_pre_process) refl, c)
