-- ===== src/Health.antt =====
-- src/health.rs: the health endpoint.
use static_web_server.Common.{
  Str, Bool, not, Option, none, some, codes, equal, if◌then◌else◌, Result, ok,
}
use static_web_server.Http.{Request, Response, Method, Body, empty, string, response, insert_header}
use static_web_server.Env.{Env}
use static_web_server.Env.Options.{RequestHandlerOpts}

module _ (E : Env) where
  abbrev pub is_health_endpoint : Request E.http → Bool
  is_health_endpoint req = equal (E.http.uri_path req.uri) (codes "/health")

  abbrev pub health_body : Method → Option Body
  health_body Method.head = some empty
  health_body Method.get = some (string (codes "OK"))
  health_body _ = none

  -- `pre_process`
  unfoldable pub health_pre_process :
      RequestHandlerOpts E → Request E.http → Option (Result Str (Response E.http))
  health_pre_process opts req =
      if not opts.health
      then none
      else if not (is_health_endpoint req)
      then none
      else elim (health_body req.method) [
        | none ↦ none
        | some body ↦ some (
            ok (
              insert_header E.http (response E.http body) "content-type"
                (E.http.content_type E.http.text_html)))
      ]
