-- ===== src/SecurityHeaders.antt =====
-- src/security_headers.rs.
use static_web_server.Common.{Str, codes, if◌then◌else◌, Result, ok}
use static_web_server.Http.{Response, insert_header}
use static_web_server.Env.{Env}
use static_web_server.Env.Options.{RequestHandlerOpts}

module _ (E : Env) where
  unfoldable pub append_security_headers : Response E.http → Response E.http
  append_security_headers resp =
      insert_header E.http
        (insert_header E.http
          (insert_header E.http
            (insert_header E.http resp "strict-transport-security"
              (codes "max-age=63072000; includeSubDomains; preload"))
            "x-frame-options" (codes "DENY"))
          "x-content-type-options" (codes "nosniff"))
        "content-security-policy" (codes "frame-ancestors 'self'")

  -- `post_process`
  unfoldable pub security_post_process :
      RequestHandlerOpts E → Response E.http → Result Str (Response E.http)
  security_post_process opts resp =
      ok (if opts.security_headers then append_security_headers resp else resp)
