-- ===== src/FallbackPage.antt =====
-- src/fallback_page.rs: a page in place of a 404.
use static_web_server.Common.{
  Str, Bytes, not, ◌&&◌, length, if◌then◌else◌, ◌==◌, Result, ok, is_empty,
}
use static_web_server.Http.{Request, Response, bytes, is_get, response, insert_header}
use static_web_server.Env.{Env}
use static_web_server.Env.Options.{RequestHandlerOpts}

module _ (E : Env) where
  unfoldable pub fallback_response : Bytes → Response E.http
  fallback_response page_fallback =
      insert_header E.http
        (insert_header E.http
          (insert_header E.http (response E.http (bytes page_fallback)) "content-length"
            (E.http.content_length (length page_fallback)))
          "content-type" (E.http.content_type E.http.text_html_utf8))
        "accept-ranges" E.http.accept_ranges_bytes

  -- `post_process`
  unfoldable pub fallback_post_process :
      RequestHandlerOpts E → Request E.http → Response E.http → Result Str (Response E.http)
  fallback_post_process opts req resp = ok (
      if is_get req.method && (resp.status == 404 && not (is_empty opts.page_fallback))
      then fallback_response opts.page_fallback
      else resp)
