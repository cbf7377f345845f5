-- ===== src/HttpsRedirect.antt =====
-- src/https_redirect.rs: from HTTP to HTTPS.
pub mod Laws
use static_web_server.Common.{
  ℕ, Str, not, Option, none, some, List, ◌∷◌, ◌++◌, codes, equal, any, if◌then◌else◌, Result, ok,
  err,
}
use static_web_server.Http.{
  Http, Outcome, panics, done, Request, Response, empty, response, insert_header, set_status,
}

pub record RedirectOpts : Type 0 where
  pub https_hostname : Str
  pub https_port : ℕ
  pub allowed_hosts : List Str

module _ (H : Http) where
  abbrev pub https_url : RedirectOpts → H.Uri → Str
  https_url opts uri =
      codes "https://" ++ opts.https_hostname ++ b':' ∷ H.decimal opts.https_port ++ H.uri_str uri

  -- the redirect to a URL, which is written as a header value or else panics
  redirect_to : Option Str → Outcome H ℕ
  redirect_to none = panics
  redirect_to (some url) =
      done (ok (insert_header H (set_status H (response H empty) 301) "location" url))

  unfoldable pub redirect_to_https : Request H → RedirectOpts → Outcome H ℕ
  unfolding redirect_to
  redirect_to_https req opts = elim (H.hostname req.headers) [
    | none ↦ done (err 400)
    | some from_hostname ↦
        if not (any (λ s. equal s from_hostname) opts.allowed_hosts)
        then done (err 400)
        else redirect_to (H.from_str (https_url opts req.uri))
  ]
