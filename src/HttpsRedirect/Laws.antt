-- ===== src/HttpsRedirect/Laws.antt =====
-- Who is redirected, and where to.
use static_web_server.Common.{
  Str, true, ◌≡◌, refl, none, some, ok, err, any, equal, Bool-cases, Option-cases, ◌⊎◌, inl, inr,
}
use static_web_server.Http.{
  Http, panics, done, Request, Response, empty, get, insert_header, set_status, response,
}
use static_web_server.Http.Laws.{get-insert}
use static_web_server.HttpsRedirect.{RedirectOpts, https_url, redirect_to_https}

module _ (H : Http) where
  -- The request names an allowed host, and the response sends it to the configured host and port.
  pub record IsRedirected (req : Request H) (opts : RedirectOpts) (r : Response H) : Type 0 where
    pub from_hostname : Str
    pub has_host : H.hostname req.headers ≡ some from_hostname
    pub is_allowed_host : any (λ s. equal s from_hostname) opts.allowed_hosts ≡ true
    pub status_is : r.status ≡ 301
    pub body_is : r.body ≡ empty
    pub url : Str
    pub is_url : H.from_str (https_url H opts req.uri) ≡ some url
    pub location_is : get H r.headers "location" ≡ some url

  -- A request is refused with 400; or it names an allowed host and is redirected with a 301, no body
  -- and the URL on the configured host and port; or it names an allowed host and the URL is no header
  -- value, which is a panic.
  pub redirect_to_https-IsRedirected :
      (req : Request H) (opts : RedirectOpts)
      → (redirect_to_https H req opts ≡ done (err 400))
        ⊎ ((r : Response H) × (redirect_to_https H req opts ≡ done (ok r))
            × IsRedirected req opts r)
        ⊎ ((redirect_to_https H req opts ≡ panics) × (H.from_str (https_url H opts req.uri) ≡ none))
  unfolding redirect_to_https
  redirect_to_https-IsRedirected req opts = elim (Option-cases (H.hostname req.headers)) [
    | inl e ↦ inl (rw (e, redirect_to_https) refl)
    | inr (host, e) ↦ elim (Bool-cases (any (λ s. equal s host) opts.allowed_hosts)) [
      | inr a ↦ inl (rw (e, a, redirect_to_https) refl)
      | inl a ↦ elim (Option-cases (H.from_str (https_url H opts req.uri))) [
        | inl u ↦ inr (inr (rw (e, a, u, redirect_to_https) refl, u))
        | inr (url, u) ↦ inr (
            inl (
              insert_header H (set_status H (response H empty) 301) "location" url,
              rw (e, a, u, redirect_to_https) refl,
              record {
                from_hostname = host;
                has_host = e;
                is_allowed_host = a;
                status_is = refl;
                body_is = refl;
                url = url;
                is_url = u;
                location_is = get-insert H _ _ _ _;
              },
            ))
      ]
    ]
  ]
