-- ===== src/Server/Start/Tls.antt =====
-- With HTTP/2, files are served over TLS only.
use static_web_server.Common.{
  none, ℕ, Str, true, ◌≡◌, ◌⊎◌, Option, some, List, [], ◌∷◌, All, if◌then◌else◌, Result, ok, err,
  ◌>>=◌, false, Bool-cases,
}
use static_web_server.Http.{Request, Response, panics, done}
use static_web_server.Env.{Env}
use static_web_server.Env.Options.{RequestHandlerOpts}
use static_web_server.DirectoryListing.Entries.{Dirs}
use static_web_server.DirectoryListing.Page.{Writer}
use static_web_server.ErrorPage.{default_page}
use static_web_server.ErrorPage.Laws.{IsPage}
use static_web_server.HttpsRedirect.{https_url}
use static_web_server.HttpsRedirect.Laws.{IsRedirected}
use static_web_server.Settings.{General}
use static_web_server.Settings.Read.{Source, Settings}
use static_web_server.Server.Start.{Platform, Service, files, reply, Running, redirect_opts}

module _ (E : Env) (W : Writer) (form_parse : Str → List (Str × Str)) (D : Dirs E.http.Time) where
  -- Every request is redirected to the HTTPS host and port of the settings, or refused with the page
  -- that is made for the status 400; or the URL to redirect to is no header value, and the server
  -- panics.
  abbrev pub OnlyRedirects : General → Service E → Type 0
  OnlyRedirects general service =
      (req : Request E.http)
      → ((r : Response E.http) × (reply E W form_parse D service req ≡ done (ok r))
          × (IsRedirected E.http req (redirect_opts general) r
              ⊎ IsPage E req.method 400 (default_page E 400) r))
        ⊎ ((reply E W form_parse D service req ≡ panics)
            × (E.http.from_str (https_url E.http (redirect_opts general) req.uri) ≡ none))

  module _ (S : Source E) (O : Platform) where
    -- the server of the files of `opts`
    abbrev pub OverTls : RequestHandlerOpts E → Running E S O → Type 0
    OverTls opts run = (config : O.TlsConfig) × (run.tls ≡ some config) × (run.service ≡ files opts)

    abbrev pub Redirects : General → Running E S O → Type 0
    Redirects general run = OnlyRedirects general run.service

    -- The first server serves the files of `opts`, over TLS; there is another one exactly if redirects
    -- are on, and that one only redirects.
    abbrev pub FilesOverTls : General → RequestHandlerOpts E → List (Running E S O) → Type 0
    FilesOverTls general opts [] = ⊥
    FilesOverTls general opts (main ∷ []) = OverTls opts main × (general.https_redirect ≡ false)
    FilesOverTls general opts (main ∷ redirect ∷ []) =
        OverTls opts main × ((general.https_redirect ≡ true) × Redirects general redirect)
    FilesOverTls general opts (main ∷ redirect ∷ other ∷ l) = ⊥
