-- ===== src/Server/Protected.antt =====
-- From the settings to the answer: a server with credentials in its settings asks for them.

use static_web_server.Common.{
  Str, false, ◌≡◌, ap, ◌∙◌, refl, some, List, [], ◌∷◌, ok, trim, split_once, is_empty,
}
use static_web_server.Http.{Request, Response, is_options}
use static_web_server.Env.{Env}
use static_web_server.Env.Options.{RequestHandlerOpts}
use static_web_server.BasicAuth.Laws.{HasCredentials}
use static_web_server.DirectoryListing.Entries.{Dirs}
use static_web_server.DirectoryListing.Page.{Writer}
use static_web_server.Handler.Access.{IsAdmitted, IsChallenge, handle_request-IsChallenge}
use static_web_server.Handler.Listing.{listing, serve}
use static_web_server.Settings.Read.{Source, Settings}
use static_web_server.Server.{handler_opts}
use static_web_server.Server.Configured.{handler_opts-Follows}

-- A text that can be split is not empty.
is_empty-split_once : (a : Str) (p : Str × Str) → split_once b':' a ≡ some p → is_empty a ≡ false
unfolding split_once is_empty
is_empty-split_once [] p h = absurd cc
is_empty-split_once (x ∷ a) p h = refl

module _ (E : Env) (S : Source E) (W : Writer) (form_parse : Str → List (Str × Str))
    (D : Dirs E.http.Time) where
  -- When the server started with settings whose credentials are `user:hash`, an admitted request
  -- that is not for OPTIONS and has other credentials or none gets the page for the status 401,
  -- whatever the other settings are, listings of directories included.
  pub serve-IsChallenge :
      (s : Settings E) (o : RequestHandlerOpts E) (req : Request E.http) (user hash : Str)
      → handler_opts E S s ≡ ok o
      → split_once b':' (trim s.general.basic_auth) ≡ some (user, hash)
      → IsAdmitted E o req
      → is_options req.method ≡ false
      → ¬ HasCredentials E req.headers user hash
      → (r : Response E.http) × (serve E W form_parse D o req ≡ ok r) × IsChallenge E req r
  unfolding serve
  serve-IsChallenge s o req user hash started given admitted other wrong =
      let same = (handler_opts-Follows E S s o started).basic_auth in
      let split = ap (split_once b':') same ∙ given in
      handle_request-IsChallenge E (listing E W form_parse D o) o req user hash admitted
        (is_empty-split_once o.basic_auth (user, hash) split) split other wrong
