-- ===== src/Redirects.antt =====
-- src/redirects.rs: redirects to other URLs by patterns.
pub mod Laws
use static_web_server.Common.{
  ℕ, Str, Bool, true, false, not, Option, none, some, List, [], ◌∷◌, ◌++◌, codes, equal,
  if◌then◌else◌, Result, ok, err, map, get_or, suc, zero,
}
use static_web_server.Http.{
  Http, Request, Response, empty, response, get, insert_header, set_status,
}
use static_web_server.Env.{Env}
use static_web_server.Env.Options.{Redirects, RequestHandlerOpts}
use static_web_server.ErrorPage.{error_response}

module _ (E : Env) where
  -- `handle_error`
  abbrev pub handle_error :
      RequestHandlerOpts E → Request E.http → Option (Result Str (Response E.http))
  handle_error opts req = some (error_response E req.uri req.method 500 opts.page404 opts.page50x)

  -- does an entry apply to the host?
  abbrev pub host_matches : Option Str → Str → Bool
  host_matches none uri_host = true
  host_matches (some host) uri_host = equal host uri_host

  unfoldable pub get_redirection : Str → Str → List (Redirects E) → Option (Redirects E)
  get_redirection uri_host uri_path [] = none
  get_redirection uri_host uri_path (entry ∷ l) =
      let rest = get_redirection uri_host uri_path l in
      if not (host_matches entry.host uri_host)
      then rest
      else if E.is_match entry.source uri_path
      then some entry
      else rest

  -- `$0`, `$1` and so on, for each of the groups
  patterns_from : ℕ → List Str → List Str
  patterns_from i [] = []
  patterns_from i (c ∷ cs) = (b'$' ∷ E.http.decimal i) ∷ patterns_from (suc i) cs

  unfoldable pub replace_placeholders : Str → E.Regex → Str → Result Str Str
  unfolding patterns_from
  replace_placeholders orig_uri regex dest_uri = elim (E.captures regex orig_uri) [
    | none ↦ err (codes "regex didn't match, extracting captures failed")
    | some regex_caps ↦
        let caps = map (λ c. get_or c []) regex_caps in
        E.replace_all (patterns_from 0 caps) caps dest_uri
  ]

  -- a host with its port
  abbrev pub with_port : Str → Option ℕ → Str
  with_port host none = host
  with_port host (some port) = host ++ b':' ∷ E.http.decimal port

  abbrev pub header_host : E.http.HeaderMap → Str
  header_host headers = elim (get E.http headers "host") [
    | none ↦ []
    | some v ↦ get_or (E.http.to_str v) []
  ]

  -- the host that `pre_process` looks for
  unfoldable pub redirect_host : Request E.http → Str
  redirect_host req =
      with_port (get_or (E.http.uri_host req.uri) (header_host req.headers))
        (E.http.uri_port req.uri)

  -- an empty response that names a location
  abbrev pub location_response : ℕ → Str → Response E.http
  location_response status loc =
      set_status E.http (insert_header E.http (response E.http empty) "location" loc) status

  unfoldable pub redirect_to :
      RequestHandlerOpts E → Request E.http → Redirects E → Option (Result Str (Response E.http))
  redirect_to opts req matched =
      elim (replace_placeholders (E.http.uri_path req.uri) matched.source matched.destination) [
        | err _ ↦ handle_error opts req
        | ok dest ↦ elim (E.http.from_str dest) [
          | none ↦ handle_error opts req
          | some loc ↦ some (ok (location_response matched.kind loc))
        ]
      ]

  abbrev pub redirects_of : RequestHandlerOpts E → Option (List (Redirects E))
  redirects_of opts = elim opts.advanced_opts [ none ↦ none | some advanced ↦ advanced.redirects ]

  -- `pre_process`
  unfoldable pub redirects_pre_process :
      RequestHandlerOpts E → Request E.http → Option (Result Str (Response E.http))
  redirects_pre_process opts req = elim (redirects_of opts) [
    | none ↦ none
    | some redirects ↦
        elim (get_redirection (redirect_host req) (E.http.uri_path req.uri) redirects) [
          | none ↦ none
          | some matched ↦ redirect_to opts req matched
        ]
  ]
