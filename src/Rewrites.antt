-- ===== src/Rewrites.antt =====
-- src/rewrites.rs: rewriting of request URLs by patterns.
pub mod Laws
use static_web_server.Common.{
  ℕ, Str, Option, none, some, List, [], ◌∷◌, ◌++◌, if◌then◌else◌, Result, ok, err, ◌>>=◌,
}
use static_web_server.Http.{Request, Response}
use static_web_server.Env.{Env}
use static_web_server.Env.Options.{
  Rewrites, RedirectsKind, permanent, temporary, RequestHandlerOpts,
}
use static_web_server.Redirects.{handle_error, with_port, replace_placeholders, location_response}

abbrev pub or_else : Option Str → Option Str → Option Str
or_else none b = b
or_else (some a) b = some a

-- What `pre_process` does with a request: it answers it, or hands a request on.
pub data Rewritten (E : Env) : Type 0 where
  answered : Result Str (Response E.http) → Rewritten E
  passed : Request E.http → Rewritten E

module _ (E : Env) where
  unfoldable pub rewrite_uri_path : Str → List (Rewrites E) → Option (Rewrites E)
  rewrite_uri_path uri_path [] = none
  rewrite_uri_path uri_path (entry ∷ l) =
      if E.is_match entry.source uri_path then some entry else rewrite_uri_path uri_path l

  -- the query of the original, where the new one has none
  merge_query : Option Str → Option Str → Result Str (Option Str)
  merge_query none query = ok none
  merge_query (some path_and_query) none = ok (some path_and_query)
  merge_query (some path_and_query) (some query) = elim (E.query_of path_and_query) [
    | some _ ↦ ok (some path_and_query)
    | none ↦ E.parse_path_and_query (path_and_query ++ b'?' ∷ query) >>= λ merged. ok (some merged)
  ]

  unfoldable pub merge_uris : E.http.Uri → Str → Result Str E.http.Uri
  unfolding merge_query
  merge_uris orig_uri new_uri = E.parse_uri new_uri >>= λ uri.
      let parts = E.into_parts uri in
      let orig = E.into_parts orig_uri in
      merge_query (or_else parts.path_and_query orig.path_and_query) (E.http.uri_query orig_uri)
      >>= λ path_and_query. E.from_parts (record {
        scheme = or_else parts.scheme orig.scheme;
        authority = or_else parts.authority orig.authority;
        path_and_query = path_and_query;
      })

  abbrev pub redirect_status : RedirectsKind → ℕ
  redirect_status permanent = 301
  redirect_status temporary = 302

  -- the `Host` header for the host of a new URI
  unfoldable pub adjust_host : E.http.HeaderMap → E.http.Uri → E.http.HeaderMap
  adjust_host headers uri = elim (E.http.uri_host uri) [
    | none ↦ headers
    | some host ↦ elim (E.http.from_str (with_port E host (E.http.uri_port uri))) [
      | none ↦ headers
      | some value ↦ E.http.insert headers "host" value
    ]
  ]

  -- `handle_error`, whose result is always a response
  abbrev pub refuse : RequestHandlerOpts E → Request E.http → Rewritten E
  refuse opts req = elim (handle_error E opts req) [ none ↦ passed req | some r ↦ answered r ]

  unfoldable pub internal : RequestHandlerOpts E → Request E.http → Str → Rewritten E
  internal opts req dest = elim (merge_uris req.uri dest) [
    | err _ ↦ refuse opts req
    | ok uri ↦ passed (record req { uri = uri; headers = adjust_host req.headers uri })
  ]

  unfoldable pub external :
      RequestHandlerOpts E → Request E.http → RedirectsKind → Str → Rewritten E
  external opts req kind dest = elim (E.http.from_str dest) [
    | none ↦ refuse opts req
    | some loc ↦ answered (ok (location_response E (redirect_status kind) loc))
  ]

  unfoldable pub rewrite_to : RequestHandlerOpts E → Request E.http → Rewrites E → Rewritten E
  rewrite_to opts req matched =
      elim (replace_placeholders E (E.http.uri_path req.uri) matched.source matched.destination) [
        | err _ ↦ refuse opts req
        | ok dest ↦ elim matched.redirect [
          | some kind ↦ external opts req kind dest
          | none ↦ internal opts req dest
        ]
      ]

  abbrev pub rewrites_of : RequestHandlerOpts E → Option (List (Rewrites E))
  rewrites_of opts = elim opts.advanced_opts [ none ↦ none | some advanced ↦ advanced.rewrites ]

  -- `pre_process`
  unfoldable pub rewrites_pre_process : RequestHandlerOpts E → Request E.http → Rewritten E
  rewrites_pre_process opts req = elim (rewrites_of opts) [
    | none ↦ passed req
    | some rewrites ↦ elim (rewrite_uri_path (E.http.uri_path req.uri) rewrites) [
      | none ↦ passed req
      | some matched ↦ rewrite_to opts req matched
    ]
  ]
