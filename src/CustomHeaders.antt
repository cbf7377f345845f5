-- ===== src/CustomHeaders.antt =====
-- src/custom_headers.rs: headers from the configuration, by patterns.
pub mod Laws
use static_web_server.Common.{
  Str, Bytes, Bool, true, false, Option, none, some, List, [], ◌∷◌, ◌++◌, codes, equal,
  if◌then◌else◌, Result, ok, ends_with,
}
use static_web_server.Http.{Http, Request, Response, insert_all}
use static_web_server.CompressionStatic.{name_str}
use static_web_server.Env.{Env}
use static_web_server.Env.Options.{Headers, RequestHandlerOpts}

-- the path with the name of its index behind it, for a directory
unfoldable pub auto_index_path : Str → Option Bytes → Str
auto_index_path uri_path none = uri_path
auto_index_path uri_path (some file_path) =
    if ends_with b'/' uri_path
    then elim (name_str file_path) [
      | none ↦ uri_path
      | some name ↦
          if equal uri_path (codes "/") then uri_path ++ name else uri_path ++ codes "/" ++ name
    ]
    else uri_path

module _ (E : Env) where
  unfoldable pub add_matching : Str → List (Headers E) → Response E.http → Response E.http
  add_matching uri_path [] resp = resp
  add_matching uri_path (entry ∷ l) resp = add_matching uri_path l (
      if E.glob_is_match entry.source uri_path
      then insert_all E.http resp (E.http.iter entry.headers)
      else resp)

  unfoldable pub append_custom_headers :
      Str → Option (List (Headers E)) → Response E.http → Option Bytes → Response E.http
  append_custom_headers uri_path none resp file_path = resp
  append_custom_headers uri_path (some headers_vec) resp file_path =
      add_matching (auto_index_path uri_path file_path) headers_vec resp

  -- `post_process`
  unfoldable pub custom_post_process :
      RequestHandlerOpts E
      → Request E.http
      → Response E.http
      → Option Bytes
      → Result Str (Response E.http)
  custom_post_process opts req resp file_path = elim opts.advanced_opts [
    | none ↦ ok resp
    | some advanced ↦
        ok (append_custom_headers (E.http.uri_path req.uri) advanced.headers resp file_path)
  ]
