-- ===== src/CustomHeaders/Laws.antt =====
-- What the headers of a response are after the custom ones.
use static_web_server.Common.{
  Str, Bytes, Bool, true, false, ◌≡◌, ◌≢◌, refl, ap, ◌∙◌, Option, some, List, [], ◌∷◌, ◌++◌, codes,
  if◌then◌else◌, String, ends_with, equal, arith,
}
use static_web_server.Http.{Response, get, insert_all}
use static_web_server.Http.Laws.{get-insert_all, insert_all-status, insert_all-body, last_or}
use static_web_server.CompressionStatic.{name_str}
use static_web_server.Env.{Env}
use static_web_server.Env.Options.{Headers}
use static_web_server.CustomHeaders.{auto_index_path, add_matching, append_custom_headers}

module _ (E : Env) (uri_path : Str) where
  -- The value of a header from the entries that match, the later ones first: the last value that
  -- an entry has for the name, or `o` if no matching entry has one.
  unfoldable pub configured_value : String → List (Headers E) → Option Str → Option Str
  configured_value k [] o = o
  configured_value k (entry ∷ l) o = configured_value k l (
      if E.glob_is_match entry.source uri_path
      then last_or E.http (E.http.get_all entry.headers k) o
      else o)

  get-step :
      (b : Bool) (r : Response E.http) (m : E.http.HeaderMap) (k : String)
      → get E.http (if b then insert_all E.http r (E.http.iter m) else r).headers k ≡ (
          if b
          then last_or E.http (E.http.get_all m k) (get E.http r.headers k)
          else get E.http r.headers k)
  get-step true r m k =
      get-insert_all E.http r (E.http.iter m) k
      ∙ ap (λ l. last_or E.http l (get E.http r.headers k)) (E.http.iter-get_all m k)
  get-step false r m k = refl

  pub add_matching-get :
      (l : List (Headers E)) (r : Response E.http) (k : String)
      → get E.http (add_matching E uri_path l r).headers k
        ≡ configured_value k l (get E.http r.headers k)
  unfolding add_matching configured_value
  add_matching-get [] r k = refl
  add_matching-get (entry ∷ l) r k =
      let b = E.glob_is_match entry.source uri_path in
      add_matching-get l (if b then insert_all E.http r (E.http.iter entry.headers) else r) k
      ∙ ap (configured_value k l) (get-step b r entry.headers k)

  kept_status :
      (b : Bool) (r : Response E.http) (m : E.http.HeaderMap)
      → (if b then insert_all E.http r (E.http.iter m) else r).status ≡ r.status
  kept_status true r m = insert_all-status E.http r (E.http.iter m)
  kept_status false r m = refl

  kept_body :
      (b : Bool) (r : Response E.http) (m : E.http.HeaderMap)
      → (if b then insert_all E.http r (E.http.iter m) else r).body ≡ r.body
  kept_body true r m = insert_all-body E.http r (E.http.iter m)
  kept_body false r m = refl

  pub add_matching-status :
      (l : List (Headers E)) (r : Response E.http) → (add_matching E uri_path l r).status ≡ r.status
  unfolding add_matching
  add_matching-status [] r = refl
  add_matching-status (entry ∷ l) r =
      add_matching-status l _ ∙ kept_status (E.glob_is_match entry.source uri_path) r entry.headers

  pub add_matching-body :
      (l : List (Headers E)) (r : Response E.http) → (add_matching E uri_path l r).body ≡ r.body
  unfolding add_matching
  add_matching-body [] r = refl
  add_matching-body (entry ∷ l) r =
      add_matching-body l _ ∙ kept_body (E.glob_is_match entry.source uri_path) r entry.headers

module _ (E : Env) where
  -- With the custom headers, a response keeps its status and its body, and each header is what the
  -- configuration says: of the entries whose pattern matches the path of the index, the last one
  -- that has the header gives its last value for it, and a header that none of them has stays.
  pub append_custom_headers-get :
      (uri_path : Str) (headers_vec : List (Headers E)) (resp : Response E.http)
      (file_path : Option Bytes)
      → let r = append_custom_headers E uri_path (some headers_vec) resp file_path in
        (r.status ≡ resp.status)
        × (r.body ≡ resp.body)
        × ((k : String)
            → get E.http r.headers k
              ≡ configured_value E
                  (auto_index_path uri_path file_path)
                  k
                  headers_vec
                  (get E.http resp.headers k))
  unfolding append_custom_headers
  append_custom_headers-get uri_path headers_vec resp file_path =
      let path = auto_index_path uri_path file_path in
      (
        add_matching-status E path headers_vec resp,
        add_matching-body E path headers_vec resp,
        add_matching-get E path headers_vec resp,
      )

ends_with-last : (dir : Str) → ends_with b'/' (dir ++ codes "/") ≡ true
unfolding ends_with
ends_with-last [] = refl
ends_with-last (x ∷ []) = refl
ends_with-last (x ∷ y ∷ dir) = ends_with-last (y ∷ dir)

not_root : (dir : Str) → dir ≢ [] → equal (dir ++ codes "/") (codes "/") ≡ false
unfolding equal
not_root [] h = absurd (h refl)
not_root (x ∷ []) h = ground arith
not_root (x ∷ y ∷ dir) h = ground arith

-- For a directory below the root, the path that the patterns are matched against has two slashes
-- between the directory and the name of the file.
pub auto_index_path_two_slashes :
    (dir : Str) (file_path : Bytes) (name : Str)
    → dir ≢ []
    → name_str file_path ≡ some name
    → auto_index_path (dir ++ codes "/") (some file_path) ≡ (dir ++ codes "/") ++ codes "/" ++ name
unfolding auto_index_path
auto_index_path_two_slashes dir file_path name h e = rw (ends_with-last dir, e, not_root dir h) refl
