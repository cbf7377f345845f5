-- ===== src/Cors.antt =====
-- src/cors.rs. A panic of `new` is an error with its message.
pub mod Laws
mod Build
pub use Build.{CorsNew}
unfoldable pub use Build.{
  new_cors, allow_any_origin, allow_methods, allow_origins, allow_headers, expose_headers, build,
  new,
}
use static_web_server.Common.{
  ℕ, Str, Bytes, Bool, true, false, not, ◌&&◌, Option, none, some, List, [], ◌∷◌, any, all, equal,
  if◌then◌else◌, Result, ok, err, ◌>>=◌, split_on, trim, is_empty, String, name_eq,
}
use static_web_server.Http.{
  Http, Response, Request, Method, method_eq, get, insert_all, remove_header,
}
use static_web_server.Env.{Env}
use static_web_server.Env.Options.{Cors, Configured, RequestHandlerOpts}
use static_web_server.ErrorPage.{error_response}

pub data Validated : Type 0 where
  preflight simple : Str → Validated
  not_cors : Validated

pub data Forbidden : Type 0 where
  origin method header : Forbidden

module _ (H : Http) (c : Configured) where
  unfoldable pub is_method_allowed : Str → Bool
  is_method_allowed h = elim (H.parse_method h) [
    | none ↦ false
    | some m ↦ any (λ a. method_eq a m) c.cors.allowed_methods
  ]

  unfoldable pub is_header_allowed : Str → Bool
  is_header_allowed h = if is_empty h then false else elim (H.parse_name h) [
    | none ↦ false
    | some name ↦ any (λ a. name_eq a name) c.cors.allowed_headers
  ]

  unfoldable pub is_origin_allowed : Str → Bool
  is_origin_allowed o =
      if is_empty o
      then false
      else elim c.cors.origins [ some allowed ↦ any (λ a. equal a o) allowed | none ↦ true ]

  unfoldable pub append_preflight_headers : H.HeaderMap → H.HeaderMap
  append_preflight_headers headers =
      let with_headers =
        H.insert
          (H.insert (H.insert headers "access-control-allow-headers" c.allowed_headers)
            "access-control-expose-headers" c.exposed_headers)
          "access-control-allow-methods" c.methods_header in
      elim c.cors.max_age [
        | none ↦ with_headers
        | some max_age ↦ H.insert with_headers "access-control-max-age" (H.decimal max_age)
      ]

  -- the headers for an origin that is allowed
  unfoldable pub cors_headers : Str → H.HeaderMap
  cors_headers o = H.insert (append_preflight_headers H.new) "access-control-allow-origin" o

  -- the tests on the headers that a preflight request asks for
  requested_headers : Option Str → Result Forbidden (Unit {0})
  requested_headers none = ok tt
  requested_headers (some req_headers) = elim (H.to_str req_headers) [
    | none ↦ err header
    | some headers ↦
        if all (λ h. is_header_allowed (trim h)) (split_on b',' headers) then ok tt else err header
  ]

  requested_method : Option Str → Result Forbidden (Unit {0})
  requested_method none = err method
  requested_method (some req_method) =
      if not (is_method_allowed req_method) then err method else ok tt

  preflight_request : H.HeaderMap → Str → Result Forbidden (H.HeaderMap × Validated)
  preflight_request headers o =
      if not (is_origin_allowed o)
      then err origin
      else requested_method (get H headers "access-control-request-method") >>= λ _.
          requested_headers (get H headers "access-control-request-headers") >>= λ _.
          ok (cors_headers o, preflight o)

  simple_request : Str → Result Forbidden (H.HeaderMap × Validated)
  simple_request o = if is_origin_allowed o then ok (cors_headers o, simple o) else err origin

  unfoldable pub check_request : Method → H.HeaderMap → Result Forbidden (H.HeaderMap × Validated)
  unfolding preflight_request simple_request requested_method requested_headers is_origin_allowed
      is_header_allowed is_method_allowed cors_headers append_preflight_headers
  check_request m headers = elim (get H headers "origin") [
    | none ↦ ok (H.new, not_cors)
    | some o ↦ if method_eq m Method.options then preflight_request headers o else simple_request o
  ]

module _ (E : Env) where
  -- `pre_process`
  unfoldable pub cors_pre_process :
      RequestHandlerOpts E → Request E.http → Option (Result Str (Response E.http))
  cors_pre_process opts req = elim opts.cors [
    | none ↦ none
    | some cors ↦ elim (check_request E.http cors req.method req.headers) [
      | ok _ ↦ none
      | err _ ↦ some (error_response E req.uri req.method 403 opts.page404 opts.page50x)
    ]
  ]

  add_headers : Response E.http → List (String × Str) → Response E.http
  add_headers resp [] = resp
  add_headers resp (h ∷ l) = remove_header E.http (insert_all E.http resp (h ∷ l)) "allow"

  -- `post_process`
  unfoldable pub cors_post_process :
      RequestHandlerOpts E → Request E.http → Response E.http → Result Str (Response E.http)
  unfolding add_headers
  cors_post_process opts req resp = elim opts.cors [
    | none ↦ ok resp
    | some cors ↦ elim (check_request E.http cors req.method req.headers) [
      | err _ ↦ ok resp
      | ok (headers, _) ↦ ok (add_headers resp (E.http.iter headers))
    ]
  ]
