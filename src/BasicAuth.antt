-- ===== src/BasicAuth.antt =====
-- src/basic_auth.rs: the Basic authorization scheme.
pub mod Laws
use static_web_server.Common.{
  ℕ, Str, Bool, true, false, not, Option, none, some, codes, equal, if◌then◌else◌, Result, ok, err,
  is_empty, split_once, ◌>>=◌,
}
use static_web_server.Http.{Http, Request, Response, is_options, insert_header}
use static_web_server.Env.{Env}
use static_web_server.Env.Options.{RequestHandlerOpts}
use static_web_server.ErrorPage.{error_response}

module _ (E : Env) where
  verified : Option Bool → Result ℕ (Unit {0})
  verified (some true) = ok tt
  verified (some false) = err 401
  verified none = err 401

  unfoldable pub check_credentials : E.http.HeaderMap → Str → Str → Result ℕ (Unit {0})
  unfolding verified
  check_credentials headers userid password = elim (E.http.basic_credentials headers) [
    | none ↦ err 401
    | some (username, given) ↦
        if not (equal username userid) then err 401 else verified (E.bcrypt_verify given password)
  ]

  unfoldable pub challenge : Response E.http → Response E.http
  challenge resp =
      insert_header E.http resp "www-authenticate"
        (codes "Basic realm=\"Static Web Server\", charset=\"UTF-8\"")

  -- `pre_process`
  unfoldable pub auth_pre_process :
      RequestHandlerOpts E → Request E.http → Option (Result Str (Response E.http))
  unfolding challenge
  auth_pre_process opts req =
      if is_empty opts.basic_auth
      then none
      else if is_options req.method
      then none
      else elim (split_once b':' opts.basic_auth) [
        | some (user_id, password) ↦ elim (check_credentials req.headers user_id password) [
          | ok _ ↦ none
          | err _ ↦ some (
              error_response E req.uri req.method 401 opts.page404 opts.page50x >>= λ resp.
              ok (challenge resp))
        ]
        | none ↦ some (error_response E req.uri req.method 500 opts.page404 opts.page50x)
      ]
