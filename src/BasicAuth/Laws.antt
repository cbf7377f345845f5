-- ===== src/BasicAuth/Laws.antt =====
-- Who passes the authorization.
use static_web_server.Common.{
  Str, true, not, ◌≡◌, refl, ◌⊎◌, inl, inr, Option, none, some, equal, equal_iff, if◌then◌else◌, ok,
  err, is_empty, split_once, arith, Option-cases, Bool-cases, ◌>>=◌,
}
use static_web_server.Http.{Request, is_options}
use static_web_server.Env.{Env}
use static_web_server.Env.Options.{RequestHandlerOpts}
use static_web_server.ErrorPage.{error_response}
use static_web_server.BasicAuth.{verified, challenge, check_credentials, auth_pre_process}

module _ (E : Env) where
  -- The request has the user's name, and a password that bcrypt verifies against the hash.
  pub record HasCredentials (headers : E.http.HeaderMap) (user hash : Str) : Type 0 where
    pub password : Str
    pub given : E.http.basic_credentials headers ≡ some (user, password)
    pub verifies : E.bcrypt_verify password hash ≡ some true

  credentials-match :
      (name password user hash : Str) (u : Unit {0})
      → (if not (equal name user) then err 401 else verified E (E.bcrypt_verify password hash))
        ≡ ok u
      → (name ≡ user) × (E.bcrypt_verify password hash ≡ some true)
  unfolding verified
  credentials-match name password user hash u h =
      (ground (arith, equal_iff name user), ground arith)

  pub check_credentials_sound :
      (headers : E.http.HeaderMap) (user hash : Str) (u : Unit {0})
      → check_credentials E headers user hash ≡ ok u
      → HasCredentials headers user hash
  unfolding check_credentials
  check_credentials_sound headers user hash u h =
      elim (Option-cases (E.http.basic_credentials headers)) [
        | inl e ↦ cc (rw (e, check_credentials) at h)
        | inr ((name, password), e) ↦
            let (same, verifies) =
              credentials-match name password user hash u (rw (e, check_credentials) at h) in
            record { password = password; given = cc; verifies = verifies }
      ]

  checked_of :
      (opts : RequestHandlerOpts E) (req : Request E.http) (pair : Option (Str × Str))
      → elim pair [
        | some (user_id, password) ↦ elim (check_credentials E req.headers user_id password) [
          | ok _ ↦ none
          | err _ ↦ some (
              error_response E req.uri req.method 401 opts.page404 opts.page50x >>= λ resp.
              ok (challenge E resp))
        ]
        | none ↦ some (error_response E req.uri req.method 500 opts.page404 opts.page50x)
      ]
        ≡ none
      → (user hash : Str) × (pair ≡ some (user, hash))
        × (u : Unit {0}) × (check_credentials E req.headers user hash ≡ ok u)
  checked_of opts req none h = cc
  checked_of opts req (some (user, hash)) h = (user, hash, refl, tt, ground arith)

  -- A request passes the authorization only if none is configured, if its method is OPTIONS, or if
  -- it has the credentials that are configured.
  pub auth_pre_process-HasCredentials :
      (opts : RequestHandlerOpts E) (req : Request E.http)
      → auth_pre_process E opts req ≡ none
      → (is_empty opts.basic_auth ≡ true)
        ⊎ (is_options req.method ≡ true)
        ⊎ ((user hash : Str) × (split_once b':' opts.basic_auth ≡ some (user, hash))
            × HasCredentials req.headers user hash)
  unfolding auth_pre_process
  auth_pre_process-HasCredentials opts req h = elim (Bool-cases (is_empty opts.basic_auth)) [
    | inl e ↦ inl e
    | inr e ↦ elim (Bool-cases (is_options req.method)) [
      | inl f ↦ inr (inl f)
      | inr f ↦
          let (user, hash, found, u, checked) =
            checked_of opts req (split_once b':' opts.basic_auth)
              (rw (e, f, auth_pre_process) at h) in
          inr (inr (user, hash, found, check_credentials_sound req.headers user hash u checked))
    ]
  ]
