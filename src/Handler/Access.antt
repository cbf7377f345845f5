-- ===== src/Handler/Access.antt =====
-- Who gets past the checks of the handler.
use static_web_server.Common.{
  ℕ, Str, true, false, ◌≡◌, refl, ◌∙◌, none, some, Result, ok, codes, Result-cases, inl, inr,
  is_empty, split_once,
}
use static_web_server.Http.{Request, Response, is_allowed, is_options, get}
use static_web_server.Http.Laws.{get-insert}
use static_web_server.Fs.Meta.{FileMetadata}
use static_web_server.Env.{Env}
use static_web_server.Env.Options.{RequestHandlerOpts}
use static_web_server.ErrorPage.{
  error_response, get_response, maintenance_content, maintenance_pre_process,
}
use static_web_server.ErrorPage.Laws.{IsPage, page_response-IsPage, error_response-IsPage}
use static_web_server.Health.{health_pre_process}
use static_web_server.Cors.{cors_pre_process}
use static_web_server.BasicAuth.{check_credentials, challenge, auth_pre_process}
use static_web_server.BasicAuth.Laws.{HasCredentials, check_credentials_sound}
use static_web_server.Handler.{method_pre_process, handle_request}

module _ (E : Env) where
  -- The request's method is supported, it is none of the health endpoint, and CORS does not refuse it.
  pub record IsAdmitted (opts : RequestHandlerOpts E) (req : Request E.http) : Type 0 where
    pub supported : is_allowed req.method ≡ true
    pub no_health : health_pre_process E opts req ≡ none
    pub cors_passes : cors_pre_process E opts req ≡ none

  -- The page that asks for credentials.
  pub record IsChallenge (req : Request E.http) (r : Response E.http) : Type 0 where
    pub content : Str
    pub is_page : IsPage E req.method 401 content r
    pub challenges :
        get E.http r.headers "www-authenticate"
        ≡ some (codes "Basic realm=\"Static Web Server\", charset=\"UTF-8\"")

  challenge-IsChallenge :
      (req : Request E.http) (content : Str) (page : Response E.http)
      → IsPage E req.method 401 content page
      → IsChallenge req (challenge E page)
  unfolding challenge
  challenge-IsChallenge req content page p = record {
    content = content;
    is_page = record {
      status_is = p.status_is;
      body_is = p.body_is;
      length_is = get-insert E.http _ _ _ _ ∙ p.length_is;
      type_is = get-insert E.http _ _ _ _ ∙ p.type_is;
      ranges_is = get-insert E.http _ _ _ _ ∙ p.ranges_is;
    };
    challenges = get-insert E.http _ _ _ _;
  }

  pub auth_refuses :
      (opts : RequestHandlerOpts E) (req : Request E.http) (user hash : Str)
      → is_empty opts.basic_auth ≡ false
      → is_options req.method ≡ false
      → split_once b':' opts.basic_auth ≡ some (user, hash)
      → ¬ HasCredentials E req.headers user hash
      → (r : Response E.http) × (auth_pre_process E opts req ≡ some (ok r)) × IsChallenge req r
  unfolding auth_pre_process
  auth_refuses opts req user hash e f g h =
      elim (Result-cases (check_credentials E req.headers user hash)) [
        | inr (u, w) ↦ absurd (h (check_credentials_sound E req.headers user hash u w))
        | inl (s, w) ↦
            let (page, made, content, p) = page_of req opts in
            rw (e, f, g, w, made, auth_pre_process)
              (challenge E page, refl, challenge-IsChallenge req content page p)
      ]
    where
      page_of :
          (req : Request E.http) (opts : RequestHandlerOpts E)
          → (page : Response E.http) × (error_response E req.uri req.method 401 opts.page404
                opts.page50x
              ≡ ok page)
            × (content : Str) × IsPage E req.method 401 content page
      page_of req opts =
          let (r, content, e, p, _, _) =
            error_response-IsPage E req.uri req.method 401 opts.page404 opts.page50x in
          (r, e, content, p)

  module _
      (auto_index : Request E.http → FileMetadata E.http.Time → Result ℕ (Response E.http)) where
    admitted :
        (opts : RequestHandlerOpts E) (req : Request E.http) (r : Result Str (Response E.http))
        → IsAdmitted opts req
        → auth_pre_process E opts req ≡ some r
        → handle_request E auto_index opts req ≡ r
    unfolding handle_request method_pre_process
    admitted opts req r a e =
        rw (a.supported, a.no_health, a.cors_passes, e, handle_request, method_pre_process) refl

    -- An admitted request without the credentials that are configured is asked for them, whatever
    -- there is on the disk: it gets the page for the status 401, and no file.
    pub handle_request-IsChallenge :
        (opts : RequestHandlerOpts E) (req : Request E.http) (user hash : Str)
        → IsAdmitted opts req
        → is_empty opts.basic_auth ≡ false
        → split_once b':' opts.basic_auth ≡ some (user, hash)
        → is_options req.method ≡ false
        → ¬ HasCredentials E req.headers user hash
        → (r : Response E.http) × (handle_request E auto_index opts req ≡ ok r) × IsChallenge req r
    handle_request-IsChallenge opts req user hash a e g f h =
        let (r, refused, c) = auth_refuses opts req user hash e f g h in
        (r, admitted opts req (ok r) a refused, c)

    -- In maintenance mode, an admitted request that passes the authorization gets the page for
    -- maintenance with the status that is configured, and no file.
    pub handle_request-IsMaintenance :
        (opts : RequestHandlerOpts E) (req : Request E.http)
        → IsAdmitted opts req
        → auth_pre_process E opts req ≡ none
        → opts.maintenance_mode ≡ true
        → (r : Response E.http) × (handle_request E auto_index opts req ≡ ok r)
          × IsPage E req.method opts.maintenance_mode_status
              (maintenance_content E opts.maintenance_mode_status opts.maintenance_mode_file)
              r
    unfolding handle_request method_pre_process maintenance_pre_process get_response
    handle_request-IsMaintenance opts req a e m =
        rw
          (
            a.supported, a.no_health, a.cors_passes, e, m, handle_request, method_pre_process,
            maintenance_pre_process,
          )
          (_, refl, page_response-IsPage E req.method opts.maintenance_mode_status _)

    -- A request with a method that the server does not support gets the page for the status 405.
    pub handle_request_unsupported :
        (opts : RequestHandlerOpts E) (req : Request E.http)
        → is_allowed req.method ≡ false
        → (r : Response E.http) × (content : Str) × (handle_request E auto_index opts req ≡ ok r)
          × IsPage E req.method 405 content r
    unfolding handle_request method_pre_process
    handle_request_unsupported opts req h =
        let (r, content, e, p, _, _) =
          error_response-IsPage E req.uri req.method 405 opts.page404 opts.page50x in
        rw (h, e, handle_request, method_pre_process) (r, content, refl, p)
