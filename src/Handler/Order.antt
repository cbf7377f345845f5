-- ===== src/Handler/Order.antt =====
-- Every request is answered, and the checks come before the files.
use static_web_server.Common.{
  ℕ, Str, ◌≡◌, refl, Option, none, some, Result, ok, Bool-cases, Option-cases, Result-cases, ◌⊎◌,
  inl, inr, is_empty, split_once,
}
use static_web_server.Http.{Request, Response, is_allowed, is_options}
use static_web_server.Fs.Meta.{FileMetadata}
use static_web_server.Env.{Env}
use static_web_server.Env.Options.{RequestHandlerOpts, Redirects, Rewrites, RedirectsKind}
use static_web_server.ErrorPage.{error_response, get_response, maintenance_pre_process}
use static_web_server.Health.{health_pre_process, health_body, is_health_endpoint}
use static_web_server.Cors.{cors_pre_process, check_request}
use static_web_server.BasicAuth.{check_credentials, auth_pre_process}
use static_web_server.Redirects.{
  redirects_pre_process, redirects_of, get_redirection, redirect_host, redirect_to,
  replace_placeholders,
}
use static_web_server.Rewrites.{
  Rewritten, answered, passed, rewrites_pre_process, rewrites_of, rewrite_uri_path, rewrite_to,
  merge_uris, internal, external,
}
use static_web_server.Handler.{answer_or, method_pre_process, serve_rewritten, handle_request}
use static_web_server.Handler.Finish.{serve_static-Ok}

module _ (E : Env) where
  -- A check that lets a request through, or answers it.
  abbrev Settled : Option (Result Str (Response E.http)) → Type 0
  Settled o = (o ≡ none) ⊎ ((r : Response E.http) × (o ≡ some (ok r)))

  method-Settled :
      (opts : RequestHandlerOpts E) (req : Request E.http) → Settled (method_pre_process E opts req)
  unfolding method_pre_process error_response
  method-Settled opts req = elim (Bool-cases (is_allowed req.method)) [
    | inl e ↦ inl (rw (e, method_pre_process) refl)
    | inr e ↦ rw (e, method_pre_process) (inr (_, refl))
  ]

  health-Settled :
      (opts : RequestHandlerOpts E) (req : Request E.http) → Settled (health_pre_process E opts req)
  unfolding health_pre_process
  health-Settled opts req = elim (Bool-cases opts.health) [
    | inr e ↦ inl (rw (e, health_pre_process) refl)
    | inl e ↦ elim (Bool-cases (is_health_endpoint E req)) [
      | inr f ↦ inl (rw (e, f, health_pre_process) refl)
      | inl f ↦ elim (Option-cases (health_body E req.method)) [
        | inl g ↦ inl (rw (e, f, g, health_pre_process) refl)
        | inr (body, g) ↦ rw (e, f, g, health_pre_process) (inr (_, refl))
      ]
    ]
  ]

  cors-Settled :
      (opts : RequestHandlerOpts E) (req : Request E.http) → Settled (cors_pre_process E opts req)
  unfolding cors_pre_process error_response
  cors-Settled opts req = elim (Option-cases opts.cors) [
    | inl e ↦ inl (rw (e, cors_pre_process) refl)
    | inr (c, e) ↦ elim (Result-cases (check_request E.http c req.method req.headers)) [
      | inl (f, w) ↦ rw (e, w, cors_pre_process) (inr (_, refl))
      | inr (a, w) ↦ inl (rw (e, w, cors_pre_process) refl)
    ]
  ]

  auth-Settled :
      (opts : RequestHandlerOpts E) (req : Request E.http) → Settled (auth_pre_process E opts req)
  unfolding auth_pre_process error_response
  auth-Settled opts req = elim (Bool-cases (is_empty opts.basic_auth)) [
    | inl e ↦ inl (rw (e, auth_pre_process) refl)
    | inr e ↦ elim (Bool-cases (is_options req.method)) [
      | inl f ↦ inl (rw (e, f, auth_pre_process) refl)
      | inr f ↦ elim (Option-cases (split_once b':' opts.basic_auth)) [
        | inl g ↦ rw (e, f, g, auth_pre_process) (inr (_, refl))
        | inr ((user, hash), g) ↦ elim (Result-cases (check_credentials E req.headers user hash)) [
          | inl (s, w) ↦ rw (e, f, g, w, auth_pre_process) (inr (_, refl))
          | inr (u, w) ↦ inl (rw (e, f, g, w, auth_pre_process) refl)
        ]
      ]
    ]
  ]

  maintenance-Settled :
      (opts : RequestHandlerOpts E) (req : Request E.http)
      → Settled (maintenance_pre_process E opts req.method)
  unfolding maintenance_pre_process get_response
  maintenance-Settled opts req = elim (Bool-cases opts.maintenance_mode) [
    | inl e ↦ rw (e, maintenance_pre_process) (inr (_, refl))
    | inr e ↦ inl (rw (e, maintenance_pre_process) refl)
  ]

  redirect_to-Settled :
      (opts : RequestHandlerOpts E) (req : Request E.http) (m : Redirects E)
      → Settled (redirect_to E opts req m)
  unfolding redirect_to error_response
  redirect_to-Settled opts req m =
      elim (Result-cases
        (replace_placeholders E (E.http.uri_path req.uri) m.source m.destination)) [
          | inl (f, w) ↦ rw (w, redirect_to) (inr (_, refl))
          | inr (dest, w) ↦ elim (Option-cases (E.http.from_str dest)) [
            | inl e ↦ rw (w, e, redirect_to) (inr (_, refl))
            | inr (loc, e) ↦ rw (w, e, redirect_to) (inr (_, refl))
          ]
        ]

  redirects-Settled :
      (opts : RequestHandlerOpts E) (req : Request E.http)
      → Settled (redirects_pre_process E opts req)
  unfolding redirects_pre_process
  redirects-Settled opts req = elim (Option-cases (redirects_of E opts)) [
    | inl e ↦ inl (rw (e, redirects_pre_process) refl)
    | inr (l, e) ↦
        elim (Option-cases (get_redirection E (redirect_host E req) (E.http.uri_path req.uri) l)) [
          | inl f ↦ inl (rw (e, f, redirects_pre_process) refl)
          | inr (m, f) ↦ rw (e, f, redirects_pre_process) (redirect_to-Settled opts req m)
        ]
  ]

  answer_or-ok :
      (o : Option (Result Str (Response E.http))) (rest : Result Str (Response E.http))
      → Settled o
      → ((r : Response E.http) × (rest ≡ ok r))
      → (r : Response E.http) × (answer_or o rest ≡ ok r)
  answer_or-ok o rest (inl e) h = rw e h
  answer_or-ok o rest (inr (r, e)) h = (r, rw e refl)

  RewriteSettled : Rewritten E → Type 0
  RewriteSettled o =
      ((req : Request E.http) × (o ≡ passed req)) ⊎ ((r : Response E.http) × (o ≡ answered (ok r)))

  internal-RewriteSettled :
      (opts : RequestHandlerOpts E) (req : Request E.http) (dest : Str)
      → RewriteSettled (internal E opts req dest)
  unfolding RewriteSettled internal error_response
  internal-RewriteSettled opts req dest = elim (Result-cases (merge_uris E req.uri dest)) [
    | inl (f, e) ↦ rw (e, internal) (inr (_, refl))
    | inr (uri, e) ↦ rw (e, internal) (inl (_, refl))
  ]

  external-RewriteSettled :
      (opts : RequestHandlerOpts E) (req : Request E.http) (kind : RedirectsKind) (dest : Str)
      → RewriteSettled (external E opts req kind dest)
  unfolding RewriteSettled external error_response
  external-RewriteSettled opts req kind dest = elim (Option-cases (E.http.from_str dest)) [
    | inl e ↦ rw (e, external) (inr (_, refl))
    | inr (loc, e) ↦ rw (e, external) (inr (_, refl))
  ]

  rewrite_to-RewriteSettled :
      (opts : RequestHandlerOpts E) (req : Request E.http) (m : Rewrites E)
      → RewriteSettled (rewrite_to E opts req m)
  unfolding RewriteSettled rewrite_to error_response
  rewrite_to-RewriteSettled opts req m =
      elim (Result-cases
        (replace_placeholders E (E.http.uri_path req.uri) m.source m.destination)) [
          | inl (f, w) ↦ rw (w, rewrite_to) (inr (_, refl))
          | inr (dest, w) ↦ elim (Option-cases m.redirect) [
            | inr (kind, k) ↦ rw (w, k, rewrite_to) (external-RewriteSettled opts req kind dest)
            | inl k ↦ rw (w, k, rewrite_to) (internal-RewriteSettled opts req dest)
          ]
        ]

  rewrites-RewriteSettled :
      (opts : RequestHandlerOpts E) (req : Request E.http)
      → RewriteSettled (rewrites_pre_process E opts req)
  unfolding RewriteSettled rewrites_pre_process
  rewrites-RewriteSettled opts req = elim (Option-cases (rewrites_of E opts)) [
    | inl e ↦ rw (e, rewrites_pre_process) (inl (req, refl))
    | inr (l, e) ↦ elim (Option-cases (rewrite_uri_path E (E.http.uri_path req.uri) l)) [
      | inl f ↦ rw (e, f, rewrites_pre_process) (inl (req, refl))
      | inr (m, f) ↦ rw (e, f, rewrites_pre_process) (rewrite_to-RewriteSettled opts req m)
    ]
  ]

  module _
      (auto_index : Request E.http → FileMetadata E.http.Time → Result ℕ (Response E.http)) where
    serve_rewritten-ok :
        (opts : RequestHandlerOpts E) (o : Rewritten E)
        → RewriteSettled o
        → (r : Response E.http) × (serve_rewritten E auto_index opts o ≡ ok r)
    unfolding RewriteSettled serve_rewritten
    serve_rewritten-ok opts o (inl (req, e)) = rw e (serve_static-Ok E auto_index opts req)
    serve_rewritten-ok opts o (inr (r, e)) = rw e (r, refl)

    -- Every request gets a response: whatever a check, a redirect, a rewrite or the file system says,
    -- the handler never ends with an error.
    pub handle_request-ok :
        (opts : RequestHandlerOpts E) (req : Request E.http)
        → (r : Response E.http) × (handle_request E auto_index opts req ≡ ok r)
    unfolding handle_request
    handle_request-ok opts req = answer_or-ok _ _ (method-Settled opts req) (
        answer_or-ok _ _ (health-Settled opts req) (
          answer_or-ok _ _ (cors-Settled opts req) (
            answer_or-ok _ _ (auth-Settled opts req) (
              answer_or-ok _ _ (maintenance-Settled opts req) (
                answer_or-ok _ _ (redirects-Settled opts req)
                  (serve_rewritten-ok opts _ (rewrites-RewriteSettled opts req)))))))
