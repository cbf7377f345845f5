-- ===== src/Handler/Finish.antt =====
-- What a response has when the handler is done with it.
use static_web_server.Common.{
  ℕ, Str, Bytes, Bool, true, false, ◌≡◌, refl, Option, none, some, if◌then◌else◌, Result, ok, codes,
  ◌++◌, arith, Option-cases, Result-cases, inl, inr, ◌>>=◌, min, ◌≤◌,
}
use static_web_server.Http.{Request, Response, get}
use static_web_server.Http.Laws.{get-insert}
use static_web_server.Fs.Meta.{FileMetadata}
use static_web_server.StaticFiles.{handle}
use static_web_server.Env.{Env}
use static_web_server.Env.Options.{RequestHandlerOpts}
use static_web_server.ErrorPage.{error_response}
use static_web_server.FallbackPage.{fallback_post_process}
use static_web_server.Cors.{cors_post_process, check_request}
use static_web_server.Compression.{compression_post_process}
use static_web_server.Compression.Laws.{compression_post_process-IsCompressed}
use static_web_server.ControlHeaders.{
  control_post_process, get_max_age, get_file_extension, append_cache_control,
}
use static_web_server.SecurityHeaders.{security_post_process, append_security_headers}
use static_web_server.CustomHeaders.{custom_post_process}
use static_web_server.Handler.{Served, handle_opts, serve_file, finish, serve_static}

age_bound : (a b : Bool) → (if a then 3600 else if b then 31536000 else 86400) ≤ 31536000
age_bound true b = omega arith
age_bound false true = omega arith
age_bound false false = omega arith

get_max_age_bound : (path : Str) → get_max_age path ≤ 31536000
unfolding get_max_age
get_max_age_bound path = elim (Option-cases (get_file_extension path)) [
  | inl e ↦ rw (e, get_max_age) (age_bound false false)
  | inr (extension, e) ↦ rw (e, get_max_age) (age_bound _ _)
]

under_cap : (n : ℕ) → n ≤ 31536000 → min n 4294967295 ≡ n
under_cap n h = omega (arith, h)

module _ (E : Env) where
  abbrev Ok {ℓ} : {A : Type ℓ} → Result Str A → Type ℓ
  Ok {A = A} m = (a : A) × (m ≡ ok a)

  >>=-Ok :
      {A B : Type 0} (m : Result Str A) (f : A → Result Str B)
      → Ok m
      → ((a : A) → Ok (f a))
      → Ok (m >>= f)
  >>=-Ok m f (a, e) h = rw e (h a)

  cors_post_process-Ok :
      (opts : RequestHandlerOpts E) (req : Request E.http) (resp : Response E.http)
      → Ok (cors_post_process E opts req resp)
  unfolding cors_post_process
  cors_post_process-Ok opts req resp = elim (Option-cases opts.cors) [
    | inl e ↦ rw (e, cors_post_process) (_, refl)
    | inr (c, e) ↦ elim (Result-cases (check_request E.http c req.method req.headers)) [
      | inl (f, w) ↦ rw (e, w, cors_post_process) (_, refl)
      | inr ((hs, v), w) ↦ rw (e, w, cors_post_process) (_, refl)
    ]
  ]

  compression_post_process-Ok :
      (opts : RequestHandlerOpts E) (req : Request E.http) (resp : Response E.http)
      → Ok (compression_post_process E opts req resp)
  compression_post_process-Ok opts req resp =
      let (r, e, _) = compression_post_process-IsCompressed E opts req resp in (r, e)

  custom_post_process-Ok :
      (opts : RequestHandlerOpts E) (req : Request E.http) (resp : Response E.http)
      (path : Option Bytes)
      → Ok (custom_post_process E opts req resp path)
  unfolding custom_post_process
  custom_post_process-Ok opts req resp path = elim (Option-cases opts.advanced_opts) [
    | inl e ↦ rw (e, custom_post_process) (_, refl)
    | inr (a, e) ↦ rw (e, custom_post_process) (_, refl)
  ]

  module _
      (auto_index : Request E.http → FileMetadata E.http.Time → Result ℕ (Response E.http)) where
    serve_file-Ok :
        (opts : RequestHandlerOpts E) (req : Request E.http) → Ok (serve_file E auto_index opts req)
    unfolding serve_file error_response
    serve_file-Ok opts req =
        elim (Result-cases (
          handle E.http E.percent_decode E.quality_of (handle_opts E opts req) E.disk
            (auto_index req))) [
              | inl (s, e) ↦ rw (e, serve_file) (_, refl)
              | inr (a, e) ↦ rw (e, serve_file) (_, refl)
            ]

    finish-Ok :
        (opts : RequestHandlerOpts E) (req : Request E.http) (served : Served E)
        → Ok (finish E auto_index opts req served)
    unfolding finish fallback_post_process control_post_process security_post_process
    finish-Ok opts req served = >>=-Ok _ _ (cors_post_process-Ok opts req _) (λ c.
        >>=-Ok _ _ (compression_post_process-Ok opts req _)
          (λ r. custom_post_process-Ok opts req _ served.path))

    -- A request that gets as far as the files is answered.
    pub serve_static-Ok :
        (opts : RequestHandlerOpts E) (req : Request E.http)
        → Ok (serve_static E auto_index opts req)
    unfolding serve_static
    serve_static-Ok opts req = >>=-Ok _ _ (serve_file-Ok opts req) (λ s. finish-Ok opts req s)

  abbrev OkWith : (Response E.http → Type 0) → Result Str (Response E.http) → Type 0
  OkWith P m = (r : Response E.http) × (m ≡ ok r) × P r

  >>=-OkWith :
      {A : Type 0} (P : Response E.http → Type 0) (m : Result Str A)
      (f : A → Result Str (Response E.http))
      → Ok m
      → ((a : A) → OkWith P (f a))
      → OkWith P (m >>= f)
  >>=-OkWith P m f (a, e) h = rw e (h a)

  module _ (path : Str) where
    -- The headers that the options ask for, with the age of the path's extension.
    pub record IsSecured (r : Response E.http) : Type 0 where
      pub hsts :
          get E.http r.headers "strict-transport-security"
          ≡ some (codes "max-age=63072000; includeSubDomains; preload")
      pub frames : get E.http r.headers "x-frame-options" ≡ some (codes "DENY")
      pub sniffing : get E.http r.headers "x-content-type-options" ≡ some (codes "nosniff")
      pub policy :
          get E.http r.headers "content-security-policy" ≡ some (codes "frame-ancestors 'self'")
      pub cached :
          get E.http r.headers "cache-control"
          ≡ some (codes "public, max-age=" ++ E.http.decimal (get_max_age path))

    -- a cap of 136 years on ages of at most one
    max_age_bound : min (get_max_age path) 4294967295 ≡ get_max_age path
    max_age_bound = under_cap (get_max_age path) (get_max_age_bound path)

    headers-IsSecured :
        (r : Response E.http)
        → IsSecured (append_security_headers E (append_cache_control E path r))
    unfolding append_security_headers append_cache_control
    headers-IsSecured r = record {
      hsts = simp (get-insert E.http);
      frames = simp (get-insert E.http);
      sniffing = simp (get-insert E.http);
      policy = simp (get-insert E.http);
      cached = simp (get-insert E.http, max_age_bound);
    }

  module _ (opts : RequestHandlerOpts E) (req : Request E.http) where
    control_on :
        (c : Response E.http)
        → opts.cache_control_headers ≡ true
        → control_post_process E opts req c
          ≡ ok (append_cache_control E (E.http.uri_path req.uri) c)
    unfolding control_post_process
    control_on c k = rw (k, control_post_process) refl

    security_on :
        (c : Response E.http)
        → opts.security_headers ≡ true
        → security_post_process E opts c ≡ ok (append_security_headers E c)
    unfolding security_post_process
    security_on c k = rw (k, security_post_process) refl

    custom_off :
        (c : Response E.http) (path : Option Bytes)
        → opts.advanced_opts ≡ none
        → custom_post_process E opts req c path ≡ ok c
    unfolding custom_post_process
    custom_off c path a = rw (a, custom_post_process) refl

    last_steps :
        (path : Option Bytes) (c : Response E.http)
        → opts.security_headers ≡ true
        → opts.cache_control_headers ≡ true
        → opts.advanced_opts ≡ none
        → OkWith (IsSecured (E.http.uri_path req.uri)) (
            control_post_process E opts req c >>= λ controlled.
            security_post_process E opts controlled >>= λ secured.
            custom_post_process E opts req secured path)
    last_steps path c s k a =
        let cached = append_cache_control E (E.http.uri_path req.uri) c in
        let secured = append_security_headers E cached in
        rw (control_on c k) (
          rw (security_on cached s) (
            rw (custom_off secured path a)
              (secured, refl, headers-IsSecured (E.http.uri_path req.uri) c)))

  module _
      (auto_index : Request E.http → FileMetadata E.http.Time → Result ℕ (Response E.http)) where
    finish-IsSecured :
        (opts : RequestHandlerOpts E) (req : Request E.http) (served : Served E)
        → opts.security_headers ≡ true
        → opts.cache_control_headers ≡ true
        → opts.advanced_opts ≡ none
        → OkWith (IsSecured (E.http.uri_path req.uri)) (finish E auto_index opts req served)
    unfolding finish fallback_post_process
    finish-IsSecured opts req served s k a =
        >>=-OkWith (IsSecured (E.http.uri_path req.uri)) _ _ (cors_post_process-Ok opts req _)
          (λ cors.
            >>=-OkWith (IsSecured (E.http.uri_path req.uri)) _ _
              (compression_post_process-Ok opts req _)
              (λ c. last_steps opts req served.path c s k a))

    -- With the security and the caching headers switched on and no custom headers, each response that
    -- a request for a file ends with has all of them, an error page or a fallback page too. The
    -- age that is cached is that of the extension of the path.
    pub serve_static-IsSecured :
        (opts : RequestHandlerOpts E) (req : Request E.http)
        → opts.security_headers ≡ true
        → opts.cache_control_headers ≡ true
        → opts.advanced_opts ≡ none
        → (r : Response E.http) × (serve_static E auto_index opts req ≡ ok r)
          × IsSecured (E.http.uri_path req.uri) r
    unfolding serve_static
    serve_static-IsSecured opts req s k a =
        >>=-OkWith (IsSecured (E.http.uri_path req.uri)) _ _ (serve_file-Ok auto_index opts req)
          (λ served. finish-IsSecured opts req served s k a)
