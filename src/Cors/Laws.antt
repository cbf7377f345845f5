-- ===== src/Cors/Laws.antt =====
-- What a cross-origin request has to have, and what it gets.
use static_web_server.Common.{
  Str, Bool, true, false, ◌≡◌, refl, ap, ◌∙◌, Option, none, some, List, [], ◌∷◌, All, all, ok, err,
  >>=-eq-ok, split_on, trim, String, arith, Bool-cases, Option-cases, Result-cases, ◌⊎◌, inl, inr,
}
use static_web_server.Http.{
  Http, Request, Response, Method, method_eq, get, values_of, insert_all, remove_header,
}
use static_web_server.Http.Laws.{
  get-insert_all, get-remove, insert_all-status, insert_all-body, last_or,
}
use static_web_server.Env.{Env}
use static_web_server.Env.Options.{Configured, RequestHandlerOpts}
use static_web_server.Cors.{
  Validated, Forbidden, is_origin_allowed, is_method_allowed, is_header_allowed, requested_method,
  requested_headers, preflight_request, simple_request, cors_headers, append_preflight_headers,
  check_request, add_headers, cors_post_process,
}

pub all-All : {A : Type 0} (p : A → Bool) (l : List A) → all p l ≡ true → All (λ x. p x ≡ true) l
all-All p [] h = tt
all-All p (x ∷ l) h = ground (arith, all-All p l)

module _ (H : Http) (c : Configured) where
  -- What a preflight asks for is allowed: a method, and each of the headers, if any are named.
  pub record AllowsAsked (headers : H.HeaderMap) : Type 0 where
    pub asked_method : Str
    pub has_method : get H headers "access-control-request-method" ≡ some asked_method
    pub method_allowed : is_method_allowed H c asked_method ≡ true
    pub headers_allowed :
        (get H headers "access-control-request-headers" ≡ none)
        ⊎ ((v text : Str) × (get H headers "access-control-request-headers" ≡ some v)
            × (H.to_str v ≡ some text)
            × All (λ h. is_header_allowed H c (trim h) ≡ true) (split_on b',' text))

  -- The origin is allowed, and unless the method is not OPTIONS, what the request asks for is, too.
  pub record IsPermitted (m : Method) (headers : H.HeaderMap) (o : Str) : Type 0 where
    pub origin_allowed : is_origin_allowed H c o ≡ true
    pub asked_allowed : (method_eq m Method.options ≡ false) ⊎ AllowsAsked headers

  requested_method-ok :
      (v : Option Str) (u : Unit {0})
      → requested_method H c v ≡ ok u
      → (s : Str) × (v ≡ some s) × (is_method_allowed H c s ≡ true)
  unfolding requested_method
  requested_method-ok none u h = cc
  requested_method-ok (some s) u h = (s, refl, ground arith)

  requested_headers-ok :
      (v : Str) (u : Unit {0})
      → requested_headers H c (some v) ≡ ok u
      → (text : Str) × (H.to_str v ≡ some text)
        × (all (λ h. is_header_allowed H c (trim h)) (split_on b',' text) ≡ true)
  unfolding requested_headers
  requested_headers-ok v u h = elim (Option-cases (H.to_str v)) [
    | inl e ↦ cc (rw (e, requested_headers) at h)
    | inr (text, e) ↦ (text, e, ground arith)
  ]

  listed_allowed :
      (headers : H.HeaderMap) (w : Unit {0})
      → requested_headers H c (get H headers "access-control-request-headers") ≡ ok w
      → (get H headers "access-control-request-headers" ≡ none)
        ⊎ ((v text : Str) × (get H headers "access-control-request-headers" ≡ some v)
            × (H.to_str v ≡ some text)
            × All (λ h. is_header_allowed H c (trim h) ≡ true) (split_on b',' text))
  listed_allowed headers w listed =
      elim (Option-cases (get H headers "access-control-request-headers")) [
        | inl e ↦ inl e
        | inr (v, e) ↦
            let (text, to, every) = requested_headers-ok v w (rw e at listed) in
            inr (v, text, e, to, all-All _ _ every)
      ]

  -- The headers are those for the origin.
  abbrev pub Permits : Method → H.HeaderMap → Str → H.HeaderMap → Type 0
  Permits m headers o hs = IsPermitted m headers o × (hs ≡ cors_headers H c o)

  simple_request-Permits :
      (m : Method) (headers hs : H.HeaderMap) (v : Validated) (o : Str)
      → method_eq m Method.options ≡ false
      → simple_request H c o ≡ ok (hs, v)
      → Permits m headers o hs
  unfolding simple_request
  simple_request-Permits m headers hs v o n h = elim (Bool-cases (is_origin_allowed H c o)) [
    | inr e ↦ cc (rw (e, simple_request) at h)
    | inl e ↦
        let same : hs ≡ cors_headers H c o = cc (rw (e, simple_request) at h) in
        (record { origin_allowed = e; asked_allowed = inl n }, same)
  ]

  preflight_request-Permits :
      (m : Method) (headers hs : H.HeaderMap) (v : Validated) (o : Str)
      → preflight_request H c headers o ≡ ok (hs, v)
      → Permits m headers o hs
  unfolding preflight_request
  preflight_request-Permits m headers hs v o h = elim (Bool-cases (is_origin_allowed H c o)) [
    | inr e ↦ cc (rw (e, preflight_request) at h)
    | inl e ↦
        let (u, asked, rest) = >>=-eq-ok _ _ (rw (e, preflight_request) at h) in
        let parts : (w : Unit {0}) × (requested_headers H c
                (get H headers "access-control-request-headers")
              ≡ ok w)
            × (ok (cors_headers H c o, Validated.preflight o) ≡ ok (hs, v)) =
          >>=-eq-ok _ _ rest in
        let (w, listed, last) = parts in
        let (s, has, allowed) = requested_method-ok _ u asked in
        let same : hs ≡ cors_headers H c o = cc last in
        (
          record {
            origin_allowed = e;
            asked_allowed = inr (record {
              asked_method = s;
              has_method = has;
              method_allowed = allowed;
              headers_allowed = listed_allowed headers w listed;
            });
          },
          same,
        )
  ]

  pub check_request-Permits :
      (m : Method) (headers hs : H.HeaderMap) (v : Validated) (o : Str)
      → get H headers "origin" ≡ some o
      → check_request H c m headers ≡ ok (hs, v)
      → Permits m headers o hs
  unfolding check_request
  check_request-Permits m headers hs v o e h = elim (Bool-cases (method_eq m Method.options)) [
    | inl y ↦ preflight_request-Permits m headers hs v o (rw (e, y, check_request) at h)
    | inr n ↦ simple_request-Permits m headers hs v o n (rw (e, n, check_request) at h)
  ]

  get_all-cors_headers :
      (o : Str) → H.get_all (cors_headers H c o) "access-control-allow-origin" ≡ o ∷ []
  unfolding cors_headers
  get_all-cors_headers o = H.get_all-insert _ _ _ _

  get_all-methods :
      (o : Str)
      → H.get_all (cors_headers H c o) "access-control-allow-methods" ≡ c.methods_header ∷ []
  unfolding cors_headers append_preflight_headers
  get_all-methods o = elim (Option-cases c.cors.max_age) [
    | inl e ↦ rw e (simp H.get_all-insert)
    | inr (age, e) ↦ rw e (simp H.get_all-insert)
  ]

module _ (E : Env) where
  add_headers-some :
      (resp : Response E.http) (l : List (String × Str)) (k : String) (v : Str)
      → values_of k l ≡ v ∷ []
      → add_headers E resp l ≡ remove_header E.http (insert_all E.http resp l) "allow"
  unfolding add_headers
  add_headers-some resp [] k v h = cc
  add_headers-some resp (x ∷ l) k v h = refl

  set_header :
      (resp : Response E.http) (hs : E.http.HeaderMap) (k : String) (v : Str)
      → E.http.get_all hs k ≡ v ∷ []
      → get E.http (insert_all E.http resp (E.http.iter hs)).headers k ≡ some v
  unfolding last_or
  set_header resp hs k v h =
      get-insert_all E.http resp (E.http.iter hs) k
      ∙ ap (λ l. last_or E.http l (get E.http resp.headers k)) (E.http.iter-get_all hs k ∙ h)

  -- The response to a permitted cross-origin request from `o`: that origin may read it, and
  -- `Allow` is left out.
  pub record IsGranted (c : Configured) (o : Str) (resp r : Response E.http) : Type 0 where
    pub status_kept : r.status ≡ resp.status
    pub body_kept : r.body ≡ resp.body
    pub origin_set : get E.http r.headers "access-control-allow-origin" ≡ some o
    pub methods_set : get E.http r.headers "access-control-allow-methods" ≡ some c.methods_header
    pub allow_removed : get E.http r.headers "allow" ≡ none

  granted :
      (c : Configured) (o : Str) (resp : Response E.http)
      → IsGranted c o resp (add_headers E resp (E.http.iter (cors_headers E.http c o)))
  granted c o resp =
      let hs = cors_headers E.http c o in
      let has = get_all-cors_headers E.http c o in
      let step =
        add_headers-some resp (E.http.iter hs) "access-control-allow-origin" o
          (E.http.iter-get_all hs _ ∙ has) in
      rw step (record {
        status_kept = insert_all-status E.http resp (E.http.iter hs);
        body_kept = insert_all-body E.http resp (E.http.iter hs);
        origin_set = get-remove E.http _ _ _ ∙ set_header resp hs _ o has;
        methods_set = get-remove E.http _ _ _ ∙ set_header resp hs _ _ (get_all-methods E.http c o);
        allow_removed = get-remove E.http _ _ _;
      })

  -- With CORS configured, a response to a request with an `Origin` header is either passed on as it
  -- is, because the check refuses the request, or the request is permitted, and the response tells
  -- the browser that this origin may read it.
  pub cors_post_process-IsGranted :
      (opts : RequestHandlerOpts E) (req : Request E.http) (resp : Response E.http) (c : Configured)
      (o : Str)
      → opts.cors ≡ some c
      → get E.http req.headers "origin" ≡ some o
      → (r : Response E.http) × (cors_post_process E opts req resp ≡ ok r)
        × (((f : Forbidden) × (check_request E.http c req.method req.headers ≡ err f) × (r ≡ resp))
            ⊎ (IsPermitted E.http c req.method req.headers o × IsGranted c o resp r))
  unfolding cors_post_process
  cors_post_process-IsGranted opts req resp c o e h =
      elim (Result-cases (check_request E.http c req.method req.headers)) [
        | inl (f, w) ↦ rw (e, w, cors_post_process) (resp, refl, inl (f, refl, refl))
        | inr ((hs, v), w) ↦
            let (permitted, same) =
              check_request-Permits E.http c req.method req.headers hs v o h w in
            rw (e, w, cors_post_process)
              (
                add_headers E resp (E.http.iter hs),
                refl,
                inr (permitted, rw same (granted c o resp)),
              )
      ]
