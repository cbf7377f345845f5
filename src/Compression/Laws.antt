-- ===== src/Compression/Laws.antt =====
-- What compression makes of a response.
use static_web_server.Common.{
  ◌↔◌, ℕ, Str, true, arith, false, ◌||◌, ◌≡◌, refl, ◌∙◌, none, some, Result, ok, codes, Bool-cases,
  Option-cases, ◌⊎◌, inl, inr,
}
use static_web_server.Http.{
  Http, Request, Response, encoded, Level, level_fastest, level_best, precise, ContentCoding, gzip,
  deflate, brotli, zstd, compress, identity, is_head, is_options, get,
}
use static_web_server.Http.Laws.{get-insert, get-remove}
use static_web_server.HeadersExt.Coding.{as_str}
use static_web_server.HeadersExt.Accept.{get_preferred_encoding}
use static_web_server.Env.{Env}
use static_web_server.Env.Options.{RequestHandlerOpts, CompressionLevel, fastest, best, default}
use static_web_server.Compression.Text.{HasText, is_text_iff}
use static_web_server.Compression.{
  into_algorithm_level, create_encoding_header, compressed, default_level, compress_as,
  is_text_response, auto, vary, auto_or_error, compression_post_process,
}

module _ (H : Http) where
  -- A response passed on with its content as it is.
  pub record IsPlain (resp r : Response H) : Type 0 where
    pub status_kept : r.status ≡ resp.status
    pub body_kept : r.body ≡ resp.body
    pub encoding_kept : get H r.headers "content-encoding" ≡ get H resp.headers "content-encoding"
    pub length_kept : get H r.headers "content-length" ≡ get H resp.headers "content-length"

  -- the level of a coding's encoder, which is the coding's own if the setting names none
  abbrev pub level_of : ContentCoding → CompressionLevel → Level
  level_of c fastest = level_fastest
  level_of c best = level_best
  level_of zstd default = precise 3
  level_of c default = precise 4

  -- A response whose body goes through the encoder of `c`: the coding is declared, and the length,
  -- which is that of the content before, is taken off.
  pub record IsEncoded (c : ContentCoding) (level : CompressionLevel) (resp r : Response H)
      : Type 0 where
    pub status_kept : r.status ≡ resp.status
    pub body_encoded : r.body ≡ encoded c (level_of c level) resp.body
    pub encoding_set : get H r.headers "content-encoding" ≡ some (as_str c)
    pub length_removed : get H r.headers "content-length" ≡ none
    pub vary_set : get H r.headers "vary" ≡ some (codes "accept-encoding")

-- The codings that are built in.
abbrev pub IsBuilt : ContentCoding → Type 0
IsBuilt gzip = Unit
IsBuilt deflate = Unit
IsBuilt brotli = Unit
IsBuilt zstd = Unit
IsBuilt _ = ⊥

module _ (E : Env) where
  -- When a response is to be encoded in `c`: compression is on, the response is not encoded yet, the
  -- method has a body, the client prefers `c`, which is built in, and the content is text.
  pub record IsDue (opts : RequestHandlerOpts E) (req : Request E.http) (resp : Response E.http)
      (c : ContentCoding) : Type 0 where
    pub enabled : opts.compression ≡ true
    pub not_encoded : get E.http resp.headers "content-encoding" ≡ none
    pub has_body : (is_head req.method || is_options req.method) ≡ false
    pub preferred : get_preferred_encoding E.quality_of E.http req.headers ≡ some c
    pub built : IsBuilt c
    pub text : HasText E.http resp

  -- The response is due and encoded in the coding that is preferred, or not due and passed on.
  abbrev pub Compresses :
      RequestHandlerOpts E → Request E.http → Response E.http → Response E.http → Type 0
  Compresses opts req resp r =
      ((c : ContentCoding) × IsDue opts req resp c
        × IsEncoded E.http c opts.compression_level resp r)
      ⊎ (IsPlain E.http resp r × ((c : ContentCoding) → ¬ IsDue opts req resp c))

  compressed-IsEncoded :
      (c : ContentCoding) (n : ℕ) (level : CompressionLevel) (resp : Response E.http)
      → get E.http resp.headers "content-encoding" ≡ none
      → into_algorithm_level level n ≡ level_of E.http c level
      → IsEncoded E.http c level resp (compressed E.http c n level (vary E resp))
  unfolding compressed vary create_encoding_header
  compressed-IsEncoded c n level resp e own =
      let same : get E.http (vary E resp).headers "content-encoding" ≡ none =
        get-insert E.http _ _ _ _ ∙ e in
      record {
        status_kept = refl;
        body_encoded = rw own refl;
        encoding_set = get-insert E.http _ _ _ _ ∙ rw same refl;
        length_removed = simp (get-insert E.http, get-remove E.http);
        vary_set = simp (get-insert E.http, get-remove E.http);
      }

  vary-IsPlain : (resp : Response E.http) → IsPlain E.http resp (vary E resp)
  unfolding vary
  vary-IsPlain resp = record {
    status_kept = refl;
    body_kept = refl;
    encoding_kept = get-insert E.http _ _ _ _;
    length_kept = get-insert E.http _ _ _ _;
  }

  plain : (resp : Response E.http) → IsPlain E.http resp resp
  plain resp = record {
    status_kept = refl;
    body_kept = refl;
    encoding_kept = refl;
    length_kept = refl;
  }

  level_of-built :
      (c : ContentCoding) (level : CompressionLevel)
      → IsBuilt c
      → (n : ℕ) × (default_level E.http c ≡ some n)
        × (into_algorithm_level level n ≡ level_of E.http c level)
  level_of-built gzip level h = (4, refl, ground arith)
  level_of-built deflate level h = (4, refl, ground arith)
  level_of-built brotli level h = (4, refl, ground arith)
  level_of-built zstd level h = (3, refl, ground arith)
  level_of-built _ level h = absurd h

  typed-vary :
      (resp : Response E.http)
      → E.http.typed_content_type (vary E resp).headers ≡ E.http.typed_content_type resp.headers
  unfolding vary
  typed-vary resp =
      E.http.typed_content_type-get_all _ _ (E.http.get_all-insert resp.headers "vary" _ _)

  has_text :
      (resp : Response E.http)
      → (is_text_response E.http (vary E resp) ≡ true) ↔ HasText E.http resp
  has_text resp = elim (Option-cases (E.http.typed_content_type resp.headers)) [
    | inl e ↦ rw (is_text_response, typed-vary resp, e) (λ _ mime e'. cc, λ _. refl)
    | inr (mime, e) ↦
        rw (is_text_response, typed-vary resp, e)
          (
            (λ h other e'.
                let same : mime ≡ other = cc in rw (← same) ((is_text_iff E.http mime).0 h)),
            λ h. (is_text_iff E.http mime).1 (h mime refl),
          )
  ]

  IsBuilt-cases : (c : ContentCoding) → IsBuilt c ⊎ ((default_level E.http c ≡ none) × ¬ IsBuilt c)
  IsBuilt-cases gzip = inl tt
  IsBuilt-cases deflate = inl tt
  IsBuilt-cases brotli = inl tt
  IsBuilt-cases zstd = inl tt
  IsBuilt-cases compress = inr (refl, λ h. h)
  IsBuilt-cases identity = inr (refl, λ h. h)

  module _ (opts : RequestHandlerOpts E) (req : Request E.http) (resp : Response E.http) where
    abbrev Settles : Result Str (Response E.http) → Type 0
    Settles result = (r : Response E.http) × (result ≡ ok r) × Compresses opts req resp r

    passed_on :
        (r : Response E.http)
        → IsPlain E.http resp r
        → ((c : ContentCoding) → ¬ IsDue opts req resp c)
        → Settles (ok r)
    passed_on r p no_due = (r, refl, inr (p, no_due))

    compress_as-Settles :
        (c : ContentCoding)
        → opts.compression ≡ true
        → get E.http resp.headers "content-encoding" ≡ none
        → (is_head req.method || is_options req.method) ≡ false
        → get_preferred_encoding E.quality_of E.http req.headers ≡ some c
        → HasText E.http resp
        → Settles (ok (compress_as E.http c opts.compression_level (vary E resp)))
    unfolding compress_as
    compress_as-Settles c on fresh h p text = elim (IsBuilt-cases c) [
      | inr (none_is, no_build) ↦
          rw (none_is, compress_as)
            (passed_on (vary E resp) (vary-IsPlain resp) (λ d due.
              let same : d ≡ c = cc (due.preferred, p) in no_build (rw (← same) due.built)))
      | inl built ↦
          let (n, level, own) = level_of-built c opts.compression_level built in
          rw (level, compress_as)
            (
              compressed E.http c n opts.compression_level (vary E resp),
              refl,
              inl (
                c,
                record {
                  enabled = on;
                  not_encoded = fresh;
                  has_body = h;
                  preferred = p;
                  built = built;
                  text = text;
                },
                compressed-IsEncoded c n opts.compression_level resp fresh own,
              ),
            )
    ]

    auto-Settles :
        opts.compression ≡ true
        → get E.http resp.headers "content-encoding" ≡ none
        → Settles (
            auto_or_error E opts req (
              auto E.http E.quality_of req.method req.headers opts.compression_level (vary E resp)))
    unfolding auto auto_or_error
    auto-Settles on fresh =
        let not_due = passed_on (vary E resp) (vary-IsPlain resp) in
        elim (Bool-cases (is_head req.method || is_options req.method)) [
          | inl h ↦ rw (h, auto) (not_due (λ c due. cc (due.has_body, h)))
          | inr h ↦ elim (Option-cases (get_preferred_encoding E.quality_of E.http req.headers)) [
            | inl p ↦ rw (h, p, auto) (not_due (λ c due. cc (due.preferred, p)))
            | inr (c, p) ↦ elim (Bool-cases (is_text_response E.http (vary E resp))) [
              | inl t ↦
                  rw (h, p, t, auto) (compress_as-Settles c on fresh h p ((has_text resp).0 t))
              | inr t ↦ rw (h, p, t, auto) (not_due (λ d due. cc ((has_text resp).1 due.text, t)))
            ]
          ]
        ]

    post_process_on :
        opts.compression ≡ true
        → get E.http resp.headers "content-encoding" ≡ none
        → compression_post_process E opts req resp
          ≡ auto_or_error E opts req
              (auto E.http E.quality_of req.method req.headers opts.compression_level (vary E resp))
    unfolding compression_post_process
    post_process_on o e = rw (o, e) refl

    post_process_off : opts.compression ≡ false → compression_post_process E opts req resp ≡ ok resp
    unfolding compression_post_process
    post_process_off o = rw o refl

    post_process_encoded :
        (v : Str)
        → get E.http resp.headers "content-encoding" ≡ some v
        → compression_post_process E opts req resp ≡ ok resp
    unfolding compression_post_process
    post_process_encoded v e = elim (Bool-cases opts.compression) [
      | inl o ↦ rw (o, e) refl
      | inr o ↦ rw o refl
    ]

    -- Compression never fails. A response is encoded exactly if it is due, that is, compression is on,
    -- it is not encoded yet, the method has a body, its type is one of text or not declared, and the
    -- client prefers a coding that is built in: then its body goes through the encoder of that coding
    -- at the level of the settings, the coding is declared, and the length taken off. Any other
    -- response is passed on with its status, content, coding and length.
    pub compression_post_process-IsCompressed :
        (r : Response E.http) × (compression_post_process E opts req resp ≡ ok r)
        × Compresses opts req resp r
    compression_post_process-IsCompressed = elim (Bool-cases opts.compression) [
      | inr o ↦ (resp, post_process_off o, inr (plain resp, λ c due. cc (due.enabled, o)))
      | inl o ↦ elim (Option-cases (get E.http resp.headers "content-encoding")) [
        | inr (v, e) ↦
            (resp, post_process_encoded v e, inr (plain resp, λ c due. cc (due.not_encoded, e)))
        | inl e ↦ let (r, made, c) = auto-Settles o e in (r, post_process_on o e ∙ made, c)
      ]
    ]
