-- ===== src/Conditional/Laws.antt =====
-- The answer to a conditional request.
use static_web_server.Common.{true, false, ◌≡◌, refl, Option, none, some, Bool-cases, inl, inr}
use static_web_server.Http.{Http, response, set_status, empty}
use static_web_server.Conditional.{
  ConditionalBody, conditional_headers, no_body, with_body, check, check_if_range,
  check_if_modified, check_if_unmodified,
}

module _ (H : Http) where
  -- `If-Unmodified-Since` was sent, and the file has no time that passes it.
  abbrev pub IsFailed : H.HeaderMap → Option H.Time → Type 0
  IsFailed headers t =
      (since : H.HttpDate) × (H.if_unmodified_since headers ≡ some since)
      × ¬ ((time : H.Time) × (t ≡ some time) × (H.precondition_passes since time ≡ true))

  -- `If-Modified-Since` was sent, and the file has a time and was not modified since.
  abbrev pub IsFresh : H.HeaderMap → Option H.Time → Type 0
  IsFresh headers t =
      (since : H.HttpDate) × (time : H.Time) × (H.if_modified_since headers ≡ some since)
      × (t ≡ some time)
      × (H.is_modified since time ≡ false)

  -- `If-Range` was sent, and names another version than the file's.
  abbrev pub IsOutdated : H.HeaderMap → Option H.Time → Type 0
  IsOutdated headers t =
      (version : H.IfRange) × (H.if_range headers ≡ some version)
      × (H.if_range_is_modified version t ≡ true)

  -- RFC 9110, section 13.2.2: the answers in the order of precedence.
  pub data Answers (headers : H.HeaderMap) (t : Option H.Time) (b : ConditionalBody H)
      : Type 0 where
    failed :
        IsFailed headers t → b ≡ no_body (set_status H (response H empty) 412) → Answers headers t b
    fresh :
        ¬ IsFailed headers t
        → IsFresh headers t
        → b ≡ no_body (set_status H (response H empty) 304)
        → Answers headers t b
    whole :
        ¬ IsFailed headers t
        → ¬ IsFresh headers t
        → IsOutdated headers t
        → b ≡ with_body none
        → Answers headers t b
    ranged :
        ¬ IsFailed headers t
        → ¬ IsFresh headers t
        → ¬ IsOutdated headers t
        → b ≡ with_body (H.range headers)
        → Answers headers t b

  module _ (headers : H.HeaderMap) where
    range_answer :
        (t : Option H.Time) (version : Option H.IfRange)
        → H.if_range headers ≡ version
        → ¬ IsFailed headers t
        → ¬ IsFresh headers t
        → Answers headers t (check_if_range H (conditional_headers H headers) t version)
    unfolding check_if_range conditional_headers
    range_answer t none e nf ns = ranged nf ns (λ o. cc) refl
    range_answer t (some v) e nf ns = elim (Bool-cases (H.if_range_is_modified v t)) [
      | inl m ↦ rw m (whole nf ns (v, e, m) refl)
      | inr m ↦ rw m (ranged nf ns (λ o. cc) refl)
    ]

    modified_answer :
        (t : Option H.Time) (since : Option H.HttpDate)
        → H.if_modified_since headers ≡ since
        → ¬ IsFailed headers t
        → Answers headers t (check_if_modified H (conditional_headers H headers) t since)
    unfolding check_if_modified conditional_headers
    modified_answer t none e nf = range_answer t (H.if_range headers) refl nf (λ f. cc)
    modified_answer none (some since) e nf =
        range_answer none (H.if_range headers) refl nf (λ f. cc)
    modified_answer (some time) (some since) e nf = elim (Bool-cases (H.is_modified since time)) [
      | inr m ↦ rw m (fresh nf (since, time, e, refl, m) refl)
      | inl m ↦ rw m (range_answer (some time) (H.if_range headers) refl nf (λ f. cc))
    ]

    unmodified_answer :
        (t : Option H.Time) (since : Option H.HttpDate)
        → H.if_unmodified_since headers ≡ since
        → Answers headers t (check_if_unmodified H (conditional_headers H headers) t since)
    unfolding check_if_unmodified conditional_headers
    unmodified_answer t none e = modified_answer t (H.if_modified_since headers) refl (λ f. cc)
    unmodified_answer none (some since) e = failed (since, e, λ p. cc) refl
    unmodified_answer (some time) (some since) e =
        elim (Bool-cases (H.precondition_passes since time)) [
          | inr p ↦ rw p (failed (since, e, λ q. cc) refl)
          | inl p ↦ rw p (
              modified_answer (some time) (H.if_modified_since headers) refl (λ f.
                let (s, e', fails) = f in
                let same : s ≡ since = cc in fails (time, refl, rw same p)))
        ]

  -- The answer to a conditional request, by precedence: 412 if `If-Unmodified-Since` was sent and the
  -- file has no time that passes it; else 304 if `If-Modified-Since` was sent and the file has a time
  -- that is not later; both with no body and no header; else the body, whole if `If-Range` names
  -- another version, and otherwise with the range that was asked for.
  pub check-Answers :
      (headers : H.HeaderMap) (t : Option H.Time)
      → Answers headers t (check H (conditional_headers H headers) t)
  unfolding check conditional_headers
  check-Answers headers t = unmodified_answer headers t (H.if_unmodified_since headers) refl

  pub check-range :
      (headers : H.HeaderMap) (t : Option H.Time)
      → ¬ IsFailed headers t
      → ¬ IsFresh headers t
      → ¬ IsOutdated headers t
      → check H (conditional_headers H headers) t ≡ with_body (H.range headers)
  check-range headers t nf ns no_version = elim (check-Answers headers t) [
    | failed f e ↦ absurd (nf f)
    | fresh _ s e ↦ absurd (ns s)
    | whole _ _ o e ↦ absurd (no_version o)
    | ranged _ _ _ e ↦ e
  ]
