-- ===== src/Response/Replies.antt =====
-- The responses that `response_body` makes of a file.
use static_web_server.Common.{
  ◌<◌, ◌≤◌, ◌∷◌, ℕ, Str, String, name_eq, sym, ◌∙◌, ◌-◌, Bytes, false, ◌≡◌, refl, ap, Option, none,
  some, List, ◌==◌, ==_iff, if◌then◌else◌, ok, err, Bool-cases, inl, inr,
}
use mathlib.Core.Option
use static_web_server.Http.{
  Http, Response, Bound, get, insert_header, set_status, file_stream, empty, response,
}
use static_web_server.Http.Laws.{get-insert, get-new}
use static_web_server.Conditional.{ConditionalHeaders, conditional_headers, with_body, check}
use static_web_server.Conditional.Laws.{IsFailed, IsFresh, IsOutdated, check-range}
use static_web_server.Response.Ranges.{
  IsRegular, selected, selected_bounds, or_bad, bytes_range-selected,
}
use static_web_server.Fs.Meta.{Metadata, Disk}
use static_web_server.Fs.Stream.{optimal_buf_size}
use static_web_server.Response.{
  RangeError, bytes_range, valid_time, with_last_modified, file_headers, response_body,
}

module _ (H : Http) where
  -- The response carries the bytes of `file` from `s` up to `e`, and says so: 200 with no
  -- `Content-Range` for the whole file, 206 with it for a part.
  pub record Carries (file path : Bytes) (meta : Metadata H.Time) (s e : ℕ) (resp : Response H)
      : Type 0 where
    pub status : resp.status ≡ (if e - s == meta.len then 200 else 206)
    pub body : resp.body ≡ file_stream file s (e - s) (optimal_buf_size meta)
    pub content_length : get H resp.headers "content-length" ≡ some (H.content_length (e - s))
    pub content_range :
        get H resp.headers "content-range"
        ≡ (if e - s == meta.len then none else H.content_range s e meta.len)
    pub content_type :
        get H resp.headers "content-type" ≡ some (H.content_type (H.mime_of_path path))
    pub accept_ranges : get H resp.headers "accept-ranges" ≡ some H.accept_ranges_bytes
    pub last_modified :
        get H resp.headers "last-modified" ≡ Option.map H.last_modified (valid_time H meta.modified)

  kept :
      (resp : Response H) (t : Option H.Time) (k : String)
      → name_eq "last-modified" k ≡ false
      → get H (with_last_modified H resp t).headers k ≡ get H resp.headers k
  unfolding with_last_modified
  kept resp none k h = refl
  kept resp (some u) k h = get-insert H resp.headers "last-modified" _ k ∙ rw h

  stamped :
      (resp : Response H) (t : Option H.Time)
      → get H resp.headers "last-modified" ≡ none
      → get H (with_last_modified H resp t).headers "last-modified" ≡ Option.map H.last_modified t
  unfolding with_last_modified
  stamped resp none h = h
  stamped resp (some u) h = get-insert H resp.headers "last-modified" _ "last-modified"

  status-with_last_modified :
      (resp : Response H) (t : Option H.Time) → (with_last_modified H resp t).status ≡ resp.status
  unfolding with_last_modified
  status-with_last_modified resp none = refl
  status-with_last_modified resp (some u) = refl

  body-with_last_modified :
      (resp : Response H) (t : Option H.Time) → (with_last_modified H resp t).body ≡ resp.body
  unfolding with_last_modified
  body-with_last_modified resp none = refl
  body-with_last_modified resp (some u) = refl

  -- The headers of a reply, over any response that does not have them yet.
  file_headers-Carries :
      (resp : Response H) (file path : Bytes) (meta : Metadata H.Time) (s e len : ℕ)
      → resp.status ≡ (if e - s == meta.len then 200 else 206)
      → resp.body ≡ file_stream file s (e - s) (optimal_buf_size meta)
      → len ≡ e - s
      → get H resp.headers "last-modified" ≡ none
      → get H resp.headers "content-range"
        ≡ (if e - s == meta.len then none else H.content_range s e meta.len)
      → Carries file path meta s e (file_headers H resp len path (valid_time H meta.modified))
  unfolding file_headers
  file_headers-Carries resp file path meta s e len st bd same fresh cr =
      let t = valid_time H meta.modified in
      record {
        status = status-with_last_modified _ t ∙ st;
        body = body-with_last_modified _ t ∙ bd;
        content_length =
            kept _ t "content-length" refl
            ∙ simp (get-insert H) (ap (λ n. some (H.content_length n)) same);
        content_range = kept _ t "content-range" refl ∙ simp (get-insert H) cr;
        content_type = kept _ t "content-type" refl ∙ simp (get-insert H);
        accept_ranges = kept _ t "accept-ranges" refl ∙ simp (get-insert H);
        last_modified = stamped _ t (simp (get-insert H) fresh);
      }

  -- When no conditional header answers first and the range selects the bytes from `s` up to `e`, the
  -- file can be read from there, and a `Content-Range` can be written for them, the reply carries
  -- exactly these bytes.
  pub response_body-Carries :
      (D : Disk H.Time) (file path : Bytes) (meta : Metadata H.Time) (c : ConditionalHeaders H)
      (range : Option (List (Bound × Bound))) (s e : ℕ) (cr : Str)
      → check H c (valid_time H meta.modified) ≡ with_body range
      → bytes_range range meta.len ≡ ok (s, e)
      → D.seek_fails file s ≡ false
      → H.content_range s e meta.len ≡ some cr
      → (resp : Response H) × (response_body H D file path meta c ≡ ok resp)
        × Carries file path meta s e resp
  unfolding response_body
  response_body-Carries D file path meta c range s e cr checked selected seeks written =
      elim (Bool-cases (e - s == meta.len)) [
        | inl whole ↦ (
          _,
          rw (checked, selected, seeks, whole) refl,
          file_headers-Carries (response H (file_stream file s (e - s) (optimal_buf_size meta)))
              file path meta s e meta.len (rw whole) refl (sym ((==_iff _ _).0 whole))
              (get-new H "last-modified") (rw whole (get-new H "content-range")),
        )
        | inr part ↦ (
          _,
          rw (checked, selected, seeks, part, written) refl,
          file_headers-Carries
              (insert_header H
                (set_status H (response H (file_stream file s (e - s) (optimal_buf_size meta))) 206)
                "content-range" cr)
              file path meta s e (e - s) (rw part) refl refl
              (simp (get-insert H) (get-new H "last-modified"))
              (simp (get-insert H) (rw (part, written))),
        )
      ]

  response_body_refused :
      (D : Disk H.Time) (file path : Bytes) (meta : Metadata H.Time) (c : ConditionalHeaders H)
      (range : Option (List (Bound × Bound))) (why : RangeError)
      → check H c (valid_time H meta.modified) ≡ with_body range
      → bytes_range range meta.len ≡ err why
      → (resp : Response H) × (response_body H D file path meta c ≡ ok resp)
        × (resp.status ≡ 416)
        × (resp.body ≡ empty)
        × (get H resp.headers "content-range" ≡ some (H.unsatisfied_bytes meta.len))
  unfolding response_body
  response_body_refused D file path meta c range why checked refused = (
    insert_header H (set_status H (response H empty) 416) "content-range"
        (H.unsatisfied_bytes meta.len),
    rw (checked, refused) refl,
    refl,
    refl,
    simp (get-insert H),
  )

  -- The response to a piece of a range that selects these bytes, or cannot be satisfied.
  abbrev pub Serves : Bytes → Bytes → Metadata H.Time → Option (ℕ × ℕ) → Response H → Type 0
  Serves file path meta (some (s, e)) resp = Carries file path meta s e resp
  Serves file path meta none resp =
      (resp.status ≡ 416)
      × (resp.body ≡ empty)
      × (get H resp.headers "content-range" ≡ some (H.unsatisfied_bytes meta.len))

  response_body-answer :
      (D : Disk H.Time) (file path : Bytes) (meta : Metadata H.Time) (c : ConditionalHeaders H)
      (range : Option (List (Bound × Bound))) (o : Option (ℕ × ℕ))
      → check H c (valid_time H meta.modified) ≡ with_body range
      → bytes_range range meta.len ≡ or_bad o
      → ((s e : ℕ) → o ≡ some (s, e) → (s < e) × (e ≤ meta.len))
      → ((s : ℕ) → D.seek_fails file s ≡ false)
      → ((s e : ℕ) → s < e → e ≤ meta.len → (cr : Str) × (H.content_range s e meta.len ≡ some cr))
      → (resp : Response H) × (response_body H D file path meta c ≡ ok resp)
        × Serves file path meta o resp
  response_body-answer D file path meta c range none checked picked bounds seeks written =
      let (resp, made, status, body, says) =
        response_body_refused D file path meta c range _ checked picked in
      (resp, made, (status, body, says))
  response_body-answer D file path meta c range (some (s, e)) checked picked bounds seeks written =
      let (below, within) = bounds s e refl in
      let (cr, made) = written s e below within in
      response_body-Carries D file path meta c range s e cr checked picked (seeks s) made

  -- A request for a range whose conditional headers do not answer first, and whose first piece is
  -- regular, gets what RFC 9110 says: exactly the bytes that the piece selects, or, if it cannot be
  -- satisfied, a 416 with no body that tells the length of the file. The file can be sought in, and a
  -- `Content-Range` can be written for the bytes of a file that are not none.
  pub response_body-Serves :
      (D : Disk H.Time) (file path : Bytes) (meta : Metadata H.Time) (headers : H.HeaderMap)
      (r : Bound × Bound) (later : List (Bound × Bound))
      → H.range headers ≡ some (r ∷ later)
      → ¬ IsFailed H headers (valid_time H meta.modified)
      → ¬ IsFresh H headers (valid_time H meta.modified)
      → ¬ IsOutdated H headers (valid_time H meta.modified)
      → IsRegular meta.len r
      → ((s : ℕ) → D.seek_fails file s ≡ false)
      → ((s e : ℕ) → s < e → e ≤ meta.len → (cr : Str) × (H.content_range s e meta.len ≡ some cr))
      → (resp : Response H) × (response_body H D file path meta (conditional_headers H headers)
          ≡ ok resp)
        × Serves file path meta (selected meta.len r) resp
  response_body-Serves D file path meta headers r later asked nf ns no_version regular seeks
        written =
      response_body-answer D file path meta (conditional_headers H headers) (some (r ∷ later))
        (selected meta.len r)
        (check-range H headers (valid_time H meta.modified) nf ns no_version ∙ ap with_body asked)
        (bytes_range-selected meta.len r later regular) (selected_bounds meta.len r) seeks written
