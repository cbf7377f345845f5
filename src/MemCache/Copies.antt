-- ===== src/MemCache/Copies.antt =====
-- The reply from a copy of a file in memory against the reply from the file.
use static_web_server.Common.{
  ℕ, Str, Bytes, false, ◌≡◌, refl, ◌⊎◌, inl, inr, sym, Option, none, some, take, drop, length, ◌-◌,
  ◌==◌, Result, ok, err, Bool-cases, Option-cases,
}
use mathlib.Core.Path.{subst}
use static_web_server.Http.{
  Http, Response, Body, file_stream, memory_stream, response, insert_header, set_status,
}
use static_web_server.Conditional.{ConditionalBody, no_body, with_body, check, conditional_headers}
use static_web_server.Fs.Meta.{Metadata, Disk}
use static_web_server.Fs.Stream.{FileStream, optimal_buf_size}
use static_web_server.Response.{
  RangeError, bytes_range, valid_time, with_last_modified, reply_to_range, reply_to, response_body,
}
use static_web_server.MemCache.File.{MemFile, mem_to_range, mem_to, mem_response_body}

-- the stream of a body, over what the disk holds
abbrev pub stream_of : {Time : Type 0} → Disk Time → Body → Option FileStream
stream_of D (file_stream path start len buf_size) = elim (D.read path) [
  | none ↦ none
  | some c ↦ some (record { reader = take len (drop start c); buf_size = buf_size })
]
stream_of D (memory_stream c start len buf_size) =
    some (record { reader = take len (drop start c); buf_size = buf_size })
stream_of D _ = none

-- The two are the same, or stream the same bytes with the same buffer.
abbrev pub SameBody : {Time : Type 0} → Disk Time → Body → Body → Type 0
SameBody D b c = (b ≡ c) ⊎ ((s : FileStream) × (stream_of D b ≡ some s) × (stream_of D c ≡ some s))

module _ (H : Http) where
  pub record SameReply (D : Disk H.Time) (r q : Response H) : Type 0 where
    pub status : r.status ≡ q.status
    pub headers : r.headers ≡ q.headers
    pub body : SameBody D r.body q.body

  -- Both answer with the same status, or with the same reply.
  abbrev pub SameAnswer : Disk H.Time → Result ℕ (Response H) → Result ℕ (Response H) → Type 0
  SameAnswer D (ok r) (ok q) = SameReply D r q
  SameAnswer D (err s) (err t) = s ≡ t
  SameAnswer D _ _ = ⊥

  -- `m` is what the file at `path` is, with the metadata `meta`.
  pub record IsCopy (D : Disk H.Time) (path : Bytes) (meta : Metadata H.Time) (m : MemFile H)
      : Type 0 where
    pub read : D.read path ≡ some m.content
    pub len : length m.content ≡ meta.len
    pub buf_size : m.buf_size ≡ optimal_buf_size meta
    pub content_type : m.content_type ≡ H.mime_of_path path
    pub last_modified : m.last_modified ≡ valid_time H meta.modified

  same_body :
      (D : Disk H.Time) (path : Bytes) (meta : Metadata H.Time) (m : MemFile H)
      → IsCopy D path meta m
      → (s n : ℕ)
      → SameBody D
          (memory_stream m.content s n m.buf_size)
          (file_stream path s n (optimal_buf_size meta))
  same_body D path meta m c s n = inr (
    record { reader = take n (drop s m.content); buf_size = m.buf_size },
    refl,
    rw (stream_of, c.read, ← c.buf_size) refl,
  )

  -- the headers of a reply with a body
  abbrev headed : Response H → ℕ → H.Mime → Option H.Time → Response H
  headed r len mime t =
      with_last_modified H
        (insert_header H
          (insert_header H (insert_header H r "content-length" (H.content_length len))
            "content-type" (H.content_type mime))
          "accept-ranges" H.accept_ranges_bytes)
        t

  headed-SameReply :
      (D : Disk H.Time) (r q : Response H) (len : ℕ) (mime : H.Mime) (t : Option H.Time)
      → r.status ≡ q.status
      → r.headers ≡ q.headers
      → SameBody D r.body q.body
      → SameReply D (headed r len mime t) (headed q len mime t)
  unfolding with_last_modified
  headed-SameReply D r q len mime none st hd bd = record {
    status = st;
    headers = rw hd refl;
    body = bd;
  }
  headed-SameReply D r q len mime (some t) st hd bd = record {
    status = st;
    headers = rw hd refl;
    body = bd;
  }

  same_refl : (D : Disk H.Time) (r : Response H) → SameReply D r r
  same_refl D r = record { status = refl; headers = refl; body = inl refl }

  abbrev partial : Body → Str → Response H
  partial b cr = insert_header H (set_status H (response H b) 206) "content-range" cr

  -- When no conditional header answers first, and the range was computed.
  same_ranged :
      (D : Disk H.Time) (path : Bytes) (meta : Metadata H.Time) (m : MemFile H)
      (range : Result RangeError (ℕ × ℕ))
      → IsCopy D path meta m
      → ((s : ℕ) → D.seek_fails path s ≡ false)
      → SameAnswer D
          (mem_to_range H m range)
          (reply_to_range H D path path meta (valid_time H meta.modified) range)
  unfolding mem_to_range reply_to_range
  same_ranged D path meta m (err why) c seeks = rw c.len (same_refl D _)
  same_ranged D path meta m (ok (start, end)) c seeks =
      elim (Bool-cases (end - start == meta.len)) [
        | inl whole ↦
            rw (seeks start, c.len, whole, c.last_modified, c.content_type)
              (headed-SameReply D
                (response H (memory_stream m.content start (end - start) m.buf_size))
                (response H (file_stream path start (end - start) (optimal_buf_size meta))) meta.len
                (H.mime_of_path path) (valid_time H meta.modified) refl refl
                (same_body D path meta m c start (end - start)))
        | inr part ↦ elim (Option-cases (H.content_range start end meta.len)) [
          | inl none_written ↦ rw (seeks start, c.len, part, none_written, c.len) (same_refl D _)
          | inr (cr, written) ↦
              rw (seeks start, c.len, part, written, c.last_modified, c.content_type)
                (headed-SameReply D
                  (partial (memory_stream m.content start (end - start) m.buf_size) cr)
                  (partial (file_stream path start (end - start) (optimal_buf_size meta)) cr)
                  (end - start) (H.mime_of_path path) (valid_time H meta.modified) refl refl
                  (same_body D path meta m c start (end - start)))
        ]
      ]

  same_conditional :
      (D : Disk H.Time) (path : Bytes) (meta : Metadata H.Time) (m : MemFile H)
      (conditional : ConditionalBody H)
      → IsCopy D path meta m
      → ((s : ℕ) → D.seek_fails path s ≡ false)
      → SameAnswer D
          (mem_to H m conditional)
          (reply_to H D path path meta (valid_time H meta.modified) conditional)
  unfolding mem_to reply_to
  same_conditional D path meta m (no_body resp) c seeks = same_refl D resp
  same_conditional D path meta m (with_body range) c seeks =
      rw c.len (same_ranged D path meta m (bytes_range range meta.len) c seeks)

  -- The reply that a copy of a file in memory makes is the reply that the file makes: the same status
  -- and headers, and a body that streams the same bytes with the same buffer, for every request.
  -- The file can be sought in.
  pub mem_response_body-SameAnswer :
      (D : Disk H.Time) (path : Bytes) (meta : Metadata H.Time) (m : MemFile H)
      (headers : H.HeaderMap)
      → IsCopy D path meta m
      → ((s : ℕ) → D.seek_fails path s ≡ false)
      → SameAnswer D
          (mem_response_body H m headers)
          (response_body H D path path meta (conditional_headers H headers))
  unfolding mem_response_body response_body
  mem_response_body-SameAnswer D path meta m headers c seeks =
      subst
        (λ t.
          SameAnswer D (mem_to H m (check H (conditional_headers H headers) t))
            (response_body H D path path meta (conditional_headers H headers)))
        (sym c.last_modified) (same_conditional D path meta m _ c seeks)
