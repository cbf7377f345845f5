-- ===== src/MemCache/Stream/Whole.antt =====
-- Only whole files are stored: what a stream keeps is what it has read, of a part of a file.
use mathlib.Core.Path.{subst}
use static_web_server.Common.{
  some-inj, ℕ, zero, suc, ◌≡◌, refl, ap, sym, ◌∙◌, ◌≤◌, ◌+◌, inl, inr, Bytes, Option, none, some,
  [], ◌∷◌, ◌++◌, ◌==◌, ==_iff, take, drop, length, length-append, append_assoc, append-nil, arith,
  Str, Bool-cases,
}
use static_web_server.Http.{Http}
use static_web_server.Fs.Stream.{ReadEvent, gives, fails, read_count}
use static_web_server.Fs.Stream.Laws.{take-append-drop, length-take, length-drop, nil_of_length}
use static_web_server.MemCache.{Cache}
use static_web_server.MemCache.File.{MemFile}
use static_web_server.MemCache.Stream.{
  BytesMut, MemFileTempOpts, MemCacheFileStream, mem_file, keep_full, keep_chunk, poll_mem, put,
}

-- A part of a list that is as long as the list is the list.
whole_part :
    (start n : ℕ) (c : Bytes)
    → length c ≤ length (take n (drop start c))
    → take n (drop start c) ≡ c
whole_part zero zero [] h = refl
whole_part zero zero (x ∷ c) h = absurd (omega arith)
whole_part zero (suc n) [] h = refl
whole_part zero (suc n) (x ∷ c) h = ap (◌∷◌ x) (whole_part zero n c (omega arith))
whole_part (suc start) zero [] h = refl
whole_part (suc start) (suc n) [] h = refl
whole_part (suc start) n (x ∷ c) h =
    absurd (omega (arith, h, length-take n (drop start c), length-drop start c))

-- What is kept, and what is still to be read, are a part of the content; the buffer has room for the
-- content.
pub record KeepsPart (content : Bytes) (b : BytesMut) (reader : Bytes) : Type 0 where
  pub start : ℕ
  pub n : ℕ
  pub part : b.contents ++ reader ≡ take n (drop start content)
  pub room : length content ≤ b.capacity

-- A full buffer holds the whole content.
full-whole :
    (content : Bytes) (b : BytesMut) (reader : Bytes)
    → KeepsPart content b reader
    → length b.contents ≡ b.capacity
    → b.contents ≡ content
full-whole content b reader k full =
    let part = take k.n (drop k.start content) in
    let measured : length b.contents + length reader ≡ length part =
      sym (length-append b.contents reader) ∙ ap length k.part in
    let all : part ≡ content = whole_part k.start k.n content (omega arith) in
    let same : length part ≡ length content = ap length all in
    let nil : reader ≡ [] = nil_of_length reader (omega (arith, k.room)) in
    sym (append-nil b.contents) ∙ ap (λ l. b.contents ++ l) (sym nil) ∙ k.part ∙ all

-- A chunk goes from the reader into the buffer, which does not grow.
put-KeepsPart :
    (grow : ℕ → ℕ) (content : Bytes) (b : BytesMut) (bs reader : Bytes)
    → KeepsPart content b (bs ++ reader)
    → KeepsPart content (put grow b bs) reader
unfolding put
put-KeepsPart grow content b bs reader k =
    let moved : (b.contents ++ bs) ++ reader ≡ take k.n (drop k.start content) =
      append_assoc b.contents bs reader ∙ k.part in
    record {
      start = k.start;
      n = k.n;
      part = moved;
      room = ground (
        arith,
        k.room,
        length-append (b.contents ++ bs) reader,
        ap length moved,
        length-take k.n (drop k.start content),
        length-drop k.start content,
      );
    }

module _ (H : Http) (C : Cache (MemFile H)) (grow : ℕ → ℕ) (P : Str → MemFile H → Type 0) where
  abbrev pub AllStored : C.Store → Type 0
  AllStored store = (k : Str) (m : MemFile H) → C.get store k ≡ some m → P k m

  -- The stream reads a part of some content, which is what may be stored for its path.
  pub record Reads (s : MemCacheFileStream H) : Type 0 where
    pub content : Bytes
    pub kept :
        (opts : MemFileTempOpts H) (b : BytesMut)
        → s.mem_opts ≡ some opts
        → s.mem_buf ≡ some b
        → KeepsPart content b s.stream.reader
    pub right :
        (opts : MemFileTempOpts H)
        → s.mem_opts ≡ some opts
        → P opts.file_path (mem_file H opts content s.stream.buf_size)

  AllStored-insert :
      (store : C.Store) (k : Str) (m : MemFile H)
      → AllStored store
      → P k m
      → AllStored (C.insert store k m)
  AllStored-insert store k m all p j w e = elim (C.get-insert store k m j w e) [
    | inl (same, eq) ↦ subst (λ i. P i w) same (subst (P k) eq p)
    | inr older ↦ all j w older
  ]

  keep_full-Reads :
      (s : MemCacheFileStream H) (opts : MemFileTempOpts H) (content : Bytes) (b : BytesMut)
      (store : C.Store)
      → KeepsPart content b s.stream.reader
      → s.mem_opts ≡ some opts
      → ((o : MemFileTempOpts H)
          → s.mem_opts ≡ some o
          → P o.file_path (mem_file H o content s.stream.buf_size))
      → AllStored store
      → let (s', store') = keep_full H C grow s opts b store in Reads s' × AllStored store'
  unfolding keep_full
  keep_full-Reads s opts content b store k has right all =
      elim (Bool-cases (length b.contents == b.capacity)) [
        | inl full ↦ rw full (
          record { content = content; kept = λ o b' _ e. cc; right = right },
          AllStored-insert store opts.file_path (mem_file H opts b.contents s.stream.buf_size) all (
              subst (λ c. P opts.file_path (mem_file H opts c s.stream.buf_size))
                (sym (full-whole content b s.stream.reader k ((==_iff _ _).0 full)))
                (right opts has)),
        )
        | inr room ↦ rw room (
          record {
            content = content;
            kept = λ o b' _ e. subst (λ x. KeepsPart content x s.stream.reader) (some-inj e) k;
            right = right;
          },
          all,
        )
      ]

  -- `old` is the reader before the chunk.
  keep_chunk-Reads :
      (s : MemCacheFileStream H) (content bs old : Bytes) (opts : Option (MemFileTempOpts H))
      (buf : Option BytesMut) (store : C.Store)
      → bs ++ s.stream.reader ≡ old
      → s.mem_opts ≡ opts
      → s.mem_buf ≡ buf
      → ((o : MemFileTempOpts H) (b : BytesMut)
          → opts ≡ some o
          → buf ≡ some b
          → KeepsPart content b old)
      → ((o : MemFileTempOpts H)
          → s.mem_opts ≡ some o
          → P o.file_path (mem_file H o content s.stream.buf_size))
      → AllStored store
      → let (s', store') = keep_chunk H C grow s opts buf bs store in Reads s' × AllStored store'
  unfolding keep_chunk
  keep_chunk-Reads s content bs old none buf store split has has_buf kept right all =
      (record { content = content; kept = λ o b e _. absurd cc; right = right }, all)
  keep_chunk-Reads s content bs old (some opts) none store split has has_buf kept right all =
      (record { content = content; kept = λ o b _ e. absurd cc; right = right }, all)
  keep_chunk-Reads s content bs old (some opts) (some b) store split has has_buf kept right all =
      keep_full-Reads s opts content (put grow b bs) store
        (put-KeepsPart grow content b bs s.stream.reader
          (subst (λ r. KeepsPart content b r) (sym split) (kept opts b refl refl)))
        has right all

  -- A poll keeps both: what is stored was right for its path before, or is the whole content that the
  -- stream reads.
  pub poll_mem-Reads :
      (e : ReadEvent) (s : MemCacheFileStream H) (store : C.Store)
      → Reads s
      → AllStored store
      → let (polled, (s', store')) = poll_mem H C grow e s store in Reads s' × AllStored store'
  unfolding poll_mem
  poll_mem-Reads fails s store r all = (r, all)
  poll_mem-Reads (gives most) s store r all = elim (Bool-cases (read_count most s.stream == 0)) [
    | inl none_read ↦ rw none_read (r, all)
    | inr read ↦
        let n = read_count most s.stream in
        rw read (
          keep_chunk-Reads
            (record s { stream = record (s.stream) { reader = drop n s.stream.reader } }) r.content
            (take n s.stream.reader) s.stream.reader s.mem_opts s.mem_buf store
            (take-append-drop n s.stream.reader) refl refl r.kept r.right all)
  ]
