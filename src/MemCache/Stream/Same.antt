-- ===== src/MemCache/Stream/Same.antt =====
-- A client does not see whether a stream caches.
use static_web_server.Common.{
  ℕ, ◌≡◌, refl, Bytes, Option, none, some, List, [], ◌∷◌, ◌==◌, Bool-cases, inl, inr, arith,
}
use static_web_server.Http.{Http}
use static_web_server.Fs.Stream.{ReadEvent, gives, fails, poll_next, collect, read_count}
use static_web_server.MemCache.{Cache}
use static_web_server.MemCache.File.{MemFile}
use static_web_server.MemCache.Stream.{
  BytesMut, MemFileTempOpts, MemCacheFileStream, keep_chunk, poll_mem, collect_mem,
}

module _ (H : Http) (C : Cache (MemFile H)) (grow : ℕ → ℕ) where
  stream-keep_chunk :
      (s : MemCacheFileStream H) (opts : Option (MemFileTempOpts H)) (b : Option BytesMut)
      (bs : Bytes) (store : C.Store)
      → (keep_chunk H C grow s opts b bs store).0.stream ≡ s.stream
  unfolding keep_chunk
  stream-keep_chunk s none b bs store = refl
  stream-keep_chunk s (some opts) none bs store = refl
  stream-keep_chunk s (some opts) (some b) bs store = ground arith

  poll_mem-poll_next :
      (e : ReadEvent) (s : MemCacheFileStream H) (store : C.Store)
      → let (polled, (s', store')) = poll_mem H C grow e s store in
        (polled, s'.stream) ≡ poll_next e s.stream
  unfolding poll_mem poll_next
  poll_mem-poll_next fails s store = refl
  poll_mem-poll_next (gives most) s store = elim (Bool-cases (read_count most s.stream == 0)) [
    | inl e ↦ rw e refl
    | inr e ↦ rw (e, stream-keep_chunk) refl
  ]

  -- Whatever the reads give and whatever is stored, the client of a stream that caches gets exactly
  -- what the client of the plain stream gets.
  pub collect_mem-collect :
      (events : List ReadEvent) (s : MemCacheFileStream H) (store : C.Store)
      → (collect_mem H C grow events s store).0 ≡ collect events s.stream
  unfolding collect_mem collect
  collect_mem-collect [] s store = refl
  collect_mem-collect (e ∷ es) s store =
      rw
        (
          collect_mem-collect es (poll_mem H C grow e s store).1.0
              (poll_mem H C grow e s store).1.1,
          ← poll_mem-poll_next e s store,
        )
        refl
