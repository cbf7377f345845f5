-- ===== src/StaticFiles/Cached/Same.antt =====
-- The handler with the cache and the handler without it.
use static_web_server.Common.{
  ℕ, Str, Bytes, true, ◌≡◌, refl, sym, ◌∙◌, Option, none, some, [], Result, ok, err, Bool-cases,
  inl, inr, ◌≤◌,
}
use static_web_server.Http.{Http, Response, is_allowed}
use static_web_server.Conditional.{conditional_headers}
use static_web_server.Fs.Sanitize.{sanitize_path}
use static_web_server.Fs.Meta.{Metadata, FileMetadata, Disk}
use static_web_server.Response.{response_body}
use static_web_server.StaticFiles.{HandleOpts, StaticFileResponse, answer, handle, handle_path}
use static_web_server.MemCache.{Cache, MemCacheOpts, Acquired, panics, found, not_found}
use static_web_server.MemCache.File.{MemFile}
use static_web_server.MemCache.Copies.{SameAnswer}
use static_web_server.MemCache.Refines.{Server, Reach, AsDisk, get_or_acquire-refines}
use static_web_server.StaticFiles.Cached.{
  Served, panicked, served, served_or, handle_sanitized, handle_cached,
}
use static_web_server.StaticFiles.Cached.Plain.{
  IsPlain, Asks, cached_path-Asks, handle_path_plain, handle_path-Asks,
}

module _ (H : Http) (D : Disk H.Time) where
  -- the same answer, for the same path
  abbrev pub SameFile : Result ℕ (StaticFileResponse H) → Result ℕ (StaticFileResponse H) → Type 0
  SameFile (ok r) (ok q) = SameAnswer H D (ok r.resp) (ok q.resp) × (r.file_path ≡ q.file_path)
  SameFile (err s) (err t) = s ≡ t
  SameFile _ _ = ⊥

  abbrev pub SameServed : Served H → Result ℕ (StaticFileResponse H) → Type 0
  SameServed panicked _ = ⊥
  SameServed (served r) q = SameFile r q

  SameFile-answer :
      (path : Bytes) (r q : Result ℕ (Response H))
      → SameAnswer H D r q
      → SameFile (answer H path r) (answer H path q)
  SameFile-answer path (ok r) (ok q) h = (h, refl)
  SameFile-answer path (err s) (err t) h = h
  SameFile-answer path (ok r) (err t) h = absurd h
  SameFile-answer path (err s) (ok q) h = absurd h

  SameFile-refl : (r : Result ℕ (StaticFileResponse H)) → SameFile r r
  SameFile-refl (ok r) = (record { status = refl; headers = refl; body = inl refl }, refl)
  SameFile-refl (err s) = refl

  module _ (C : Cache (MemFile H)) (with_capacity grow : ℕ → ℕ)
      (path_str : Bytes → Option Str) where
    served_or-SameServed :
        (path : Bytes) (meta : Metadata H.Time) (opts : HandleOpts H) (a : Acquired H C)
        (rest : Result ℕ (StaticFileResponse H))
        → AsDisk H C with_capacity grow path_str D path meta opts.headers a
        → rest
          ≡ answer H path (response_body H D path path meta (conditional_headers H opts.headers))
        → SameServed (served_or H C a path rest) rest
    unfolding served_or
    served_or-SameServed path meta opts panics rest h e = absurd h
    served_or-SameServed path meta opts not_found rest same e = SameFile-refl rest
    served_or-SameServed path meta opts (found r) rest same e = rw e (SameFile-answer path r _ same)

    module _ (roomy : (n : ℕ) → n ≤ with_capacity n)
        (path_str-inj : (p q : Bytes) (k : Str) → path_str p ≡ some k → path_str q ≡ some k → p ≡ q)
        (percent_decode : Str → Bytes) (quality_of : Str → Option ℕ)
        (auto_index : FileMetadata H.Time → Result ℕ (Response H)) where
      handle_sanitized-SameServed :
          (capacity ttl tti : ℕ) (t : Server H C with_capacity grow path_str D)
          → Reach H C with_capacity grow path_str D
              (record { store = C.build capacity ttl tti; streams = [] })
              t
          → (limit : Option MemCacheOpts) (opts : HandleOpts H) (path file : Bytes)
            (meta : Metadata H.Time)
          → Asks H D opts path file
          → IsPlain H D opts file meta
          → SameServed
              (handle_sanitized H C percent_decode quality_of path_str true
                (record { cache_store = some t.store; memory_cache = limit })
                opts
                D
                auto_index
                (ok path))
              (handle_path H quality_of opts D auto_index path)
      unfolding handle_sanitized
      handle_sanitized-SameServed capacity ttl tti t r none opts path file meta asks h =
          SameFile-refl _
      handle_sanitized-SameServed capacity ttl tti t r (some limit) opts path file meta asks h =
          let here = handle_path_plain H D quality_of opts auto_index file meta h in
          let there = handle_path-Asks H D quality_of opts auto_index path file meta asks h in
          rw (cached_path-Asks H D opts path file asks, there ∙ sym here)
            (served_or-SameServed file meta opts _ _
              (get_or_acquire-refines H C with_capacity grow path_str D roomy path_str-inj capacity
                ttl tti t r file meta opts.headers h.known h.seeks)
              here)

      -- A server with the cache answers a request for a plain file as a server without it does: with
      -- the same status and headers, and a body that streams the same bytes, whatever files were
      -- opened, whatever streams were polled and whatever entries left the cache before. `Asks` says
      -- which file is asked for, `IsPlain` what a plain file is; every file is opened under its own
      -- path and is as long as its metadata says, and a path is written in one way only.
      pub handle_cached-SameServed :
          (capacity ttl tti : ℕ) (t : Server H C with_capacity grow path_str D)
          → Reach H C with_capacity grow path_str D
              (record { store = C.build capacity ttl tti; streams = [] })
              t
          → (limit : Option MemCacheOpts) (opts : HandleOpts H) (path file : Bytes)
            (meta : Metadata H.Time)
          → sanitize_path percent_decode opts.base_path opts.uri_path ≡ ok path
          → Asks H D opts path file
          → IsPlain H D opts file meta
          → SameServed
              (handle_cached H C percent_decode quality_of path_str true
                (record { cache_store = some t.store; memory_cache = limit })
                opts
                D
                auto_index)
              (handle H percent_decode quality_of opts D auto_index)
      unfolding handle_cached handle
      handle_cached-SameServed capacity ttl tti t r limit opts path file meta is_path asks h =
          elim (Bool-cases (is_allowed opts.method)) [
            | inr e ↦ rw e refl
            | inl e ↦
                rw (e, is_path)
                  (handle_sanitized-SameServed capacity ttl tti t r limit opts path file meta asks
                    h)
          ]
