-- ===== src/StaticFiles/Cached.antt =====
-- `handle` of src/static_files.rs with the feature `experimental`: the cache is asked before the disk.
-- The reply on a miss has the stream of the file; the stream that also keeps what it reads is that of
-- MemCache.Stream.
pub mod Plain
pub mod Same
use static_web_server.Common.{
  ℕ, Str, Bytes, Bool, not, ◌&&◌, Option, none, some, if◌then◌else◌, Result, ok, err, ends_with,
  codes,
}
use static_web_server.Http.{Http, Response, is_allowed}
use static_web_server.Fs.Paths.{push}
use static_web_server.Fs.Sanitize.{sanitize_path}
use static_web_server.Fs.Meta.{FileMetadata, Disk}
use static_web_server.StaticFiles.{HandleOpts, StaticFileResponse, answer, handle_path}
use static_web_server.MemCache.{Cache, Globals, Acquired, panics, found, not_found, get_or_acquire}
use static_web_server.MemCache.File.{MemFile}

module _ (H : Http) where
  -- what the handler comes to: it panics if the cache is on and has no store
  pub data Served : Type 0 where
    panicked : Served
    served : Result ℕ (StaticFileResponse H) → Served

  -- the path that is looked up in the cache, which the rest of the handler takes too
  unfoldable pub cached_path : HandleOpts H → Bytes → Bytes
  cached_path opts path =
      if opts.redirect_trailing_slash && ends_with b'/' opts.uri_path
      then push path (codes "index.html")
      else path

module _ (H : Http) (C : Cache (MemFile H)) where
  unfoldable pub served_or : Acquired H C → Bytes → Result ℕ (StaticFileResponse H) → Served H
  served_or panics path rest = panicked
  served_or (found r) path rest = served (answer H path r)
  served_or not_found path rest = served rest

  module _ (percent_decode : Str → Bytes) (quality_of : Str → Option ℕ)
      (path_str : Bytes → Option Str) (permit : Bool) (g : Globals H C) (opts : HandleOpts H)
      (D : Disk H.Time) (auto_index : FileMetadata H.Time → Result ℕ (Response H)) where
    unfoldable pub handle_sanitized : Result ℕ Bytes → Served H
    unfolding served_or cached_path
    handle_sanitized (err why) = served (err why)
    handle_sanitized (ok file_path) = elim g.memory_cache [
      | none ↦ served (handle_path H quality_of opts D auto_index file_path)
      | some _ ↦
          let file_path = cached_path H opts file_path in
          served_or (get_or_acquire H C path_str permit g.cache_store file_path opts.headers)
            file_path (handle_path H quality_of opts D auto_index file_path)
    ]

    -- `handle`, with the store and the options of the cache
    unfoldable pub handle_cached : Served H
    unfolding handle_sanitized
    handle_cached =
        if not (is_allowed opts.method)
        then served (err 405)
        else handle_sanitized (sanitize_path percent_decode opts.base_path opts.uri_path)
