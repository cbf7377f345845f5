-- ===== src/MemCache/Stream.antt =====
-- src/mem_cache/stream.rs, and where src/response.rs makes the stream: a stream of a file that keeps
-- what it reads, and stores it when it fills its buffer. `BytesMut` is of the crate bytes:
-- `with_capacity` says how much room a new buffer gets, `grow` what a full one gets for a length.
pub mod Same
pub mod Whole
use static_web_server.Common.{
  ℕ, Str, Bytes, Option, none, some, ◌++◌, take, drop, length, ◌==◌, leb, if◌then◌else◌, List, [],
  ◌∷◌,
}
use static_web_server.Http.{Http}
use static_web_server.Fs.Stream.{
  FileStream, ReadEvent, gives, fails, Polled, end, chunk, failed, read_count, gather,
}
use static_web_server.MemCache.{Cache, MemCacheOpts}
use static_web_server.MemCache.File.{MemFile}

pub record BytesMut : Type 0 where
  pub contents : Bytes
  pub capacity : ℕ

module _ (grow : ℕ → ℕ) where
  unfoldable pub put : BytesMut → Bytes → BytesMut
  put b bs =
      let contents = b.contents ++ bs in
      record {
        contents = contents;
        capacity = if leb (length contents) b.capacity then b.capacity else grow (length contents);
      }

module _ (H : Http) where
  pub record MemFileTempOpts : Type 0 where
    pub file_path : Str
    pub content_type : H.Mime
    pub last_modified : Option H.Time

  pub record MemCacheFileStream : Type 0 where
    pub stream : FileStream
    pub mem_opts : Option MemFileTempOpts
    pub mem_buf : Option BytesMut

  -- what `poll_next` inserts when the buffer is full
  unfoldable pub mem_file : MemFileTempOpts → Bytes → ℕ → MemFile H
  mem_file opts buf_data buf_size = record {
    content = buf_data;
    buf_size = buf_size;
    content_type = opts.content_type;
    last_modified = opts.last_modified;
  }

module _ (H : Http) (C : Cache (MemFile H)) (grow : ℕ → ℕ) where
  -- the bytes of a chunk, kept and maybe stored
  unfoldable pub keep_full :
      MemCacheFileStream H → MemFileTempOpts H → BytesMut → C.Store → MemCacheFileStream H × C.Store
  keep_full s opts b store =
      if length b.contents == b.capacity
      then (
        record s { mem_buf = none },
        C.insert store opts.file_path (mem_file H opts b.contents s.stream.buf_size),
      )
      else (record s { mem_buf = some b }, store)

  unfoldable pub keep_chunk :
      MemCacheFileStream H
      → Option (MemFileTempOpts H)
      → Option BytesMut
      → Bytes
      → C.Store
      → MemCacheFileStream H × C.Store
  unfolding keep_full
  keep_chunk s (some opts) (some b) bs store = keep_full s opts (put grow b bs) store
  keep_chunk s _ _ bs store = (s, store)

  -- what follows a read: `n` bytes, which are the first of the reader
  unfoldable pub poll_mem :
      ReadEvent → MemCacheFileStream H → C.Store → Polled × (MemCacheFileStream H × C.Store)
  unfolding keep_chunk
  poll_mem fails s store = (failed, (s, store))
  poll_mem (gives most) s store =
      let n = read_count most s.stream in
      let bs = take n s.stream.reader in
      if n == 0 then (end, (s, store)) else (
        chunk bs,
        keep_chunk (record s { stream = record (s.stream) { reader = drop n s.stream.reader } })
            s.mem_opts s.mem_buf bs store,
      )

  -- What a client gets as `Fs.Stream.collect` has it, and the store at the end.
  unfoldable pub collect_mem :
      List ReadEvent → MemCacheFileStream H → C.Store → Option (List Bytes) × C.Store
  collect_mem [] s store = (none, store)
  collect_mem (e ∷ es) s store =
      let (polled, (s', store')) = poll_mem e s store in
      let (later, last) = collect_mem es s' store' in (gather polled later, last)

module _ (H : Http) where
  -- the body that src/response.rs makes, which is one of the two streams
  pub data FileBody : Type 0 where
    plain : FileStream → FileBody
    caching : MemCacheFileStream H → FileBody

  module _ (with_capacity : ℕ → ℕ) where
    caching_stream : FileStream → ℕ → Str → H.Mime → Option H.Time → MemCacheFileStream H
    caching_stream s len path_str content_type modified = record {
      stream = s;
      mem_opts =
          some (record {
            file_path = path_str;
            content_type = content_type;
            last_modified = modified;
          });
      mem_buf = some (record { contents = []; capacity = with_capacity len });
    }

    -- `path` is `path.to_str()`.
    unfoldable pub file_body :
        Option MemCacheOpts → FileStream → ℕ → Option Str → H.Mime → Option H.Time → FileBody
    unfolding caching_stream
    file_body none s len path content_type modified = plain s
    file_body (some opts) s len none content_type modified = plain s
    file_body (some opts) s len (some path_str) content_type modified =
        if leb len opts.max_file_size
        then caching (caching_stream s len path_str content_type modified)
        else plain s
