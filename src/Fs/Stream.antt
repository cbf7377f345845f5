-- ===== src/Fs/Stream.antt =====
-- src/fs/stream.rs: the stream of a file's bytes, and the size of its buffer. A `read` of the reader
-- is an event that the environment chooses: it gives up to so many bytes, or fails.
pub mod Laws
use static_web_server.Common.{
  ℕ, zero, suc, Bytes, Bool, Option, none, some, List, [], ◌∷◌, length, take, drop, min, max, ◌==◌,
  if◌then◌else◌,
}
use static_web_server.Fs.Meta.{Metadata}

pub record FileStream : Type 0 where
  pub reader : Bytes
  pub buf_size : ℕ

pub data ReadEvent : Type 0 where
  gives : ℕ → ReadEvent
  fails : ReadEvent

-- `Poll<Option<Result<Bytes>>>`, which is always ready
pub data Polled : Type 0 where
  end : Polled
  chunk : Bytes → Polled
  failed : Polled

-- the bytes that one `read` into the buffer gets
abbrev pub read_count : ℕ → FileStream → ℕ
read_count most s = min most (min s.buf_size (length s.reader))

unfoldable pub poll_next : ReadEvent → FileStream → Polled × FileStream
poll_next fails s = (failed, s)
poll_next (gives most) s = if read_count most s == 0 then (end, s) else (
  chunk (take (read_count most s) s.reader),
  record s { reader = drop (read_count most s) s.reader },
)

-- what a client has after one answer, given what it gets later
abbrev pub gather : Polled → Option (List Bytes) → Option (List Bytes)
gather end later = some []
gather failed later = none
gather (chunk b) none = none
gather (chunk b) (some bs) = some (b ∷ bs)

-- The chunks that a client gets by polling until the end, with one event for each poll; `none` if
-- the stream fails, or the events run out before its end.
unfoldable pub collect : List ReadEvent → FileStream → Option (List Bytes)
collect [] s = none
collect (e ∷ es) s = gather (poll_next e s).0 (collect es (poll_next e s).1)

abbrev pub default_read_buf_size : ℕ
default_read_buf_size = 4096

module _ {Time : Type 0} where
  -- `get_block_size` on Unix
  unfoldable pub get_block_size : Metadata Time → ℕ
  get_block_size metadata = max metadata.blksize default_read_buf_size

  unfoldable pub optimal_buf_size : Metadata Time → ℕ
  unfolding get_block_size
  optimal_buf_size metadata = min (get_block_size metadata) metadata.len
