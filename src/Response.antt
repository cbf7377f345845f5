-- ===== src/Response.antt =====
-- src/response.rs: from a file to an HTTP response, with byte ranges. Numbers of bytes are u64: they
-- are below 2 ^ 64, and `b + 1` wraps around, as in a release build.
pub mod Ranges
pub mod Replies
use static_web_server.Common.{
  ℕ, ◌+◌, ◌-◌, ◌%◌, ◌^◌, Bytes, Bool, true, false, ◌&&◌, not, Option, none, some, List, [], ◌∷◌,
  ltb, leb, ◌==◌, if◌then◌else◌, Result, ok, err,
}
use static_web_server.Http.{
  Http, Response, Bound, unbounded, included, response, insert_header, set_status, empty,
  file_stream,
}
use static_web_server.Conditional.{ConditionalHeaders, ConditionalBody, no_body, with_body, check}
use static_web_server.Fs.Meta.{Metadata, Disk}
use static_web_server.Fs.Stream.{optimal_buf_size}

pub data RangeError : Type 0 where
  bad_range_error : RangeError

-- the end of the closure in `bytes_range`: the tests on the bounds that were computed
satisfy : ℕ → ℕ → ℕ → Result RangeError (ℕ × ℕ)
satisfy max_len start end =
    if ltb start end && leb end max_len
    then ok (start, end)
    else if ltb start end && leb start max_len
    then ok (start, max_len)
    else err bad_range_error

-- the closure in `bytes_range`
unfoldable pub one_range : ℕ → Bound × Bound → Result RangeError (ℕ × ℕ)
unfolding satisfy
one_range max_len (unbounded, unbounded) = satisfy max_len 0 max_len
one_range max_len (included a, included b) =
    if ltb b a
    then err bad_range_error
    else satisfy max_len a (if b == max_len then b else (b + 1) % 2 ^ 64)
one_range max_len (included a, unbounded) = satisfy max_len a max_len
one_range max_len (unbounded, included b) =
    if ltb max_len b then satisfy max_len 0 max_len else satisfy max_len (max_len - b) max_len

-- Only the first piece of a range is used.
unfoldable pub bytes_range : Option (List (Bound × Bound)) → ℕ → Result RangeError (ℕ × ℕ)
unfolding one_range
bytes_range none max_len = ok (0, max_len)
bytes_range (some []) max_len = err bad_range_error
bytes_range (some (r ∷ _)) max_len = one_range max_len r

module _ (H : Http) where
  -- `meta.modified().ok().filter(|&t| t != std::time::UNIX_EPOCH)`
  abbrev pub valid_time : Option H.Time → Option H.Time
  valid_time none = none
  valid_time (some t) = if not (H.is_epoch t) then some t else none

  unfoldable pub unsatisfiable : ℕ → Response H
  unsatisfiable len =
      insert_header H (set_status H (response H empty) 416) "content-range"
        (H.unsatisfied_bytes len)

  unfoldable pub with_last_modified : Response H → Option H.Time → Response H
  with_last_modified resp none = resp
  with_last_modified resp (some t) = insert_header H resp "last-modified" (H.last_modified t)

  -- the headers that every reply with a body has
  file_headers : Response H → ℕ → Bytes → Option H.Time → Response H
  file_headers resp len path modified =
      with_last_modified
        (insert_header H
          (insert_header H (insert_header H resp "content-length" (H.content_length len))
            "content-type" (H.content_type (H.mime_of_path path)))
          "accept-ranges" H.accept_ranges_bytes)
        modified

  partial_reply :
      Response H → ℕ → ℕ → ℕ → Bytes → Option H.Time → Option Bytes → Result ℕ (Response H)
  partial_reply resp start end len path modified none = ok (unsatisfiable len)
  partial_reply resp start end len path modified (some range) = ok (
      file_headers (insert_header H (set_status H resp 206) "content-range" range) (end - start)
        path modified)

  -- the closure of `response_body` on a range; `file` is the path that was opened
  ranged_reply :
      Disk H.Time → Bytes → Bytes → Metadata H.Time → Option H.Time → ℕ → ℕ → Result ℕ (Response H)
  ranged_reply D file path meta modified start end =
      if D.seek_fails file start
      then err 500
      else let resp = response H (file_stream file start (end - start) (optimal_buf_size meta)) in
        if not (end - start == meta.len)
        then partial_reply resp start end meta.len path modified
            (H.content_range start end meta.len)
        else ok (file_headers resp meta.len path modified)

  unfoldable pub reply_to_range :
      Disk H.Time
      → Bytes
      → Bytes
      → Metadata H.Time
      → Option H.Time
      → Result RangeError (ℕ × ℕ)
      → Result ℕ (Response H)
  unfolding ranged_reply partial_reply file_headers with_last_modified unsatisfiable
  reply_to_range D file path meta modified (ok (start, end)) =
      ranged_reply D file path meta modified start end
  reply_to_range D file path meta modified (err _) = ok (unsatisfiable meta.len)

  unfoldable pub reply_to :
      Disk H.Time
      → Bytes
      → Bytes
      → Metadata H.Time
      → Option H.Time
      → ConditionalBody H
      → Result ℕ (Response H)
  unfolding reply_to_range
  reply_to D file path meta modified (no_body resp) = ok resp
  reply_to D file path meta modified (with_body range) =
      reply_to_range D file path meta modified (bytes_range range meta.len)

  unfoldable pub response_body :
      Disk H.Time → Bytes → Bytes → Metadata H.Time → ConditionalHeaders H → Result ℕ (Response H)
  unfolding reply_to reply_to_range ranged_reply partial_reply file_headers with_last_modified
      unsatisfiable
  response_body D file path meta conditionals =
      let modified = valid_time meta.modified in
      reply_to D file path meta modified (check H conditionals modified)
