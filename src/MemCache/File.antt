-- ===== src/MemCache/File.antt =====
-- `MemFile` of src/mem_cache/cache.rs: a file in memory (`content` is the field `data`), and the
-- response that it makes. A seek in a
-- `std::io::Cursor` from its start cannot fail.
use static_web_server.Common.{
  ℕ, ◌-◌, Str, Bytes, not, Option, none, some, length, ◌==◌, if◌then◌else◌, Result, ok, err,
}
use static_web_server.Http.{Http, Response, response, insert_header, set_status, memory_stream}
use static_web_server.Conditional.{ConditionalBody, no_body, with_body, check, conditional_headers}
use static_web_server.Response.{RangeError, bytes_range, with_last_modified, unsatisfiable}

module _ (H : Http) where
  pub record MemFile : Type 0 where
    pub content : Bytes
    pub buf_size : ℕ
    pub content_type : H.Mime
    pub last_modified : Option H.Time

  mem_headers : MemFile → Response H → ℕ → Response H
  mem_headers m resp len =
      with_last_modified H
        (insert_header H
          (insert_header H (insert_header H resp "content-length" (H.content_length len))
            "content-type" (H.content_type m.content_type))
          "accept-ranges" H.accept_ranges_bytes)
        m.last_modified

  mem_partial : MemFile → Response H → ℕ → ℕ → Option Str → Result ℕ (Response H)
  mem_partial m resp start end none = ok (unsatisfiable H (length m.content))
  mem_partial m resp start end (some range) =
      ok (
        mem_headers m (insert_header H (set_status H resp 206) "content-range" range) (end - start))

  -- the closure on a range
  mem_ranged : MemFile → ℕ → ℕ → Result ℕ (Response H)
  mem_ranged m start end =
      let resp = response H (memory_stream m.content start (end - start) m.buf_size) in
      if not (end - start == length m.content)
      then mem_partial m resp start end (H.content_range start end (length m.content))
      else ok (mem_headers m resp (length m.content))

  unfoldable pub mem_to_range : MemFile → Result RangeError (ℕ × ℕ) → Result ℕ (Response H)
  unfolding mem_ranged mem_partial mem_headers with_last_modified unsatisfiable
  mem_to_range m (ok (start, end)) = mem_ranged m start end
  mem_to_range m (err _) = ok (unsatisfiable H (length m.content))

  unfoldable pub mem_to : MemFile → ConditionalBody H → Result ℕ (Response H)
  unfolding mem_to_range
  mem_to m (no_body resp) = ok resp
  mem_to m (with_body range) = mem_to_range m (bytes_range range (length m.content))

  -- `MemFile::response_body`
  unfoldable pub mem_response_body : MemFile → H.HeaderMap → Result ℕ (Response H)
  unfolding mem_to mem_to_range mem_ranged mem_partial mem_headers with_last_modified unsatisfiable
  mem_response_body m headers = mem_to m (check H (conditional_headers H headers) m.last_modified)
