-- ===== src/StaticFiles.antt =====
-- src/static_files.rs: from a request path to the file, its index or its precompressed variant, and
-- the response. `Cached` is the handler of a build with the in-memory cache.
mod Options
mod Lookup
pub mod Guards
pub mod Html
pub mod Indexes
pub mod Located
pub mod Sibling
pub mod Cached
pub use Options.*
pub use Lookup.{LookupOpts, IndexResult, early, index_found, index_missing}
unfoldable pub use Lookup.{
  default_index_files, variant_or, next_index, index_loop, used_index_files, last_index, dir_result,
  dir_metadata, file_metadata, missing_metadata, get_composed_file_metadata,
}
use static_web_server.Common.{
  ℕ, Str, Bytes, Bool, true, false, not, ◌&&◌, Option, none, some, List, [], ◌∷◌, ◌++◌,
  if◌then◌else◌, Result, ok, err, ◌>>=◌, ends_with, codes, get_or,
}
use static_web_server.Http.{
  Http, Response, Method, http_supported_methods, is_allowed, is_options, response, insert_header,
  remove_header, set_status, empty, ContentCoding,
}
use static_web_server.HeadersExt.Coding.{as_str}
use static_web_server.Fs.Sanitize.{sanitize_path, is_hidden}
use static_web_server.Fs.Meta.{
  Metadata, FileMetadata, Disk, ErrorKind, not_found, permission_denied, other_error,
}
use static_web_server.Conditional.{conditional_headers}
use static_web_server.Response.{response_body}

-- the status for an error of `File::open`
abbrev pub open_status : ErrorKind → ℕ
open_status not_found = 404
open_status permission_denied = 403
open_status other_error = 500

module _ (H : Http) where
  pub record StaticFileResponse : Type 0 where
    pub resp : Response H
    pub file_path : Bytes

  unfoldable pub file_reply :
      Disk H.Time → H.HeaderMap → Bytes → Metadata H.Time → Option Bytes → Result ℕ (Response H)
  file_reply D headers path meta path_precompressed =
      let file_path = get_or path_precompressed path in
      elim (D.open_error file_path) [
        | some kind ↦ err (open_status kind)
        | none ↦ response_body H D file_path path meta (conditional_headers H headers)
      ]

  abbrev pub answer : Bytes → Result ℕ (Response H) → Result ℕ StaticFileResponse
  answer file_path r = r >>= λ resp. ok (record { resp = resp; file_path = file_path })

  -- the redirect to the path with a slash behind it
  redirect_to_slash : Str → Result ℕ (Response H)
  redirect_to_slash uri_path = elim (H.from_str (uri_path ++ b'/' ∷ [])) [
    | none ↦ err 500
    | some loc ↦ ok (set_status H (insert_header H (response H empty) "location" loc) 308)
  ]

  allowed_methods : Response H
  allowed_methods =
      insert_header H
        (insert_header H (set_status H (response H empty) 204) "allow"
          (H.allow http_supported_methods))
        "accept-ranges" H.accept_ranges_bytes

  -- the reply with a precompressed file
  encoded_reply : Response H → ContentCoding → Result ℕ (Response H)
  encoded_reply resp coding =
      let plain = remove_header H resp "content-length" in
      elim (H.from_str (as_str coding)) [
        | none ↦ err 500
        | some encoding ↦ ok (insert_header H plain "content-encoding" encoding)
      ]

  file_response :
      Disk H.Time
      → H.HeaderMap
      → FileMetadata H.Time
      → Option (Bytes × ContentCoding)
      → Result ℕ (Response H)
  file_response D headers f none = file_reply D headers f.file_path f.metadata none
  file_response D headers f (some (path, coding)) =
      file_reply D headers f.file_path f.metadata (some path) >>= λ resp. encoded_reply resp coding

  -- what `handle` does once it knows the file
  unfoldable pub respond :
      HandleOpts H
      → Disk H.Time
      → (FileMetadata H.Time → Result ℕ (Response H))
      → FileMetadata H.Time
      → Result ℕ (Response H)
  unfolding redirect_to_slash allowed_methods file_response encoded_reply
  respond opts D auto_index f =
      if f.is_dir && opts.redirect_trailing_slash && not (ends_with b'/' opts.uri_path)
      then redirect_to_slash opts.uri_path
      else if is_options opts.method
      then ok allowed_methods
      else if f.is_dir && opts.dir_listing && not (is_some (D.metadata f.file_path))
      then auto_index f
      else file_response D opts.headers f f.precompressed_variant

  abbrev pub lookup_opts : HandleOpts H → LookupOpts H
  lookup_opts opts = record {
    headers = opts.headers;
    compression_static = opts.compression_static;
    index_files = opts.index_files;
    disable_symlinks = opts.disable_symlinks;
  }

  -- what `handle` does with the path of a file; `auto_index` is `directory_listing::auto_index` for
  -- the directory of the file
  abbrev pub handle_path :
      (Str → Option ℕ)
      → HandleOpts H
      → Disk H.Time
      → (FileMetadata H.Time → Result ℕ (Response H))
      → Bytes
      → Result ℕ StaticFileResponse
  handle_path quality_of opts D auto_index file_path =
      get_composed_file_metadata quality_of H D (lookup_opts opts) file_path >>= λ f.
      if opts.ignore_hidden_files && is_hidden f.file_path
      then err 404
      else answer f.file_path (respond opts D auto_index f)

  unfoldable pub handle :
      (Str → Bytes)
      → (Str → Option ℕ)
      → HandleOpts H
      → Disk H.Time
      → (FileMetadata H.Time → Result ℕ (Response H))
      → Result ℕ StaticFileResponse
  handle percent_decode quality_of opts D auto_index =
      if not (is_allowed opts.method)
      then err 405
      else sanitize_path percent_decode opts.base_path opts.uri_path >>= λ file_path.
          handle_path quality_of opts D auto_index file_path
