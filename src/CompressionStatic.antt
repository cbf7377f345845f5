-- ===== src/CompressionStatic.antt =====
-- src/compression_static.rs: the compressed file beside a file, for a client that accepts it.
pub mod Laws
use static_web_server.Common.{
  ℕ, Str, Bytes, Bool, true, false, Option, none, some, List, [], ◌∷◌, ◌++◌, if◌then◌else◌, codes,
  Result, ok, err,
}
use static_web_server.Http.{
  Http, Response, ContentCoding, brotli, compress, deflate, gzip, identity, zstd, insert_header,
}
use static_web_server.Fs.Paths.{file_name, set_file_name, is_utf8}
use static_web_server.Fs.Meta.{Metadata, Disk, try_metadata}
use static_web_server.HeadersExt.Accept.{get_encodings}

pub record CompressedFileVariant (Time : Type 0) : Type 0 where
  pub file_path : Bytes
  pub metadata : Metadata Time
  pub encoding : ContentCoding

-- the extension for a coding; the rest is skipped
abbrev pub comp_ext : ContentCoding → Option Bytes
comp_ext gzip = some (codes "gz")
comp_ext deflate = some (codes "gz")
comp_ext brotli = some (codes "br")
comp_ext zstd = some (codes "zst")
comp_ext _ = none

-- `file_path.file_name().and_then(OsStr::to_str)`
abbrev pub name_str : Bytes → Option Str
name_str path = elim (file_name path) [ none ↦ none | some n ↦ if is_utf8 n then some n else none ]

-- the name of the variant with an extension, where the path has a name
abbrev pub variant_path : Bytes → ContentCoding → Option Bytes
variant_path path encoding = elim (comp_ext encoding) [
  | none ↦ none
  | some ext ↦ elim (name_str path) [
    | none ↦ none
    | some name ↦ some (set_file_name path (name ++ b'.' ∷ ext))
  ]
]

module _ {Time : Type 0} (D : Disk Time) (path : Bytes) where
  -- one round of the loop of `precompressed_variant`
  try_encoding : ContentCoding → Option (CompressedFileVariant Time)
  try_encoding encoding = elim (variant_path path encoding) [
    | none ↦ none
    | some file_path ↦ elim (try_metadata D file_path) [
      | err _ ↦ none
      | ok (metadata, is_dir) ↦
          if is_dir
          then none
          else some (record { file_path = file_path; metadata = metadata; encoding = encoding })
    ]
  ]

  unfoldable pub first_variant : List ContentCoding → Option (CompressedFileVariant Time)
  unfolding try_encoding
  first_variant [] = none
  first_variant (encoding ∷ later) =
      let rest = first_variant later in
      elim (try_encoding encoding) [ some v ↦ some v | none ↦ rest ]

module _ (quality_of : Str → Option ℕ) (H : Http) where
  unfoldable pub precompressed_variant :
      Disk H.Time → Bytes → H.HeaderMap → Option (CompressedFileVariant H.Time)
  precompressed_variant D path headers = first_variant D path (get_encodings quality_of H headers)

-- `post_process`: the `Vary` header, if the feature is enabled
module _ (H : Http) where
  unfoldable pub add_vary : Bool → Response H → Response H
  add_vary compression_static resp =
      if compression_static then insert_header H resp "vary" (codes "accept-encoding") else resp
