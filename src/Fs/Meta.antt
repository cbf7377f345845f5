-- ===== src/Fs/Meta.antt =====
-- src/fs/meta.rs, and the disk that it asks. A disk is a parameter: what `std::fs` answers about each
-- path while one request is served.
use static_web_server.Common.{ℕ, Bytes, Bool, Option, none, some, ◌++◌, codes, Result, ok, err}
use static_web_server.Fs.Paths.{file_name, set_file_name}
use static_web_server.Http.{ContentCoding}

-- `std::fs::Metadata`
pub record Metadata (Time : Type 0) : Type 0 where
  pub is_dir : Bool
  pub is_file : Bool
  pub len : ℕ
  pub modified : Option Time
  pub blksize : ℕ

-- `std::io::ErrorKind`, as far as the program tells it apart
pub data ErrorKind : Type 0 where
  not_found permission_denied other_error : ErrorKind

pub record Disk (Time : Type 0) : Type 0 where
  -- `std::fs::metadata(path).ok()`
  pub metadata : Bytes → Option (Metadata Time)
  -- `Path::is_symlink`
  pub is_symlink : Bytes → Bool
  -- the error of `File::open`, if it fails
  pub open_error : Bytes → Option ErrorKind
  -- a seek in the open file fails
  pub seek_fails : Bytes → ℕ → Bool
  -- `std::fs::read(path).ok()`
  pub read : Bytes → Option Bytes

pub record FileMetadata (Time : Type 0) : Type 0 where
  pub file_path : Bytes
  pub metadata : Metadata Time
  pub is_dir : Bool
  pub precompressed_variant : Option (Bytes × ContentCoding)

module _ {Time : Type 0} where
  unfoldable pub try_metadata : Disk Time → Bytes → Result ℕ (Metadata Time × Bool)
  try_metadata D file_path = elim (D.metadata file_path) [
    | none ↦ err 404
    | some meta ↦ ok (meta, meta.is_dir)
  ]

  abbrev pub try_html : Disk Time → Bytes → Bytes → Bytes × Option (Metadata Time)
  try_html D path owned_filename = elim (try_metadata D path) [
    | ok (meta, _) ↦ (path, some meta)
    | err _ ↦ (set_file_name path owned_filename, none)
  ]

  unfoldable pub try_metadata_with_html_suffix : Disk Time → Bytes → Bytes × Option (Metadata Time)
  unfolding try_metadata
  try_metadata_with_html_suffix D path = elim (file_name path) [
    | none ↦ (path, none)
    | some filename ↦ try_html D (set_file_name path (filename ++ codes ".html")) filename
  ]
