-- ===== src/StaticFiles/Lookup.antt =====
-- `get_composed_file_metadata`.
use static_web_server.Common.{
  ℕ, Str, Bytes, Bool, true, false, ◌&&◌, Option, none, some, List, [], ◌∷◌, if◌then◌else◌, Result,
  ok, err, codes,
}
use static_web_server.Http.{Http}
use static_web_server.Fs.Paths.{push, pop}
use static_web_server.Fs.Meta.{
  Metadata, FileMetadata, Disk, try_metadata, try_metadata_with_html_suffix,
}
use static_web_server.CompressionStatic.{CompressedFileVariant, precompressed_variant}

abbrev pub default_index_files : List Bytes
default_index_files = codes "index.html" ∷ []

-- what the lookup takes of the options
pub record LookupOpts (H : Http) : Type 0 where
  pub headers : H.HeaderMap
  pub compression_static : Bool
  pub index_files : List Bytes
  pub disable_symlinks : Bool

-- how the loop over the index files ends: with a precompressed variant, with an index at the path,
-- or with the path as it is after the last of them
pub data IndexResult (Time : Type 0) : Type 0 where
  early : FileMetadata Time → IndexResult Time
  index_found : Bytes → Metadata Time → IndexResult Time
  index_missing : Bytes → IndexResult Time

module _ (quality_of : Str → Option ℕ) (H : Http) (D : Disk H.Time) (opts : LookupOpts H) where
  -- `FileMetadata` of a precompressed variant of `path`
  found_variant : Bytes → CompressedFileVariant H.Time → FileMetadata H.Time
  found_variant path p = record {
    file_path = path;
    metadata = p.metadata;
    is_dir = false;
    precompressed_variant = some (p.file_path, p.encoding);
  }

  -- `if _compression_static { if let Some(p) = precompressed_variant(…) { return … } }`
  unfoldable pub variant_or {ℓ} : {A : Type ℓ} → Bytes → (FileMetadata H.Time → A) → A → A
  unfolding found_variant
  variant_or path found rest =
      if opts.compression_static
      then elim (precompressed_variant quality_of H D path opts.headers) [
        | some p ↦ found (found_variant path p)
        | none ↦ rest
      ]
      else rest

  plain : Bytes → Metadata H.Time → Bool → FileMetadata H.Time
  plain path metadata is_dir = record {
    file_path = path;
    metadata = metadata;
    is_dir = is_dir;
    precompressed_variant = none;
  }

  -- one round of the loop over the index files; `later` are the rounds that follow
  unfoldable pub next_index : Bytes → Bytes → (Bytes → IndexResult H.Time) → IndexResult H.Time
  next_index path index later =
      let found = push path index in
      let (suffixed, new_meta) = try_metadata_with_html_suffix D (pop found) in
      let rest = later suffixed in
      variant_or found early (elim (try_metadata D found) [
        | ok (metadata, _) ↦ index_found found metadata
        | err _ ↦ elim new_meta [ some metadata ↦ index_found suffixed metadata | none ↦ rest ]
      ])

  unfoldable pub index_loop : Bytes → List Bytes → IndexResult H.Time
  index_loop path [] = index_missing path
  index_loop path (index ∷ indexes) = next_index path index (λ q. index_loop q indexes)

  -- `if index_files.is_empty() { index_files = DEFAULT_INDEX_FILES; }`
  abbrev pub used_index_files : List Bytes → List Bytes
  used_index_files [] = default_index_files
  used_index_files (i ∷ l) = i ∷ l

  abbrev pub last_index : List Bytes → Bytes → Bytes
  last_index [] path = path
  last_index (i ∷ []) path = push path i
  last_index (i ∷ j ∷ l) path = last_index (j ∷ l) path

  -- what follows the loop
  unfoldable pub dir_result :
      List Bytes → Metadata H.Time → IndexResult H.Time → FileMetadata H.Time
  unfolding plain
  dir_result indexes metadata (early f) = f
  dir_result indexes metadata (index_found q m) = plain q m true
  dir_result indexes metadata (index_missing q) = plain (last_index indexes q) metadata true

  -- a directory: its index, or the path of the last one
  unfoldable pub dir_metadata : Bytes → Metadata H.Time → FileMetadata H.Time
  dir_metadata path metadata =
      let indexes = used_index_files opts.index_files in
      dir_result indexes metadata (index_loop path indexes)

  -- a file
  unfoldable pub file_metadata : Bytes → Metadata H.Time → FileMetadata H.Time
  unfolding plain
  file_metadata path metadata = variant_or path (λ f. f) (plain path metadata false)

  -- no such file
  unfoldable pub missing_metadata : Bytes → ℕ → Result ℕ (FileMetadata H.Time)
  unfolding plain
  missing_metadata path why =
      let (suffixed, new_meta) = try_metadata_with_html_suffix D path in
      variant_or path ok (elim new_meta [
        | some metadata ↦ ok (plain suffixed metadata false)
        | none ↦ variant_or suffixed ok (err why)
      ])

  unfoldable pub get_composed_file_metadata : Bytes → Result ℕ (FileMetadata H.Time)
  get_composed_file_metadata path =
      if opts.disable_symlinks && D.is_symlink path then err 403 else elim (try_metadata D path) [
        | ok (metadata, is_dir) ↦
            if is_dir then ok (dir_metadata path metadata) else ok (file_metadata path metadata)
        | err why ↦ missing_metadata path why
      ]
