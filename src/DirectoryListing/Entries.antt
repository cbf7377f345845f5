-- ===== src/DirectoryListing/Entries.antt =====
-- src/directory_listing.rs: the entries of a directory that a listing shows. What the file system
-- answers about a directory is a parameter, and so are the crate percent_encoding and the time zone
-- of the server.
pub mod Counts
pub mod Shown
use static_web_server.Common.{
  ℕ, suc, Str, Bytes, Bool, true, false, not, ◌&&◌, ◌||◌, Option, none, some, List, [], ◌∷◌, ◌++◌,
  codes, leb, ltb, ◌==◌, if◌then◌else◌, Result, ok, err, ◌>>=◌, ends_with, is_empty, starts_with,
  rsplit_once,
}
use static_web_server.Fs.Meta.{Metadata, ErrorKind}
use static_web_server.DirectoryListing.{FileEntry, FileType, directory, file}

-- `std::fs::DirEntry`; its metadata is of the entry itself, also if it is a symbolic link.
pub record DirEntry (Time : Type 0) : Type 0 where
  pub path : Bytes
  pub file_name : Bytes
  pub metadata : Option (Metadata Time)
  pub is_symlink : Bool

pub record Dirs (Time : Type 0) : Type 0 where
  -- `std::fs::read_dir(path)`; an entry that cannot be read is `none`.
  pub read_dir : Bytes → Result ErrorKind (List (Option (DirEntry Time)))
  -- `Path::canonicalize`, and `std::fs::symlink_metadata`
  pub canonicalize : Bytes → Option Bytes
  pub symlink_metadata : Bytes → Option (Metadata Time)
  -- `DateTime::<Local>::from`
  pub local_time : Time → ℕ
  -- `percent_encode(bytes, set)`
  pub percent_encode : (ℕ → Bool) → Bytes → Str

-- `PERCENT_ENCODE_SET`: what is encoded
abbrev pub percent_encode_set : ℕ → Bool
percent_encode_set c = not (
    (leb b'0' c && leb c b'9')
    || (leb b'a' c && leb c b'z')
    || (leb b'A' c && leb c b'Z')
    || c == b'_'
    || c == b'-'
    || c == b'.'
    || c == b'~')

pub data DirListFmt : Type 0 where
  html json : DirListFmt

-- `DirEntryOpts`, without the reader
pub record DirEntryOpts : Type 0 where
  pub base_path : Str
  pub uri_query : Option Str
  pub is_head : Bool
  pub order_code : ℕ
  pub content_format : DirListFmt
  pub ignore_hidden_files : Bool
  pub disable_symlinks : Bool

-- `dirs_count`, `files_count`, `file_entries`. The counts are at most the number of entries.
pub record Found : Type 0 where
  pub dirs_count : ℕ
  pub files_count : ℕ
  pub file_entries : List FileEntry

-- the path that the name of an entry is linked under
unfoldable pub link_base : Str → Str → Str
link_base base_path name_encoded =
    if not (ends_with b'/' base_path) && not (is_empty base_path)
    then elim (rsplit_once b'/' base_path) [ none ↦ base_path | some (_, parent) ↦ parent ]
      ++ b'/' ∷ name_encoded
    else name_encoded

unfoldable pub entry_uri : Str → Str → FileType → Str
unfolding link_base
entry_uri base_path name_encoded directory = link_base base_path name_encoded ++ b'/' ∷ []
entry_uri base_path name_encoded file = link_base base_path name_encoded

-- the counts go up where the type is decided, and the entry is pushed last
unfoldable pub add_entry : Found → FileEntry → FileType → Found
add_entry f entry directory = record f {
  dirs_count = suc f.dirs_count;
  file_entries = f.file_entries ++ entry ∷ [];
}
add_entry f entry file = record f {
  files_count = suc f.files_count;
  file_entries = f.file_entries ++ entry ∷ [];
}

abbrev pub after_entry : Found → Option FileEntry → Found
after_entry f none = f
after_entry f (some entry) = add_entry f entry entry.file_type

module _ {Time : Type 0} where
  abbrev of_target : Metadata Time → FileType × Option ℕ
  of_target meta = if meta.is_dir then (directory, none) else (file, some meta.len)

  -- the type and the size of an entry that is shown
  unfoldable pub entry_type :
      Dirs Time → Bool → DirEntry Time → Metadata Time → Option (FileType × Option ℕ)
  entry_type D disable_symlinks e meta =
      if meta.is_dir
      then some (directory, none)
      else if meta.is_file
      then some (file, some meta.len)
      else if not disable_symlinks && e.is_symlink
      then elim (D.canonicalize e.path) [
        | none ↦ none
        | some symlink ↦ elim (D.symlink_metadata symlink) [
          | none ↦ none
          | some symlink_meta ↦ some (of_target symlink_meta)
        ]
      ]
      else none

  abbrev pub mtime_of : Dirs Time → Option Time → Option ℕ
  mtime_of D none = none
  mtime_of D (some t) = some (D.local_time t)

  unfoldable pub file_entry :
      Dirs Time → DirEntryOpts → DirEntry Time → Metadata Time → FileType × Option ℕ → FileEntry
  file_entry D opt e meta (type, size) = record {
    name = e.file_name;
    mtime = mtime_of D meta.modified;
    size = size;
    file_type = type;
    uri = entry_uri opt.base_path (D.percent_encode percent_encode_set e.file_name) type;
  }

  -- what the loop makes of an entry: `none` is a `continue`
  unfoldable pub shown : Dirs Time → DirEntryOpts → DirEntry Time → Option FileEntry
  shown D opt e = elim e.metadata [
    | none ↦ none
    | some meta ↦
        if opt.ignore_hidden_files && starts_with b'.' e.file_name
        then none
        else elim (entry_type D opt.disable_symlinks e meta) [
          | none ↦ none
          | some type ↦ some (file_entry D opt e meta type)
        ]
  ]

  -- the loop of `read_dir_entries`, which an entry that cannot be read ends
  unfoldable pub read_entries :
      Dirs Time → DirEntryOpts → List (Option (DirEntry Time)) → Found → Result Str Found
  read_entries D opt [] f = ok f
  read_entries D opt (none ∷ l) f = err (codes "unable to read directory entry")
  read_entries D opt (some e ∷ l) f = read_entries D opt l (after_entry f (shown D opt e))
