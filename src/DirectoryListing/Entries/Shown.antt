-- ===== src/DirectoryListing/Entries/Shown.antt =====
-- What an entry that a listing shows is.
use static_web_server.Common.{
  ◌&&◌, true, false, ◌≡◌, ◌⊎◌, ◌↔◌, none, some, [], ◌∷◌, ◌++◌, starts_with, if◌then◌else◌,
}
use static_web_server.Fs.Meta.{Metadata}
use static_web_server.DirectoryListing.{FileEntry, directory}
use static_web_server.DirectoryListing.Entries.{
  DirEntry, Dirs, DirEntryOpts, percent_encode_set, link_base,
}
use static_web_server.DirectoryListing.Entries.Counts.{is_directory}

module _ {Time : Type 0} (D : Dirs Time) (opt : DirEntryOpts) where
  -- What a shown entry is: its metadata could be read, and it keeps to the options. A link to a
  -- directory ends with a slash, and only the size of a directory is left out.
  pub record IsShown (e : DirEntry Time) (entry : FileEntry) : Type 0 where
    pub meta : Metadata Time
    pub has_metadata : e.metadata ≡ some meta
    pub name : entry.name ≡ e.file_name
    pub not_hidden : (opt.ignore_hidden_files && starts_with b'.' e.file_name) ≡ false
    pub not_symlink : opt.disable_symlinks ≡ true → (meta.is_dir ≡ true) ⊎ (meta.is_file ≡ true)
    pub slash :
        entry.uri
        ≡ link_base opt.base_path (D.percent_encode percent_encode_set e.file_name)
          ++ (if is_directory entry.file_type then b'/' ∷ [] else [])
    pub size : (entry.size ≡ none) ↔ (entry.file_type ≡ directory)
