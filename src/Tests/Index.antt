-- ===== src/Tests/Index.antt =====
-- A directory with a file, a directory, a hidden file and a symbolic link.
use static_web_server.Common.{
  ℕ, Str, Bytes, Bool, true, false, ◌≡◌, refl, Option, none, some, List, [], ◌∷◌, ◌++◌, map, codes,
  ok, err, equal, if◌then◌else◌,
}
use static_web_server.Http.{Http, Response, Method}
use static_web_server.Fs.Meta.{Metadata}
use static_web_server.DirectoryListing.{FileEntry, FileType, sort_file_entries}
use static_web_server.DirectoryListing.Entries.{
  DirEntry, Dirs, DirListFmt, Found, read_entries, shown, entry_type, entry_uri, file_entry,
  add_entry, link_base,
}
use static_web_server.DirectoryListing.Entries.Counts.{Lists, read_entries-Lists}
use static_web_server.DirectoryListing.Page.{Writer, html_auto_index}
use static_web_server.DirectoryListing.Page.Links.{hrefs, sort_links, html_auto_index_links}
use static_web_server.DirectoryListing.Index.{DirListOpts, entry_opts, auto_index}
use static_web_server.DirectoryListing.Index.Laws.{IsListing, no_entries, auto_index-IsListing}
use static_web_server.Tests.Http.{http}
use static_web_server.Tests.Disk.{file_meta, dir_meta}

abbrev pub entry : Bytes → Metadata ℕ → Bool → DirEntry ℕ
entry name meta is_symlink = record {
  path = codes "/srv/public/" ++ name;
  file_name = name;
  metadata = some meta;
  is_symlink = is_symlink;
}

abbrev pub link_meta : Metadata ℕ
link_meta = record { is_dir = false; is_file = false; len = 0; modified = none; blksize = 4096 }

abbrev pub listed : List (Option (DirEntry ℕ))
listed =
    some (entry (codes "a.txt") (file_meta 9) false)
    ∷ some (entry (codes "docs") dir_meta false)
    ∷ some (entry (codes ".git") dir_meta false)
    ∷ some (entry (codes "away") link_meta true)
    ∷ []

abbrev pub dirs : Dirs ℕ
dirs = record {
  read_dir = λ p. ok listed;
  canonicalize = λ p. some p;
  symlink_metadata = λ p. some (file_meta 4);
  local_time = λ t. t;
  percent_encode = λ set s. s;
}

abbrev pub writer : Writer
writer = record {
  write_html = λ l. codes "<html>";
  write_json = λ l. some (codes "[]");
  decode_lossy = λ s. s;
  name_text = λ s. s;
  name_key = λ s. s;
  format_utc = λ t. t ∷ [];
  format_local = λ t. t ∷ [];
  decimal = λ n. n ∷ [];
  fixed2 = λ n. n ∷ [];
}

abbrev opts : DirListOpts
opts = record {
  method = Method.get;
  current_path = codes "/";
  uri_query = none;
  filepath = codes "/srv/public/index.html";
  dir_listing_order = 6;
  dir_listing_format = DirListFmt.html;
  ignore_hidden_files = true;
  disable_symlinks = true;
}

abbrev file_a : FileEntry
file_a = record {
  name = codes "a.txt";
  mtime = some 5;
  size = some 9;
  file_type = FileType.file;
  uri = codes "a.txt";
}

abbrev dir_docs : FileEntry
dir_docs = record {
  name = codes "docs";
  mtime = some 5;
  size = none;
  file_type = FileType.directory;
  uri = codes "docs/";
}

abbrev found : Found
found = record { dirs_count = 1; files_count = 1; file_entries = file_a ∷ dir_docs ∷ [] }

-- The hidden entry and the link are left out.
found_there : read_entries dirs (entry_opts opts) listed no_entries ≡ ok found
unfolding read_entries shown entry_type entry_uri file_entry add_entry link_base entry_opts
    static_web_server.Common.starts_with static_web_server.Common.ends_with
found_there = refl

read_entries-Lists_example : Lists dirs (entry_opts opts) listed no_entries found
read_entries-Lists_example =
    read_entries-Lists dirs (entry_opts opts) listed no_entries found found_there

html_auto_index_links_example :
    hrefs (html_auto_index writer (codes "/docs/") found 6)
    ≡ sort_links (sort_file_entries writer.name_key found.file_entries 6).1
      ++ (if equal (codes "/docs/") (codes "/") then [] else codes "../" ∷ [])
      ++ map (λ e. e.uri) (sort_file_entries writer.name_key found.file_entries 6).0
html_auto_index_links_example = html_auto_index_links writer (codes "/docs/") found 6

auto_index-IsListing_example :
    (r : Response http) × (auto_index http writer (λ q. []) dirs opts ≡ ok r)
    × IsListing http false DirListFmt.html (codes "<html>") r
unfolding static_web_server.Http.is_head
auto_index-IsListing_example =
    auto_index-IsListing http writer (λ q. []) dirs opts listed found (codes "<html>") refl
      found_there refl
