-- ===== src/Tests/Listing.antt =====
-- A listing of two entries.
use static_web_server.Common.{ℕ, Str, Bytes, Bool, ◌≡◌, refl, none, some, List, [], ◌∷◌, codes}
use static_web_server.DirectoryListing.{FileEntry, FileType, sort_file_entries, format_file_size}
use static_web_server.DirectoryListing.Order.{InOrder, count, sort_file_entries-InOrder}

abbrev entry : Bytes → ℕ → FileEntry
entry name size = record {
  name = name;
  mtime = none;
  size = some size;
  file_type = FileType.file;
  uri = name;
}

abbrev entries : List FileEntry
entries = entry (codes "b") 10 ∷ entry (codes "a") 20 ∷ []

abbrev same : Bytes → Str
same s = s

by_size_down :
    (sort_file_entries same entries 5).0 ≡ entry (codes "a") 20 ∷ entry (codes "b") 10 ∷ []
unfolding sort_file_entries static_web_server.DirectoryListing.sort_by
    static_web_server.DirectoryListing.insert_by static_web_server.DirectoryListing.option_leb
by_size_down = refl

sort_file_entries-InOrder_example :
    InOrder same entries 0 (sort_file_entries same entries 0).0
    × ((p : FileEntry → Bool) → count p (sort_file_entries same entries 0).0 ≡ count p entries)
sort_file_entries-InOrder_example = sort_file_entries-InOrder same entries 0

abbrev digit : ℕ → Str
digit n = n ∷ []
