-- ===== src/DirectoryListing/Entries/Counts.antt =====
-- What the loop over a directory lists, and how it counts.

use static_web_server.Common.{
  ok-inj, ℕ, ◌+◌, Bool, true, false, ◌≡◌, refl, ap, ◌∙◌, sym, Option, none, some, List, [], ◌∷◌,
  ◌++◌, map, filter_map, append_assoc, append-nil, ok, arith, if◌then◌else◌,
}
use static_web_server.DirectoryListing.{FileEntry, FileType, directory, file}
use static_web_server.DirectoryListing.Entries.{
  DirEntry, Dirs, DirEntryOpts, Found, shown, add_entry, after_entry, read_entries,
}

abbrev pub is_directory : FileType → Bool
is_directory directory = true
is_directory file = false

abbrev pub dirs_in : List FileEntry → ℕ
dirs_in [] = 0
dirs_in (e ∷ l) = (if is_directory e.file_type then 1 else 0) + dirs_in l

abbrev pub files_in : List FileEntry → ℕ
files_in [] = 0
files_in (e ∷ l) = (if is_directory e.file_type then 0 else 1) + files_in l

file_entries-add_entry :
    (f : Found) (entry : FileEntry) (t : FileType)
    → (add_entry f entry t).file_entries ≡ f.file_entries ++ entry ∷ []
unfolding add_entry
file_entries-add_entry f entry directory = refl
file_entries-add_entry f entry file = refl

dirs_count-add_entry :
    (f : Found) (entry : FileEntry) (t : FileType)
    → (add_entry f entry t).dirs_count ≡ f.dirs_count + (if is_directory t then 1 else 0)
unfolding add_entry
dirs_count-add_entry f entry directory = omega arith
dirs_count-add_entry f entry file = omega arith

files_count-add_entry :
    (f : Found) (entry : FileEntry) (t : FileType)
    → (add_entry f entry t).files_count ≡ f.files_count + (if is_directory t then 0 else 1)
unfolding add_entry
files_count-add_entry f entry directory = omega arith
files_count-add_entry f entry file = omega arith

module _ {Time : Type 0} (D : Dirs Time) (opt : DirEntryOpts) where
  -- Every entry was read; the listing has what is shown of them, in the order of the directory, and
  -- counts its directories and its files.
  pub record Lists (l : List (Option (DirEntry Time))) (f g : Found) : Type 0 where
    pub read : List (DirEntry Time)
    pub all_read : l ≡ map some read
    pub listed : List FileEntry
    pub listed_is : listed ≡ filter_map (shown D opt) read
    pub file_entries : g.file_entries ≡ f.file_entries ++ listed
    pub dirs_count : g.dirs_count ≡ f.dirs_count + dirs_in listed
    pub files_count : g.files_count ≡ f.files_count + files_in listed

  -- One more entry at the front of the directory.
  Lists-step :
      (e : DirEntry Time) (l : List (Option (DirEntry Time))) (f g : Found) (o : Option FileEntry)
      → shown D opt e ≡ o
      → Lists l (after_entry f o) g
      → Lists (some e ∷ l) f g
  unfolding mathlib.Core.List.filter_map
  Lists-step e l f g none is_none r = record {
    read = e ∷ r.read;
    all_read = ap (λ x. some e ∷ x) r.all_read;
    listed = r.listed;
    listed_is = rw is_none r.listed_is;
    file_entries = r.file_entries;
    dirs_count = r.dirs_count;
    files_count = r.files_count;
  }
  Lists-step e l f g (some entry) is_some r = record {
    read = e ∷ r.read;
    all_read = ap (λ x. some e ∷ x) r.all_read;
    listed = entry ∷ r.listed;
    listed_is = rw is_some (ap (λ x. entry ∷ x) r.listed_is);
    file_entries =
        r.file_entries
        ∙ ap (λ x. x ++ r.listed) (file_entries-add_entry f entry entry.file_type)
        ∙ append_assoc f.file_entries (entry ∷ []) r.listed;
    dirs_count = omega (arith, r.dirs_count, dirs_count-add_entry f entry entry.file_type);
    files_count = omega (arith, r.files_count, files_count-add_entry f entry entry.file_type);
  }

  pub read_entries-Lists :
      (l : List (Option (DirEntry Time))) (f g : Found)
      → read_entries D opt l f ≡ ok g
      → Lists l f g
  unfolding read_entries mathlib.Core.List.filter_map
  read_entries-Lists [] f g h = record {
    read = [];
    all_read = refl;
    listed = [];
    listed_is = refl;
    file_entries = ap (λ x. x.file_entries) (sym (ok-inj h)) ∙ sym (append-nil f.file_entries);
    dirs_count = omega (arith, ap (λ x. x.dirs_count) (ok-inj h));
    files_count = omega (arith, ap (λ x. x.files_count) (ok-inj h));
  }
  read_entries-Lists (none ∷ l) f g h = absurd cc
  read_entries-Lists (some e ∷ l) f g h =
      Lists-step e l f g (shown D opt e) refl
        (read_entries-Lists l (after_entry f (shown D opt e)) g h)
