-- ===== src/DirectoryListing/Page/Links.antt =====
-- The links of a page of a listing.
use mathlib.Core.List.{flat_map}
use static_web_server.Common.{
  ℕ, Str, ◌≡◌, refl, ap, ◌∙◌, sym, List, [], ◌∷◌, ◌++◌, map, codes, equal, if◌then◌else◌,
  append_assoc, append-nil, ◌⊎◌, Bool-cases, inl, inr,
}
use static_web_server.Http.{values_of}
use static_web_server.DirectoryListing.{
  FileEntry, FileType, directory, file, SortingAttr, sort_file_entries,
}
use static_web_server.DirectoryListing.Entries.{Found}
use static_web_server.DirectoryListing.Page.{
  Markup, doctype, lone, start, end, text, Writer, entry_row, head_rows, parent_row, counts, table,
  html_auto_index,
}

-- the targets of the links, in order
unfoldable pub hrefs : List Markup → List Str
hrefs [] = []
hrefs (start t attrs ∷ l) = values_of "href" attrs ++ hrefs l
hrefs (lone t attrs ∷ l) = values_of "href" attrs ++ hrefs l
hrefs (doctype ∷ l) = hrefs l
hrefs (end t ∷ l) = hrefs l
hrefs (text s ∷ l) = hrefs l

-- the links of the heads of the columns
abbrev pub sort_links : SortingAttr → List Str
sort_links a =
    (codes "?sort=" ++ a.name)
    ∷ (codes "?sort=" ++ a.last_modified)
    ∷ (codes "?sort=" ++ a.size)
    ∷ []

hrefs-append : (a b : List Markup) → hrefs (a ++ b) ≡ hrefs a ++ hrefs b
unfolding hrefs
hrefs-append [] b = refl
hrefs-append (start t attrs ∷ l) b =
    rw (hrefs-append l b) (sym (append_assoc (values_of "href" attrs) (hrefs l) (hrefs b)))
hrefs-append (lone t attrs ∷ l) b =
    rw (hrefs-append l b) (sym (append_assoc (values_of "href" attrs) (hrefs l) (hrefs b)))
hrefs-append (doctype ∷ l) b = hrefs-append l b
hrefs-append (end t ∷ l) b = hrefs-append l b
hrefs-append (text s ∷ l) b = hrefs-append l b

type_cases : (t : FileType) → (t ≡ directory) ⊎ (t ≡ file)
type_cases directory = inl refl
type_cases file = inr refl

module _ (W : Writer) where
  hrefs-entry_row :
      (e : FileEntry) → (l : List Markup) → hrefs (entry_row W e ++ l) ≡ e.uri ∷ hrefs l
  unfolding hrefs entry_row
  hrefs-entry_row e l = elim (type_cases e.file_type) [
    | inl is_dir ↦ rw is_dir refl
    | inr is_file ↦ rw is_file refl
  ]

  hrefs-rows :
      (es : List FileEntry) (l : List Markup)
      → hrefs (flat_map (entry_row W) es ++ l) ≡ map (λ e. e.uri) es ++ hrefs l
  unfolding flat_map
  hrefs-rows [] l = refl
  hrefs-rows (e ∷ es) l =
      ap hrefs (append_assoc (entry_row W e) (flat_map (entry_row W) es) l)
      ∙ hrefs-entry_row e (flat_map (entry_row W) es ++ l)
      ∙ ap (λ x. e.uri ∷ x) (hrefs-rows es l)

  -- The links of a page are, in this order: the three that sort, the one to the parent, unless the
  -- path is `/`, and that of each entry, in the order that was asked for.
  pub html_auto_index_links :
      (base_path : Str) (f : Found) (order_code : ℕ)
      → let (entries, attr) = sort_file_entries W.name_key f.file_entries order_code in
        hrefs (html_auto_index W base_path f order_code)
        ≡ sort_links attr
          ++ (if equal base_path (codes "/") then [] else codes "../" ∷ [])
          ++ map (λ e. e.uri) entries
  unfolding html_auto_index counts table head_rows parent_row hrefs
  html_auto_index_links base_path f order_code = elim (Bool-cases (equal base_path (codes "/"))) [
    | inl root ↦ rw (root, append_assoc (flat_map (entry_row W) _), hrefs-rows) (append-nil _)
    | inr below ↦ rw (below, append_assoc (flat_map (entry_row W) _), hrefs-rows) (append-nil _)
  ]
