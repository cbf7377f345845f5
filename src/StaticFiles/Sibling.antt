-- ===== src/StaticFiles/Sibling.antt =====
-- The file beside a directory whose name has the suffix `.html`.
use static_web_server.Common.{
  ℕ, Str, Bytes, true, false, ◌&&◌, ◌≡◌, Option, none, some, List, [], ◌∷◌, ◌≢◌, ap, sym, ◌∙◌, ◌++◌,
  codes, ok, arith,
}
use static_web_server.Http.{Http}
use static_web_server.Fs.Paths.{Component, normal, components, push, pop, file_name, set_file_name}
use static_web_server.Fs.Paths.Laws.{IsName, components-push}
use static_web_server.Fs.Paths.Siblings.{
  child, file_name-child, push-child, pop-push-child, set_file_name-child, html-IsName,
}
use static_web_server.Fs.Meta.{Metadata, Disk, try_metadata, try_metadata_with_html_suffix}
use static_web_server.StaticFiles.{
  LookupOpts, variant_or, next_index, index_loop, dir_result, dir_metadata,
  get_composed_file_metadata,
}

beside_popped :
    (quality_of : Str → Option ℕ) (H : Http) (D : Disk H.Time) (opts : LookupOpts H)
    (path index name : Bytes) (indexes : List Bytes) (md m : Metadata H.Time)
    → opts.compression_static ≡ false
    → opts.index_files ≡ index ∷ indexes
    → (opts.disable_symlinks && D.is_symlink path) ≡ false
    → D.metadata path ≡ some md
    → md.is_dir ≡ true
    → D.metadata (push path index) ≡ none
    → file_name (pop (push path index)) ≡ some name
    → D.metadata (set_file_name (pop (push path index)) (name ++ codes ".html")) ≡ some m
    → get_composed_file_metadata quality_of H D opts path
      ≡ ok (record {
        file_path = set_file_name (pop (push path index)) (name ++ codes ".html");
        metadata = m;
        is_dir = true;
        precompressed_variant = none;
      })
unfolding get_composed_file_metadata dir_metadata dir_result index_loop next_index variant_or
    try_metadata try_metadata_with_html_suffix
beside_popped quality_of H D opts path index name indexes md m plain files direct found dir missing
      named beside =
    ground arith

-- Nothing is behind `p` in `q`.
abbrev pub IsOutside : Bytes → Bytes → Type 0
IsOutside p q = (rest : List Component) → components q ≢ (components p ++ rest)

name_ne_html : (n : Bytes) → n ≢ (n ++ codes ".html")
name_ne_html [] e = cc
name_ne_html (x ∷ n) e = name_ne_html n cc

last_ne :
    (l rest : List Component) (m n : Bytes)
    → m ≢ n
    → (l ++ normal n ∷ []) ≢ ((l ++ normal m ∷ []) ++ rest)
last_ne [] rest m n h e = h cc
last_ne (x ∷ l) rest m n h e = last_ne l rest m n h cc

components-child :
    (above dir n : Bytes)
    → IsName dir
    → IsName n
    → components (child (child above dir) n) ≡ components (child above dir) ++ normal n ∷ []
components-child above dir n named_dir named =
    ap components (sym (push-child above dir n named_dir named))
    ∙ components-push (child above dir) n named

sibling-IsOutside :
    (above dir name : Bytes)
    → IsName dir
    → IsName name
    → IsOutside (child (child above dir) name) (child (child above dir) (name ++ codes ".html"))
sibling-IsOutside above dir name named_dir named rest e =
    last_ne (components (child above dir)) rest name (name ++ codes ".html") (name_ne_html name) (
      sym (components-child above dir (name ++ codes ".html") named_dir (html-IsName name named))
      ∙ e
      ∙ ap (λ l. l ++ rest) (components-child above dir name named_dir named))

-- A directory is asked for, without static compression, that has no file of the first index name. If
-- there is a file beside the directory, in its parent, of the directory's name with `.html`
-- behind it, then that file is found, with no later index name tried. It is outside of the
-- directory; so for the root directory of the server it is outside of the root.
pub get_composed_file_metadata_sibling :
    (quality_of : Str → Option ℕ) (H : Http) (D : Disk H.Time) (opts : LookupOpts H)
    (above dir name index : Bytes) (indexes : List Bytes) (md m : Metadata H.Time)
    → IsName dir
    → IsName name
    → IsName index
    → opts.compression_static ≡ false
    → opts.index_files ≡ index ∷ indexes
    → (opts.disable_symlinks && D.is_symlink (child (child above dir) name)) ≡ false
    → D.metadata (child (child above dir) name) ≡ some md
    → md.is_dir ≡ true
    → D.metadata (child (child (child above dir) name) index) ≡ none
    → D.metadata (child (child above dir) (name ++ codes ".html")) ≡ some m
    → (get_composed_file_metadata quality_of H D opts (child (child above dir) name)
        ≡ ok (record {
          file_path = child (child above dir) (name ++ codes ".html");
          metadata = m;
          is_dir = true;
          precompressed_variant = none;
        }))
      × IsOutside (child (child above dir) name) (child (child above dir) (name ++ codes ".html"))
get_composed_file_metadata_sibling quality_of H D opts above dir name index indexes md m named_dir
      named named_index plain files direct found is_dir missing beside =
    let path : Bytes = child (child above dir) name in
    let popped : pop (push path index) ≡ path =
      pop-push-child (child above dir) name index named named_index in
    let set : set_file_name (pop (push path index)) (name ++ codes ".html")
        ≡ child (child above dir) (name ++ codes ".html") =
      ap (λ p. set_file_name p (name ++ codes ".html")) popped
      ∙ set_file_name-child above dir name (name ++ codes ".html") named_dir named
          (html-IsName name named) in
    (
      beside_popped quality_of H D opts path index name indexes md m plain files direct found is_dir
            (ap D.metadata (push-child (child above dir) name index named named_index) ∙ missing)
            (ap file_name popped ∙ file_name-child (child above dir) name named)
            (ap D.metadata set ∙ beside)
          ∙ ap
              (λ p. ok (record {
                file_path = p;
                metadata = m;
                is_dir = true;
                precompressed_variant = none;
              }))
              set,
      sibling-IsOutside above dir name named_dir named,
    )
