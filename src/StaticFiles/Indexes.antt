-- ===== src/StaticFiles/Indexes.antt =====
-- What the lookup makes of the names of the index files.
use static_web_server.Common.{
  ℕ, Str, Bytes, Bool, true, false, ◌≡◌, refl, ap, Option, none, some, List, [], ◌∷◌, ◌++◌, ok, err,
  Bool-cases, Option-cases, inl, inr, ◌⊎◌,
}
use static_web_server.Http.{Http}
use static_web_server.Fs.Paths.{push, pop}
use static_web_server.Fs.Meta.{
  Metadata, FileMetadata, Disk, try_metadata, try_metadata_with_html_suffix,
}
use static_web_server.CompressionStatic.{CompressedFileVariant, precompressed_variant}
use static_web_server.StaticFiles.{
  LookupOpts, IndexResult, early, index_found, variant_or, next_index, index_loop, last_index,
  dir_result,
}
use static_web_server.StaticFiles.Html.{
  IsHtmlOf, HasNoHtml, fallen_back, try_metadata-some, try_metadata-none, html_cases,
}

module _ (H : Http) (D : Disk H.Time) where
  -- the file itself at a path, with its metadata
  pub record IsFile (path : Bytes) (meta : Metadata H.Time) (is_dir : Bool)
      (f : FileMetadata H.Time) : Type 0 where
    pub path_is : f.file_path ≡ path
    pub metadata_is : f.metadata ≡ meta
    pub is_dir_is : f.is_dir ≡ is_dir
    pub no_variant : f.precompressed_variant ≡ none

  module _ (quality_of : Str → Option ℕ) (opts : LookupOpts H) where
    -- the precompressed variant of `base` for the request
    pub record IsVariantAt (base : Bytes) (f : FileMetadata H.Time) : Type 0 where
      pub variant : CompressedFileVariant H.Time
      pub enabled : opts.compression_static ≡ true
      pub found : precompressed_variant quality_of H D base opts.headers ≡ some variant
      pub path_is : f.file_path ≡ base
      pub metadata_is : f.metadata ≡ variant.metadata
      pub is_dir_is : f.is_dir ≡ false
      pub variant_is : f.precompressed_variant ≡ some (variant.file_path, variant.encoding)

    abbrev pub HasNoVariant : Bytes → Type 0
    HasNoVariant base =
        opts.compression_static ≡ true
        → precompressed_variant quality_of H D base opts.headers ≡ none

    -- The file at `at`; or, if there is none, the one beside the directory of `at` with the name of
    -- the directory and `.html`; or, if there is none either, what comes later.
    abbrev pub IsNext : Bytes → FileMetadata H.Time → Type 0 → Type 0
    IsNext at f Later =
        ((m : Metadata H.Time) × (D.metadata at ≡ some m) × IsFile at m true f)
        ⊎ ((D.metadata at ≡ none)
            × (((p : Bytes) × (m : Metadata H.Time) × IsHtmlOf H D (pop at) p m × IsFile p m true f)
                ⊎ (HasNoHtml H D (pop at) × Later)))

    -- What a directory of the metadata `md` leads to, where `names` are tried in the directory
    -- `from`: for the first name for which there is one of them, a variant of the file of this name,
    -- or what `IsNext` says; and if there is none for any name, the path of the last name, with the
    -- metadata of the directory.
    abbrev pub IsIndex :
        List Bytes → Metadata H.Time → Bytes → List Bytes → FileMetadata H.Time → Type 0
    IsIndex all md from [] f =
        (front : List Bytes) × (last : Bytes) × (all ≡ front ++ last ∷ [])
        × IsFile (push from last) md true f
    IsIndex all md from (name ∷ names) f =
        IsVariantAt (push from name) f
        ⊎ (HasNoVariant (push from name)
            × IsNext (push from name) f
                (IsIndex all md (fallen_back H D (pop (push from name))) names f))

    pub variant_or_cases {ℓ κ} :
        {A : Type ℓ} (P : A → Type κ) (p : Bytes) (found : FileMetadata H.Time → A) (rest : A)
        → ((f : FileMetadata H.Time) → IsVariantAt p f → P (found f))
        → (HasNoVariant p → P rest)
        → P (variant_or quality_of H D opts p found rest)
    unfolding variant_or
    variant_or_cases P p found rest hit miss = elim (Bool-cases opts.compression_static) [
      | inr e ↦ rw (e, variant_or) (miss (λ on. absurd cc))
      | inl e ↦ elim (Option-cases (precompressed_variant quality_of H D p opts.headers)) [
        | inl e' ↦ rw (e, e', variant_or) (miss (λ on. e'))
        | inr (v, e') ↦
            rw (e, e', variant_or)
              (hit _ (record {
                variant = v;
                enabled = e;
                found = e';
                path_is = refl;
                metadata_is = refl;
                is_dir_is = refl;
                variant_is = refl;
              }))
      ]
    ]

    last_index-push :
        (i : Bytes) (l : List Bytes) (from : Bytes)
        → (front : List Bytes) × (last : Bytes) × ((i ∷ l) ≡ front ++ last ∷ [])
          × (last_index quality_of H D opts (i ∷ l) from ≡ push from last)
    last_index-push i [] from = ([], i, refl, refl)
    last_index-push i (j ∷ l) from =
        let (front, last, e, p) = last_index-push j l from in (i ∷ front, last, ap (◌∷◌ i) e, p)

    abbrev LaterOf :
        List Bytes
        → Metadata H.Time
        → Bytes
        → (FileMetadata H.Time → Type 0)
        → IndexResult H.Time
        → Type 0
    LaterOf all md at Later r =
        let f = dir_result quality_of H D opts all md r in IsNext at f (Later f)

    -- what follows if there is no variant for a name
    next_index-IsNext :
        (i : Bytes) (l : List Bytes) (md : Metadata H.Time) (at : Bytes) (rest : IndexResult H.Time)
        (Later : FileMetadata H.Time → Type 0)
        → Later (dir_result quality_of H D opts (i ∷ l) md rest)
        → LaterOf (i ∷ l) md at Later (elim (try_metadata D at) [
          | ok (metadata, _) ↦ index_found at metadata
          | err _ ↦ elim ((try_metadata_with_html_suffix D (pop at)).1) [
            | some metadata ↦ index_found (fallen_back H D (pop at)) metadata
            | none ↦ rest
          ]
        ])
    unfolding dir_result
    next_index-IsNext i l md at rest Later later = elim (Option-cases (D.metadata at)) [
      | inr (m, e) ↦ rw (try_metadata-some H D e) (
          inl (
            m,
            e,
            record { path_is = refl; metadata_is = refl; is_dir_is = refl; no_variant = refl },
          ))
      | inl e ↦ elim (html_cases H D (pop at)) [
        | inr (no_html, e') ↦ rw (try_metadata-none H D e, e') (inr (e, inr (no_html, later)))
        | inl (m, html, e') ↦
            rw (try_metadata-none H D e, e')
              (inr (
                e,
                inl (
                  fallen_back H D (pop at),
                  m,
                  html,
                  record {
                    path_is = refl;
                    metadata_is = refl;
                    is_dir_is = refl;
                    no_variant = refl;
                  },
                ),
              ))
      ]
    ]

    pub index_loop-IsIndex :
        (i : Bytes) (l : List Bytes) (md : Metadata H.Time) (from : Bytes) (names : List Bytes)
        → IsIndex
            (i ∷ l)
            md
            from
            names
            (dir_result quality_of H D opts (i ∷ l) md (index_loop quality_of H D opts from names))
    unfolding index_loop dir_result next_index
    index_loop-IsIndex i l md from [] =
        let (front, last, e, p) = last_index-push i l from in
        (
          front,
          last,
          e,
          record { path_is = p; metadata_is = refl; is_dir_is = refl; no_variant = refl },
        )
    index_loop-IsIndex i l md from (name ∷ names) =
        variant_or_cases
          (λ r.
            IsIndex (i ∷ l) md from (name ∷ names) (dir_result quality_of H D opts (i ∷ l) md r))
          (push from name) early _ (λ f v. inl v)
          (λ no_variant. inr (
            no_variant,
            next_index-IsNext i l md (push from name)
                (index_loop quality_of H D opts (fallen_back H D (pop (push from name))) names)
                (IsIndex (i ∷ l) md (fallen_back H D (pop (push from name))) names)
                (index_loop-IsIndex i l md (fallen_back H D (pop (push from name))) names),
          ))
