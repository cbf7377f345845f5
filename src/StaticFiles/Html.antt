-- ===== src/StaticFiles/Html.antt =====
-- The file beside a path that has its name and the suffix `.html`.
use static_web_server.Common.{
  Bytes, ◌≡◌, refl, ◌∙◌, ap, none, some, ◌++◌, codes, ok, err, Option-cases, inl, inr, ◌⊎◌,
}
use static_web_server.Http.{Http}
use static_web_server.Fs.Paths.{file_name, set_file_name}
use static_web_server.Fs.Meta.{
  Metadata, Disk, try_metadata, try_html, try_metadata_with_html_suffix,
}

module _ (H : Http) (D : Disk H.Time) where
  -- `p` is the file of metadata `m` beside `q` that has its name and `.html` behind it.
  abbrev pub IsHtmlOf : Bytes → Bytes → Metadata H.Time → Type 0
  IsHtmlOf q p m =
      (name : Bytes) × (file_name q ≡ some name)
      × (p ≡ set_file_name q (name ++ codes ".html"))
      × (D.metadata p ≡ some m)

  abbrev pub HasNoHtml : Bytes → Type 0
  HasNoHtml q = (p : Bytes) (m : Metadata H.Time) → ¬ IsHtmlOf q p m

  -- the path after a file with the suffix was looked for in vain
  abbrev pub fallen_back : Bytes → Bytes
  fallen_back q = (try_metadata_with_html_suffix D q).0

  pub try_metadata-some :
      {p : Bytes} {m : Metadata H.Time}
      → D.metadata p ≡ some m
      → try_metadata D p ≡ ok (m, m.is_dir)
  unfolding try_metadata
  try_metadata-some e = rw (e, try_metadata) refl

  pub try_metadata-none : {p : Bytes} → D.metadata p ≡ none → try_metadata D p ≡ err 404
  unfolding try_metadata
  try_metadata-none e = rw (e, try_metadata) refl

  with_name :
      (q name : Bytes)
      → file_name q ≡ some name
      → try_metadata_with_html_suffix D q
        ≡ try_html D (set_file_name q (name ++ codes ".html")) name
  unfolding try_metadata_with_html_suffix
  with_name q name e = rw (e, try_metadata_with_html_suffix) refl

  without_name : (q : Bytes) → file_name q ≡ none → try_metadata_with_html_suffix D q ≡ (q, none)
  unfolding try_metadata_with_html_suffix
  without_name q e = rw (e, try_metadata_with_html_suffix) refl

  try_html-some :
      (p name : Bytes) (m : Metadata H.Time)
      → D.metadata p ≡ some m
      → try_html D p name ≡ (p, some m)
  try_html-some p name m e = rw (try_html, try_metadata-some e) refl

  try_html-none :
      (p name : Bytes) → D.metadata p ≡ none → try_html D p name ≡ (set_file_name p name, none)
  try_html-none p name e = rw (try_html, try_metadata-none e) refl

  pub html_cases :
      (q : Bytes)
      → ((m : Metadata H.Time) × IsHtmlOf q (fallen_back q) m
          × ((try_metadata_with_html_suffix D q).1 ≡ some m))
        ⊎ (HasNoHtml q × ((try_metadata_with_html_suffix D q).1 ≡ none))
  html_cases q = elim (Option-cases (file_name q)) [
    | inl e ↦ inr (λ p m h. cc, ap (λ r. r.1) (without_name q e))
    | inr (name, e) ↦ elim (Option-cases (D.metadata (set_file_name q (name ++ codes ".html")))) [
      | inl e' ↦ inr (λ p m h. cc, ap (λ r. r.1) (with_name q name e ∙ try_html-none _ _ e'))
      | inr (m, e') ↦
          let same = with_name q name e ∙ try_html-some _ _ m e' in
          inl (
            m,
            (name, e, ap (λ r. r.0) same, ap (λ r. D.metadata (r.0)) same ∙ e'),
            ap (λ r. r.1) same,
          )
    ]
  ]
