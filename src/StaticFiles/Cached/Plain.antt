-- ===== src/StaticFiles/Cached/Plain.antt =====
-- A request for a file that is served as it is: what the handler makes of it without the cache.
use static_web_server.Common.{
  ℕ, Str, Bytes, Bool, true, false, not, ◌&&◌, ◌≡◌, refl, ap, Option, none, some, List, [], ◌∷◌,
  codes, Result, ok, ends_with, arith, Bool-cases, inl, inr,
}
use static_web_server.Http.{Http, Response, is_options}
use static_web_server.Conditional.{conditional_headers}
use static_web_server.Fs.Paths.{push}
use static_web_server.Fs.Sanitize.{is_hidden}
use static_web_server.Fs.Meta.{Metadata, FileMetadata, Disk}
use static_web_server.Response.{response_body}
use static_web_server.StaticFiles.{
  HandleOpts, answer, handle_path, respond, file_reply, file_metadata, dir_metadata, dir_result,
  index_loop, next_index, used_index_files, get_composed_file_metadata, variant_or, lookup_opts,
}
use static_web_server.StaticFiles.Html.{try_metadata-some}
use static_web_server.StaticFiles.Cached.{cached_path}

module _ (H : Http) (D : Disk H.Time) where
  -- The request is no OPTIONS request and is for a file under its own path, of which no variant is
  -- looked for, which passes the guards and can be opened and sought in.
  pub record IsPlain (opts : HandleOpts H) (path : Bytes) (meta : Metadata H.Time) : Type 0 where
    pub known : D.metadata path ≡ some meta
    pub file : meta.is_dir ≡ false
    pub direct : (opts.disable_symlinks && D.is_symlink path) ≡ false
    pub visible : (opts.ignore_hidden_files && is_hidden path) ≡ false
    pub no_variant : opts.compression_static ≡ false
    pub gets : is_options opts.method ≡ false
    pub opens : D.open_error path ≡ none
    pub seeks : (s : ℕ) → D.seek_fails path s ≡ false

  -- what the lookup gives for the file: its path, under which it is a directory's index or itself
  asked_file : Bool → Bytes → Metadata H.Time → FileMetadata H.Time
  asked_file is_dir path meta = record {
    file_path = path;
    metadata = meta;
    is_dir = is_dir;
    precompressed_variant = none;
  }

  composed_plain :
      (quality_of : Str → Option ℕ) (opts : HandleOpts H) (path : Bytes) (meta : Metadata H.Time)
      → IsPlain opts path meta
      → get_composed_file_metadata quality_of H D (lookup_opts H opts) path
        ≡ ok (asked_file false path meta)
  unfolding get_composed_file_metadata file_metadata variant_or asked_file
  composed_plain quality_of opts path meta h =
      rw
        (
          h.direct,
          get_composed_file_metadata,
          try_metadata-some H D h.known,
          h.file,
          file_metadata,
          variant_or,
          h.no_variant,
        )
        refl

  respond_plain :
      (opts : HandleOpts H) (auto_index : FileMetadata H.Time → Result ℕ (Response H))
      (is_dir : Bool) (path : Bytes) (meta : Metadata H.Time)
      → (is_dir && opts.redirect_trailing_slash && not (ends_with b'/' opts.uri_path)) ≡ false
      → IsPlain opts path meta
      → respond H opts D auto_index (asked_file is_dir path meta)
        ≡ response_body H D path path meta (conditional_headers H opts.headers)
  unfolding respond asked_file file_reply
  respond_plain opts auto_index true path meta slash h =
      rw (slash, h.gets, h.known, file_reply, h.opens)
        (elim (Bool-cases opts.dir_listing) [ inl e ↦ rw e refl | inr e ↦ rw e refl ])
  respond_plain opts auto_index false path meta slash h = rw (h.gets, file_reply, h.opens) refl

  -- Nothing is named, or `name` first.
  abbrev pub FirstIs : Bytes → List Bytes → Type 0
  FirstIs name [] = Unit
  FirstIs name (i ∷ l) = i ≡ name

  -- Which file a request for `path` is for: for the one at the path, or, if the request ends with a
  -- slash while these are redirected, for the index of the directory at the path, which has the name
  -- that is tried first.
  pub data Asks (opts : HandleOpts H) (path file : Bytes) : Type 0 where
    itself :
        (opts.redirect_trailing_slash && ends_with b'/' opts.uri_path) ≡ false
        → file ≡ path
        → Asks opts path file
    index :
        (md : Metadata H.Time)
        → (opts.redirect_trailing_slash && ends_with b'/' opts.uri_path) ≡ true
        → file ≡ push path (codes "index.html")
        → D.metadata path ≡ some md
        → md.is_dir ≡ true
        → (opts.disable_symlinks && D.is_symlink path) ≡ false
        → FirstIs (codes "index.html") opts.index_files
        → Asks opts path file

  pub cached_path-Asks :
      (opts : HandleOpts H) (path file : Bytes)
      → Asks opts path file
      → cached_path H opts path ≡ file
  unfolding cached_path
  cached_path-Asks opts path file (itself slash e) = rw (slash, e) refl
  cached_path-Asks opts path file (index md slash e known dir direct names) = rw (slash, e) refl

  used_index_files-FirstIs :
      (quality_of : Str → Option ℕ) (opts : HandleOpts H) (l : List Bytes)
      → FirstIs (codes "index.html") l
      → (others : List Bytes) × (used_index_files quality_of H D (lookup_opts H opts) l
          ≡ codes "index.html" ∷ others)
  used_index_files-FirstIs quality_of opts [] h = ([], refl)
  used_index_files-FirstIs quality_of opts (i ∷ l) h = (l, ap (λ x. x ∷ l) h)

  composed_index :
      (quality_of : Str → Option ℕ) (opts : HandleOpts H) (path : Bytes) (md meta : Metadata H.Time)
      → IsPlain opts (push path (codes "index.html")) meta
      → D.metadata path ≡ some md
      → md.is_dir ≡ true
      → (opts.disable_symlinks && D.is_symlink path) ≡ false
      → FirstIs (codes "index.html") opts.index_files
      → get_composed_file_metadata quality_of H D (lookup_opts H opts) path
        ≡ ok (asked_file true (push path (codes "index.html")) meta)
  unfolding get_composed_file_metadata dir_metadata dir_result index_loop next_index variant_or
      asked_file
  composed_index quality_of opts path md meta h known dir direct names =
      let (others, used) = used_index_files-FirstIs quality_of opts opts.index_files names in
      rw
        (
          direct,
          try_metadata-some H D known,
          dir,
          dir_metadata,
          used,
          h.no_variant,
          try_metadata-some H D h.known,
        )
        refl

  slash-kept :
      (b redirect ends : Bool) → (redirect && ends) ≡ true → (b && redirect && not ends) ≡ false
  slash-kept b redirect ends h = ground (arith, h)

  handle_path-answer :
      (quality_of : Str → Option ℕ) (opts : HandleOpts H)
      (auto_index : FileMetadata H.Time → Result ℕ (Response H)) (is_dir : Bool) (path file : Bytes)
      (meta : Metadata H.Time)
      → get_composed_file_metadata quality_of H D (lookup_opts H opts) path
        ≡ ok (asked_file is_dir file meta)
      → (is_dir && opts.redirect_trailing_slash && not (ends_with b'/' opts.uri_path)) ≡ false
      → IsPlain opts file meta
      → handle_path H quality_of opts D auto_index path
        ≡ answer H file (response_body H D file file meta (conditional_headers H opts.headers))
  unfolding asked_file
  handle_path-answer quality_of opts auto_index is_dir path file meta composed slash h =
      rw (composed, h.visible, respond_plain opts auto_index is_dir file meta slash h) refl

  pub handle_path_plain :
      (quality_of : Str → Option ℕ) (opts : HandleOpts H)
      (auto_index : FileMetadata H.Time → Result ℕ (Response H)) (path : Bytes)
      (meta : Metadata H.Time)
      → IsPlain opts path meta
      → handle_path H quality_of opts D auto_index path
        ≡ answer H path (response_body H D path path meta (conditional_headers H opts.headers))
  handle_path_plain quality_of opts auto_index path meta h =
      handle_path-answer quality_of opts auto_index false path path meta
        (composed_plain quality_of opts path meta h) refl h

  pub handle_path-Asks :
      (quality_of : Str → Option ℕ) (opts : HandleOpts H)
      (auto_index : FileMetadata H.Time → Result ℕ (Response H)) (path file : Bytes)
      (meta : Metadata H.Time)
      → Asks opts path file
      → IsPlain opts file meta
      → handle_path H quality_of opts D auto_index path
        ≡ answer H file (response_body H D file file meta (conditional_headers H opts.headers))
  handle_path-Asks quality_of opts auto_index path file meta (itself slash e) h =
      rw (← e) (handle_path_plain quality_of opts auto_index file meta h)
  handle_path-Asks quality_of opts auto_index path file meta
        (index md slash e known dir direct names) h =
      handle_path-answer quality_of opts auto_index true path file meta
        (rw e (composed_index quality_of opts path md meta (rw e at h) known dir direct names))
        (slash-kept true opts.redirect_trailing_slash (ends_with b'/' opts.uri_path) slash) h
