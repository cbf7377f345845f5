-- ===== src/StaticFiles/Guards.antt =====
-- What every answered request has passed.
use static_web_server.Common.{
  ℕ, Str, Bytes, true, false, ◌&&◌, ◌≡◌, Option, if◌then◌else◌, Result, ok, err, ◌>>=◌, >>=-eq-ok,
  Bool-cases, inl, inr,
}
use static_web_server.Http.{Http, Response, is_allowed}
use static_web_server.Fs.Sanitize.{sanitize_path, is_hidden}
use static_web_server.Fs.Meta.{FileMetadata, Disk}
use static_web_server.StaticFiles.{
  HandleOpts, LookupOpts, lookup_opts, get_composed_file_metadata, StaticFileResponse, handle,
}

module _ (H : Http) where
  -- The request's method is supported; the path that it names is no symbolic link, if these are
  -- disabled; the file that is served is not hidden, if hidden files are ignored.
  pub record IsGuarded (percent_decode : Str → Bytes) (opts : HandleOpts H) (D : Disk H.Time)
      (r : StaticFileResponse H) : Type 0 where
    pub allowed : is_allowed opts.method ≡ true
    pub path : Bytes
    pub sanitized : sanitize_path percent_decode opts.base_path opts.uri_path ≡ ok path
    pub direct : (opts.disable_symlinks && D.is_symlink path) ≡ false
    pub visible : (opts.ignore_hidden_files && is_hidden r.file_path) ≡ false

  not_symlink :
      (quality_of : Str → Option ℕ) (D : Disk H.Time) (opts : LookupOpts H) (path : Bytes)
      (f : FileMetadata H.Time)
      → get_composed_file_metadata quality_of H D opts path ≡ ok f
      → (opts.disable_symlinks && D.is_symlink path) ≡ false
  unfolding get_composed_file_metadata
  not_symlink quality_of D opts path f h =
      elim (Bool-cases (opts.disable_symlinks && D.is_symlink path)) [
        | inl e ↦ cc (rw (e, get_composed_file_metadata) at h)
        | inr e ↦ e
      ]

  visible_and_same :
      (opts : HandleOpts H) (path : Bytes) (answer : Result ℕ (Response H))
      (r : StaticFileResponse H)
      → (if opts.ignore_hidden_files && is_hidden path
          then err 404
          else answer >>= λ resp. ok (record { resp = resp; file_path = path }))
        ≡ ok r
      → (opts.ignore_hidden_files && is_hidden r.file_path) ≡ false
  visible_and_same opts path answer r h =
      elim (Bool-cases (opts.ignore_hidden_files && is_hidden path)) [
        | inl e ↦ cc (rw e at h)
        | inr e ↦
            let (resp, _, same) = >>=-eq-ok answer _ (rw e at h) in
            let served : path ≡ r.file_path = cc in rw (← served) e
      ]

  -- Whenever the static-file handler answers, the request has passed these guards.
  pub handle-IsGuarded :
      (percent_decode : Str → Bytes) (quality_of : Str → Option ℕ) (opts : HandleOpts H)
      (D : Disk H.Time) (auto_index : FileMetadata H.Time → Result ℕ (Response H))
      (r : StaticFileResponse H)
      → handle H percent_decode quality_of opts D auto_index ≡ ok r
      → IsGuarded percent_decode opts D r
  unfolding handle
  handle-IsGuarded percent_decode quality_of opts D auto_index r h =
      elim (Bool-cases (is_allowed opts.method)) [
        | inr e ↦ cc (rw (e, handle) at h)
        | inl e ↦
            let (path, sanitized, looked) = >>=-eq-ok _ _ (rw (e, handle) at h) in
            let (f, composed, answered) = >>=-eq-ok _ _ looked in
            record {
              allowed = e;
              path = path;
              sanitized = sanitized;
              direct = not_symlink quality_of D (lookup_opts H opts) path f composed;
              visible = visible_and_same opts f.file_path _ r answered;
            }
      ]
