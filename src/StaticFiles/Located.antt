-- ===== src/StaticFiles/Located.antt =====
-- Which file the lookup finds, and that the metadata belong to it.
use static_web_server.Common.{
  ℕ, Str, Bytes, true, false, ◌&&◌, ◌≡◌, Option, none, some, Result, ok, err, ◌⊎◌,
}
use static_web_server.Http.{Http}
use static_web_server.Fs.Meta.{Metadata, FileMetadata, Disk}
use static_web_server.StaticFiles.{LookupOpts, used_index_files}
use static_web_server.StaticFiles.Html.{IsHtmlOf, HasNoHtml, fallen_back}
use static_web_server.StaticFiles.Indexes.{IsFile, IsVariantAt, HasNoVariant, IsIndex}

module _ (H : Http) (D : Disk H.Time) (quality_of : Str → Option ℕ) (opts : LookupOpts H) where
  -- What the lookup of a path finds: for a directory, what `IsIndex` says of the index names; for any
  -- other file, its variant or itself; and for no file, the variant of the file that was asked for,
  -- the file of its name and `.html`, or, if there is none, a variant of the path after that.
  pub data Located (path : Bytes) (f : FileMetadata H.Time) : Type 0 where
    directory :
        (md : Metadata H.Time)
        → D.metadata path ≡ some md
        → md.is_dir ≡ true
        → IsIndex H D quality_of opts
            (used_index_files quality_of H D opts opts.index_files)
            md
            path
            (used_index_files quality_of H D opts opts.index_files)
            f
        → Located path f
    file :
        (md : Metadata H.Time)
        → D.metadata path ≡ some md
        → md.is_dir ≡ false
        → IsVariantAt H D quality_of opts path f
          ⊎ (HasNoVariant H D quality_of opts path × IsFile H D path md false f)
        → Located path f
    missing :
        D.metadata path ≡ none
        → IsVariantAt H D quality_of opts path f
          ⊎ (HasNoVariant H D quality_of opts path
              × (((p : Bytes) × (m : Metadata H.Time) × IsHtmlOf H D path p m
                    × IsFile H D p m false f)
                  ⊎ (HasNoHtml H D path
                      × IsVariantAt H D quality_of opts (fallen_back H D path) f)))
        → Located path f

  -- A lookup fails with 403 exactly for a path that is a symbolic link while these are disabled, and
  -- otherwise with 404 exactly if there is neither the file, nor one with `.html`, nor a variant.
  abbrev pub Finds : Bytes → Result ℕ (FileMetadata H.Time) → Type 0
  Finds path (ok f) = ((opts.disable_symlinks && D.is_symlink path) ≡ false) × Located path f
  Finds path (err why) =
      ((why ≡ 403) × ((opts.disable_symlinks && D.is_symlink path) ≡ true))
      ⊎ ((why ≡ 404)
          × (D.metadata path ≡ none)
          × HasNoVariant H D quality_of opts path
          × HasNoHtml H D path
          × HasNoVariant H D quality_of opts (fallen_back H D path))
