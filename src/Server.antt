-- ===== src/Server.antt =====
-- src/server.rs, up to where the sockets are used: the options of the request handler, which each
-- module's `init` sets from the settings. `Path::is_relative` and `starts_with` are those of Unix.

pub mod Configured
pub mod Protected
pub mod Start
use static_web_server.Common.{
  ℕ, Str, Bytes, Bool, true, false, not, ◌&&◌, Option, none, some, List, [], ◌∷◌, map, codes, equal,
  get_or, if◌then◌else◌, Result, ok, err, ◌>>=◌, starts_with, split_on, trim,
}
use static_web_server.Env.{Env}
use static_web_server.Env.Options.{RequestHandlerOpts, CompressionLevel, Advanced}
use static_web_server.Fs.Paths.{
  Component, root_dir, cur_dir, parent_dir, prefix, normal, components, push,
}
use static_web_server.Cors.{new}
use static_web_server.DirectoryListing.Entries.{DirListFmt, html}
use static_web_server.LogAddr.{log_init}
use static_web_server.Settings.{General}
use static_web_server.Settings.Read.{Source, Settings, get_valid_dirpath}

same_component : Component → Component → Bool
same_component root_dir root_dir = true
same_component cur_dir cur_dir = true
same_component parent_dir parent_dir = true
same_component (prefix a) (prefix b) = equal a b
same_component (normal a) (normal b) = equal a b
same_component _ _ = false

starts_with_all : List Component → List Component → Bool
starts_with_all [] l = true
starts_with_all (c ∷ cs) [] = false
starts_with_all (c ∷ cs) (d ∷ l) = same_component c d && starts_with_all cs l

-- `path.starts_with(base)`
unfoldable pub path_starts_with : Bytes → Bytes → Bool
unfolding starts_with_all same_component
path_starts_with path base = starts_with_all (components base) (components path)

-- a page's path, which is joined to the root if it is relative and not there yet
unfoldable pub page_path : Bytes → Bytes → Bytes
page_path root page =
    if not (starts_with b'/' page) && not (path_starts_with page root) then push root page else page

abbrev is_nil : {A : Type 0} → List A → Bool
is_nil [] = true
is_nil (_ ∷ _) = false

module _ (E : Env) where
  -- `RequestHandlerOpts::default`
  unfoldable pub default_opts : RequestHandlerOpts E
  default_opts = record {
    root_dir = codes "./public";
    compression = true;
    compression_level = CompressionLevel.default;
    compression_static = false;
    dir_listing = false;
    dir_listing_order = 6;
    dir_listing_format = html;
    cors = none;
    security_headers = false;
    cache_control_headers = true;
    page404 = codes "./404.html";
    page50x = codes "./50x.html";
    page_fallback = [];
    basic_auth = [];
    index_files = codes "index.html" ∷ [];
    log_remote_address = false;
    log_forwarded_for = false;
    trusted_proxies = [];
    redirect_trailing_slash = true;
    ignore_hidden_files = false;
    disable_symlinks = false;
    health = false;
    maintenance_mode = false;
    maintenance_mode_status = 503;
    maintenance_mode_file = [];
    advanced_opts = none;
  }

  -- the `init` functions of the modules
  unfoldable pub listing_init : Bool → ℕ → DirListFmt → RequestHandlerOpts E → RequestHandlerOpts E
  listing_init enabled order format opts = record opts {
    dir_listing = enabled;
    dir_listing_order = order;
    dir_listing_format = format;
  }

  unfoldable pub fallback_init : Source E → Bytes → RequestHandlerOpts E → RequestHandlerOpts E
  fallback_init S path opts = record opts { page_fallback = get_or (S.read path) [] }

  unfoldable pub health_init : Bool → RequestHandlerOpts E → RequestHandlerOpts E
  health_init enabled opts = record opts { health = enabled }

  unfoldable pub auth_init : Str → RequestHandlerOpts E → RequestHandlerOpts E
  auth_init credentials opts = record opts { basic_auth = trim credentials }

  unfoldable pub maintenance_init : Bool → ℕ → Bytes → RequestHandlerOpts E → RequestHandlerOpts E
  maintenance_init enabled status file opts = record opts {
    maintenance_mode = enabled;
    maintenance_mode_status = status;
    maintenance_mode_file = file;
  }

  unfoldable pub compression_static_init : Bool → RequestHandlerOpts E → RequestHandlerOpts E
  compression_static_init enabled opts = record opts { compression_static = enabled }

  unfoldable pub compression_init :
      Bool → CompressionLevel → RequestHandlerOpts E → RequestHandlerOpts E
  compression_init enabled level opts = record opts {
    compression = enabled;
    compression_level = level;
  }

  unfoldable pub control_init : Bool → RequestHandlerOpts E → RequestHandlerOpts E
  control_init enabled opts = record opts { cache_control_headers = enabled }

  unfoldable pub security_init : Bool → RequestHandlerOpts E → RequestHandlerOpts E
  security_init enabled opts = record opts { security_headers = enabled }

  -- `cors::init`, whose panics are errors
  unfoldable pub cors_init :
      Str → Str → Str → RequestHandlerOpts E → Result Str (RequestHandlerOpts E)
  cors_init origins allowed exposed opts =
      new E.http (trim origins) (trim allowed) (trim exposed) >>= λ cors.
      ok (record opts { cors = cors })

  module _ (S : Source E) where
    -- the options before the modules set theirs
    unfoldable pub base_opts :
        General → Option (Advanced E) → Bytes → List Bytes → RequestHandlerOpts E
    unfolding default_opts
    base_opts general advanced root index_files = record default_opts {
      root_dir = root;
      page404 = page_path root general.page404;
      page50x = page_path root general.page50x;
      log_remote_address = general.log_remote_address;
      log_forwarded_for = general.log_forwarded_for;
      trusted_proxies = general.trusted_proxies;
      redirect_trailing_slash = general.redirect_trailing_slash;
      ignore_hidden_files = general.ignore_hidden_files;
      disable_symlinks = general.disable_symlinks;
      index_files = index_files;
      advanced_opts = advanced;
    }

    -- the modules before CORS, and those after it
    before_cors : General → RequestHandlerOpts E → RequestHandlerOpts E
    before_cors general opts = log_init E general.log_remote_address (
        health_init general.health (
          fallback_init S general.page_fallback (
            listing_init general.directory_listing general.directory_listing_order
              general.directory_listing_format opts)))

    after_cors : General → RequestHandlerOpts E → RequestHandlerOpts E
    after_cors general opts = security_init general.security_headers (
        control_init general.cache_control_headers (
          compression_init general.compression general.compression_level (
            compression_static_init general.compression_static (
              maintenance_init general.maintenance_mode general.maintenance_mode_status
                general.maintenance_mode_file (auth_init general.basic_auth opts)))))

    index_files_of : Str → Result Str (List Bytes)
    index_files_of s =
        let index_files = map trim (split_on b',' s) in
        if is_nil index_files then err (codes "index files list is empty") else ok index_files

    -- `start_server`, from the root directory to the options of the handler
    unfoldable pub handler_opts : Settings E → Result Str (RequestHandlerOpts E)
    unfolding before_cors after_cors index_files_of
    handler_opts settings =
        let general = settings.general in
        get_valid_dirpath E S general.root >>= λ root.
        index_files_of general.index_files >>= λ index_files.
        cors_init general.cors_allow_origins general.cors_allow_headers general.cors_expose_headers
          (before_cors general (base_opts general settings.advanced root index_files))
        >>= λ opts. ok (after_cors general opts)
