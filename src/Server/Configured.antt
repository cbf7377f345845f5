-- ===== src/Server/Configured.antt =====
-- The options that the requests are handled with are those of the settings.
use mathlib.Core.Path.{subst}
use static_web_server.Common.{
  Str, Bytes, true, ◌≡◌, refl, Option, List, [], ok, map, trim, split_on, Holds, Holds-ok,
  >>=-Holds, get_or, arith, sym, >>=-eq-ok, ok-inj,
}
use static_web_server.Env.{Env}
use static_web_server.Env.Options.{RequestHandlerOpts, Configured}
use static_web_server.Cors.{new}
use static_web_server.Settings.Read.{Source, Settings, get_valid_dirpath}
use static_web_server.Server.{
  page_path, base_opts, before_cors, after_cors, index_files_of, cors_init, handler_opts, log_init,
}

module _ (E : Env) (S : Source E) where
  -- Each option of the handler is that of the settings, and the root is a directory that there is.
  pub record Follows (s : Settings E) (o : RequestHandlerOpts E) : Type 0 where
    pub root_dir : o.root_dir ≡ s.general.root
    pub root_is_dir : S.is_dir o.root_dir ≡ true
    pub pages :
        (o.page404 ≡ page_path o.root_dir s.general.page404)
        × (o.page50x ≡ page_path o.root_dir s.general.page50x)
        × (o.page_fallback ≡ get_or (S.read s.general.page_fallback) [])
    pub index_files : o.index_files ≡ map trim (split_on b',' s.general.index_files)
    pub cors :
        ok o.cors
        ≡ new E.http
            (trim s.general.cors_allow_origins)
            (trim s.general.cors_allow_headers)
            (trim s.general.cors_expose_headers)
    pub basic_auth : o.basic_auth ≡ trim s.general.basic_auth
    pub listing :
        (o.dir_listing ≡ s.general.directory_listing)
        × (o.dir_listing_order ≡ s.general.directory_listing_order)
        × (o.dir_listing_format ≡ s.general.directory_listing_format)
    pub compression :
        (o.compression ≡ s.general.compression)
        × (o.compression_level ≡ s.general.compression_level)
        × (o.compression_static ≡ s.general.compression_static)
    pub headers :
        (o.security_headers ≡ s.general.security_headers)
        × (o.cache_control_headers ≡ s.general.cache_control_headers)
    pub paths :
        (o.redirect_trailing_slash ≡ s.general.redirect_trailing_slash)
        × (o.ignore_hidden_files ≡ s.general.ignore_hidden_files)
        × (o.disable_symlinks ≡ s.general.disable_symlinks)
    pub log :
        (o.log_remote_address ≡ s.general.log_remote_address)
        × (o.log_forwarded_for ≡ s.general.log_forwarded_for)
        × (o.trusted_proxies ≡ s.general.trusted_proxies)
    pub health : o.health ≡ s.general.health
    pub maintenance :
        (o.maintenance_mode ≡ s.general.maintenance_mode)
        × (o.maintenance_mode_status ≡ s.general.maintenance_mode_status)
        × (o.maintenance_mode_file ≡ s.general.maintenance_mode_file)
    pub advanced_opts : o.advanced_opts ≡ s.advanced

  valid_root :
      (root : Bytes) → Holds (λ r. (r ≡ root) × (S.is_dir r ≡ true)) (get_valid_dirpath E S root)
  unfolding get_valid_dirpath
  valid_root root = ground arith

  split_files : (s : Str) → Holds (λ l. l ≡ map trim (split_on b',' s)) (index_files_of E S s)
  unfolding index_files_of
  split_files s = ground arith

  cors_init-made :
      (a b c : Str) (o p : RequestHandlerOpts E)
      → cors_init E a b c o ≡ ok p
      → (cors : Option Configured) × (new E.http (trim a) (trim b) (trim c) ≡ ok cors)
        × (record o { cors = cors } ≡ p)
  unfolding cors_init
  cors_init-made a b c o p h =
      let (cors, made, is) = >>=-eq-ok (new E.http (trim a) (trim b) (trim c)) _ h in
      (cors, made, ok-inj is)

  followed :
      (s : Settings E) (root : Bytes) (files : List Bytes) (cors : Option Configured)
      → root ≡ s.general.root
      → S.is_dir root ≡ true
      → files ≡ map trim (split_on b',' s.general.index_files)
      → new E.http
          (trim s.general.cors_allow_origins)
          (trim s.general.cors_allow_headers)
          (trim s.general.cors_expose_headers)
        ≡ ok cors
      → Follows s (
          after_cors E S s.general
            (record (before_cors E S s.general (base_opts E S s.general s.advanced root files)) {
              cors = cors;
            }))
  unfolding after_cors before_cors base_opts static_web_server.Server.security_init
      static_web_server.Server.control_init static_web_server.Server.compression_init
      static_web_server.Server.compression_static_init static_web_server.Server.maintenance_init
      static_web_server.Server.auth_init static_web_server.LogAddr.log_init
      static_web_server.Server.health_init static_web_server.Server.fallback_init
      static_web_server.Server.listing_init
  followed s root files cors same is_dir named made = record {
    root_dir = same;
    root_is_dir = is_dir;
    pages = (refl, refl, refl);
    index_files = named;
    cors = sym made;
    basic_auth = refl;
    listing = (refl, refl, refl);
    compression = (refl, refl, refl);
    headers = (refl, refl);
    paths = (refl, refl, refl);
    log = (refl, refl, refl);
    health = refl;
    maintenance = (refl, refl, refl);
    advanced_opts = refl;
  }

  -- When the server starts, its requests are handled with the options of the settings.
  pub handler_opts-Follows :
      (s : Settings E) (o : RequestHandlerOpts E) → handler_opts E S s ≡ ok o → Follows s o
  unfolding handler_opts
  handler_opts-Follows s o e = Holds-ok (Follows s) _ e (
      >>=-Holds (Follows s) (get_valid_dirpath E S s.general.root) _ (λ root found.
        let (same, is_dir) =
          Holds-ok (λ r. (r ≡ s.general.root) × (S.is_dir r ≡ true)) _ found
            (valid_root s.general.root) in
        >>=-Holds (Follows s) (index_files_of E S s.general.index_files) _ (λ files split.
          let named =
            Holds-ok (λ l. l ≡ map trim (split_on b',' s.general.index_files)) _ split
              (split_files s.general.index_files) in
          >>=-Holds (Follows s)
            (cors_init E s.general.cors_allow_origins s.general.cors_allow_headers
              s.general.cors_expose_headers
              (before_cors E S s.general (base_opts E S s.general s.advanced root files)))
            _
            (λ opts made.
              let (cors, new_ok, is) = cors_init-made _ _ _ _ opts made in
              subst (λ x. Follows s (after_cors E S s.general x)) is
                (followed s root files cors same is_dir named new_ok)))))
