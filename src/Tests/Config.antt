-- ===== src/Tests/Config.antt =====
-- A configuration file with HTTP/2 and a virtual host.
use static_web_server.Common.{
  ℕ, ◌≤◌, ◌<◌, Str, Bytes, Bool, true, false, ◌≡◌, refl, Option, none, some, List, [], ◌∷◌, ◌&&◌,
  codes, leb, ltb, if◌then◌else◌, ok, arith, get_or,
}
use static_web_server.Settings.{
  General, FileGeneral, FileAdvanced, FileSettings, FileVirtualHosts, default_general, merge,
}
use static_web_server.Settings.Read.{
  Source, Settings, read_settings, read_file_settings, read_settings_file, extension, with_file,
  read_general, status_of, init_log, read_advanced, valid_hosts, get_valid_dirpath, pattern_of,
  replace,
}
use static_web_server.Settings.Sound.{IsSound, HasStatus, read_settings-IsSound}
use static_web_server.Settings.Secured.{read_settings-IsSecured}
use static_web_server.Fs.Paths.{file_name, is_utf8}
use static_web_server.Tests.Http.{http}
use static_web_server.Tests.Disk.{env}

abbrev pub file : FileGeneral
file = record {
  host = none;
  port = some 8443;
  root = none;
  log_level = none;
  cache_control_headers = none;
  compression = none;
  compression_level = none;
  compression_static = none;
  page404 = none;
  page50x = none;
  http2 = some true;
  http2_tls_cert = none;
  http2_tls_key = none;
  https_redirect = none;
  https_redirect_host = none;
  https_redirect_from_port = none;
  https_redirect_from_hosts = none;
  security_headers = none;
  cors_allow_origins = none;
  cors_allow_headers = none;
  cors_expose_headers = none;
  directory_listing = none;
  directory_listing_order = none;
  directory_listing_format = none;
  basic_auth = none;
  fd = none;
  threads_multiplier = none;
  max_blocking_threads = none;
  grace_period = none;
  page_fallback = none;
  log_remote_address = none;
  log_forwarded_for = none;
  trusted_proxies = none;
  redirect_trailing_slash = none;
  ignore_hidden_files = none;
  disable_symlinks = none;
  index_files = none;
  health = none;
  maintenance_mode = none;
  maintenance_mode_status = none;
  maintenance_mode_file = none;
}

abbrev pub advanced : FileAdvanced http
advanced = record {
  headers = none;
  rewrites = none;
  redirects = none;
  virtual_hosts = some (
      record { host = codes "blog"; root = some (codes "/srv/blog") }
      ∷ record { host = codes "none"; root = none }
      ∷ []);
}

abbrev pub settings : FileSettings http
settings = record { general = some file; advanced = some advanced }

abbrev pub from_u16 : ℕ → Option ℕ
from_u16 v = if leb 100 v && ltb v 1000 then some v else none

from_u16-IsStatus : (v w : ℕ) → from_u16 v ≡ some w → (100 ≤ w) × (w < 1000)
from_u16-IsStatus v w h = ground (arith, h)

abbrev pub source : Source env
source = record {
  is_file = λ p. true;
  exists = λ p. true;
  is_dir = λ p. true;
  canonicalize = λ p. some (codes "/etc/config.toml");
  read = λ p. some (codes "toml");
  Value = Str;
  parse_toml = λ s. some s;
  deserialize = λ v. some settings;
  from_u16 = from_u16;
  compile_glob = λ s. some s;
  literal_glob_regex = λ s. some s;
  compile_regex = λ s. some s;
  logger_init = λ s. true;
}

abbrev read_all : Settings env
read_all = record {
  general = merge file 503 (codes "/etc/config.toml") default_general;
  advanced = some (record {
    headers = none;
    rewrites = none;
    redirects = none;
    virtual_hosts = some (record { host = codes "blog"; root = codes "/srv/blog" } ∷ []);
  });
}

file_read :
    read_file_settings env source default_general.config_file
    ≡ ok (some (settings, codes "/etc/config.toml"))
unfolding read_file_settings read_settings_file extension file_name is_utf8
    static_web_server.Common.split_on static_web_server.Common.is_empty
    static_web_server.Common.equal static_web_server.Common.rsplit_once
file_read = refl

all_read : read_settings env source false default_general ≡ ok read_all
unfolding read_settings with_file read_general status_of init_log read_advanced valid_hosts
    get_valid_dirpath read_file_settings read_settings_file extension file_name is_utf8
    default_general static_web_server.Common.split_on static_web_server.Common.is_empty
    static_web_server.Common.equal static_web_server.Common.rsplit_once
all_read = refl

default_status : HasStatus env source default_general
unfolding default_general
default_status = omega arith

read_settings-IsSound_example : IsSound env source read_all
read_settings-IsSound_example =
    read_settings-IsSound env source from_u16-IsStatus false default_general default_status read_all
      all_read

read_settings-IsSecured_example :
    (merge file 503 (codes "/etc/config.toml") default_general).security_headers ≡ true
read_settings-IsSecured_example =
    read_settings-IsSecured env source false default_general settings file
      (codes "/etc/config.toml") read_all file_read refl refl refl all_read

-- The regular expression of a glob, rewritten.
rewritten : pattern_of (codes "(?-u)^/a/(?:.*)$") ≡ codes "^/a/(.*)$"
unfolding pattern_of replace static_web_server.Settings.Read.trim_start_str
    static_web_server.Common.strip_prefix
rewritten = refl
