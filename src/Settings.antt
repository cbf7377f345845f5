-- ===== src/Settings.antt =====
-- src/settings/cli.rs, src/settings/file.rs and src/settings/mod.rs: the options of the command line,
-- those of the configuration file, and what the server takes of both, on Unix with the default
-- features. Parsing is by the crates clap and toml.
pub mod Read
pub mod Sound
pub mod Secured
use static_web_server.Common.{
  ℕ, Str, Bytes, Bool, true, false, Option, none, some, List, [], ◌∷◌, codes, get_or, if◌then◌else◌,
}
use static_web_server.Http.{Http}
use static_web_server.Env.Options.{CompressionLevel, RedirectsKind, IpAddr}
use static_web_server.DirectoryListing.Entries.{DirListFmt, html}

-- `LogLevel`, and its name
pub data LogLevel : Type 0 where
  error warn info debug trace : LogLevel

unfoldable pub level_name : LogLevel → Str
level_name error = codes "error"
level_name warn = codes "warn"
level_name info = codes "info"
level_name debug = codes "debug"
level_name trace = codes "trace"

-- `General` of the command line
pub record General : Type 0 where
  pub host : Str
  pub port : ℕ
  pub root : Bytes
  pub log_level : Str
  pub cache_control_headers : Bool
  pub compression : Bool
  pub compression_level : CompressionLevel
  pub compression_static : Bool
  pub page404 : Bytes
  pub page50x : Bytes
  pub http2 : Bool
  pub http2_tls_cert : Option Bytes
  pub http2_tls_key : Option Bytes
  pub https_redirect : Bool
  pub https_redirect_host : Str
  pub https_redirect_from_port : ℕ
  pub https_redirect_from_hosts : Str
  pub security_headers : Bool
  pub cors_allow_origins : Str
  pub cors_allow_headers : Str
  pub cors_expose_headers : Str
  pub directory_listing : Bool
  pub directory_listing_order : ℕ
  pub directory_listing_format : DirListFmt
  pub basic_auth : Str
  pub fd : Option ℕ
  pub threads_multiplier : ℕ
  pub max_blocking_threads : ℕ
  pub grace_period : ℕ
  pub page_fallback : Bytes
  pub log_remote_address : Bool
  pub log_forwarded_for : Bool
  pub trusted_proxies : List IpAddr
  pub redirect_trailing_slash : Bool
  pub ignore_hidden_files : Bool
  pub disable_symlinks : Bool
  pub index_files : Str
  pub health : Bool
  pub maintenance_mode : Bool
  pub maintenance_mode_status : ℕ
  pub maintenance_mode_file : Bytes
  pub config_file : Bytes
  pub version : Bool

-- `General` of the configuration file
pub record FileGeneral : Type 0 where
  pub host : Option Str
  pub port : Option ℕ
  pub root : Option Bytes
  pub log_level : Option LogLevel
  pub cache_control_headers : Option Bool
  pub compression : Option Bool
  pub compression_level : Option CompressionLevel
  pub compression_static : Option Bool
  pub page404 : Option Bytes
  pub page50x : Option Bytes
  pub http2 : Option Bool
  pub http2_tls_cert : Option Bytes
  pub http2_tls_key : Option Bytes
  pub https_redirect : Option Bool
  pub https_redirect_host : Option Str
  pub https_redirect_from_port : Option ℕ
  pub https_redirect_from_hosts : Option Str
  pub security_headers : Option Bool
  pub cors_allow_origins : Option Str
  pub cors_allow_headers : Option Str
  pub cors_expose_headers : Option Str
  pub directory_listing : Option Bool
  pub directory_listing_order : Option ℕ
  pub directory_listing_format : Option DirListFmt
  pub basic_auth : Option Str
  pub fd : Option ℕ
  pub threads_multiplier : Option ℕ
  pub max_blocking_threads : Option ℕ
  pub grace_period : Option ℕ
  pub page_fallback : Option Bytes
  pub log_remote_address : Option Bool
  pub log_forwarded_for : Option Bool
  pub trusted_proxies : Option (List IpAddr)
  pub redirect_trailing_slash : Option Bool
  pub ignore_hidden_files : Option Bool
  pub disable_symlinks : Option Bool
  pub index_files : Option Str
  pub health : Option Bool
  pub maintenance_mode : Option Bool
  pub maintenance_mode_status : Option ℕ
  pub maintenance_mode_file : Option Bytes

-- `General::parse_from([""])` with no environment variables
unfoldable pub default_general : General
default_general = record {
  host = codes "::";
  port = 80;
  root = codes "./public";
  log_level = codes "error";
  cache_control_headers = true;
  compression = true;
  compression_level = CompressionLevel.default;
  compression_static = false;
  page404 = codes "./404.html";
  page50x = codes "./50x.html";
  http2 = false;
  http2_tls_cert = none;
  http2_tls_key = none;
  https_redirect = false;
  https_redirect_host = codes "localhost";
  https_redirect_from_port = 80;
  https_redirect_from_hosts = codes "localhost";
  security_headers = false;
  cors_allow_origins = [];
  cors_allow_headers = codes "origin, content-type, authorization";
  cors_expose_headers = codes "origin, content-type";
  directory_listing = false;
  directory_listing_order = 6;
  directory_listing_format = html;
  basic_auth = [];
  fd = none;
  threads_multiplier = 1;
  max_blocking_threads = 512;
  grace_period = 0;
  page_fallback = [];
  log_remote_address = false;
  log_forwarded_for = false;
  trusted_proxies = [];
  redirect_trailing_slash = true;
  ignore_hidden_files = false;
  disable_symlinks = false;
  index_files = codes "index.html";
  health = false;
  maintenance_mode = false;
  maintenance_mode_status = 503;
  maintenance_mode_file = [];
  config_file = codes "./config.toml";
  version = false;
}

-- `if let Some(v) = file { Some(v) }` for an option that may be absent
abbrev pub or_some {ℓ} : {A : Type ℓ} → Option A → Option A → Option A
or_some none o = o
or_some (some v) o = some v

-- the name of a level, where the file has one
level_or : Option LogLevel → Str → Str
level_or none level = level
level_or (some l) level = level_name l

-- With HTTP/2 a file without the option switches the headers on.
security_or : Option Bool → Bool → Bool → Bool
security_or (some v) http2 security_headers = v
security_or none http2 security_headers = if http2 then true else security_headers

-- The options of the file over those of the command line. `status` is the status of the maintenance
-- mode, which was tested.
unfoldable pub merge : FileGeneral → ℕ → Bytes → General → General
unfolding level_or security_or
merge file status config_file opts = record {
  host = get_or file.host opts.host;
  port = get_or file.port opts.port;
  root = get_or file.root opts.root;
  log_level = level_or file.log_level opts.log_level;
  cache_control_headers = get_or file.cache_control_headers opts.cache_control_headers;
  compression = get_or file.compression opts.compression;
  compression_level = get_or file.compression_level opts.compression_level;
  compression_static = get_or file.compression_static opts.compression_static;
  page404 = get_or file.page404 opts.page404;
  page50x = get_or file.page50x opts.page50x;
  http2 = get_or file.http2 opts.http2;
  http2_tls_cert = or_some file.http2_tls_cert opts.http2_tls_cert;
  http2_tls_key = or_some file.http2_tls_key opts.http2_tls_key;
  https_redirect = get_or file.https_redirect opts.https_redirect;
  https_redirect_host = get_or file.https_redirect_host opts.https_redirect_host;
  https_redirect_from_port = get_or file.https_redirect_from_port opts.https_redirect_from_port;
  https_redirect_from_hosts = get_or file.https_redirect_from_hosts opts.https_redirect_from_hosts;
  security_headers =
      security_or file.security_headers (get_or file.http2 opts.http2) opts.security_headers;
  cors_allow_origins = get_or file.cors_allow_origins opts.cors_allow_origins;
  cors_allow_headers = get_or file.cors_allow_headers opts.cors_allow_headers;
  cors_expose_headers = get_or file.cors_expose_headers opts.cors_expose_headers;
  directory_listing = get_or file.directory_listing opts.directory_listing;
  directory_listing_order = get_or file.directory_listing_order opts.directory_listing_order;
  directory_listing_format = get_or file.directory_listing_format opts.directory_listing_format;
  basic_auth = get_or file.basic_auth opts.basic_auth;
  fd = or_some file.fd opts.fd;
  threads_multiplier = get_or file.threads_multiplier opts.threads_multiplier;
  max_blocking_threads = get_or file.max_blocking_threads opts.max_blocking_threads;
  grace_period = get_or file.grace_period opts.grace_period;
  page_fallback = get_or file.page_fallback opts.page_fallback;
  log_remote_address = get_or file.log_remote_address opts.log_remote_address;
  log_forwarded_for = get_or file.log_forwarded_for opts.log_forwarded_for;
  trusted_proxies = get_or file.trusted_proxies opts.trusted_proxies;
  redirect_trailing_slash = get_or file.redirect_trailing_slash opts.redirect_trailing_slash;
  ignore_hidden_files = get_or file.ignore_hidden_files opts.ignore_hidden_files;
  disable_symlinks = get_or file.disable_symlinks opts.disable_symlinks;
  index_files = get_or file.index_files opts.index_files;
  health = get_or file.health opts.health;
  maintenance_mode = get_or file.maintenance_mode opts.maintenance_mode;
  maintenance_mode_status = status;
  maintenance_mode_file = get_or file.maintenance_mode_file opts.maintenance_mode_file;
  config_file = config_file;
  version = opts.version;
}

-- the entries of the advanced options, as the file has them
pub record FileRewrites : Type 0 where
  pub source : Str
  pub destination : Str
  pub redirect : Option RedirectsKind

pub record FileRedirects : Type 0 where
  pub host : Option Str
  pub source : Str
  pub destination : Str
  pub kind : RedirectsKind

pub record FileVirtualHosts : Type 0 where
  pub host : Str
  pub root : Option Bytes

module _ (H : Http) where
  pub record FileHeaders : Type 0 where
    pub source : Str
    pub headers : H.HeaderMap

  pub record FileAdvanced : Type 0 where
    pub headers : Option (List FileHeaders)
    pub rewrites : Option (List FileRewrites)
    pub redirects : Option (List FileRedirects)
    pub virtual_hosts : Option (List FileVirtualHosts)

  pub record FileSettings : Type 0 where
    pub general : Option FileGeneral
    pub advanced : Option FileAdvanced
