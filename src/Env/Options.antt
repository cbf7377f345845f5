-- ===== src/Env/Options.antt =====
-- `RequestHandlerOpts` of src/handler.rs, with the default features, the advanced options of
-- src/settings/mod.rs and the configuration of src/cors.rs. Sets are lists.
use static_web_server.Common.{ℕ, Str, Bytes, Bool, Option, List, String}
use static_web_server.Http.{Method}
use static_web_server.DirectoryListing.Entries.{DirListFmt}
use static_web_server.Env.{Env}

pub record Cors : Type 0 where
  pub allowed_headers : List String
  pub exposed_headers : List String
  pub max_age : Option ℕ
  pub allowed_methods : List Method
  pub origins : Option (List Str)

pub record Configured : Type 0 where
  pub cors : Cors
  pub allowed_headers : Str
  pub exposed_headers : Str
  pub methods_header : Str

pub data RedirectsKind : Type 0 where
  permanent temporary : RedirectsKind

pub data CompressionLevel : Type 0 where
  fastest best default : CompressionLevel

-- `std::net::IpAddr` is only compared: an address is its number.
abbrev pub IpAddr : Type 0
IpAddr = ℕ

module _ (E : Env) where
  pub record Headers : Type 0 where
    pub source : E.GlobMatcher
    pub headers : E.http.HeaderMap

  pub record Rewrites : Type 0 where
    pub source : E.Regex
    pub destination : Str
    pub redirect : Option RedirectsKind

  pub record Redirects : Type 0 where
    pub host : Option Str
    pub source : E.Regex
    pub destination : Str
    pub kind : ℕ

  pub record VirtualHosts : Type 0 where
    pub host : Str
    pub root : Bytes

  pub record Advanced : Type 0 where
    pub headers : Option (List Headers)
    pub rewrites : Option (List Rewrites)
    pub redirects : Option (List Redirects)
    pub virtual_hosts : Option (List VirtualHosts)

  pub record RequestHandlerOpts : Type 0 where
    pub root_dir : Bytes
    pub compression : Bool
    pub compression_level : CompressionLevel
    pub compression_static : Bool
    pub dir_listing : Bool
    pub dir_listing_order : ℕ
    pub dir_listing_format : DirListFmt
    pub cors : Option Configured
    pub security_headers : Bool
    pub cache_control_headers : Bool
    pub page404 : Bytes
    pub page50x : Bytes
    pub page_fallback : Bytes
    pub basic_auth : Str
    pub index_files : List Bytes
    pub log_remote_address : Bool
    pub log_forwarded_for : Bool
    pub trusted_proxies : List IpAddr
    pub redirect_trailing_slash : Bool
    pub ignore_hidden_files : Bool
    pub disable_symlinks : Bool
    pub health : Bool
    pub maintenance_mode : Bool
    pub maintenance_mode_status : ℕ
    pub maintenance_mode_file : Bytes
    pub advanced_opts : Option Advanced
