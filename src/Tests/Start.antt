-- ===== src/Tests/Start.antt =====
-- A server that starts with a password, and serves listings.
use static_web_server.Common.{
  ℕ, Str, Bytes, Bool, true, false, ◌≡◌, refl, Option, none, some, List, [], ◌∷◌, codes, Result, ok,
  trim, split_once, head?, equal, split_on,
}
use static_web_server.Http.{Request, Response, Method, is_allowed, is_options}
use static_web_server.Health.{health_pre_process}
use static_web_server.BasicAuth.Laws.{HasCredentials}
use static_web_server.Cors.{new, cors_pre_process}
use static_web_server.Env.Options.{RequestHandlerOpts}
use static_web_server.Fs.Paths.{components, push}
use static_web_server.Handler.Access.{IsAdmitted, IsChallenge}
use static_web_server.Handler.Listing.{serve}
use static_web_server.LogAddr.{log_init}
use static_web_server.Settings.{default_general}
use static_web_server.Settings.Read.{Settings, get_valid_dirpath}
use static_web_server.Server.{
  handler_opts, base_opts, page_path, path_starts_with, cors_init, default_opts,
}
use static_web_server.Server.Configured.{Follows, handler_opts-Follows}
use static_web_server.Server.Protected.{serve-IsChallenge}
use static_web_server.Server.Start.{Platform, files, redirects, Running, redirect_opts}
use static_web_server.Settings.{General}
use static_web_server.Tests.Http.{http, get_request}
use static_web_server.Tests.Disk.{env, plain_opts}
use static_web_server.Tests.Config.{source}
use static_web_server.Tests.Index.{writer, dirs}

abbrev with_password : Settings env
with_password = record {
  general = record default_general { basic_auth = codes " user:hash "; directory_listing = true };
  advanced = none;
}

abbrev pub started : RequestHandlerOpts env
started = record plain_opts {
  root_dir = codes "./public";
  compression = true;
  dir_listing = true;
  cache_control_headers = true;
  page404 = codes "./public/./404.html";
  page50x = codes "./public/./50x.html";
  page_fallback = codes "toml";
  basic_auth = codes "user:hash";
}

starts : handler_opts env source with_password ≡ ok started
unfolding handler_opts base_opts default_opts default_general get_valid_dirpath page_path
    path_starts_with cors_init new trim split_on log_init components push
    static_web_server.Common.is_empty static_web_server.Server.security_init
    static_web_server.Server.control_init static_web_server.Server.compression_init
    static_web_server.Server.compression_static_init static_web_server.Server.maintenance_init
    static_web_server.Server.auth_init static_web_server.Server.health_init
    static_web_server.Server.fallback_init static_web_server.Server.listing_init
    static_web_server.Common.starts_with equal static_web_server.Fs.Paths.piece
    static_web_server.Common.ends_with
starts = refl

handler_opts-Follows_example : Follows env source with_password started
handler_opts-Follows_example = handler_opts-Follows env source with_password started starts

abbrev pub get_docs : Request http
get_docs = get_request (codes "/docs") []

pub get_docs-IsAdmitted : IsAdmitted env started get_docs
unfolding is_allowed health_pre_process cors_pre_process equal
get_docs-IsAdmitted = record { supported = refl; no_health = refl; cors_passes = refl }

pub get_docs-no_credentials : ¬ HasCredentials env get_docs.headers (codes "user") (codes "hash")
get_docs-no_credentials h = cc (h.given)

named_pair : split_once b':' (trim (codes " user:hash ")) ≡ some (codes "user", codes "hash")
unfolding split_once trim
named_pair = refl

pub no_options : is_options Method.get ≡ false
unfolding is_options
no_options = refl

serve-IsChallenge_example :
    (r : Response http) × (serve env writer (λ q. []) dirs started get_docs ≡ ok r)
    × IsChallenge env get_docs r
serve-IsChallenge_example =
    serve-IsChallenge env source writer (λ q. []) dirs with_password started get_docs (codes "user")
      (codes "hash") starts named_pair get_docs-IsAdmitted no_options get_docs-no_credentials

abbrev sockets : Platform
sockets = record {
  Listener = ℕ;
  TlsConfig = Bytes;
  available_parallelism = some 4;
  parse_ip = λ s. some 0;
  bind = λ taken ip port. some port;
  take_tcp_listener = λ fd. some (some fd);
  set_nonblocking = λ l. true;
  from_std = λ l. true;
  from_listener = λ l. true;
  from_tcp = λ l. true;
  tls_config = λ cert key. some cert;
  create_signals = true;
  redirect_signals = true;
}

abbrev secure_general : General
secure_general = record (with_password.general) {
  http2 = true;
  http2_tls_cert = some (codes "/cert.pem");
  http2_tls_key = some (codes "/key.pem");
  https_redirect = true;
}

abbrev secure : Settings env
secure = record { general = secure_general; advanced = none }

abbrev secure_servers : List (Running env source sockets)
secure_servers =
    record {
      listener = secure_general.port;
      tls = some (codes "/cert.pem");
      service = files started;
    }
    ∷ record {
      listener = secure_general.https_redirect_from_port;
      tls = none;
      service = redirects (redirect_opts secure_general) started.page404 started.page50x;
    }
    ∷ []
