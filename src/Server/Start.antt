-- ===== src/Server/Start.antt =====
-- src/server.rs, where it uses sockets: which services it runs, and on which sockets. The sockets, the
-- signals and the TLS configuration, whose code in src/tls.rs is borrowed from warp, are parameters.
-- A panic is an error.
pub mod Tls
use static_web_server.Common.{
  ℕ, Str, Bytes, Bool, true, false, ◌==◌, ◌*◌, ◌%◌, ◌^◌, ◌||◌, Option, none, some, List, [], ◌∷◌,
  map, codes, if◌then◌else◌, Result, ok, err, ◌>>=◌, split_on, trim,
}
use static_web_server.Http.{Request, Outcome, panics, done}
use static_web_server.Env.{Env}
use static_web_server.Env.Options.{IpAddr, RequestHandlerOpts}
use static_web_server.DirectoryListing.Entries.{Dirs}
use static_web_server.DirectoryListing.Page.{Writer}
use static_web_server.ErrorPage.{error_response}
use static_web_server.Handler.Listing.{serve}
use static_web_server.HttpsRedirect.{RedirectOpts, redirect_to_https}
use static_web_server.Settings.{General}
use static_web_server.Settings.Read.{Source, Settings, or_error}
use static_web_server.Server.{handler_opts, is_nil}

pub record Platform : Type 1 where
  pub Listener : Type 0
  pub TlsConfig : Type 0
  -- `std::thread::available_parallelism`
  pub available_parallelism : Option ℕ
  -- `str::parse::<IpAddr>`
  pub parse_ip : Str → Option IpAddr
  -- `TcpListener::bind`, with the sockets that the server has already
  pub bind : List Listener → IpAddr → ℕ → Option Listener
  -- `ListenFd::from_env().take_tcp_listener`
  pub take_tcp_listener : ℕ → Option (Option Listener)
  -- whether these succeed: `set_nonblocking`, `tokio::net::TcpListener::from_std`,
  -- `AddrIncoming::from_listener`, `HyperServer::from_tcp`
  pub set_nonblocking : Listener → Bool
  pub from_std : Listener → Bool
  pub from_listener : Listener → Bool
  pub from_tcp : Listener → Bool
  -- `TlsConfigBuilder::build` with the paths of the certificate and the key
  pub tls_config : Bytes → Bytes → Option TlsConfig
  -- whether `signals::create_signals` succeeds for the server of files, and for that of redirects
  pub create_signals : Bool
  pub redirect_signals : Bool

abbrev pub ensure : Bool → Str → Result {0, 0} Str Unit
ensure true e = ok tt
ensure false e = err e

-- the worker threads; the product is a usize
unfoldable pub worker_threads : ℕ → ℕ → ℕ
worker_threads cpus threads_multiplier =
    if threads_multiplier == 0 || threads_multiplier == 1
    then cpus
    else (cpus * threads_multiplier) % 2 ^ 64

-- the hosts that are redirected
abbrev pub allowed_hosts : General → List Str
allowed_hosts general = map trim (split_on b',' general.https_redirect_from_hosts)

abbrev pub redirect_opts : General → RedirectOpts
redirect_opts general = record {
  https_hostname = general.https_redirect_host;
  https_port = general.port;
  allowed_hosts = allowed_hosts general;
}

module _ (E : Env) where
  -- what answers the requests of a socket
  pub data Service : Type 0 where
    files : RequestHandlerOpts E → Service
    redirects : RedirectOpts → Bytes → Bytes → Service

  -- the closure of the redirect server
  redirect_reply : Request E.http → Bytes → Bytes → Outcome E.http ℕ → Outcome E.http Str
  redirect_reply req page404 page50x panics = panics
  redirect_reply req page404 page50x (done (ok resp)) = done (ok resp)
  redirect_reply req page404 page50x (done (err status)) =
      done (error_response E req.uri req.method status page404 page50x)

  module _ (W : Writer) (form_parse : Str → List (Str × Str)) (D : Dirs E.http.Time) where
    unfoldable pub reply : Service → Request E.http → Outcome E.http Str
    unfolding redirect_reply
    reply (files opts) req = done (serve E W form_parse D opts req)
    reply (redirects opts page404 page50x) req =
        redirect_reply req page404 page50x (redirect_to_https E.http req opts)

module _ (E : Env) (S : Source E) (O : Platform) where
  -- a server that runs: its socket, its TLS configuration if it has one, and its service
  pub record Running : Type 0 where
    pub listener : O.Listener
    pub tls : Option O.TlsConfig
    pub service : Service E

  -- `Server::new`
  pub record Server : Type 0 where
    pub opts : Settings E
    pub threads : ℕ
    pub max_blocking_threads : ℕ

  unfoldable pub server_new : Settings E → Result Str Server
  server_new opts =
      or_error O.available_parallelism (codes "unable to get current platform cpus") >>= λ cpus.
      ok (record {
        opts = opts;
        threads = worker_threads cpus opts.general.threads_multiplier;
        max_blocking_threads = opts.general.max_blocking_threads;
      })

  pub bound : List O.Listener → Str → ℕ → Result Str O.Listener
  bound taken host port = or_error (O.parse_ip host) (codes "failed to parse address") >>= λ ip.
      or_error (O.bind taken ip port) (codes "failed to bind to address")

  unfoldable pub tcp_listener : General → Option ℕ → Result Str O.Listener
  unfolding bound
  tcp_listener general (some fd) =
      or_error (O.take_tcp_listener fd) (codes "file descriptor") >>= λ given.
      or_error given (codes "failed to convert inherited 'fd' into a 'tcp' listener")
  tcp_listener general none = bound [] general.host general.port

  -- the server that redirects to HTTPS
  unfoldable pub redirect_server :
      General → RequestHandlerOpts E → List O.Listener → Result Str Running
  unfolding bound
  redirect_server general opts taken =
      bound taken general.host general.https_redirect_from_port >>= λ listener.
      ensure (O.set_nonblocking listener) (codes "failed to set TCP non-blocking mode") >>= λ _.
      ensure O.redirect_signals (codes "failed to register termination signals") >>= λ _.
      if is_nil (allowed_hosts general)
      then err (codes "https redirect allowed hosts is empty")
      else ensure (O.from_tcp listener) (codes "panic") >>= λ _. ok (record {
        listener = listener;
        tls = none;
        service = redirects (redirect_opts general) opts.page404 opts.page50x;
      })

  -- the server of files over TLS
  unfoldable pub tls_server : General → RequestHandlerOpts E → O.Listener → Result Str Running
  tls_server general opts listener =
      ensure (O.set_nonblocking listener) (codes "failed to set TCP non-blocking mode") >>= λ _.
      ensure (O.from_std listener) (codes "failed to create tokio::net::TcpListener") >>= λ _.
      ensure (O.from_listener listener) (codes "failed to create an AddrIncoming") >>= λ _.
      or_error general.http2_tls_cert (codes "cert file missing") >>= λ cert.
      or_error general.http2_tls_key (codes "key file missing") >>= λ key.
      or_error (O.tls_config cert key) (codes "failed to initialize TLS") >>= λ tls.
      ensure O.create_signals (codes "failed to register termination signals") >>= λ _.
      ok (record { listener = listener; tls = some tls; service = files opts })

  abbrev pub with_redirects : Running → Result Str Running → Result Str (List Running)
  with_redirects main started = started >>= λ redirect. ok (main ∷ redirect ∷ [])

  unfoldable pub http2_servers :
      General → RequestHandlerOpts E → O.Listener → Result Str (List Running)
  http2_servers general opts listener = tls_server general opts listener >>= λ main.
      if general.https_redirect
      then with_redirects main (redirect_server general opts (listener ∷ []))
      else ok (main ∷ [])

  unfoldable pub http1_server : RequestHandlerOpts E → O.Listener → Result Str (List Running)
  http1_server opts listener =
      ensure O.create_signals (codes "failed to register termination signals") >>= λ _.
      ensure (O.set_nonblocking listener) (codes "failed to set TCP non-blocking mode") >>= λ _.
      ensure (O.from_tcp listener) (codes "panic") >>= λ _.
      ok (record { listener = listener; tls = none; service = files opts } ∷ [])

  -- `start_server` of the default build: the servers that it runs
  unfoldable pub start_server : Settings E → Result Str (List Running)
  start_server settings =
      let general = settings.general in
      tcp_listener general general.fd >>= λ listener. handler_opts E S settings >>= λ opts.
      if general.http2 then http2_servers general opts listener else http1_server opts listener
