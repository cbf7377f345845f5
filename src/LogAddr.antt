-- ===== src/LogAddr.antt =====
-- src/log_addr.rs: what is logged of a request's addresses. A line of the log is a value. The texts
-- of addresses and methods, and the parsing of an address, are of `std::net` and the crate http.
pub mod Laws
use static_web_server.Common.{
  ℕ, Str, Bool, true, false, ◌&&◌, ◌||◌, Option, none, some, List, [], ◌∷◌, ◌++◌, any, codes, ◌==◌,
  head?, split_on, trim, if◌then◌else◌,
}
use static_web_server.Env.{Env}
use static_web_server.Http.{Request, Method, get}
use static_web_server.Health.{is_health_endpoint}
use static_web_server.Env.Options.{IpAddr, RequestHandlerOpts}

-- `std::net::SocketAddr`
pub record SocketAddr : Type 0 where
  pub ip : IpAddr
  pub port : ℕ

pub record AddrTexts : Type 0 where
  pub socket_text : SocketAddr → Str
  pub ip_text : IpAddr → Str
  pub parse_ip : Str → Option IpAddr
  pub method_text : Method → Str

pub data LogLine : Type 0 where
  debug info : Str → LogLine

abbrev no_proxies : List IpAddr → Bool
no_proxies [] = true
no_proxies (_ ∷ _) = false

module _ (E : Env) where
  -- `init`
  unfoldable pub log_init : Bool → RequestHandlerOpts E → RequestHandlerOpts E
  log_init enabled opts = record opts { log_remote_address = enabled }

  -- The header is read for any client, or for those that connect from a trusted proxy.
  unfoldable pub is_trusted : RequestHandlerOpts E → Option SocketAddr → Bool
  is_trusted opts none = opts.log_forwarded_for && (no_proxies opts.trusted_proxies || false)
  is_trusted opts (some addr) =
      opts.log_forwarded_for
      && (no_proxies opts.trusted_proxies || any (λ ip. ip == addr.ip) opts.trusted_proxies)

module _ (E : Env) (T : AddrTexts) where
  remote_text : RequestHandlerOpts E → Option SocketAddr → Str
  remote_text opts none = []
  remote_text opts (some addr) =
      if opts.log_remote_address then codes " remote_addr=" ++ T.socket_text addr else []

  -- the first address of the header, if it is one
  unfoldable pub real_ip : Request E.http → Option IpAddr
  real_ip req = elim (get E.http req.headers "x-forwarded-for") [
    | none ↦ none
    | some h ↦ elim (E.http.to_str h) [
      | none ↦ none
      | some s ↦ elim (head? (split_on b',' s)) [
        | none ↦ none
        | some first ↦ T.parse_ip (trim first)
      ]
    ]
  ]

  real_text : Option IpAddr → Str
  real_text none = []
  real_text (some ip) = codes " real_remote_ip=" ++ T.ip_text ip

  -- `pre_process`
  unfoldable pub log_pre_process :
      RequestHandlerOpts E → Request E.http → Option SocketAddr → LogLine
  unfolding remote_text real_text
  log_pre_process opts req remote_addr =
      let forwarded = if is_trusted E opts remote_addr then real_text (real_ip req) else [] in
      let line =
        codes "incoming request: method="
        ++ T.method_text req.method
        ++ codes " uri="
        ++ E.http.uri_str req.uri
        ++ remote_text opts remote_addr
        ++ forwarded in
      if opts.health && is_health_endpoint E req then debug line else info line
