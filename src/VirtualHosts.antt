-- ===== src/VirtualHosts.antt =====
-- src/virtual_hosts.rs: another root for a host.
pub mod Laws
use static_web_server.Common.{Str, Bytes, Option, none, some, List, [], ◌∷◌, equal, if◌then◌else◌}
use static_web_server.Http.{get}
use static_web_server.Env.{Env}
use static_web_server.Env.Options.{VirtualHosts}

module _ (E : Env) where
  unfoldable pub find_root : List (VirtualHosts E) → Str → Option Bytes
  find_root [] host = none
  find_root (vhost ∷ l) host = if equal vhost.host host then some vhost.root else find_root l host

  unfoldable pub get_real_root : E.http.HeaderMap → Option (List (VirtualHosts E)) → Option Bytes
  get_real_root headers none = none
  get_real_root headers (some vhosts) = elim (get E.http headers "host") [
    | none ↦ none
    | some host ↦ elim (E.http.to_str host) [
      | none ↦ none
      | some host_str ↦ find_root vhosts host_str
    ]
  ]
