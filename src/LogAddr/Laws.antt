-- ===== src/LogAddr/Laws.antt =====
-- Whom the log believes.
use static_web_server.Common.{false, ◌≡◌, refl, Option}
use static_web_server.Env.{Env}
use static_web_server.Env.Options.{RequestHandlerOpts}
use static_web_server.Http.{Request}
use static_web_server.LogAddr.{SocketAddr, AddrTexts, is_trusted, log_pre_process}

module _ (E : Env) (T : AddrTexts) where
  -- What is logged of a request whose client is not trusted does not depend on its headers, so no
  -- such client can have an address logged that is not its own.
  pub log_pre_process_untrusted :
      (opts : RequestHandlerOpts E) (req other : Request E.http) (remote_addr : Option SocketAddr)
      → is_trusted E opts remote_addr ≡ false
      → other.method ≡ req.method
      → other.uri ≡ req.uri
      → log_pre_process E T opts other remote_addr ≡ log_pre_process E T opts req remote_addr
  unfolding log_pre_process
  log_pre_process_untrusted opts req other remote_addr h same_method same_uri =
      rw (h, same_method, same_uri) refl
