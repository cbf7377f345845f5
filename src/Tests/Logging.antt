-- ===== src/Tests/Logging.antt =====
-- A client that is no trusted proxy.
use static_web_server.Common.{true, false, ◌≡◌, refl, some, [], ◌∷◌, codes, head?}
use static_web_server.Env.Options.{RequestHandlerOpts}
use static_web_server.LogAddr.{SocketAddr, AddrTexts, is_trusted, log_pre_process}
use static_web_server.LogAddr.Laws.{log_pre_process_untrusted}
use static_web_server.Tests.Http.{get_request}
use static_web_server.Tests.Disk.{env, plain_opts}

abbrev texts : AddrTexts
texts = record {
  socket_text = λ a. a.ip ∷ [];
  ip_text = λ ip. ip ∷ [];
  parse_ip = head?;
  method_text = λ m. codes "GET";
}

abbrev opts : RequestHandlerOpts env
opts = record plain_opts {
  log_remote_address = true;
  log_forwarded_for = true;
  trusted_proxies = 7 ∷ [];
}

abbrev stranger : SocketAddr
stranger = record { ip = 9; port = 1234 }

refused : is_trusted env opts (some stranger) ≡ false
unfolding is_trusted
refused = refl

log_pre_process_untrusted_example :
    log_pre_process env texts opts
      (get_request (codes "/") (("x-forwarded-for", codes "1") ∷ []))
      (some stranger)
    ≡ log_pre_process env texts opts (get_request (codes "/") []) (some stranger)
log_pre_process_untrusted_example =
    log_pre_process_untrusted env texts opts (get_request (codes "/") [])
      (get_request (codes "/") (("x-forwarded-for", codes "1") ∷ [])) (some stranger) refused refl
      refl
