-- ===== src/Settings/Secured.antt =====
-- What a configuration file makes of the option for the security headers.
use static_web_server.Common.{
  Bytes, Bool, true, ◌≡◌, refl, sym, ap, ◌∙◌, none, some, ok, Holds, Holds-ok, >>=-Holds, get_or,
}
use static_web_server.Env.{Env}
use static_web_server.Settings.{General, FileGeneral, FileSettings, merge}
use static_web_server.Settings.Read.{
  Source, Settings, status_of, read_general, init_log, read_file_settings, with_file, try_some,
  read_advanced, read_settings,
}
use static_web_server.Settings.Sound.{init_log-Holds}

module _ (E : Env) (S : Source E) where
  abbrev pub IsSecured : General → Type 0
  IsSecured g = g.security_headers ≡ true

  abbrev SecuredIn : Settings E → Type 0
  SecuredIn s = IsSecured s.general

  -- The general options of a file that has HTTP/2 and does not say whether there are security
  -- headers, over any options of the command line.
  read_general-IsSecured :
      (file : FileGeneral) (resolved : Bytes) (opts : General)
      → file.security_headers ≡ none
      → get_or file.http2 opts.http2 ≡ true
      → Holds IsSecured (read_general E S (some file) resolved opts)
  unfolding read_general merge
  read_general-IsSecured file resolved opts silent http2 =
      >>=-Holds IsSecured (status_of E S file.maintenance_mode_status opts.maintenance_mode_status)
        _ (λ status _. rw (silent, http2) refl)

  with_file-IsSecured :
      (log_init : Bool) (opts : General) (settings : FileSettings E.http) (file : FileGeneral)
      (resolved : Bytes)
      → settings.general ≡ some file
      → file.security_headers ≡ none
      → get_or file.http2 opts.http2 ≡ true
      → Holds SecuredIn (with_file E S log_init opts (some (settings, resolved)))
  unfolding with_file
  with_file-IsSecured log_init opts settings file resolved has silent http2 =
      >>=-Holds SecuredIn (read_general E S settings.general resolved opts) _ (λ merged merging.
        >>=-Holds SecuredIn (init_log E S log_init merged) _ (λ g logging.
          >>=-Holds SecuredIn (try_some (read_advanced E S) settings.advanced) _ (λ a _.
            Holds-ok IsSecured _ logging (
              init_log-Holds E S IsSecured log_init merged (
                Holds-ok IsSecured (read_general E S (some file) resolved opts)
                  (sym (ap (λ o. read_general E S o resolved opts) has) ∙ merging)
                  (read_general-IsSecured file resolved opts silent http2))))))

  -- When HTTP/2 is in effect and a configuration file has general options without the one for the
  -- security headers, these are switched on, also where the command line switches them off.
  pub read_settings-IsSecured :
      (log_init : Bool) (opts : General) (settings : FileSettings E.http) (file : FileGeneral)
      (resolved : Bytes) (s : Settings E)
      → read_file_settings E S opts.config_file ≡ ok (some (settings, resolved))
      → settings.general ≡ some file
      → file.security_headers ≡ none
      → get_or file.http2 opts.http2 ≡ true
      → read_settings E S log_init opts ≡ ok s
      → s.general.security_headers ≡ true
  unfolding read_settings
  read_settings-IsSecured log_init opts settings file resolved s there has silent http2 e =
      Holds-ok SecuredIn _ e (
        rw (read_settings, there)
          (with_file-IsSecured log_init opts settings file resolved has silent http2))
