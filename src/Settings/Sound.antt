-- ===== src/Settings/Sound.antt =====
-- What holds of the settings whenever they can be read.

use static_web_server.Common.{
  ℕ, ◌≤◌, ◌<◌, Bytes, Bool, true, not, ◌&&◌, ◌≡◌, inl, inr, Option, none, some, List, [], ◌∷◌, All,
  ok, Holds, Holds-ok, >>=-Holds, Option-cases, Bool-cases, arith,
}
use static_web_server.Env.{Env}
use static_web_server.Env.Options.{VirtualHosts, Advanced}
use static_web_server.Settings.{
  General, FileGeneral, merge, FileVirtualHosts, FileAdvanced, FileSettings,
}
use static_web_server.Settings.Read.{
  Source, Settings, try_some, try_map, compile_header, compile_rewrite, compile_redirect,
  get_valid_dirpath, valid_hosts, read_advanced, read_general, read_file_settings, with_file,
  read_settings, compile_source, status_of, init_log,
}

module _ (E : Env) (S : Source E) where
  -- A directory that there is.
  abbrev pub IsRoot : VirtualHosts E → Type 0
  IsRoot h = (S.exists h.root ≡ true) × (S.is_dir h.root ≡ true)

  abbrev pub RootsOf : Option (List (VirtualHosts E)) → Type 0
  RootsOf none = Unit
  RootsOf (some l) = All IsRoot l

  abbrev pub AdvancedRoots : Advanced E → Type 0
  AdvancedRoots a = RootsOf a.virtual_hosts

  abbrev pub RootsIn : Option (Advanced E) → Type 0
  RootsIn none = Unit
  RootsIn (some a) = AdvancedRoots a

  get_valid_dirpath-root :
      (path : Bytes)
      → Holds (λ root. (S.exists root ≡ true) × (S.is_dir root ≡ true)) (get_valid_dirpath E S path)
  unfolding get_valid_dirpath
  get_valid_dirpath-root path = ground arith

  valid_hosts-roots : (l : List FileVirtualHosts) → Holds (All IsRoot) (valid_hosts E S l)
  unfolding valid_hosts
  valid_hosts-roots [] = tt
  valid_hosts-roots (e ∷ l) = elim (Option-cases e.root) [
    | inl none_given ↦ rw (valid_hosts, none_given) (valid_hosts-roots l)
    | inr (root, given) ↦
        rw (valid_hosts, given)
          (>>=-Holds (All IsRoot) (get_valid_dirpath E S root) _ (λ root_dir found.
            >>=-Holds (All IsRoot) (valid_hosts E S l) _ (λ rest made. (
              Holds-ok _ _ found (get_valid_dirpath-root root),
              Holds-ok _ _ made (valid_hosts-roots l),
            ))))
  ]

  try_some-roots :
      (o : Option (List FileVirtualHosts)) → Holds RootsOf (try_some (valid_hosts E S) o)
  try_some-roots none = tt
  try_some-roots (some l) =
      >>=-Holds RootsOf (valid_hosts E S l) _ (λ v made. Holds-ok _ _ made (valid_hosts-roots l))

  read_advanced-roots : (a : FileAdvanced E.http) → Holds AdvancedRoots (read_advanced E S a)
  unfolding read_advanced compile_header compile_rewrite compile_redirect compile_source
  read_advanced-roots a =
      >>=-Holds AdvancedRoots (try_some (try_map (compile_header E S)) a.headers) _ (λ headers _.
        >>=-Holds AdvancedRoots (try_some (try_map (compile_rewrite E S)) a.rewrites) _
          (λ rewrites _.
            >>=-Holds AdvancedRoots (try_some (try_map (compile_redirect E S)) a.redirects) _
              (λ redirects _.
                >>=-Holds AdvancedRoots (try_some (valid_hosts E S) a.virtual_hosts) _
                  (λ hosts made. Holds-ok _ _ made (try_some-roots a.virtual_hosts)))))

  try_some-advanced :
      (o : Option (FileAdvanced E.http)) → Holds RootsIn (try_some (read_advanced E S) o)
  try_some-advanced none = tt
  try_some-advanced (some a) =
      >>=-Holds RootsIn (read_advanced E S a) _
        (λ v made. Holds-ok _ _ made (read_advanced-roots a))

  abbrev pub IsStatus : ℕ → Type 0
  IsStatus n = (100 ≤ n) × (n < 1000)

  abbrev pub HasStatus : General → Type 0
  HasStatus g = IsStatus g.maintenance_mode_status

  -- Every virtual host has a root that is a directory, and the maintenance mode has a status.
  pub record IsSound (s : Settings E) : Type 0 where
    pub roots : RootsIn s.advanced
    pub status : HasStatus s.general

  pub init_log-Holds :
      (P : General → Type 0) (log_init : Bool) (g : General)
      → P g
      → Holds P (init_log E S log_init g)
  unfolding init_log
  init_log-Holds P log_init g h = elim (Bool-cases (log_init && not (S.logger_init g.log_level))) [
    | inl bad ↦ rw bad tt
    | inr good ↦ rw good h
  ]

  module _ (checked : (v w : ℕ) → S.from_u16 v ≡ some w → IsStatus w) where
    status_of-IsStatus :
        (o : Option ℕ) (status : ℕ) → IsStatus status → Holds IsStatus (status_of E S o status)
    unfolding status_of
    status_of-IsStatus none status h = h
    status_of-IsStatus (some v) status h = elim (Option-cases (S.from_u16 v)) [
      | inl bad ↦ rw bad tt
      | inr (w, e) ↦ rw e (checked v w e)
    ]

    read_general-HasStatus :
        (o : Option FileGeneral) (resolved : Bytes) (opts : General)
        → HasStatus opts
        → Holds HasStatus (read_general E S o resolved opts)
    unfolding read_general merge
    read_general-HasStatus none resolved opts h = h
    read_general-HasStatus (some file) resolved opts h =
        >>=-Holds HasStatus
          (status_of E S file.maintenance_mode_status opts.maintenance_mode_status) _
          (λ status made.
            Holds-ok IsStatus _ made (status_of-IsStatus file.maintenance_mode_status _ h))

    with_file-IsSound :
        (log_init : Bool) (opts : General) (file : Option (FileSettings E.http × Bytes))
        → HasStatus opts
        → Holds IsSound (with_file E S log_init opts file)
    unfolding with_file
    with_file-IsSound log_init opts none h =
        >>=-Holds IsSound (init_log E S log_init opts) _ (λ g made. record {
          roots = tt;
          status = Holds-ok _ _ made (init_log-Holds HasStatus log_init opts h);
        })
    with_file-IsSound log_init opts (some (settings, resolved)) h =
        >>=-Holds IsSound (read_general E S settings.general resolved opts) _ (λ merged merging.
          >>=-Holds IsSound (init_log E S log_init merged) _ (λ g logging.
            >>=-Holds IsSound (try_some (read_advanced E S) settings.advanced) _ (λ a made. record {
              roots = Holds-ok _ _ made (try_some-advanced settings.advanced);
              status = Holds-ok _ _ logging (
                  init_log-Holds HasStatus log_init merged (
                    Holds-ok _ _ merging
                      (read_general-HasStatus settings.general resolved opts h)));
            })))

    -- Whenever the settings can be read, from the command line and the file, every virtual host has
    -- a root that was there and a directory, and the status of the maintenance mode is one of three
    -- digits. The status of the command line is, and so is each that `StatusCode` accepts.
    pub read_settings-IsSound :
        (log_init : Bool) (opts : General)
        → HasStatus opts
        → (s : Settings E) → read_settings E S log_init opts ≡ ok s
        → IsSound s
    unfolding read_settings
    read_settings-IsSound log_init opts h s e = Holds-ok IsSound _ e (
        >>=-Holds IsSound (read_file_settings E S opts.config_file) _
          (λ file _. with_file-IsSound log_init opts file h))
