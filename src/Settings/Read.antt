-- ===== src/Settings/Read.antt =====
-- `Settings::read` of src/settings/mod.rs, with what it calls of src/settings/file.rs and
-- src/helpers.rs. An error is a text. The crates clap, toml, globset and regex, and what the disk
-- answers at the start, are parameters.
use static_web_server.Common.{
  ℕ, zero, suc, ◌-◌, Str, Bytes, Bool, false, not, ◌&&◌, Option, none, some, List, [], ◌∷◌, ◌++◌,
  codes, equal, if◌then◌else◌, Result, ok, err, ◌>>=◌, strip_prefix, rsplit_once, is_empty, length,
}
use static_web_server.Env.{Env}
use static_web_server.Env.Options.{
  RedirectsKind, permanent, temporary, Headers, Rewrites, Redirects, VirtualHosts, Advanced,
}
use static_web_server.Fs.Paths.{file_name, is_utf8}
use static_web_server.Settings.{
  General, FileGeneral, merge, FileHeaders, FileRewrites, FileRedirects, FileVirtualHosts,
  FileAdvanced, FileSettings,
}

-- `s.replace(from, to)`, for a `from` that is not empty: `skip` is how much of a match is left.
replace_from : Str → Str → ℕ → Str → Str
replace_from from to n [] = []
replace_from from to (suc n) (c ∷ s) = replace_from from to n s
replace_from from to zero (c ∷ s) = elim (strip_prefix from (c ∷ s)) [
  | none ↦ c ∷ replace_from from to zero s
  | some _ ↦ to ++ replace_from from to (length from - 1) s
]

unfoldable pub replace : Str → Str → Str → Str
unfolding replace_from
replace s from to = replace_from from to 0 s

-- `s.trim_start_matches(prefix)`; each round takes a character at least.
trim_rounds : ℕ → Str → Str → Str
trim_rounds zero prefix s = s
trim_rounds (suc n) prefix s = elim (strip_prefix prefix s) [
  | none ↦ s
  | some rest ↦ trim_rounds n prefix rest
]

unfoldable pub trim_start_str : Str → Str → Str
unfolding trim_rounds
trim_start_str prefix s = trim_rounds (length s) prefix s

-- `Path::extension`
unfoldable pub extension : Bytes → Option Bytes
extension path = elim (file_name path) [
  | none ↦ none
  | some name ↦ elim (rsplit_once b'.' name) [
    | none ↦ none
    | some (stem, ext) ↦ if is_empty stem then none else some ext
  ]
]

pub record Source (E : Env) : Type 1 where
  -- `Path::is_file`, `Path::exists`, `Path::is_dir`, `Path::canonicalize`, `std::fs::read`
  pub is_file : Bytes → Bool
  pub exists : Bytes → Bool
  pub is_dir : Bytes → Bool
  pub canonicalize : Bytes → Option Bytes
  pub read : Bytes → Option Bytes
  -- `str::parse::<toml::Value>`, and `serde_ignored::deserialize`
  pub Value : Type 0
  pub parse_toml : Str → Option Value
  pub deserialize : Value → Option (FileSettings E.http)
  -- `StatusCode::from_u16`
  pub from_u16 : ℕ → Option ℕ
  -- `Glob::new(s)?.compile_matcher()`; with `literal_separator` the glob's regular expression
  pub compile_glob : Str → Option E.GlobMatcher
  pub literal_glob_regex : Str → Option Str
  -- `Regex::new`
  pub compile_regex : Str → Option E.Regex
  -- `logger::init(level).is_ok()`
  pub logger_init : Str → Bool

pub record Settings (E : Env) : Type 0 where
  pub general : General
  pub advanced : Option (Advanced E)

abbrev pub or_error {ℓ} : {A : Type ℓ} → Option A → Str → Result Str A
or_error none e = err e
or_error (some a) e = ok a

-- `for entry in entries { vec.push(f(entry)?) }`
unfoldable pub try_map : {A B : Type 0} → (A → Result Str B) → List A → Result Str (List B)
try_map f [] = ok []
try_map f (a ∷ l) = f a >>= λ b. try_map f l >>= λ bs. ok (b ∷ bs)

abbrev pub try_some : {A B : Type 0} → (A → Result Str B) → Option A → Result Str (Option B)
try_some f none = ok none
try_some f (some a) = f a >>= λ b. ok (some b)

-- the regular expression that a pattern of a rewrite or a redirect stands for
unfoldable pub pattern_of : Str → Str
pattern_of regex =
    replace
      (replace (replace (trim_start_str (codes "(?-u)") regex) (codes "?:.*") (codes ".*"))
        (codes "?:") [])
      (codes ".*.*") (codes ".*")

abbrev pub kind_code : RedirectsKind → ℕ
kind_code permanent = 301
kind_code temporary = 302

module _ (E : Env) (S : Source E) where
  unfoldable pub get_valid_dirpath : Bytes → Result Str Bytes
  get_valid_dirpath path =
      if not (S.exists path)
      then err (codes "path was not found or inaccessible")
      else if not (S.is_dir path)
      then err (codes "path is not a valid directory")
      else ok path

  read_file : Bytes → Result Str Str
  read_file path = or_error (S.read path) (codes "failed to read file") >>= λ b.
      if is_utf8 b then ok b else err (codes "path was not valid utf-8")

  is_toml : Option Bytes → Bool
  is_toml none = false
  is_toml (some ext) = not (is_empty ext) && equal ext (codes "toml")

  -- `file::Settings::read`
  unfoldable pub read_settings_file : Bytes → Result Str (FileSettings E.http)
  unfolding read_file is_toml
  read_settings_file config_file =
      if not (is_toml (extension config_file))
      then err (codes "configuration file should be in toml format")
      else read_file config_file >>= λ s.
          or_error (S.parse_toml s) (codes "could not parse input as TOML") >>= λ toml.
          or_error (S.deserialize toml) (codes "error during toml deserialization")

  unfoldable pub read_file_settings : Bytes → Result Str (Option (FileSettings E.http × Bytes))
  read_file_settings config_file =
      if S.is_file config_file
      then or_error (S.canonicalize config_file) (codes "unable to resolve path")
        >>= (λ resolved. read_settings_file resolved >>= λ settings. ok (some (settings, resolved)))
      else ok none

  unfoldable pub compile_header : FileHeaders E.http → Result Str (Headers E)
  compile_header e =
      or_error (S.compile_glob e.source) (codes "can not compile glob pattern") >>= λ source.
      ok (record { source = source; headers = e.headers })

  unfoldable pub compile_source : Str → Result Str E.Regex
  unfolding pattern_of
  compile_source source =
      or_error (S.literal_glob_regex source) (codes "can not compile glob pattern") >>= λ regex.
      or_error (S.compile_regex (pattern_of regex)) (codes "can not compile regex pattern")

  unfoldable pub compile_rewrite : FileRewrites → Result Str (Rewrites E)
  compile_rewrite e = compile_source e.source >>= λ source.
      ok (record { source = source; destination = e.destination; redirect = e.redirect })

  unfoldable pub compile_redirect : FileRedirects → Result Str (Redirects E)
  compile_redirect e = compile_source e.source >>= λ source.
      or_error (S.from_u16 (kind_code e.kind)) (codes "invalid redirect status code") >>= λ kind.
      ok (record { host = e.host; source = source; destination = e.destination; kind = kind })

  -- the loop over the virtual hosts, which leaves out those without a root
  unfoldable pub valid_hosts : List FileVirtualHosts → Result Str (List (VirtualHosts E))
  valid_hosts [] = ok []
  valid_hosts (e ∷ l) = elim e.root [
    | none ↦ valid_hosts l
    | some root ↦ get_valid_dirpath root >>= λ root_dir.
        valid_hosts l >>= λ rest. ok (record { host = e.host; root = root_dir } ∷ rest)
  ]

  unfoldable pub read_advanced : FileAdvanced E.http → Result Str (Advanced E)
  unfolding compile_header compile_rewrite compile_redirect compile_source
  read_advanced a = try_some (try_map compile_header) a.headers >>= λ headers.
      try_some (try_map compile_rewrite) a.rewrites >>= λ rewrites.
      try_some (try_map compile_redirect) a.redirects >>= λ redirects.
      try_some valid_hosts a.virtual_hosts >>= λ virtual_hosts. ok (record {
        headers = headers;
        rewrites = rewrites;
        redirects = redirects;
        virtual_hosts = virtual_hosts;
      })

  -- the status of the maintenance mode, if the file has one
  unfoldable pub status_of : Option ℕ → ℕ → Result Str ℕ
  status_of none status = ok status
  status_of (some v) status = or_error (S.from_u16 v) (codes "invalid HTTP status code")

  unfoldable pub read_general : Option FileGeneral → Bytes → General → Result Str General
  unfolding status_of
  read_general none resolved opts = ok (record opts { config_file = resolved })
  read_general (some file) resolved opts =
      status_of file.maintenance_mode_status opts.maintenance_mode_status >>= λ status.
      ok (merge file status resolved opts)

  -- the options once the log is set up at their level
  unfoldable pub init_log : Bool → General → Result Str General
  init_log log_init general =
      if log_init && not (S.logger_init general.log_level) then err (codes "logger") else ok general

  unfoldable pub with_file :
      Bool → General → Option (FileSettings E.http × Bytes) → Result Str (Settings E)
  unfolding init_log
  with_file log_init opts none =
      init_log log_init opts >>= λ general. ok (record { general = general; advanced = none })
  with_file log_init opts (some (settings, resolved)) =
      read_general settings.general resolved opts >>= λ merged.
      init_log log_init merged >>= λ general.
      try_some read_advanced settings.advanced >>= λ advanced.
      ok (record { general = general; advanced = advanced })

  -- `read`, after the arguments are parsed
  unfoldable pub read_settings : Bool → General → Result Str (Settings E)
  read_settings log_init opts =
      read_file_settings opts.config_file >>= λ file. with_file log_init opts file
