-- ===== src/Tests/Disk.antt =====
-- A disk with a few files below /srv, and the environment of a handler.
use static_web_server.Common.{
  ℕ, Str, Bytes, true, false, Option, none, some, List, [], ◌∷◌, codes, if◌then◌else◌, equal, ok,
  get_or,
}
use static_web_server.Fs.Meta.{Metadata, Disk, not_found}
use static_web_server.DirectoryListing.Entries.{DirListFmt}
use static_web_server.Env.{Env}
use static_web_server.Env.Options.{RequestHandlerOpts, CompressionLevel}
use static_web_server.Tests.Http.{http}

abbrev pub file_meta : ℕ → Metadata ℕ
file_meta n = record { is_dir = false; is_file = true; len = n; modified = some 5; blksize = 4096 }

abbrev pub dir_meta : Metadata ℕ
dir_meta = record { is_dir = true; is_file = false; len = 0; modified = some 5; blksize = 4096 }

abbrev pub lookup : Bytes → List (Bytes × Metadata ℕ) → Option (Metadata ℕ)
lookup p [] = none
lookup p ((q, m) ∷ l) = if equal p q then some m else lookup p l

abbrev pub files : List (Bytes × Metadata ℕ)
files =
    (codes "/srv/public", dir_meta)
    ∷ (codes "/srv/public/a.txt", file_meta 9)
    ∷ (codes "/srv/public/a.txt.br", file_meta 4)
    ∷ (codes "/srv/public.html", file_meta 7)
    ∷ []

abbrev pub disk : Disk ℕ
disk = record {
  metadata = λ p. lookup p files;
  is_symlink = λ p. false;
  open_error = λ p. elim (lookup p files) [ none ↦ some not_found | some _ ↦ none ];
  seek_fails = λ p n. false;
  read = λ p. none;
}

-- Each item of `Accept-Encoding` with a `q` has the quality 500; a pattern is a path, matched whole.
abbrev pub env : Env
env = record {
  http = http;
  disk = disk;
  percent_decode = λ s. s;
  quality_of = λ s. some 500;
  lossy_trimmed = λ b. b;
  bcrypt_verify = λ p h. some (equal p h);
  Regex = Str;
  is_match = λ r s. equal r s;
  captures = λ r s. if equal r s then some (some s ∷ []) else none;
  replace_all = λ ps cs s. ok s;
  GlobMatcher = Str;
  glob_is_match = λ g s. equal g s;
  parse_uri = λ s. ok s;
  into_parts = λ u. record { scheme = none; authority = none; path_and_query = some u };
  from_parts = λ p. ok (get_or p.path_and_query []);
  query_of = λ s. none;
  parse_path_and_query = λ s. ok s;
}

-- the options of a server for /srv/public, with nothing switched on
abbrev pub plain_opts : RequestHandlerOpts env
plain_opts = record {
  root_dir = codes "/srv/public";
  compression = false;
  compression_level = CompressionLevel.default;
  compression_static = false;
  dir_listing = false;
  dir_listing_order = 6;
  dir_listing_format = DirListFmt.html;
  cors = none;
  security_headers = false;
  cache_control_headers = false;
  page404 = codes "/srv/404.html";
  page50x = codes "/srv/50x.html";
  page_fallback = [];
  basic_auth = [];
  index_files = codes "index.html" ∷ [];
  log_remote_address = false;
  log_forwarded_for = false;
  trusted_proxies = [];
  redirect_trailing_slash = true;
  ignore_hidden_files = false;
  disable_symlinks = false;
  health = false;
  maintenance_mode = false;
  maintenance_mode_status = 503;
  maintenance_mode_file = [];
  advanced_opts = none;
}
