-- ===== src/Env.antt =====
-- What a request handler is given beside its options: the crates that it calls, the disk, and the
-- types of the options that are read from the configuration.
pub mod Options
use static_web_server.Common.{ℕ, Str, Bytes, Bool, Option, List, Result, String}
use static_web_server.Http.{Http, UriParts}
use static_web_server.Fs.Meta.{Disk}

pub record Env : Type 1 where
  pub http : Http
  pub disk : Disk http.Time
  -- the crate percent_encoding
  pub percent_decode : Str → Bytes
  -- `(parsed * 1000_f32) as u16` for `parsed = value.parse::<f32>()`
  pub quality_of : Str → Option ℕ
  -- `String::from_utf8_lossy(bytes).trim()`
  pub lossy_trimmed : Bytes → Str
  -- the crate bcrypt: `verify(password, hash).ok()`
  pub bcrypt_verify : Str → Str → Option Bool
  -- the crates regex and aho_corasick
  pub Regex : Type 0
  pub is_match : Regex → Str → Bool
  pub captures : Regex → Str → Option (List (Option Str))
  pub replace_all : List Str → List Str → Str → Result Str Str
  -- the crate globset
  pub GlobMatcher : Type 0
  pub glob_is_match : GlobMatcher → Str → Bool
  -- `http::Uri`: `parse`, `into_parts`, `from_parts`, and `PathAndQuery`'s `query` and `parse`
  pub parse_uri : Str → Result Str http.Uri
  pub into_parts : http.Uri → UriParts
  pub from_parts : UriParts → Result Str http.Uri
  pub query_of : Str → Option Str
  pub parse_path_and_query : Str → Result Str Str
