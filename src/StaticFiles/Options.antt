-- ===== src/StaticFiles/Options.antt =====
-- `HandleOpts`, and `Option::is_some`.
use static_web_server.Common.{Str, Bytes, Bool, true, false, Option, none, some, List}
use static_web_server.Http.{Http, Method}

-- The options of the directory listing but its flag belong to the listing.
pub record HandleOpts (H : Http) : Type 0 where
  pub method : Method
  pub headers : H.HeaderMap
  pub base_path : Bytes
  pub uri_path : Str
  pub index_files : List Bytes
  pub uri_query : Option Str
  pub dir_listing : Bool
  pub redirect_trailing_slash : Bool
  pub compression_static : Bool
  pub ignore_hidden_files : Bool
  pub disable_symlinks : Bool

abbrev pub is_some {ℓ} : {A : Type ℓ} → Option A → Bool
is_some none = false
is_some (some _) = true
