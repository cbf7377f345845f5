-- ===== src/Fs/Sanitize.antt =====
-- src/fs/path.rs: `sanitize_path`, which joins a request path to the root directory, and
-- `is_hidden`. The percent decoder is a crate's: the parameter `percent_decode`.
pub mod Laws
use mathlib.Core.List.{foldl}
use static_web_server.Common.{
  ℕ, Str, Bytes, Bool, true, false, ◌&&◌, List, [], ◌∷◌, all, any, if◌then◌else◌, Result, ok,
  trim_start_matches, starts_with,
}
use static_web_server.Fs.Paths.{
  Component, root_dir, cur_dir, parent_dir, prefix, normal, components, push, is_utf8,
}

abbrev pub is_normal : Component → Bool
is_normal (normal s) = true
is_normal _ = false

-- one round of the loop of `sanitize_path`
unfoldable pub join_component : Bytes → Component → Bytes
join_component full_path (normal comp) =
    if all is_normal (components comp) then push full_path comp else full_path
join_component full_path cur_dir = full_path
join_component full_path root_dir = full_path
join_component full_path parent_dir = full_path
join_component full_path (prefix _) = full_path

unfoldable pub decode_tail_path : (Str → Bytes) → Str → Bytes
decode_tail_path percent_decode tail = percent_decode (trim_start_matches b'/' tail)

abbrev pub join_all : Bytes → List Component → Bytes
join_all full_path [] = full_path
join_all full_path (c ∷ cs) = join_all (join_component full_path c) cs

-- It never fails, and has the type of what may, as in the source.
unfoldable pub sanitize_path : (Str → Bytes) → Bytes → Str → Result ℕ Bytes
unfolding decode_tail_path
sanitize_path percent_decode base tail =
    ok (join_all base (components (decode_tail_path percent_decode tail)))

-- A name that is not UTF-8 is dropped before the test for the dot.
abbrev pub is_hidden_component : Component → Bool
is_hidden_component (normal s) = is_utf8 s && starts_with b'.' s
is_hidden_component _ = false

unfoldable pub is_hidden : Bytes → Bool
is_hidden p = any is_hidden_component (components p)
