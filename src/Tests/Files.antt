-- ===== src/Tests/Files.antt =====
-- Paths and files.
use static_web_server.Common.{
  ℕ, Str, Bytes, Bool, true, false, ◌≡◌, refl, Option, none, some, List, [], ◌∷◌, ◌++◌, codes,
  if◌then◌else◌, Result, ok, err, All, ◌⊎◌, inl, inr, ◌||◌, ◌&&◌, keep, ◌<◌, ◌≤◌, starts_with,
  arith,
}
use static_web_server.Http.{Method, ContentCoding, Response, file_stream}
use static_web_server.Fs.Paths.{
  Component, root_dir, normal, components, push, is_utf8, pop, set_file_name,
}
use static_web_server.Fs.Paths.Laws.{IsName}
use static_web_server.Fs.Sanitize.{is_normal, decode_tail_path, sanitize_path, is_hidden}
use static_web_server.Fs.Sanitize.Laws.{AreNames, sanitize_path-components, is_hidden-push}
use static_web_server.Fs.Meta.{Metadata, FileMetadata}
use static_web_server.Fs.Stream.{FileStream, ReadEvent, gives, collect, optimal_buf_size}
use static_web_server.Fs.Stream.Laws.{Delivers, Progresses, collect-Delivers}
use static_web_server.CompressionStatic.{precompressed_variant}
use static_web_server.CompressionStatic.Laws.{FirstOf, precompressed_variant-FirstOf}
use static_web_server.HeadersExt.Accept.{get_encodings}
use static_web_server.StaticFiles.{
  LookupOpts, HandleOpts, StaticFileResponse, get_composed_file_metadata, handle,
}
use static_web_server.StaticFiles.Sibling.{IsOutside, get_composed_file_metadata_sibling}
use static_web_server.StaticFiles.Guards.{IsGuarded, handle-IsGuarded}
use static_web_server.Tests.Http.{http}
use static_web_server.Tests.Disk.{disk, file_meta, dir_meta}

abbrev root : Bytes
root = codes "/srv/public"

abbrev id_decode : Str → Bytes
id_decode s = s

abbrev half : Str → Option ℕ
half s = some 500

sanitized : sanitize_path id_decode root (codes "//../a/./b.txt") ≡ ok (codes "/srv/public/a/b.txt")
unfolding sanitize_path components static_web_server.Common.trim_start_matches
    static_web_server.Common.split_on static_web_server.Common.equal
    static_web_server.Fs.Paths.piece static_web_server.Common.is_empty
    static_web_server.Fs.Sanitize.join_component push static_web_server.Common.ends_with
sanitized = refl

sanitize_path-components_example :
    (p : Bytes) × (names : List Component) × (sanitize_path id_decode root (codes "/../a.txt")
      ≡ ok p)
    × (components p ≡ components root ++ names)
    × (names ≡ keep is_normal (components (decode_tail_path id_decode (codes "/../a.txt"))))
    × AreNames names
sanitize_path-components_example = sanitize_path-components id_decode root (codes "/../a.txt")

sanitized_dot : sanitize_path id_decode root (codes "/.git/x") ≡ ok (codes "/srv/public/.git/x")
unfolding sanitize_path components static_web_server.Common.trim_start_matches
    static_web_server.Common.split_on static_web_server.Common.equal
    static_web_server.Fs.Paths.piece static_web_server.Common.is_empty
    static_web_server.Fs.Sanitize.join_component push static_web_server.Common.ends_with
sanitized_dot = refl

-- a slash at the end is no name
popped : pop (codes "/a/b/") ≡ codes "/a"
unfolding pop static_web_server.Common.split_on static_web_server.Common.equal
    static_web_server.Common.is_empty
popped = refl

renamed : set_file_name (codes "/a/b/") (codes "c") ≡ codes "/a/c"
unfolding set_file_name pop push static_web_server.Common.split_on static_web_server.Common.equal
    static_web_server.Common.is_empty static_web_server.Common.ends_with
renamed = refl

abbrev not_utf8 : Bytes
not_utf8 = b'.' ∷ 255 ∷ []

not_utf8-IsName : IsName not_utf8
not_utf8-IsName = (λ e. cc, λ e. cc, λ e. cc, (λ e. omega (arith, e), (λ e. omega (arith, e), tt)))

is_hidden-push_example :
    is_hidden (push root not_utf8)
    ≡ (is_hidden root || (is_utf8 not_utf8 && starts_with b'.' not_utf8))
is_hidden-push_example = is_hidden-push root not_utf8 not_utf8-IsName

abbrev stream : FileStream
stream = record { reader = codes "hello"; buf_size = 2 }

abbrev reads : List ReadEvent
reads = gives 2 ∷ gives 1 ∷ gives 9 ∷ gives 1 ∷ gives 1 ∷ gives 1 ∷ []

collected : collect reads stream ≡ some (codes "he" ∷ codes "l" ∷ codes "lo" ∷ [])
unfolding collect static_web_server.Fs.Stream.poll_next
collected = refl

reads-Progress : All Progresses reads
reads-Progress = ground arith

collect-Delivers_example : Delivers (codes "hello") 2 (collect reads stream)
collect-Delivers_example =
    collect-Delivers reads stream reads-Progress (omega arith) (inl (omega arith))

abbrev br : http.HeaderMap
br = ("accept-encoding", codes "br") ∷ []

precompressed_variant-FirstOf_example :
    FirstOf disk
      (codes "/srv/public/a.txt")
      (get_encodings half http br)
      (precompressed_variant half http disk (codes "/srv/public/a.txt") br)
precompressed_variant-FirstOf_example =
    precompressed_variant-FirstOf half http disk (codes "/srv/public/a.txt") br

abbrev lookup_br : LookupOpts http
lookup_br = record {
  headers = br;
  compression_static = true;
  index_files = codes "index.html" ∷ [];
  disable_symlinks = false;
}

abbrev lookup_plain : LookupOpts http
lookup_plain = record {
  headers = [];
  compression_static = false;
  index_files = codes "index.html" ∷ [];
  disable_symlinks = false;
}

-- a text that stands for one entry of a directory
srv-IsName : IsName (codes "srv")
srv-IsName = (λ e. cc, λ e. cc, λ e. cc, ground arith)

public-IsName : IsName (codes "public")
public-IsName = (λ e. cc, λ e. cc, λ e. cc, ground arith)

index-IsName : IsName (codes "index.html")
index-IsName = (λ e. cc, λ e. cc, λ e. cc, ground arith)

get_composed_file_metadata_sibling_example :
    (get_composed_file_metadata half http disk lookup_plain root
      ≡ ok (record {
        file_path = codes "/srv/public.html";
        metadata = file_meta 7;
        is_dir = true;
        precompressed_variant = none;
      }))
    × IsOutside root (codes "/srv/public.html")
unfolding static_web_server.Common.equal
get_composed_file_metadata_sibling_example =
    get_composed_file_metadata_sibling half http disk lookup_plain [] (codes "srv") (codes "public")
      (codes "index.html") [] dir_meta (file_meta 7) srv-IsName public-IsName index-IsName refl refl
      refl refl refl refl refl

abbrev get_a : HandleOpts http
get_a = record {
  method = Method.get;
  headers = [];
  base_path = root;
  uri_path = codes "/a.txt";
  index_files = codes "index.html" ∷ [];
  uri_query = none;
  dir_listing = false;
  redirect_trailing_slash = true;
  compression_static = false;
  ignore_hidden_files = true;
  disable_symlinks = true;
}

no_listing : FileMetadata ℕ → Result ℕ (Response http)
no_listing f = err 500

abbrev served : StaticFileResponse http
served = record {
  resp = record {
    status = 200;
    headers =
        ("last-modified", codes "5")
        ∷ ("accept-ranges", codes "bytes")
        ∷ ("content-type", codes "text/html")
        ∷ ("content-length", codes "9")
        ∷ [];
    body = file_stream (codes "/srv/public/a.txt") 0 9 9;
  };
  file_path = codes "/srv/public/a.txt";
}

handled : handle http id_decode half get_a disk no_listing ≡ ok served
unfolding handle no_listing static_web_server.Http.is_allowed static_web_server.Http.method_eq
    sanitize_path get_composed_file_metadata static_web_server.Fs.Meta.try_metadata
    static_web_server.Common.equal components static_web_server.Common.trim_start_matches
    static_web_server.Common.split_on static_web_server.Fs.Paths.piece
    static_web_server.Common.is_empty static_web_server.Fs.Sanitize.join_component push
    static_web_server.Common.ends_with is_hidden static_web_server.StaticFiles.file_metadata
    static_web_server.StaticFiles.variant_or is_utf8 starts_with static_web_server.Conditional.check
    static_web_server.Conditional.conditional_headers static_web_server.Fs.Paths.file_name
    static_web_server.Fs.Paths.pieces static_web_server.Fs.Paths.relative decode_tail_path
    static_web_server.Fs.Stream.get_block_size optimal_buf_size static_web_server.Http.is_options
    static_web_server.Response.bytes_range static_web_server.Response.one_range
    static_web_server.Response.response_body static_web_server.StaticFiles.file_reply
    static_web_server.StaticFiles.respond
handled = refl

handle-IsGuarded_example : IsGuarded http id_decode get_a disk served
handle-IsGuarded_example = handle-IsGuarded http id_decode half get_a disk no_listing served handled
