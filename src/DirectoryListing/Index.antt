-- ===== src/DirectoryListing/Index.antt =====
-- src/directory_listing.rs: `read_dir_entries` and `auto_index`, and their call in
-- src/static_files.rs. `form_parse` is `form_urlencoded::parse`, whose value is copied where its
-- pairs are counted, so that counting does not use them up.
pub mod Laws
use static_web_server.Common.{
  ℕ, zero, suc, ◌+◌, ◌*◌, ◌-◌, Str, Bytes, Bool, true, false, not, ◌&&◌, Option, none, some, List,
  [], ◌∷◌, codes, leb, ltb, equal, ◌==◌, if◌then◌else◌, Result, ok, err, ◌>>=◌, is_empty, trim,
  get_or, utf8_len,
}
use static_web_server.Http.{Http, Response, Method, is_head, response, insert_header, empty, string}
use static_web_server.Fs.Paths.{parent}
use static_web_server.Fs.Meta.{FileMetadata, ErrorKind}
use static_web_server.StaticFiles.{HandleOpts, open_status}
use static_web_server.DirectoryListing.Entries.{
  DirEntry, Dirs, DirListFmt, html, json, DirEntryOpts, Found, read_entries,
}
use static_web_server.DirectoryListing.Page.{Writer, html_auto_index, json_auto_index}

-- `str::parse::<u8>`
parse_digits : ℕ → Str → Option ℕ
parse_digits n [] = some n
parse_digits n (c ∷ s) =
    let value = n * 10 + (c - b'0') in
    let rest = parse_digits value s in
    if leb b'0' c && leb c b'9' && leb value 255 then rest else none

unfoldable pub parse_u8 : Str → Option ℕ
unfolding parse_digits
parse_u8 [] = none
parse_u8 (c ∷ s) =
    if c == b'+' && not (is_empty s) then parse_digits 0 s else parse_digits 0 (c ∷ s)

-- The order code that the first pair of the query asks for, or the one of the options.
first_sort : List (Str × Str) → ℕ → ℕ
first_sort [] order_code = order_code
first_sort ((key, value) ∷ _) order_code =
    if equal key (codes "sort") && not (is_empty (trim value))
    then get_or (parse_u8 value) order_code
    else order_code

unfoldable pub sort_code : (Str → List (Str × Str)) → Option Str → ℕ → ℕ
unfolding first_sort
sort_code form_parse none order_code = order_code
sort_code form_parse (some q) order_code = first_sort (form_parse q) order_code

-- `DirListOpts`
pub record DirListOpts : Type 0 where
  pub method : Method
  pub current_path : Str
  pub uri_query : Option Str
  pub filepath : Bytes
  pub dir_listing_order : ℕ
  pub dir_listing_format : DirListFmt
  pub ignore_hidden_files : Bool
  pub disable_symlinks : Bool

unfoldable pub entry_opts : DirListOpts → DirEntryOpts
entry_opts opts = record {
  base_path = opts.current_path;
  uri_query = opts.uri_query;
  is_head = is_head opts.method;
  order_code = opts.dir_listing_order;
  content_format = opts.dir_listing_format;
  ignore_hidden_files = opts.ignore_hidden_files;
  disable_symlinks = opts.disable_symlinks;
}

module _ (H : Http) (W : Writer) (form_parse : Str → List (Str × Str)) where
  page_reply : Bool → H.Mime → Str → Response H
  page_reply is_head mime content =
      let resp =
        insert_header H (insert_header H (response H empty) "content-type" (H.content_type mime))
          "content-length" (H.content_length (utf8_len content)) in
      if is_head then resp else record resp { body = string content }

  json_reply : Bool → Option Str → Result Str (Response H)
  unfolding page_reply
  json_reply is_head none = err (codes "serialization error")
  json_reply is_head (some content) = ok (page_reply is_head H.application_json content)

  list_reply : DirEntryOpts → Found → ℕ → DirListFmt → Result Str (Response H)
  unfolding page_reply json_reply
  list_reply opt f order_code json = json_reply opt.is_head (json_auto_index W f order_code)
  list_reply opt f order_code html = ok (
      page_reply opt.is_head H.text_html_utf8
        (W.write_html (html_auto_index W opt.base_path f order_code)))

  unfoldable pub read_dir_entries :
      Dirs H.Time → List (Option (DirEntry H.Time)) → DirEntryOpts → Result Str (Response H)
  unfolding list_reply
  read_dir_entries D dir_reader opt =
      read_entries D opt dir_reader (record { dirs_count = 0; files_count = 0; file_entries = [] })
      >>= λ f.
          list_reply opt f (sort_code form_parse opt.uri_query opt.order_code) opt.content_format

  abbrev or_500 : Result Str (Response H) → Result ℕ (Response H)
  or_500 (ok resp) = ok resp
  or_500 (err _) = err 500

  unfoldable pub auto_index : Dirs H.Time → DirListOpts → Result ℕ (Response H)
  unfolding entry_opts read_dir_entries
  auto_index D opts = elim (D.read_dir (get_or (parent opts.filepath) opts.filepath)) [
    | err kind ↦ err (open_status kind)
    | ok dir_reader ↦ or_500 (read_dir_entries D dir_reader (entry_opts opts))
  ]

  -- the call in `static_files::handle`, with the order and the format of its options
  unfoldable pub auto_index_of :
      Dirs H.Time → HandleOpts H → ℕ → DirListFmt → FileMetadata H.Time → Result ℕ (Response H)
  auto_index_of D opts order format f = auto_index D (record {
    method = opts.method;
    current_path = opts.uri_path;
    uri_query = opts.uri_query;
    filepath = f.file_path;
    dir_listing_order = order;
    dir_listing_format = format;
    ignore_hidden_files = opts.ignore_hidden_files;
    disable_symlinks = opts.disable_symlinks;
  })
