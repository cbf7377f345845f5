-- ===== src/DirectoryListing/Page.antt =====
-- src/directory_listing.rs: the pages of a listing. A page in HTML is a list of tags and texts, which
-- the crate maud escapes and writes; JSON is written by the crate serde_json. Both are parameters,
-- and so are the forms of a time and of a name.
pub mod Links
use mathlib.Core.Option
use mathlib.Core.List.{flat_map}
use static_web_server.Common.{
  ℕ, Str, Bytes, Bool, true, false, not, Option, none, some, List, [], ◌∷◌, ◌++◌, codes, equal,
  if◌then◌else◌, String, get_or,
}
use static_web_server.DirectoryListing.{
  FileEntry, FileType, directory, file, SortingAttr, sort_file_entries, format_file_size,
}
use static_web_server.DirectoryListing.Entries.{Found}

pub data Markup : Type 0 where
  doctype : Markup
  -- a tag that has no content, one that has, and the end of one
  lone start : String → List (String × Str) → Markup
  end : String → Markup
  text : Str → Markup

pub data Json : Type 0 where
  string : Str → Json
  number : ℕ → Json

pub record Writer : Type 0 where
  -- `maud::html!`
  pub write_html : List Markup → Str
  -- `serde_json::to_string`, for a list of objects
  pub write_json : List (List (String × Json)) → Option Str
  -- `percent_decode_str(path).decode_utf8_lossy()`
  pub decode_lossy : Str → Str
  -- `name.to_string_lossy()`, and in lower case
  pub name_text : Bytes → Str
  pub name_key : Bytes → Str
  -- the formats of a time, in UTC and in the time zone of the server
  pub format_utc : ℕ → Str
  pub format_local : ℕ → Str
  -- `Display` of an integer, and `{:.2}` of a number of units
  pub decimal : ℕ → Str
  pub fixed2 : ℕ → Str

abbrev page_style : Str
page_style =
    codes "html{background-color:#fff;-moz-osx-font-smoothing:grayscale;-webkit-fon"
    ++ codes "t-smoothing:antialiased;min-width:20rem;text-rendering:optimizeLegibilit"
    ++ codes "y;-webkit-text-size-adjust:100%;-moz-text-size-adjust:100%;text-size-adj"
    ++ codes "ust:100%}:after,:before{box-sizing:border-box;}body{padding:1rem;font-fa"
    ++ codes "mily:Consolas,'Liberation Mono',Menlo,monospace;font-size:.75rem;max-wid"
    ++ codes "th:70rem;margin:0 auto;color:#4a4a4a;font-weight:400;line-height:1.5}h1{"
    ++ codes "margin:0;padding:0;font-size:1rem;line-height:1.25;margin-bottom:0.5rem;"
    ++ codes "}table{width:100%;table-layout:fixed;border-spacing: 0;}hr{border-style:"
    ++ codes " none;border-bottom: solid 1px gray;}table th,table td{padding:.15rem 0;"
    ++ codes "white-space:nowrap;vertical-align:top}table th a,table td a{display:inli"
    ++ codes "ne-block;white-space:nowrap;overflow:hidden;text-overflow:ellipsis;max-w"
    ++ codes "idth:95%;vertical-align:top;}table tr:hover td{background-color:#f5f5f5}"
    ++ codes "footer{padding-top:0.5rem}table tr th{text-align:left;}@media (max-width"
    ++ codes ":30rem){table th:first-child{width:20rem;}}"

abbrev styled : String → List (String × Str)
styled s = ("style", codes s) ∷ []

abbrev link : Str → List (String × Str)
link href = ("href", href) ∷ []

abbrev head_cell : List (String × Str) → Str → String → List Markup
head_cell attrs code title =
    start "th" attrs
    ∷ start "a" (link (codes "?sort=" ++ code))
    ∷ text (codes title)
    ∷ end "a"
    ∷ end "th"
    ∷ []

parent_row : Str → List Markup
parent_row base_path =
    if not (equal base_path (codes "/"))
    then start "tr" []
      ∷ start "td" (("colspan", codes "3") ∷ [])
      ∷ start "a" (link (codes "../"))
      ∷ text (codes "../")
      ∷ end "a"
      ∷ end "td"
      ∷ end "tr"
      ∷ []
    else []

-- the slash behind the name of a directory
abbrev slash_of : FileType → List Markup
slash_of directory = text (codes "/") ∷ []
slash_of file = []

abbrev page_head : Str → List Markup
page_head current_path =
    doctype
    ∷ start "html" []
    ∷ start "head" []
    ∷ lone "meta" (("charset", codes "utf-8") ∷ [])
    ∷ lone "meta" (
        ("name", codes "viewport")
        ∷ ("content", codes "width=device-width,minimum-scale=1,initial-scale=1")
        ∷ [])
    ∷ start "title" []
    ∷ text (codes "Index of ")
    ∷ text current_path
    ∷ end "title"
    ∷ start "style" []
    ∷ text page_style
    ∷ end "style"
    ∷ end "head"
    ∷ []

abbrev page_foot : List Markup
page_foot =
    lone "hr" []
    ∷ start "footer" []
    ∷ start "small" []
    ∷ text (codes "Powered by Static Web Server (SWS) / static-web-server.net")
    ∷ end "small"
    ∷ end "footer"
    ∷ end "body"
    ∷ end "html"
    ∷ []

module _ (W : Writer) where
  mtime_text : Option ℕ → Str
  mtime_text none = codes "-"
  mtime_text (some t) = W.format_local t

  size_text : Option ℕ → Str
  size_text none = codes "-"
  size_text (some n) = format_file_size W.decimal W.fixed2 n

  entry_row : FileEntry → List Markup
  unfolding mtime_text size_text
  entry_row e =
      (start "tr" [] ∷ start "td" [] ∷ start "a" (link e.uri) ∷ text (W.name_text e.name) ∷ [])
      ++ slash_of e.file_type
      ++ (end "a"
          ∷ end "td"
          ∷ start "td" []
          ∷ text (mtime_text e.mtime)
          ∷ end "td"
          ∷ start "td" (("align", codes "right") ∷ [])
          ∷ text (size_text e.size)
          ∷ end "td"
          ∷ end "tr"
          ∷ [])

  head_rows : SortingAttr → List Markup
  head_rows attr =
      (start "thead" [] ∷ start "tr" [] ∷ [])
      ++ head_cell [] attr.name "Name"
      ++ head_cell (styled "width:10rem;") attr.last_modified "Last modified"
      ++ head_cell (styled "width:6rem;text-align:right;") attr.size "Size"
      ++ (end "tr" ∷ end "thead" ∷ [])

  counts : Found → List Markup
  counts f =
      start "p" []
      ∷ start "small" []
      ∷ text (codes "directories: ")
      ∷ text (W.decimal f.dirs_count)
      ∷ text (codes ", files: ")
      ∷ text (W.decimal f.files_count)
      ∷ end "small"
      ∷ end "p"
      ∷ []

  table : Str → List FileEntry × SortingAttr → List Markup
  unfolding head_rows parent_row entry_row
  table base_path (entries, attr) =
      (start "div" (styled "overflow-x: auto;") ∷ start "table" [] ∷ [])
      ++ head_rows attr
      ++ parent_row base_path
      ++ flat_map entry_row entries
      ++ (end "table" ∷ end "div" ∷ [])

  unfoldable pub html_auto_index : Str → Found → ℕ → List Markup
  unfolding counts table
  html_auto_index base_path f order_code =
      let current_path = W.decode_lossy base_path in
      page_head current_path
      ++ (start "body" []
          ∷ start "h1" []
          ∷ text (codes "Index of ")
          ∷ text current_path
          ∷ end "h1"
          ∷ [])
      ++ counts f
      ++ (lone "hr" [] ∷ [])
      ++ table base_path (sort_file_entries W.name_key f.file_entries order_code)
      ++ page_foot

  type_name : FileType → Str
  type_name directory = codes "directory"
  type_name file = codes "file"

  size_field : Option ℕ → List (String × Json)
  size_field none = []
  size_field (some n) = ("size", number n) ∷ []

  -- `Serialize` of an entry: `serialize_name`, `serialize_mtime`, no size if there is none, no URI
  unfoldable pub entry_json : FileEntry → List (String × Json)
  unfolding type_name size_field
  entry_json e =
      (("name", string (W.name_text e.name))
        ∷ ("mtime", string (elim e.mtime [ none ↦ [] | some t ↦ W.format_utc t ]))
        ∷ [])
      ++ size_field e.size
      ++ (("type", string (type_name e.file_type)) ∷ [])

  json_objects : List FileEntry → List (List (String × Json))
  unfolding entry_json
  json_objects [] = []
  json_objects (e ∷ l) = entry_json e ∷ json_objects l

  unfoldable pub json_auto_index : Found → ℕ → Option Str
  unfolding json_objects
  json_auto_index f order_code =
      W.write_json (json_objects (sort_file_entries W.name_key f.file_entries order_code).0)
