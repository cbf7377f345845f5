-- ===== src/DirectoryListing/Index/Laws.antt =====
-- The reply with a listing.
use static_web_server.Common.{
  some-inj, ℕ, Str, Bool, true, false, ◌≡◌, refl, ap, Option, some, List, [], if◌then◌else◌, ok,
  get_or, utf8_len,
}
use static_web_server.Http.{Http, Response, is_head, empty, string, get}
use static_web_server.Http.Laws.{get-insert}
use static_web_server.Fs.Paths.{parent}
use static_web_server.DirectoryListing.Entries.{
  DirEntry, Dirs, DirListFmt, html, json, DirEntryOpts, Found, read_entries,
}
use static_web_server.DirectoryListing.Page.{Writer, html_auto_index, json_auto_index}
use static_web_server.DirectoryListing.Index.{
  DirListOpts, sort_code, entry_opts, page_reply, json_reply, list_reply, read_dir_entries,
  auto_index,
}

abbrev pub no_entries : Found
no_entries = record { dirs_count = 0; files_count = 0; file_entries = [] }

-- the text of a listing in a format; `none` if it cannot be written
abbrev pub content_of : Writer → DirListFmt → Str → Found → ℕ → Option Str
content_of W html base_path f code = some (W.write_html (html_auto_index W base_path f code))
content_of W json base_path f code = json_auto_index W f code

module _ (H : Http) where
  abbrev pub mime_of : DirListFmt → H.Mime
  mime_of html = H.text_html_utf8
  mime_of json = H.application_json

  -- A reply with a content, or for a HEAD request with its headers only.
  pub record IsListing (head : Bool) (format : DirListFmt) (content : Str) (r : Response H)
      : Type 0 where
    pub status : r.status ≡ 200
    pub content_type : get H r.headers "content-type" ≡ some (H.content_type (mime_of format))
    pub content_length :
        get H r.headers "content-length" ≡ some (H.content_length (utf8_len content))
    pub body : r.body ≡ (if head then empty else string content)

  module _ (W : Writer) (form_parse : Str → List (Str × Str)) where
    page_reply-IsListing :
        (head : Bool) (format : DirListFmt) (content : Str)
        → IsListing head format content (page_reply H W form_parse head (mime_of format) content)
    unfolding page_reply
    page_reply-IsListing true format content = record {
      status = refl;
      content_type = simp (get-insert H);
      content_length = simp (get-insert H);
      body = refl;
    }
    page_reply-IsListing false format content = record {
      status = refl;
      content_type = simp (get-insert H);
      content_length = simp (get-insert H);
      body = refl;
    }

    list_reply-IsListing :
        (opt : DirEntryOpts) (f : Found) (code : ℕ) (format : DirListFmt) (content : Str)
        → content_of W format opt.base_path f code ≡ some content
        → (r : Response H) × (list_reply H W form_parse opt f code format ≡ ok r)
          × IsListing opt.is_head format content r
    unfolding list_reply json_reply
    list_reply-IsListing opt f code html content e = (
      page_reply H W form_parse opt.is_head H.text_html_utf8 content,
      ap (λ c. ok (page_reply H W form_parse opt.is_head H.text_html_utf8 c)) (some-inj e),
      page_reply-IsListing opt.is_head html content,
    )
    list_reply-IsListing opt f code json content e = (
      page_reply H W form_parse opt.is_head H.application_json content,
      rw (json_reply, e) refl,
      page_reply-IsListing opt.is_head json content,
    )

    -- When the directory above the path can be read, each of its entries too, and the text of the
    -- listing be written, the reply is that text, with its length and the type of its format; a HEAD
    -- request gets the same headers and no body. The order is the one that the query asks for.
    pub auto_index-IsListing :
        (D : Dirs H.Time) (opts : DirListOpts) (l : List (Option (DirEntry H.Time))) (f : Found)
        (content : Str)
        → D.read_dir (get_or (parent opts.filepath) opts.filepath) ≡ ok l
        → read_entries D (entry_opts opts) l no_entries ≡ ok f
        → content_of W opts.dir_listing_format opts.current_path f
            (sort_code form_parse opts.uri_query opts.dir_listing_order)
          ≡ some content
        → (r : Response H) × (auto_index H W form_parse D opts ≡ ok r)
          × IsListing (is_head opts.method) opts.dir_listing_format content r
    unfolding auto_index entry_opts read_dir_entries
    auto_index-IsListing D opts l f content reads each text =
        let (r, made, is) =
          list_reply-IsListing (entry_opts opts) f
            (sort_code form_parse opts.uri_query opts.dir_listing_order) opts.dir_listing_format
            content text in
        (r, rw (auto_index, reads, read_dir_entries, each, made) refl, is)
