-- ===== src/ErrorPage.antt =====
-- src/error_page.rs and src/maintenance_mode.rs: pages for errors and for maintenance.
pub mod Laws
use static_web_server.Common.{
  ℕ, Str, Bytes, Bool, true, false, not, Option, none, some, ◌++◌, codes, if◌then◌else◌, ◌==◌, ◌||◌,
  Result, ok, err, utf8_len, is_empty, List, [], ◌∷◌, any, get_or,
}
use static_web_server.Http.{
  Http, Response, Method, Body, empty, string, is_head, response, insert_header, set_status,
}
use static_web_server.Fs.Meta.{Disk}
use static_web_server.Env.{Env}
use static_web_server.Env.Options.{RequestHandlerOpts}

-- the statuses of each of the two lists
abbrev pub statuses_4xx : List ℕ
statuses_4xx =
    400 ∷ 401 ∷ 402 ∷ 403 ∷ 404 ∷ 405 ∷ 406 ∷ 407 ∷ 408 ∷ 409 ∷ 410 ∷ 411 ∷ 412 ∷ 413 ∷ 414 ∷ 415
    ∷ 416 ∷ 417 ∷ []

abbrev pub statuses_50x : List ℕ
statuses_50x = 500 ∷ 501 ∷ 502 ∷ 503 ∷ 504 ∷ 505 ∷ 506 ∷ 507 ∷ 508 ∷ []

abbrev pub listed : List ℕ → ℕ → Bool
listed l status = any (λ s. s == status) l

module _ (E : Env) where
  -- `Path::is_file`
  abbrev pub is_file : Bytes → Bool
  is_file path = elim (E.disk.metadata path) [ none ↦ false | some m ↦ m.is_file ]

  -- `helpers::read_bytes_default`, as text with the white space around it off
  abbrev pub read_page : Bytes → Str
  read_page path = E.lossy_trimmed (get_or (E.disk.read path) [])

  page_if_file : Bytes → Str
  page_if_file path = if is_file path then read_page path else []

  unfoldable pub page_content : ℕ → Bytes → Bytes → Str
  unfolding page_if_file
  page_content status_code page404 page50x =
      if listed statuses_4xx status_code
      then (if status_code == 404 then page_if_file page404 else [])
      else if listed statuses_50x status_code
      then page_if_file page50x
      else []

  unfoldable pub default_page : ℕ → Str
  default_page status_code =
      let line =
        E.http.status_str status_code ++ codes " " ++ E.http.canonical_reason status_code in
      codes "<html><head><title>"
      ++ line
      ++ codes "</title></head><body><center><h1>"
      ++ line
      ++ codes "</h1></center></body></html>"

  -- a page as a response: the body is left out for HEAD, and its length is given all the same
  unfoldable pub page_response : Method → ℕ → Str → Response E.http
  page_response method status_code content =
      let H = E.http in
      let body = if not (is_head method) then string content else empty in
      insert_header H
        (insert_header H
          (insert_header H (set_status H (response H body) status_code) "content-type"
            (H.content_type H.text_html_utf8))
          "content-length" (H.content_length (utf8_len content)))
        "accept-ranges" H.accept_ranges_bytes

  -- `error_response`; it never fails
  unfoldable pub error_response :
      E.http.Uri → Method → ℕ → Bytes → Bytes → Result Str (Response E.http)
  error_response uri method status_code page404 page50x =
      let found = page_content status_code page404 page50x in
      ok (
        page_response method status_code
          (if is_empty found then default_page status_code else found))

  -- src/maintenance_mode.rs: `get_response`
  unfoldable pub maintenance_content : ℕ → Bytes → Str
  maintenance_content status_code file_path =
      if is_file file_path
      then read_page file_path
      else codes "<html><head><title>"
        ++ E.http.status_display status_code
        ++ codes
            "</title></head><body><center><h1>The server is in maintenance mode.</h1></center></body></html>"

  unfoldable pub get_response : Method → ℕ → Bytes → Result Str (Response E.http)
  get_response method status_code file_path =
      ok (page_response method status_code (maintenance_content status_code file_path))

  -- src/maintenance_mode.rs: `pre_process`
  unfoldable pub maintenance_pre_process :
      RequestHandlerOpts E → Method → Option (Result Str (Response E.http))
  maintenance_pre_process opts method =
      if opts.maintenance_mode
      then some (get_response method opts.maintenance_mode_status opts.maintenance_mode_file)
      else none
