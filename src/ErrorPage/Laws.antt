-- ===== src/ErrorPage/Laws.antt =====
-- The pages as responses.
use static_web_server.Common.{
  ℕ, Str, Bytes, false, ◌≡◌, refl, some, if◌then◌else◌, ok, utf8_len, is_empty, arith, Bool-cases,
  inl, inr,
}
use static_web_server.Http.{Response, Method, empty, string, is_head, get}
use static_web_server.Http.Laws.{get-insert}
use static_web_server.Env.{Env}
use static_web_server.ErrorPage.{page_content, default_page, page_response, error_response}

module _ (E : Env) where
  -- A page for an error: the status asked for, and the headers of an HTML page of `content`, which
  -- is not sent for HEAD.
  pub record IsPage (method : Method) (status : ℕ) (content : Str) (r : Response E.http)
      : Type 0 where
    pub status_is : r.status ≡ status
    pub body_is : r.body ≡ (if is_head method then empty else string content)
    pub length_is :
        get E.http r.headers "content-length" ≡ some (E.http.content_length (utf8_len content))
    pub type_is :
        get E.http r.headers "content-type" ≡ some (E.http.content_type E.http.text_html_utf8)
    pub ranges_is : get E.http r.headers "accept-ranges" ≡ some E.http.accept_ranges_bytes

  pub page_response-IsPage :
      (method : Method) (status : ℕ) (content : Str)
      → IsPage method status content (page_response E method status content)
  unfolding page_response
  page_response-IsPage method status content = record {
    status_is = refl;
    body_is = ground arith;
    length_is = simp (get-insert E.http);
    type_is = simp (get-insert E.http);
    ranges_is = simp (get-insert E.http);
  }

  default_page-filled : (status : ℕ) → is_empty (default_page E status) ≡ false
  unfolding default_page is_empty
  default_page-filled status = refl

  filled :
      (status : ℕ) (found : Str)
      → is_empty (if is_empty found then default_page E status else found) ≡ false
  filled status found = elim (Bool-cases (is_empty found)) [
    | inl e ↦ rw e (default_page-filled status)
    | inr e ↦ rw e e
  ]

  pub error_response-IsPage :
      (uri : E.http.Uri) (method : Method) (status : ℕ) (page404 page50x : Bytes)
      → (r : Response E.http) × (content : Str) × (error_response E uri method status page404
            page50x
          ≡ ok r)
        × IsPage method status content r
        × (content ≡ (
            if is_empty (page_content E status page404 page50x)
            then default_page E status
            else page_content E status page404 page50x))
        × (is_empty content ≡ false)
  unfolding error_response
  error_response-IsPage uri method status page404 page50x =
      let content =
        if is_empty (page_content E status page404 page50x)
        then default_page E status
        else page_content E status page404 page50x in
      (
        page_response E method status content,
        content,
        refl,
        page_response-IsPage method status content,
        refl,
        filled status (page_content E status page404 page50x),
      )
