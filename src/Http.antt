-- ===== src/Http.antt =====
-- What the program takes from the crates http, hyper, headers and mime_guess, none of whose code is
-- here: header maps, the typed headers, MIME types, URIs. Types and operations are parameters, with
-- the documented laws of a header map. Names of headers are texts in lower case.
-- Status codes are their numbers; a method is one of the three that the program names, or another.
mod Values
pub mod Laws
pub use Values.*
unfoldable pub use Values.{method_eq, is_allowed, is_get, is_head, is_options}
use static_web_server.Common.{
  ℕ, Str, Bytes, Bool, ◌≡◌, Option, List, [], ◌∷◌, ◌++◌, if◌then◌else◌, Result, head?, String,
  name_eq,
}

-- The values that a list of headers has for a name.
abbrev pub values_of : String → List (String × Str) → List Str
values_of k [] = []
values_of k ((j, v) ∷ l) = if name_eq j k then v ∷ values_of k l else values_of k l

pub record Http : Type 1 where
  -- `http::HeaderMap`
  pub HeaderMap : Type 0
  pub new : HeaderMap
  pub get_all : HeaderMap → String → List Str
  pub insert : HeaderMap → String → Str → HeaderMap
  pub remove : HeaderMap → String → HeaderMap
  pub iter : HeaderMap → List (String × Str)
  pub get_all-new : (k : String) → get_all new k ≡ []
  pub get_all-insert :
      (m : HeaderMap) (k : String) (v : Str) (j : String)
      → get_all (insert m k v) j ≡ (if name_eq k j then v ∷ [] else get_all m j)
  pub get_all-remove :
      (m : HeaderMap) (k j : String)
      → get_all (remove m k) j ≡ (if name_eq k j then [] else get_all m j)
  pub iter-get_all : (m : HeaderMap) (k : String) → values_of k (iter m) ≡ get_all m k
  -- `HeaderValue::to_str`, `HeaderValue::from_str`, `HeaderValue::from_maybe_shared`
  pub to_str : Str → Option Str
  pub from_str : Str → Option Str
  pub from_maybe_shared : Str → Option Str
  -- `http::Method::from_bytes`
  pub parse_method : Str → Option Method
  -- `http::HeaderName::from_bytes`
  pub parse_name : Str → Option String
  -- `StatusCode::canonical_reason().unwrap_or_default()`
  pub canonical_reason : ℕ → Str
  -- `StatusCode::as_str`, and its `Display`
  pub status_str : ℕ → Str
  pub status_display : ℕ → Str
  -- `Origin::try_from_parts(scheme, rest, None)`, written as a header value
  pub origin_from_parts : Str → Str → Option Str
  -- `typed_get::<Authorization<Basic>>`: user name and password
  pub basic_credentials : HeaderMap → Option (Str × Str)
  -- `SystemTime` and the typed headers that hold one
  pub Time : Type 0
  pub is_epoch : Time → Bool
  pub HttpDate : Type 0
  pub last_modified : Time → Str
  pub if_modified_since : HeaderMap → Option HttpDate
  pub if_unmodified_since : HeaderMap → Option HttpDate
  pub is_modified : HttpDate → Time → Bool
  pub precondition_passes : HttpDate → Time → Bool
  pub IfRange : Type 0
  pub if_range : HeaderMap → Option IfRange
  pub if_range_is_modified : IfRange → Option Time → Bool
  -- `headers::Range::iter`, for a request that has the header
  pub range : HeaderMap → Option (List (Bound × Bound))
  -- the encodings of the other typed headers
  pub content_length : ℕ → Str
  pub content_range : ℕ → ℕ → ℕ → Option Str
  pub unsatisfied_bytes : ℕ → Str
  pub accept_ranges_bytes : Str
  pub allow : List Method → Str
  pub allow_methods : List Method → Str
  pub allow_headers : List String → Str
  pub expose_headers : List String → Str
  -- `mime_guess::from_path(path).first_or_octet_stream()`, and `typed_get::<ContentType>`
  pub Mime : Type 0
  pub mime_of_path : Bytes → Mime
  pub content_type : Mime → Str
  pub text_html_utf8 : Mime
  pub text_html : Mime
  pub application_json : Mime
  pub typed_content_type : HeaderMap → Option Mime
  pub typed_content_type-get_all :
      (m n : HeaderMap)
      → get_all m "content-type" ≡ get_all n "content-type"
      → typed_content_type m ≡ typed_content_type n
  pub mime_type : Mime → Str
  pub mime_suffix : Mime → Option Str
  pub mime_essence : Mime → Str
  -- `http::Uri`
  pub Uri : Type 0
  pub uri_path : Uri → Str
  pub uri_query : Uri → Option Str
  pub uri_host : Uri → Option Str
  pub uri_port : Uri → Option ℕ
  pub uri_str : Uri → Str
  -- `typed_get::<Host>().hostname()`
  pub hostname : HeaderMap → Option Str
  -- `Display` of an integer
  pub decimal : ℕ → Str

-- `hyper::Response<Body>` and `hyper::Request<Body>`
pub record Response (H : Http) : Type 0 where
  pub status : ℕ
  pub headers : H.HeaderMap
  pub body : Body

-- what a handler comes to: a panic, or the result that it returns
pub data Outcome (H : Http) (Err : Type 0) : Type 0 where
  panics : Outcome H Err
  done : Result Err (Response H) → Outcome H Err

pub record Request (H : Http) : Type 0 where
  pub method : Method
  pub uri : H.Uri
  pub headers : H.HeaderMap

module _ (H : Http) where
  -- `HeaderMap::get`, the first value
  abbrev pub get : H.HeaderMap → String → Option Str
  get m k = head? (H.get_all m k)

  -- `Response::new`
  abbrev pub response : Body → Response H
  response b = record { status = 200; headers = H.new; body = b }

  -- `resp.headers_mut().insert`, `*resp.status_mut() =`, `resp.headers_mut().remove`
  abbrev pub insert_header : Response H → String → Str → Response H
  insert_header r k v = record r { headers = H.insert r.headers k v }

  abbrev pub remove_header : Response H → String → Response H
  remove_header r k = record r { headers = H.remove r.headers k }

  abbrev pub set_status : Response H → ℕ → Response H
  set_status r s = record r { status = s }

  -- `for (k, v) in headers { resp.headers_mut().insert(k, v) }`
  unfoldable pub insert_all : Response H → List (String × Str) → Response H
  insert_all resp [] = resp
  insert_all resp ((k, v) ∷ l) = insert_all (insert_header resp k v) l
