-- ===== src/Tests/Http.antt =====
-- A header map as a list of headers, and simple stand-ins for the other parameters.
use text.Mathlib.TextEquality.{eq_iff}
use static_web_server.Common.{
  ap, ℕ, Str, true, ◌≡◌, refl, Option, none, some, List, [], ◌∷◌, ◌++◌, codes, if◌then◌else◌,
  String, name_eq, arith, ltb, leb, head?, equal, split_once, ◌+◌, ◌==◌,
}
use static_web_server.Http.{Http, Request, Method, Bound, unbounded, included, values_of}

abbrev pub Headers : Type 0
Headers = List (String × Str)

abbrev pub without : String → Headers → Headers
without k [] = []
without k ((j, v) ∷ l) = if name_eq j k then without k l else (j, v) ∷ without k l

pub values_of-without :
    (k : String) (l : Headers) (j : String)
    → values_of j (without k l) ≡ (if name_eq k j then [] else values_of j l)
values_of-without k [] j = ground arith
values_of-without k ((i, v) ∷ l) j =
    ground (arith, eq_iff k j, eq_iff i k, eq_iff i j, values_of-without k l j)

pub values_of-set :
    (k : String) (v : Str) (l : Headers) (j : String)
    → values_of j ((k, v) ∷ without k l) ≡ (if name_eq k j then v ∷ [] else values_of j l)
values_of-set k v l j = ground (arith, values_of-without k l j)

-- digits, to print a small number
abbrev pub digit : ℕ → Str
digit n = (48 + n) ∷ []

abbrev pub parse_method : Str → Option Method
parse_method s =
    if equal s (codes "GET")
    then some Method.get
    else if equal s (codes "HEAD")
    then some Method.head
    else if equal s (codes "OPTIONS")
    then some Method.options
    else none

abbrev pub header_time : String → Headers → Option ℕ
header_time k m = elim (values_of k m) [ [] ↦ none | v ∷ _ ↦ head? v ]

abbrev pub range_of : Headers → Option (List (Bound × Bound))
range_of m = elim (values_of "range" m) [
  | [] ↦ none
  | v ∷ _ ↦ elim v [ [] ↦ none | a ∷ _ ↦ some ((included a, unbounded) ∷ []) ]
]

-- A time is a number, and a date in a header is the number of its first character; a range is from
-- that number on; a URI is its path.
abbrev pub http : Http
http = record {
  HeaderMap = Headers;
  new = [];
  get_all = λ m k. values_of k m;
  insert = λ m k v. (k, v) ∷ without k m;
  remove = λ m k. without k m;
  iter = λ m. m;
  get_all-new = λ k. refl;
  get_all-insert = λ m k v j. values_of-set k v m j;
  get_all-remove = λ m k j. values_of-without k m j;
  iter-get_all = λ m k. refl;
  to_str = λ s. some s;
  from_str = λ s. some s;
  from_maybe_shared = λ s. some s;
  parse_method = parse_method;
  parse_name = λ s. if equal s (codes "x-asked") then some "x-asked" else none;
  canonical_reason = λ s. codes "Reason";
  status_str = λ s. codes "Status";
  status_display = λ s. codes "Status Reason";
  origin_from_parts = λ a b. some (a ++ codes "://" ++ b);
  basic_credentials =
      λ m. elim (values_of "authorization" m) [ [] ↦ none | v ∷ _ ↦ split_once b':' v ];
  Time = ℕ;
  is_epoch = λ t. t == 0;
  HttpDate = ℕ;
  last_modified = digit;
  if_modified_since = header_time "if-modified-since";
  if_unmodified_since = header_time "if-unmodified-since";
  is_modified = λ since t. ltb since t;
  precondition_passes = λ since t. leb t since;
  IfRange = ℕ;
  if_range = header_time "if-range";
  if_range_is_modified = λ r t. elim t [ none ↦ true | some t ↦ ltb r t ];
  range = range_of;
  content_length = digit;
  content_range = λ s e n. some (s ∷ e ∷ n ∷ []);
  unsatisfied_bytes = λ n. codes "bytes */" ++ digit n;
  accept_ranges_bytes = codes "bytes";
  allow = λ l. codes "OPTIONS, HEAD, GET";
  allow_methods = λ l. codes "GET";
  allow_headers = λ l. codes "x-asked";
  expose_headers = λ l. codes "x-shown";
  Mime = Str;
  mime_of_path = λ p. codes "text/html";
  content_type = λ m. m;
  text_html_utf8 = codes "text/html; charset=utf-8";
  text_html = codes "text/html";
  application_json = codes "application/json";
  typed_content_type = λ m. head? (values_of "content-type" m);
  typed_content_type-get_all = λ m n e. ap head? e;
  mime_type = λ m. codes "text";
  mime_suffix = λ m. none;
  mime_essence = λ m. m;
  Uri = Str;
  uri_path = λ u. u;
  uri_query = λ u. none;
  uri_host = λ u. none;
  uri_port = λ u. none;
  uri_str = λ u. u;
  hostname = λ m. head? (values_of "host" m);
  decimal = digit;
}

abbrev pub get_request : Str → Headers → Request http
get_request path headers = record { method = Method.get; uri = path; headers = headers }

-- the header map behaves as a map: the second value replaces the first
replaced :
    http.get_all (http.insert (http.insert http.new "a" (codes "1")) "a" (codes "2")) "a"
    ≡ codes "2" ∷ []
replaced = refl
