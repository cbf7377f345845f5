-- ===== src/Cors/Build.antt =====
-- `cors::new` and the builder that it uses.
use static_web_server.Common.{
  Str, Option, none, some, List, [], ◌∷◌, ◌++◌, equal, if◌then◌else◌, Result, ok, err, ◌>>=◌, codes,
  split_on, trim, is_empty, String, map, strip_prefix,
}
use static_web_server.Http.{Http, Method}
use static_web_server.Env.Options.{Cors, Configured}

-- `Cors::new`
abbrev pub new_cors : Cors
new_cors = record {
  allowed_headers = [];
  exposed_headers = [];
  max_age = none;
  allowed_methods = [];
  origins = none;
}

unfoldable pub allow_any_origin : Cors → Cors
allow_any_origin c = record c { origins = none }

-- `allow_methods`, for names of methods that are valid
unfoldable pub allow_methods : Cors → List Method → Cors
allow_methods c methods = record c { allowed_methods = c.allowed_methods ++ methods }

-- `origin.splitn(2, "://")`: what stands before the first "://", and what follows it
split_scheme : Str → Option (Str × Str)
split_scheme [] = none
split_scheme (x ∷ s) =
    let rest = split_scheme s in
    elim (strip_prefix (codes "://") (x ∷ s)) [
      | some after ↦ some ([], after)
      | none ↦ elim rest [ none ↦ none | some (scheme, after) ↦ some (x ∷ scheme, after) ]
    ]

module _ {A B : Type 0} (f : A → Result Str B) where
  map_all : List A → Result Str (List B)
  map_all [] = ok []
  map_all (x ∷ xs) = f x >>= λ y. map_all xs >>= λ ys. ok (y ∷ ys)

abbrev pub CorsNew : Type 0
CorsNew = Result Str (Option Configured)

module _ (H : Http) where
  -- `into_origin`
  into_origin : Str → Result Str Str
  unfolding split_scheme
  into_origin s = elim (split_scheme s) [
    | none ↦ err (codes "cors::into_origin: missing url scheme")
    | some (scheme, rest) ↦ elim (H.origin_from_parts scheme rest) [
      | none ↦ err (codes "cors::into_origin: invalid Origin")
      | some origin ↦ ok origin
    ]
  ]

  known : Option (List Str) → List Str
  known none = []
  known (some l) = l

  unfoldable pub allow_origins : Cors → List Str → Result Str Cors
  unfolding into_origin map_all known
  allow_origins c origins =
      map_all into_origin origins >>= λ l. ok (record c { origins = some (known c.origins ++ l) })

  header_name : Str → Result Str String
  header_name h = elim (H.parse_name h) [
    | none ↦ err (codes "cors: illegal Header")
    | some name ↦ ok name
  ]

  unfoldable pub allow_headers : Cors → List Str → Result Str Cors
  unfolding header_name map_all
  allow_headers c headers = map_all header_name headers >>= λ l.
      ok (record c { allowed_headers = c.allowed_headers ++ l })

  unfoldable pub expose_headers : Cors → List Str → Result Str Cors
  unfolding header_name map_all
  expose_headers c headers = map_all header_name headers >>= λ l.
      ok (record c { exposed_headers = c.exposed_headers ++ l })

  -- `Cors::build`
  unfoldable pub build : Option Cors → Option Configured
  build none = none
  build (some c) = some (record {
    cors = c;
    allowed_headers = H.allow_headers c.allowed_headers;
    exposed_headers = H.expose_headers c.exposed_headers;
    methods_header = H.allow_methods c.allowed_methods;
  })

  header_list : Str → List Str
  header_list s =
      if is_empty s then codes "origin" ∷ codes "content-type" ∷ [] else map trim (split_on b',' s)

  -- the rest of the builder's chain
  with_headers : Str → Str → Cors → Result Str Cors
  unfolding header_list
  with_headers allow expose c = allow_headers c (header_list allow) >>= λ c₁.
      expose_headers c₁ (header_list expose) >>= λ c₂.
      ok (allow_methods c₂ (Method.get ∷ Method.head ∷ Method.options ∷ []))

  -- `new`, as `init` calls it, on trimmed texts. The list of a split is never empty.
  unfoldable pub new : Str → Str → Str → CorsNew
  unfolding with_headers allow_headers expose_headers allow_origins allow_any_origin allow_methods
      build
  new origins_str allow_headers_str expose_headers_str =
      if is_empty origins_str
      then ok none
      else if equal origins_str (codes "*")
      then (with_headers allow_headers_str expose_headers_str (allow_any_origin new_cors) >>= λ c.
          ok (build (some c)))
      else allow_origins new_cors (map trim (split_on b',' origins_str)) >>= λ c₀.
          with_headers allow_headers_str expose_headers_str c₀ >>= λ c. ok (build (some c))
