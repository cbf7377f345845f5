-- ===== src/Tests/Requests.antt =====
-- Requests to the handler, and its checks.
use static_web_server.Common.{
  FindsFirst, IsFirst, All, ℕ, Str, Bytes, Bool, true, false, ◌≡◌, ◌≢◌, refl, Option, none, some,
  List, [], ◌∷◌, ◌++◌, codes, Result, ok, err, ◌⊎◌, inl, inr, is_empty, split_once, arith, String,
}
use static_web_server.Http.{Request, Response, Method, is_options, is_allowed, response, empty, get}
use static_web_server.Fs.Meta.{FileMetadata}
use static_web_server.Env.Options.{RequestHandlerOpts, Configured, Redirects, Headers}
use static_web_server.Cors.{Forbidden, check_request, cors_post_process}
use static_web_server.Cors.Laws.{IsPermitted, IsGranted, cors_post_process-IsGranted}
use static_web_server.BasicAuth.{auth_pre_process}
use static_web_server.BasicAuth.Laws.{HasCredentials, auth_pre_process-HasCredentials}
use static_web_server.Redirects.{get_redirection}
use static_web_server.Redirects.Laws.{applies, get_redirection-FindsFirst}
use static_web_server.CustomHeaders.{append_custom_headers, auto_index_path}
use static_web_server.CustomHeaders.Laws.{configured_value, append_custom_headers-get}
use static_web_server.ErrorPage.{maintenance_content}
use static_web_server.ErrorPage.Laws.{IsPage}
use static_web_server.Health.{health_pre_process}
use static_web_server.Cors.{cors_pre_process}
use static_web_server.Handler.{handle_request, serve_static}
use static_web_server.Handler.Order.{handle_request-ok}
use static_web_server.Handler.Access.{IsAdmitted, handle_request-IsMaintenance}
use static_web_server.Handler.Finish.{IsSecured, serve_static-IsSecured}
use static_web_server.Tests.Http.{http, get_request}
use static_web_server.Tests.Disk.{env, plain_opts}

no_listing : Request http → FileMetadata ℕ → Result ℕ (Response http)
no_listing req f = err 500

abbrev get_a : Request http
get_a = get_request (codes "/a.txt") []

handle_request-ok_example :
    (r : Response http) × (handle_request env no_listing plain_opts get_a ≡ ok r)
handle_request-ok_example = handle_request-ok env no_listing plain_opts get_a

-- a server with a password
abbrev guarded : RequestHandlerOpts env
guarded = record plain_opts {
  basic_auth = codes "user:hash";
  health = true;
  maintenance_mode = true;
}

get_a-IsAdmitted : IsAdmitted env guarded get_a
unfolding is_allowed health_pre_process cors_pre_process static_web_server.Common.equal
get_a-IsAdmitted = record { supported = refl; no_health = refl; cors_passes = refl }

get_a-no_credentials : ¬ HasCredentials env get_a.headers (codes "user") (codes "hash")
get_a-no_credentials h = cc (h.given)

named_pair : split_once b':' (codes "user:hash") ≡ some (codes "user", codes "hash")
unfolding split_once
named_pair = refl

filled : is_empty (codes "user:hash") ≡ false
unfolding is_empty
filled = refl

no_options : is_options Method.get ≡ false
unfolding is_options
no_options = refl

-- the same request with the password
abbrev get_known : Request http
get_known = get_request (codes "/a.txt") (("authorization", codes "user:hash") ∷ [])

get_known-IsAdmitted : IsAdmitted env guarded get_known
unfolding is_allowed health_pre_process cors_pre_process static_web_server.Common.equal
get_known-IsAdmitted = record { supported = refl; no_health = refl; cors_passes = refl }

known_passes : auth_pre_process env guarded get_known ≡ none
unfolding auth_pre_process is_empty is_options split_once
    static_web_server.BasicAuth.check_credentials static_web_server.Common.equal
known_passes = refl

auth_pre_process-HasCredentials_example :
    (is_empty guarded.basic_auth ≡ true)
    ⊎ (is_options get_known.method ≡ true)
    ⊎ ((user hash : Str) × (split_once b':' guarded.basic_auth ≡ some (user, hash))
        × HasCredentials env get_known.headers user hash)
auth_pre_process-HasCredentials_example =
    auth_pre_process-HasCredentials env guarded get_known known_passes

handle_request-IsMaintenance_example :
    (r : Response http) × (handle_request env no_listing guarded get_known ≡ ok r)
    × IsPage env Method.get 503 (maintenance_content env 503 []) r
handle_request-IsMaintenance_example =
    handle_request-IsMaintenance env no_listing guarded get_known get_known-IsAdmitted known_passes
      refl

abbrev delete_a : Request http
delete_a = record { method = Method.other (codes "DELETE"); uri = codes "/a.txt"; headers = [] }

no_delete : is_allowed delete_a.method ≡ false
unfolding is_allowed
no_delete = refl

abbrev secured : RequestHandlerOpts env
secured = record plain_opts { security_headers = true; cache_control_headers = true }

serve_static-IsSecured_example :
    (r : Response http) × (serve_static env no_listing secured get_a ≡ ok r)
    × IsSecured env (codes "/a.txt") r
serve_static-IsSecured_example = serve_static-IsSecured env no_listing secured get_a refl refl refl

-- a server that one origin may read
abbrev configured : Configured
configured = record {
  cors = record {
    allowed_headers = "x-asked" ∷ [];
    exposed_headers = [];
    max_age = some 7;
    allowed_methods = Method.get ∷ [];
    origins = some (codes "https://a.b" ∷ []);
  };
  allowed_headers = codes "x-asked";
  exposed_headers = codes "x-shown";
  methods_header = codes "GET";
}

abbrev shared : RequestHandlerOpts env
shared = record plain_opts { cors = some configured }

abbrev preflight : Request http
preflight = record {
  method = Method.options;
  uri = codes "/a.txt";
  headers =
      ("origin", codes "https://a.b")
      ∷ ("access-control-request-method", codes "GET")
      ∷ ("access-control-request-headers", codes "x-asked")
      ∷ [];
}

cors_post_process-IsGranted_example :
    (r : Response http) × (cors_post_process env shared preflight (response http empty) ≡ ok r)
    × (((f : Forbidden) × (check_request http configured Method.options preflight.headers ≡ err f)
          × (r ≡ response http empty))
        ⊎ (IsPermitted http configured Method.options preflight.headers (codes "https://a.b")
            × IsGranted env configured (codes "https://a.b") (response http empty) r))
cors_post_process-IsGranted_example =
    cors_post_process-IsGranted env shared preflight (response http empty) configured
      (codes "https://a.b") refl refl

abbrev redirects : List (Redirects env)
redirects =
    record {
      host = some (codes "other");
      source = codes "/old";
      destination = codes "/x";
      kind = 301;
    }
    ∷ record { host = none; source = codes "/old"; destination = codes "/new"; kind = 302 }
    ∷ []

get_redirection-FindsFirst_example :
    FindsFirst
      (applies env (codes "here") (codes "/old"))
      redirects
      (get_redirection env (codes "here") (codes "/old") redirects)
get_redirection-FindsFirst_example =
    get_redirection-FindsFirst env (codes "here") (codes "/old") redirects

abbrev headers : List (Headers env)
headers = record { source = codes "/a.txt"; headers = ("x-a", codes "1") ∷ [] } ∷ []

append_custom_headers-get_example :
    let r = append_custom_headers env (codes "/a.txt") (some headers) (response http empty) none in
    (r.status ≡ 200)
    × (r.body ≡ empty)
    × ((k : String)
        → get http r.headers k
          ≡ configured_value env (auto_index_path (codes "/a.txt") none) k headers (get http [] k))
append_custom_headers-get_example =
    append_custom_headers-get env (codes "/a.txt") headers (response http empty) none
