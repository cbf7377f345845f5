-- ===== src/Tests/Experimental.antt =====
-- The experimental handler with the cache and the endpoint for metrics switched on.
use static_web_server.Common.{
  is_empty, split_once, false, ℕ, true, ◌≡◌, refl, none, some, [], codes, equal, Result, ok, err,
}
use static_web_server.Http.{done, Request, Response, response, insert_header, string}
use static_web_server.Fs.Meta.{FileMetadata}
use static_web_server.Metrics.{Registry, metrics_pre_process}
use static_web_server.Handler.Experimental.{Experimental, handle_experimental}
use static_web_server.Handler.Experimental.Access.{handle_experimental-IsChallenge}
use static_web_server.Tests.Http.{http, get_request}
use static_web_server.Tests.Disk.{env}
use static_web_server.Handler.Access.{IsChallenge}
use static_web_server.Tests.Caching.{moka}
use static_web_server.Tests.Start.{
  started, get_docs, get_docs-IsAdmitted, get_docs-no_credentials, no_options,
}

abbrev pub registry : Registry http
registry = record {
  text_plain_utf8 = codes "text/plain; charset=utf-8";
  registers = true;
  gather = some (codes "up 1");
}

-- the metrics are on, and the cache is
abbrev all_on : Experimental http moka
all_on = record {
  experimental_metrics = true;
  globals = record { cache_store = some []; memory_cache = some (record { max_file_size = 100 }) };
}

no_listing : Request http → FileMetadata ℕ → Result ℕ (Response http)
no_listing req f = err 500

measured :
    metrics_pre_process http registry true (get_request (codes "/metrics") [])
    ≡ some (
        done (
          ok (
            insert_header http
              (response http (string (codes "up 1")))
              "content-type"
              (codes "text/plain; charset=utf-8"))))
unfolding metrics_pre_process equal static_web_server.Http.is_get
measured = refl

no_metrics : metrics_pre_process http registry true get_docs ≡ none
unfolding metrics_pre_process equal static_web_server.Http.is_get
no_metrics = refl

has_credentials : is_empty started.basic_auth ≡ false
unfolding is_empty
has_credentials = refl

split_credentials : split_once b':' started.basic_auth ≡ some (codes "user", codes "hash")
unfolding split_once
split_credentials = refl

handle_experimental-IsChallenge_example :
    (r : Response http) × (handle_experimental env moka registry some true all_on no_listing started
        get_docs
      ≡ done (ok r))
    × IsChallenge env get_docs r
handle_experimental-IsChallenge_example =
    handle_experimental-IsChallenge env moka registry some true all_on no_listing started get_docs
      (codes "user") (codes "hash") get_docs-IsAdmitted no_metrics has_credentials split_credentials
      no_options get_docs-no_credentials
