-- ===== src/Metrics/Laws.antt =====
-- When the endpoint for metrics answers.
use static_web_server.Common.{
  Str, Bool, true, false, ◌&&◌, ◌||◌, ◌≡◌, Option, none, some, codes, equal, arith,
}
use static_web_server.Http.{Outcome, Http, Request, is_get, is_head}
use static_web_server.Metrics.{Registry, metrics_pre_process}

module _ (H : Http) (R : Registry H) where
  abbrev pub is_some : Option (Outcome H Str) → Bool
  is_some none = false
  is_some (some _) = true

  -- The endpoint answers exactly the requests for `/metrics` by GET or HEAD, if it is switched on.
  pub metrics_pre_process-Answers :
      (enabled : Bool) (req : Request H)
      → is_some (metrics_pre_process H R enabled req) ≡ (
          enabled
          && equal (H.uri_path req.uri) (codes "/metrics")
          && (is_get req.method || is_head req.method))
  unfolding metrics_pre_process
  metrics_pre_process-Answers enabled req = ground arith
