-- ===== src/Metrics.antt =====
-- src/metrics.rs, which the feature `experimental` builds in: the endpoint for metrics. The crate
-- prometheus, with its registry and its encoder, is a parameter.
pub mod Laws
use static_web_server.Common.{
  Str, Bool, not, ◌&&◌, Option, none, some, codes, equal, if◌then◌else◌, Result, ok,
}
use static_web_server.Http.{
  Http, Outcome, panics, done, Request, Response, Method, Body, empty, string, response,
  insert_header, is_get, is_head,
}
use static_web_server.Env.{Env}

pub record Registry (H : Http) : Type 0 where
  pub text_plain_utf8 : H.Mime
  -- whether `register` succeeds
  pub registers : Bool
  -- the text of `gather`, encoded; without it the endpoint panics
  pub gather : Option Str

module _ (H : Http) (R : Registry H) where
  -- `init` sets `experimental_metrics`; without a result it panics.
  unfoldable pub metrics_init : Bool → Option Bool
  metrics_init enabled = if enabled && not R.registers then none else some enabled

  metrics_reply : Body → Outcome H Str
  metrics_reply body =
      done
        (ok (insert_header H (response H body) "content-type" (H.content_type R.text_plain_utf8)))

  metrics_body : Method → Outcome H Str
  metrics_body method =
      if is_get method
      then elim R.gather [ none ↦ panics | some text ↦ metrics_reply (string text) ]
      else metrics_reply empty

  -- `pre_process`, with the option `experimental_metrics`
  unfoldable pub metrics_pre_process : Bool → Request H → Option (Outcome H Str)
  unfolding metrics_body metrics_reply
  metrics_pre_process enabled req =
      if not enabled
      then none
      else if not (equal (H.uri_path req.uri) (codes "/metrics"))
      then none
      else if not (is_get req.method) && not (is_head req.method)
      then none
      else some (metrics_body req.method)
