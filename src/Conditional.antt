-- ===== src/Conditional.antt =====
-- src/conditional_headers.rs: the request headers that make an answer conditional.
pub mod Laws
use static_web_server.Common.{ℕ, Bool, true, false, not, Option, none, some, List, if◌then◌else◌}
use static_web_server.Http.{Http, Response, Bound, Body, response, set_status, empty}

module _ (H : Http) where
  pub record ConditionalHeaders : Type 0 where
    pub if_modified_since : Option H.HttpDate
    pub if_unmodified_since : Option H.HttpDate
    pub if_range : Option H.IfRange
    pub range : Option (List (Bound × Bound))

  -- `ConditionalHeaders::new`
  unfoldable pub conditional_headers : H.HeaderMap → ConditionalHeaders
  conditional_headers headers = record {
    if_modified_since = H.if_modified_since headers;
    if_unmodified_since = H.if_unmodified_since headers;
    if_range = H.if_range headers;
    range = H.range headers;
  }

  pub data ConditionalBody : Type 0 where
    no_body : Response H → ConditionalBody
    with_body : Option (List (Bound × Bound)) → ConditionalBody

  -- `last_modified.map(|time| test(time)).unwrap_or(false)`
  abbrev pub test_time : (H.Time → Bool) → Option H.Time → Bool
  test_time test none = false
  test_time test (some time) = test time

  check_if_range : ConditionalHeaders → Option H.Time → Option H.IfRange → ConditionalBody
  check_if_range c last_modified none = with_body c.range
  check_if_range c last_modified (some if_range) =
      if not (not (H.if_range_is_modified if_range last_modified))
      then with_body none
      else with_body c.range

  check_if_modified : ConditionalHeaders → Option H.Time → Option H.HttpDate → ConditionalBody
  check_if_modified c last_modified none = check_if_range c last_modified c.if_range
  check_if_modified c last_modified (some since) =
      if test_time (λ t. not (H.is_modified since t)) last_modified
      then no_body (set_status H (response H empty) 304)
      else check_if_range c last_modified c.if_range

  check_if_unmodified : ConditionalHeaders → Option H.Time → Option H.HttpDate → ConditionalBody
  check_if_unmodified c last_modified none = check_if_modified c last_modified c.if_modified_since
  check_if_unmodified c last_modified (some since) =
      if not (test_time (H.precondition_passes since) last_modified)
      then no_body (set_status H (response H empty) 412)
      else check_if_modified c last_modified c.if_modified_since

  -- `ConditionalHeaders::check`
  unfoldable pub check : ConditionalHeaders → Option H.Time → ConditionalBody
  unfolding check_if_unmodified check_if_modified check_if_range
  check c last_modified = check_if_unmodified c last_modified c.if_unmodified_since
