-- ===== src/Status.antt =====
-- The codes of sss::Status, as far as the code under oldAPIHelpMark uses them. The texts are left out.
pub data Status : Type 0 where
  ok internal_error unavailable not_found aborted resource_exhausted failed_precondition : Status
  stream_terminated already_exists : Status
