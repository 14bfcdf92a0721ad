-- ===== src/Attempt.antt =====
-- src/policy.rs: an attempt, how it may end, and what is known of its usage then.
use llmshim.Common.{ℕ}

pub data AttemptKind : Type 0 where
  completion stream : AttemptKind

pub data AttemptAccounting : Type 0 where
  usage_observed no_usage_reported unknown : AttemptAccounting

pub data AttemptOutcome : Type 0 where
  completed : AttemptAccounting → AttemptOutcome
  http_failure : (status : ℕ) → AttemptAccounting → AttemptOutcome
  transport_failure : AttemptAccounting → AttemptOutcome
  invalid_response : AttemptAccounting → AttemptOutcome
  stream_failure : AttemptAccounting → AttemptOutcome
  abandoned : AttemptKind → AttemptAccounting → AttemptOutcome
