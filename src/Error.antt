-- ===== src/Error.antt =====
-- src/error.rs: the errors that the library returns. The wrapped `reqwest::Error` and
-- `serde_json::Error` are values of third-party crates; what is kept of them is their text.
use llmshim.Common.{ℕ, String, Option, List}

pub data ShimError : Type 0 where
  unknown_provider : String → ShimError
  missing_model : ShimError
  http : String → ShimError
  json : String → ShimError
  provider_error : (status : ℕ) (body : String) (retry_after : Option ℕ) → ShimError
  stream : String → ShimError
  all_failed : List String → ShimError

pub data Result {ℓ} (A : Type ℓ) : Type ℓ where
  ok : A → Result A
  err : ShimError → Result A
