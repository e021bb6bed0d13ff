-- ===== src/Hints.antt =====
-- parser/mod.rs and the result type of parser/error_cleaner.rs.
use agent_tx_protocol.Prelude.{Option, Text, bytes}

pub data ErrorCategory : Type 0 where
  foreign_key_violation unique_violation not_null_violation missing_schema_object : ErrorCategory
  missing_record missing_key missing_argument null_reference invalid_value : ErrorCategory
  unresolved_reference unknown_tool file_not_found permission_denied authentication : ErrorCategory
  rate_limited http_client_error http_server_error timeout connection_failure : ErrorCategory
  malformed_json unknown : ErrorCategory

pub record CleanHint : Type 0 where
  pub text : Text
  pub category : ErrorCategory
  pub rule : Option Text
  pub key : Option Text

-- ErrorCategory::as_str
unfoldable pub category_name : ErrorCategory → Text
category_name foreign_key_violation = bytes "foreign_key_violation"
category_name unique_violation = bytes "unique_violation"
category_name not_null_violation = bytes "not_null_violation"
category_name missing_schema_object = bytes "missing_schema_object"
category_name missing_record = bytes "missing_record"
category_name missing_key = bytes "missing_key"
category_name missing_argument = bytes "missing_argument"
category_name null_reference = bytes "null_reference"
category_name invalid_value = bytes "invalid_value"
category_name unresolved_reference = bytes "unresolved_reference"
category_name unknown_tool = bytes "unknown_tool"
category_name file_not_found = bytes "file_not_found"
category_name permission_denied = bytes "permission_denied"
category_name authentication = bytes "authentication"
category_name rate_limited = bytes "rate_limited"
category_name http_client_error = bytes "http_client_error"
category_name http_server_error = bytes "http_server_error"
category_name timeout = bytes "timeout"
category_name connection_failure = bytes "connection_failure"
category_name malformed_json = bytes "malformed_json"
category_name unknown = bytes "unknown"
