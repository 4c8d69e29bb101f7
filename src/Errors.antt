-- ===== src/Errors.antt =====
-- errors.go: the error record of an operation and its catalogs. Each catalog is a Go string type;
-- `unset` stands for its zero value "", and for any string outside the catalog, which the code
-- treats alike.
use repost_go.Prelude.{ℕ, Bool, false, List, [], ◌∷◌, Bytes}
use repost_go.Prelude.Int.{ℤ, pos}

pub data ErrorCode : Type 0 where
  unset configuration closed validation serialization request_too_large : ErrorCode
  dns connect proxy tls io attempt_timeout operation_deadline cancelled overloaded : ErrorCode
  rate_limited http_rejected server_failure response_too_large response_protocol : ErrorCode
  descriptor_version : ErrorCode

pub data DeliveryState : Type 0 where
  unset not_sent possibly_sent accepted rejected cancelled_unknown : DeliveryState

pub data ErrorCategory : Type 0 where
  unset configuration validation serialization transport publish : ErrorCategory
  descriptor_version : ErrorCategory

pub data FailureReason : Type 0 where
  unset dns_not_found dns_timeout connect_refused connect_timeout : FailureReason
  connection_reset connection_closed tls_untrusted tls_certificate_expired : FailureReason
  tls_certificate_not_yet_valid tls_hostname_mismatch tls_negotiation : FailureReason
  proxy_auth_required proxy_connect_failed unknown : FailureReason

pub data CauseCategory : Type 0 where
  unset api_key_provider default_generator idempotency_generator retry_entropy : CauseCategory
  dns_resolver proxy_credential_provider tls_provider custom_transport : CauseCategory
  response_body observer http_runtime transport_close scheduler_close : CauseCategory
  operation_executor_close dns_executor_close proxy_credential_executor_close : CauseCategory
  tls_executor_close terminal_settlement_close observer_close unknown : CauseCategory

pub data ValidationIssueCode : Type 0 where
  unset required null_not_allowed type_mismatch out_of_range non_finite : ValidationIssueCode
  invalid_datetime invalid_enum invalid_json invalid_unicode : ValidationIssueCode
  collection_limit cycle : ValidationIssueCode

pub data ConfigurationIssueCode : Type 0 where
  unset missing conflict invalid_value out_of_range unsupported : ConfigurationIssueCode
  resource_mismatch : ConfigurationIssueCode

pub data ClientOptionKey : Type 0 where
  unset api_key api_key_provider base_uri connect_timeout attempt_timeout : ClientOptionKey
  operation_timeout max_attempts max_in_flight_operations max_buffered_bytes : ClientOptionKey
  retry_base_delay retry_max_delay http_transport_options transport executor : ClientOptionKey
  scheduler observer observer_executor telemetry default_value_generators : ClientOptionKey
  idempotency_key_generator monotonic_clock wall_clock retry_entropy : ClientOptionKey
  user_agent_suffix : ClientOptionKey

pub record ValidationIssue : Type 0 where
  pub code : ValidationIssueCode
  pub path : Bytes

pub record ConfigurationIssue : Type 0 where
  pub code : ConfigurationIssueCode
  pub option_keys : List ClientOptionKey

pub record Error : Type 0 where
  pub code : ErrorCode
  pub delivery_state : DeliveryState
  pub retryable : Bool
  pub operation_id : Bytes
  pub idempotency_key : Bytes
  pub attempt_count : ℕ
  pub http_status : ℤ
  pub failure_reason : FailureReason
  pub cause_category : CauseCategory
  pub compressed_bytes : ℤ
  pub decompressed_bytes : ℤ
  pub response_header_fields : ℕ
  pub response_header_bytes : ℕ
  pub truncated : Bool
  pub validation_issues : List ValidationIssue
  pub configuration_issues : List ConfigurationIssue
  pub issue_count : ℕ
  pub issues_truncated : Bool

-- `&Error{}`: every field at its zero value.
abbrev pub no_error_fields : Error
no_error_fields = record {
  code = ErrorCode.unset;
  delivery_state = DeliveryState.unset;
  retryable = false;
  operation_id = [];
  idempotency_key = [];
  attempt_count = 0;
  http_status = pos 0;
  failure_reason = FailureReason.unset;
  cause_category = CauseCategory.unset;
  compressed_bytes = pos 0;
  decompressed_bytes = pos 0;
  response_header_fields = 0;
  response_header_bytes = 0;
  truncated = false;
  validation_issues = [];
  configuration_issues = [];
  issue_count = 0;
  issues_truncated = false;
}

-- `Error.Category` on a non-nil error.
unfoldable pub category : ErrorCode → ErrorCategory
category ErrorCode.configuration = ErrorCategory.configuration
category ErrorCode.closed = ErrorCategory.configuration
category ErrorCode.validation = ErrorCategory.validation
category ErrorCode.serialization = ErrorCategory.serialization
category ErrorCode.request_too_large = ErrorCategory.serialization
category ErrorCode.dns = ErrorCategory.transport
category ErrorCode.connect = ErrorCategory.transport
category ErrorCode.proxy = ErrorCategory.transport
category ErrorCode.tls = ErrorCategory.transport
category ErrorCode.io = ErrorCategory.transport
category ErrorCode.attempt_timeout = ErrorCategory.transport
category ErrorCode.operation_deadline = ErrorCategory.transport
category ErrorCode.cancelled = ErrorCategory.transport
category ErrorCode.overloaded = ErrorCategory.transport
category ErrorCode.rate_limited = ErrorCategory.publish
category ErrorCode.http_rejected = ErrorCategory.publish
category ErrorCode.server_failure = ErrorCategory.publish
category ErrorCode.response_too_large = ErrorCategory.publish
category ErrorCode.response_protocol = ErrorCategory.publish
category ErrorCode.descriptor_version = ErrorCategory.descriptor_version
category ErrorCode.unset = ErrorCategory.unset

-- `hookConfigurationError`
unfoldable pub hook_configuration_error :
    DeliveryState → Bytes → Bytes → ℕ → ClientOptionKey → CauseCategory → Error
hook_configuration_error state operation_id key attempts option cause = record no_error_fields {
  code = ErrorCode.configuration;
  delivery_state = state;
  operation_id = operation_id;
  idempotency_key = key;
  attempt_count = attempts;
  cause_category = cause;
  issue_count = 1;
  configuration_issues =
      record { code = ConfigurationIssueCode.invalid_value; option_keys = option ∷ [] } ∷ [];
}

-- `operationError` and `cancelledError`
abbrev pub operation_error : ErrorCode → Error
operation_error code = record no_error_fields {
  code = code;
  delivery_state = DeliveryState.not_sent;
}
