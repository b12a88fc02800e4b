-- ===== src/Protocol/Errors.antt =====
-- src/protocol/errors.ts: the error codes, and operations that throw as values.
use xbus.Base.{◌≡◌}

-- `XBusErrorCode`, without the common prefix.
pub data XbusErrorCode : Type 0 where
  unknown_recipient ambiguous_recipient invalid_alias invalid_session_name : XbusErrorCode
  session_name_taken reclaim_credential_invalid recipient_session_expired : XbusErrorCode
  session_not_registered session_already_bound session_fenced identity_mismatch : XbusErrorCode
  message_expired message_not_found not_recipient illegal_state_transition : XbusErrorCode
  payload_too_large protocol_mismatch protocol_violation frame_too_large : XbusErrorCode
  reserved_metadata_key reserved_kind auth_failed peercred_refused : XbusErrorCode
  permission_relay_forbidden forbidden_role invalid_receipt injection_not_found : XbusErrorCode
  receipt_expired receipt_replayed session_already_active blocked : XbusErrorCode
  broker_already_running broker_contended epoch_mismatch version_incompatible : XbusErrorCode
  broker_unavailable channel_blocked policy_blocked database_error : XbusErrorCode
  audit_persistence_failed rate_limited conn_limit slowloris_timeout : XbusErrorCode
  buffer_budget_exceeded : XbusErrorCode

-- What an operation that may throw an `XBusError` returns.
pub data Result {ℓ} (A : Type ℓ) : Type ℓ where
  ok : A → Result A
  err : XbusErrorCode → Result A

pub err-ne-ok : {A : Type 0} {e : XbusErrorCode} {a : A} → ¬ (◌≡◌ {A = Result A} (err e) (ok a))
err-ne-ok h = cc
