-- ===== src/Message.antt =====
-- The messages of pkg/remote/proto (as generated in pkg/remote/pb) and the codes of
-- pkg/remote/errors.go. An int32 is its bit pattern below 2 ^ 32, an int64 or uint64 one below
-- 2 ^ 64, a byte a number below 256.
use actor_cluster.Prelude.{ℕ, String, Bool, List, Option}

pub record RemoteEnvelope : Type 0 where
  pub tenant_id : ℕ
  pub uid : ℕ
  pub tx_id : String
  pub request_id : ℕ
  pub op_code : ℕ
  pub payload : List ℕ
  pub deadline_unix_ms : ℕ

pub record RemoteResult : Type 0 where
  pub tenant_id : ℕ
  pub uid : ℕ
  pub tx_id : String
  pub request_id : ℕ
  pub op_code : ℕ
  pub success : Bool
  pub error_code : String
  pub error_msg : String
  pub payload : List ℕ

-- `none` is a nil pointer among the envelopes.
pub record BatchRequest : Type 0 where
  pub envelopes : List (Option RemoteEnvelope)

pub record BatchResponse : Type 0 where
  pub results : List RemoteResult

abbrev pub err_bad_request : String
err_bad_request = "ERR_BAD_REQUEST"

abbrev pub err_transport_closed : String
err_transport_closed = "ERR_TRANSPORT_CLOSED"

abbrev pub err_batch_too_large : String
err_batch_too_large = "ERR_BATCH_TOO_LARGE"

abbrev pub err_deadline_exceeded : String
err_deadline_exceeded = "ERR_DEADLINE_EXCEEDED"

abbrev pub err_internal : String
err_internal = "ERR_INTERNAL"

abbrev pub err_wrong_node : String
err_wrong_node = "ERR_WRONG_NODE"

abbrev pub err_rehydration_failed : String
err_rehydration_failed = "ERR_REHYDRATION_FAILED"

abbrev pub err_node_overloaded : String
err_node_overloaded = "ERR_NODE_OVERLOADED"

abbrev pub err_invalid_payload : String
err_invalid_payload = "ERR_INVALID_PAYLOAD"

abbrev pub err_insufficient_funds : String
err_insufficient_funds = "ERR_INSUFFICIENT_FUNDS"

abbrev pub err_persistence_failed : String
err_persistence_failed = "ERR_PERSISTENCE_FAILED"

abbrev pub err_discovery : String
err_discovery = "ERR_DISCOVERY"

abbrev pub err_connection : String
err_connection = "ERR_CONNECTION"

abbrev pub err_stream_interrupted : String
err_stream_interrupted = "ERR_STREAM_INTERRUPTED"
