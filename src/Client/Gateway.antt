-- ===== src/Client/Gateway.antt =====
-- cmd/client/serve.go: the handlers of the HTTP gateway, and the ids of cmd/client/main.go. A request
-- is its method and what the decoder makes of its body or path, where `none` is a decoder that
-- fails; a reply is its status and what is written. An int and an int64 are bit patterns.
pub mod Balance
pub mod Control
pub mod Status
pub mod Pays
use actor_cluster.Prelude.{
  ℕ, ◌+◌, ◌*◌, ◌%◌, ◌^◌, String, Bool, true, false, ◌||◌, List, [], ◌∷◌, Option, none, some,
}
use actor_cluster.Prelude.Tests.{leb, nat_beq, string_eq, ◌==◌, if◌then◌else◌}
use actor_cluster.Prelude.Lists.{length}
use actor_cluster.Prelude.Words.{u64_mod, add64, not_positive}
use actor_cluster.Prelude.Text.{◌^^◌, show_u64}
use actor_cluster.Prelude.Affixes.{trim_prefix}
use actor_cluster.Prelude.ParseInt.{parse_int}
use actor_cluster.Message.{
  RemoteEnvelope, RemoteResult, err_deadline_exceeded, err_insufficient_funds, err_invalid_payload,
  err_wrong_node, err_discovery, err_connection, err_transport_closed, err_stream_interrupted,
  err_node_overloaded,
}
use actor_cluster.Persistence.{Store, Row, int32, int64, query, Scanned, ok, err}
use actor_cluster.Wallet.State.{encode_int64, be_uint64}
use actor_cluster.Wallet.Ops.{snap_cql, scan_snapshot}
use actor_cluster.Discovery.Table.{NodeIp}
use actor_cluster.Client.Metrics.{Metrics}
use actor_cluster.Client.Dispatch.{Router, Attempt, execute_and_wait}
use actor_cluster.Client.Stress.{
  StressConfig, second, StressEngine, err_already_running, start_engine, stop_engine, StressStatus,
  engine_status, reset_metrics,
}

-- The generator's start, for a machine id below 65536, and nextRequestID on it: the generator after
-- the call is the id.
abbrev pub first_request_id : ℕ → ℕ
first_request_id machine_id = machine_id * 2 ^ 48 % u64_mod

abbrev pub next_request_id : ℕ → ℕ
next_request_id generator = add64 generator 1

pub data Method : Type 0 where
  get_method : Method
  post_method : Method
  other_method : Method

pub record ExecuteReply : Type 0 where
  pub success : Bool
  pub request_id : String
  pub uid : ℕ
  pub amount : ℕ
  pub error_code : String
  pub error_msg : String
  pub balance : Option ℕ

-- `plain` is http.Error's text.
pub data Body : Type 0 where
  plain : String → Body
  html : Body
  started : StressStatus → Body
  stopped : StressStatus → Body
  stress_status : StressStatus → Body
  reset_done : StressStatus → Body
  executed : ExecuteReply → Body
  exact_balance : (uid balance last_version : ℕ) → Body
  healthy : Body

pub record Response : Type 0 where
  pub status : ℕ
  pub body : Body

abbrev pub reply : ℕ → Body → Response
reply status body = record { status = status; body = body }

abbrev pub method_not_allowed : Response
method_not_allowed = reply 405 (plain "method not allowed")

abbrev pub on_get : Method → Response → Response
on_get get_method r = r
on_get post_method r = method_not_allowed
on_get other_method r = method_not_allowed

-- A handler of POST, with what it does to the state.
abbrev pub on_post {ℓ} : {S : Type ℓ} → Method → S → S × Response → S × Response
on_post get_method s t = (s, method_not_allowed)
on_post post_method s t = t
on_post other_method s t = (s, method_not_allowed)

unfoldable pub handle_index : Method → Response
handle_index m = on_get m (reply 200 html)

unfoldable pub handle_health : Method → Response
handle_health m = on_get m (reply 200 healthy)

unfoldable pub map_error_to_http_status : String → ℕ
map_error_to_http_status err_code =
    if err_code == err_deadline_exceeded
    then 504
    else if err_code == err_insufficient_funds || err_code == err_invalid_payload
    then 400
    else if err_code == err_wrong_node
        || err_code == err_discovery
        || err_code == err_connection
        || err_code == err_transport_closed
        || err_code == err_stream_interrupted
        || err_code == err_node_overloaded
    then 503
    else 500

-- The decoded body of an execute request.
pub record ExecuteRequest : Type 0 where
  pub uid : ℕ
  pub amount : ℕ

abbrev pub execute_envelope : ℕ → ExecuteRequest → RemoteEnvelope
execute_envelope req_id req = record {
  tenant_id = 1;
  uid = req.uid;
  tx_id = show_u64 req_id;
  request_id = req_id;
  op_code = 1;
  payload = encode_int64 req.amount;
  deadline_unix_ms = 0;
}

unfoldable pub execute_response : ℕ → ExecuteRequest → RemoteResult → Response
unfolding map_error_to_http_status
execute_response req_id req res =
    reply (if res.success then 200 else map_error_to_http_status res.error_code) (
      executed (record {
        success = res.success;
        request_id = show_u64 req_id;
        uid = req.uid;
        amount = req.amount;
        error_code = res.error_code;
        error_msg = res.error_msg;
        balance = if leb 8 (length res.payload) then some (be_uint64 res.payload) else none;
      }))

-- What the dispatch of one request meets, and the answer that comes in time.
pub record Exchange : Type 0 where
  pub answer : NodeIp
  pub first : Attempt
  pub second : Attempt
  pub in_time : Option RemoteResult
  pub started_at : ℕ
  pub resp_ch : ℕ

-- The router and the generator of ids.
pub record Gateway : Type 0 where
  pub router : Router
  pub generator : ℕ

abbrev pub executed_response : ℕ → ExecuteRequest → Router × RemoteResult → Gateway × Response
executed_response req_id req (router, res) =
    (record { router = router; generator = req_id }, execute_response req_id req res)

abbrev pub execute_decoded : Option ExecuteRequest → Exchange → Gateway → Gateway × Response
execute_decoded none x g = (g, reply 400 (plain "invalid json body"))
execute_decoded (some req) x g =
    let req_id = next_request_id g.generator in
    if not_positive req.uid
    then (g, reply 400 (plain "uid must be > 0"))
    else executed_response req_id req (
        execute_and_wait x.answer x.first x.second x.in_time x.started_at x.resp_ch
          (execute_envelope req_id req) g.router)

unfoldable pub handle_execute :
    Method → Option ExecuteRequest → Exchange → Gateway → Gateway × Response
unfolding execute_and_wait execute_response
handle_execute method decoded x g = on_post method g (execute_decoded decoded x g)

abbrev pub balance_event_cql : String
balance_event_cql =
    "SELECT version, delta_amount FROM wallet_events WHERE tenant_id = ? AND uid = ? AND version > ? ORDER BY version ASC"

-- `for scanner.Scan(&version, &delta) { balance += delta; finalVersion = version }`
unfoldable pub scan_balance : ℕ × ℕ → List Row → ℕ × ℕ
scan_balance (balance, final) ((int64 version ∷ int64 delta ∷ []) ∷ rows) =
    scan_balance (add64 balance delta, version) rows
scan_balance t _ = t

-- The second query's balance and version, or its error.
unfoldable pub events_added : ℕ × ℕ → List Row × Option String → Scanned (ℕ × ℕ)
unfolding scan_balance
events_added cut (rows, some e) = err ("load events failed: " ^^ e)
events_added cut (rows, none) = ok (scan_balance cut rows)

module _ (st : Store) where
  unfoldable pub add_events : st.Db → (tenant_id uid : ℕ) → ℕ × ℕ → Scanned (ℕ × ℕ)
  unfolding events_added
  add_events db tenant_id uid cut =
      events_added cut
        (st.query_rows db balance_event_cql (int32 tenant_id ∷ int64 uid ∷ int64 cut.1 ∷ []))

  unfoldable pub compute_balance : st.Db → (tenant_id uid : ℕ) → Scanned (ℕ × ℕ)
  unfolding add_events
  compute_balance db tenant_id uid =
      elim (query st db snap_cql (int32 tenant_id ∷ int64 uid ∷ [])
        (λ rows. ok (scan_snapshot (0, 0) rows))) [
          | err e ↦ err ("load snapshot failed: " ^^ e)
          | ok snapshot ↦ add_events db tenant_id uid snapshot
        ]

  abbrev pub balance_response : ℕ → Scanned (ℕ × ℕ) → Response
  balance_response uid (err e) = reply 500 (plain e)
  balance_response uid (ok (balance, last_version)) =
      reply 200 (exact_balance uid balance last_version)

  abbrev pub balance_decoded : Option ℕ → st.Db → Response
  balance_decoded none db = reply 400 (plain "invalid uid")
  balance_decoded (some uid) db =
      if not_positive uid
      then reply 400 (plain "invalid uid")
      else balance_response uid (compute_balance db 1 uid)

  unfoldable pub handle_balance : Method → (path : String) → st.Db → Response
  unfolding compute_balance parse_int trim_prefix
  handle_balance method path db =
      on_get method (balance_decoded (parse_int (trim_prefix path "/api/wallet/balance/")) db)
