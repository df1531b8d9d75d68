-- ===== src/Client/GatewayTests.antt =====
-- The dispatch and the gateway at concrete inputs.
use actor_cluster.Prelude.{
  String, ℕ, ◌-◌, ◌^◌, ◌↔◌, ◌≡◌, ◌⊎◌, refl, true, false, List, [], ◌∷◌, map, none, some, arith,
}
use actor_cluster.Prelude.Tests.{string_eq, ◌==◌, if◌then◌else◌}
use actor_cluster.Message.{RemoteEnvelope, RemoteResult}
use actor_cluster.Persistence.{Store, int64, ok}
use actor_cluster.Wallet.State.{new_business_actor}
use actor_cluster.Wallet.Ops.{
  handle, event_cql, scan_snapshot, scan_events, rehydrated, loaded, load_events, rehydrate,
}
use actor_cluster.Wallet.Funds.{IsPayable}
use actor_cluster.Node.Runtime.{is_bad_request}
use actor_cluster.Prelude.Words.{signed64, ◌+ℤ◌}
use actor_cluster.Prelude.Dict.{lookup}
use actor_cluster.Wallet.Log.{Event, event_row}
use actor_cluster.Discovery.Table.{found}
use actor_cluster.Client.Callbacks.{CallbackEntry}
use actor_cluster.Client.Dispatch.{
  Router, Attempt, takes, fails_before_store, dispatch_envelope, execute_and_wait,
}
use actor_cluster.Client.Dispatch.Outcome.{NotWaiting, Sent, dispatch_leaves}
use actor_cluster.Client.Dispatch.Wait.{Waited, execute_and_wait_leaves}
use actor_cluster.Client.Gateway.{
  post_method, Gateway, Exchange, ExecuteRequest, handle_execute, balance_event_cql,
  compute_balance, execute_envelope, execute_response,
}
use actor_cluster.Client.Gateway.Balance.{balance_row, compute_balance-rehydrate}
use actor_cluster.Client.Gateway.Status.{reports_success, handle_execute-status, tx_ids_differ}
use actor_cluster.Client.Gateway.Pays.{reported, write_of, Settled, execute_pays}

abbrev new_router : Router
new_router = record {
  streamers = [];
  detached = [];
  metrics = record {
    req_sent = 0;
    resp_recv = 0;
    err_count = 0;
    latency_nanos = 0;
    latency_samples = 0;
    err_breakdown = [];
  };
  answers = [];
}

abbrev waits : CallbackEntry
waits = record { started_at = 1; resp_ch = some 3 }

abbrev deposit : RemoteEnvelope
deposit = record {
  tenant_id = 1;
  uid = 7;
  tx_id = "t1";
  request_id = 5;
  op_code = 1;
  payload = [];
  deadline_unix_ms = 0;
}

-- The first streamer breaks under the request, the second takes it.
abbrev broken : Attempt
broken = record { connects = true; turn = fails_before_store "ERR_TRANSPORT_CLOSED" false }

abbrev fine : Attempt
fine = record { connects = true; turn = takes }

dispatch_leaves_example :
    let (r', immediate) =
      dispatch_envelope (found "10.0.0.1:9000") broken fine deposit 5 waits new_router in
    ((res : RemoteResult) × (immediate ≡ some res) × (res.success ≡ false) × NotWaiting 5 r')
    ⊎ ((ip : String) × (immediate ≡ none)
        × (found "10.0.0.1:9000" ≡ found ip)
        × Sent ip deposit 5 waits r')
dispatch_leaves_example =
    dispatch_leaves (found "10.0.0.1:9000") broken fine deposit 5 waits new_router (tt, tt)

abbrev deposit_reply : RemoteResult
deposit_reply = record {
  tenant_id = 1;
  uid = 7;
  tx_id = "t1";
  request_id = 5;
  op_code = 1;
  success = true;
  error_code = "";
  error_msg = "";
  payload = [];
}

-- The request is taken, and its reply comes in time.
execute_and_wait_leaves_example :
    let entry : CallbackEntry = record { started_at = 1; resp_ch = some 3 } in
    Waited deposit
      (some deposit_reply)
      (dispatch_envelope (found "10.0.0.1:9000") broken fine deposit 5 entry new_router).1
      (execute_and_wait
        (found "10.0.0.1:9000")
        broken
        fine
        (some deposit_reply)
        1
        3
        deposit
        new_router)
execute_and_wait_leaves_example =
    execute_and_wait_leaves (found "10.0.0.1:9000") broken fine (some deposit_reply) 1 3 deposit
      new_router (tt, tt)

abbrev exchange : Exchange
exchange = record {
  answer = found "10.0.0.1:9000";
  first = broken;
  second = fine;
  in_time = none;
  started_at = 1;
  resp_ch = 3;
}

abbrev gateway : Gateway
gateway = record { router = new_router; generator = 2 ^ 48 }

abbrev thirty : ExecuteRequest
thirty = record { uid = 7; amount = 30 }

handle_execute-status_example :
    let (g', r) = handle_execute post_method (some thirty) exchange gateway in
    (r.status ≡ 200) ↔ (reports_success r.body ≡ true)
handle_execute-status_example = handle_execute-status post_method (some thirty) exchange gateway

abbrev machine : ℕ
machine = 7

abbrev earlier : ℕ
earlier = 3

tx_ids_differ_example : (machine ≡ machine) × (earlier ≡ earlier)
tx_ids_differ_example =
    tx_ids_differ machine machine earlier earlier thirty (record thirty { amount = 5 })
      (omega arith) (omega arith) (omega arith) (omega arith) refl

-- A snapshot of 100 at version 1, then a withdrawal of 30 and a deposit of 5.
abbrev since : List Event
since =
    record { version = 2; tx_id = "t2"; delta = 2 ^ 64 - 30 }
    ∷ record { version = 3; tx_id = "t3"; delta = 5 }
    ∷ []

abbrev one_wallet : Store
one_wallet = record {
  Db = Unit {0};
  execute_batch = λ db mode statements. (db, none);
  query_rows = λ db cql args.
      if cql == balance_event_cql
      then (map balance_row since, none)
      else if cql == event_cql
      then (map event_row since, none)
      else ((int64 100 ∷ int64 1 ∷ []) ∷ [], none);
}

compute_balance-rehydrate_example :
    let b = (rehydrate one_wallet tt (new_business_actor 1 7 0)).0 in
    compute_balance one_wallet tt 1 7 ≡ ok (b.balance, b.version)
unfolding new_business_actor rehydrate load_events loaded rehydrated scan_events scan_snapshot
compute_balance-rehydrate_example =
    compute_balance-rehydrate one_wallet tt (new_business_actor 1 7 0)
      ((int64 100 ∷ int64 1 ∷ []) ∷ []) since refl refl refl refl

execute_pays_example :
    let b = new_business_actor 1 7 0 in
    let env = execute_envelope 5 thirty in
    let h = handle one_wallet tt 10 b env in
    let r = execute_response 5 thirty h.result in
    let sum = signed64 b.balance +ℤ signed64 30 in
    (is_bad_request env ≡ false)
    × ((IsPayable one_wallet sum
          × Settled one_wallet 5 thirty b (write_of one_wallet tt 10 b env).1 h)
        ⊎ ((¬ IsPayable one_wallet sum)
            × (h.db ≡ tt)
            × (h.actor.balance ≡ b.balance)
            × (r.status ≡ 400)
            × (reported r.body ≡ none)))
unfolding new_business_actor lookup
execute_pays_example =
    execute_pays one_wallet tt 10 5 thirty (new_business_actor 1 7 0) (omega arith) (omega arith)
      refl (omega arith) (λ e. ground (arith, e)) refl
