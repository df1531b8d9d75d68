-- ===== src/Node/Tests.antt =====
-- The aggregator at concrete inputs.
use actor_cluster.Prelude.{refl, none, ℕ, zero, suc, ◌≡◌, true, false, List, [], ◌∷◌, ◌++◌, some}
use actor_cluster.Message.{RemoteResult}
use actor_cluster.Message.{RemoteEnvelope}
use actor_cluster.Persistence.{Store}
use actor_cluster.Prelude.Dict.{lookup, insert, delete}
use actor_cluster.Mailbox.State.{new_actor, start, stop, send, send_envelope, mark_stopping}
use actor_cluster.Wallet.State.{new_business_actor}
use actor_cluster.Wallet.Ops.{
  rehydrate, load_events, loaded, rehydrated, scan_events, scan_snapshot,
}
use actor_cluster.Node.Runtime.{Node, new_node, dispatch}
use actor_cluster.Node.Races.{Held, in_map, removed, Others}
use actor_cluster.Node.Flush.{QueuedResult, result_arrives, ticker_fires, done_closed, flush}
use actor_cluster.Node.Delivery.{sent_to, sent_to-flush}
use actor_cluster.Node.Aggregate.{aggregate_all, started, aggregator_delivers}

abbrev answer : ℕ → RemoteResult
answer n = record {
  tenant_id = 1;
  uid = 7;
  tx_id = "t";
  request_id = n;
  op_code = 1;
  success = true;
  error_code = "";
  error_msg = "";
  payload = [];
}

abbrev queued : ℕ → ℕ → QueuedResult
queued k n = record { res = some (answer n); reply = some k }

abbrev three : List QueuedResult
three = queued 1 10 ∷ queued 2 20 ∷ queued 1 11 ∷ []

sent_to-flush_example : sent_to 1 (flush three) ≡ answer 10 ∷ answer 11 ∷ []
sent_to-flush_example = sent_to-flush 1 three

aggregator_delivers_example :
    sent_to 2
      (aggregate_all started (
        (result_arrives (queued 1 10) ∷ ticker_fires ∷ result_arrives (queued 2 20) ∷ [])
        ++ done_closed ∷ [])).out
    ≡ answer 20 ∷ []
aggregator_delivers_example =
    aggregator_delivers 2
      (result_arrives (queued 1 10) ∷ ticker_fires ∷ result_arrives (queued 2 20) ∷ [])

abbrev empty_store : Store
empty_store = record {
  Db = Unit {0};
  execute_batch = λ db mode statements. (db, none);
  query_rows = λ db cql args. ([], none);
}

abbrev deposit : RemoteEnvelope
deposit = record {
  tenant_id = 1;
  uid = 7;
  tx_id = "t1";
  request_id = 5;
  op_code = 1;
  payload = [];
  deadline_unix_ms = 0;
}

-- A node whose map still holds an actor that has been stopped.
abbrev with_stopped_actor : Node
with_stopped_actor = record (new_node 0) {
  actors =
      ((1, 7), record { wallet = new_business_actor 1 7 0; core = stop (start new_actor).0 }) ∷ [];
}

-- In the first round an eviction takes the actor out of the map and stops it.
abbrev race_once : ℕ → Node → Node × Held
race_once zero n = (record n { actors = [] }, removed false)
race_once (suc round) n = (n, in_map)

abbrev evicted_once : Others empty_store.Db
evicted_once = record {
  before = λ round n. n;
  between = race_once;
  db = λ round. tt;
  now = λ round. 9;
}

-- The second round takes the message, and its route is registered.
routed :
    (dispatch empty_store 2 tt 9 (some 1) deposit with_stopped_actor).0.reply_routes
    ≡ ((1, 7, 5), 1) ∷ []
unfolding dispatch send stop start lookup insert delete rehydrate load_events loaded rehydrated
    scan_events scan_snapshot new_business_actor mark_stopping send_envelope
routed = refl
