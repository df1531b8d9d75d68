-- ===== src/Node/ReplyTests.antt =====
-- Batches and replies at concrete inputs.
use mathlib.Core.Bool.{false≢true}
use actor_cluster.Prelude.{ℕ, ◌+◌, ◌≤◌, ◌≡◌, ◌++◌, refl, true, List, [], ◌∷◌, none, some}
use actor_cluster.Prelude.Tests.{eq_iff}
use actor_cluster.Prelude.Dict.{lookup}
use actor_cluster.Message.{RemoteEnvelope, RemoteResult, BatchRequest}
use actor_cluster.Persistence.{Store}
use actor_cluster.Mailbox.State.{new_actor, start, send_envelope, complete_result}
use actor_cluster.Wallet.State.{new_business_actor}
use actor_cluster.Wallet.Ops.{handle}
use actor_cluster.Node.Keys.{result_route_key_eq}
use actor_cluster.Node.Runtime.{Node, new_node, handle_batch, emit, route_of, result_route}
use actor_cluster.Node.Fate.{Accepted, result_for_sender}
use actor_cluster.Node.Replies.{Fates, handle_batch-Fates}
use actor_cluster.Node.Routes.{
  Call, envelope, emitted, evicted, swept, calls, accepted_answered_once,
}
use actor_cluster.Node.Delivery.{results_for, sent_to}
use actor_cluster.Node.Served.{new_served, Step, serves, takes, ticks, run}
use actor_cluster.Node.Served.Owed.{of_request, routed}
use actor_cluster.Node.Served.Once.{requests, answered_at_most_once}
use actor_cluster.Node.Identity.{emitted_route}

abbrev empty_store : Store
empty_store = record {
  Db = Unit {0};
  execute_batch = λ db mode statements. (db, none);
  query_rows = λ db cql args. ([], none);
}

abbrev deposit : RemoteEnvelope
deposit = record {
  tenant_id = 1;
  uid = 7;
  tx_id = "t1";
  request_id = 5;
  op_code = 1;
  payload = 0 ∷ 0 ∷ 0 ∷ 0 ∷ 0 ∷ 0 ∷ 0 ∷ 30 ∷ [];
  deadline_unix_ms = 0;
}

abbrev one_deposit : BatchRequest
one_deposit = record { envelopes = some deposit ∷ [] }

handle_batch-Fates_example :
    let r =
      handle_batch empty_store none "10.0.0.1:9000" tt 9 0 one_deposit (some 1) (new_node 0) in
    (r.1 ≡ true) × Fates 1 one_deposit.envelopes (new_node 0) r.0
handle_batch-Fates_example =
    handle_batch-Fates empty_store none "10.0.0.1:9000" tt 9 0 1 one_deposit (new_node 0) refl tt

abbrev answer : ℕ → RemoteResult
answer n = record {
  tenant_id = 1;
  uid = 7;
  tx_id = "t1";
  request_id = n;
  op_code = 1;
  success = true;
  error_code = "";
  error_msg = "";
  payload = [];
}

-- A node whose actor has the deposit in its mailbox.
abbrev waiting_node : Node
waiting_node = record (new_node 0) {
  actors =
      (
        (1, 7),
        record {
          wallet = new_business_actor 1 7 0;
          core = send_envelope deposit (start new_actor).0;
        },
      )
      ∷ [];
  reply_routes = ((1, 7, 5), 1) ∷ [];
}

Accepted-waiting_node : Accepted 1 deposit (new_node 0) waiting_node
unfolding lookup
Accepted-waiting_node = record {
  quiet = refl;
  routed = refl;
  wallet = new_business_actor 1 7 0;
  core = (start new_actor).0;
  delivered = refl;
}

-- An answer to another request, an eviction and a sweep come before the answer.
abbrev earlier : List (Call empty_store none "10.0.0.1:9000")
earlier = emitted (answer 6) ∷ evicted (1, 8) ∷ swept 9 ∷ []

accepted_answered_once_example :
    let ready = calls empty_store none "10.0.0.1:9000" earlier waiting_node in
    let answered = emit (answer 5) ready in
    let later = calls empty_store none "10.0.0.1:9000" (swept 10 ∷ []) answered in
    (answered.result_ch ≡ ready.result_ch ++ result_for_sender (answer 5) 1 ∷ [])
    × (answered.actors ≡ ready.actors)
    × (emit (answer 5) later ≡ later)
accepted_answered_once_example =
    accepted_answered_once empty_store none "10.0.0.1:9000" 1 deposit (new_node 0) waiting_node
      earlier (swept 10 ∷ []) (answer 5) (answer 5) Accepted-waiting_node
      (
        (λ e. false≢true ((eq_iff (result_route (answer 6)) (route_of deposit)).1 e)),
        (tt, (tt, tt)),
      )
      (tt, tt) refl refl

emitted_route_example :
    let res =
      complete_result (handle empty_store tt 9 (new_business_actor 1 7 0) deposit).result deposit in
    (result_route res ≡ route_of deposit)
    × (res.tx_id ≡ deposit.tx_id)
    × (res.op_code ≡ deposit.op_code)
unfolding new_business_actor
emitted_route_example = emitted_route empty_store tt 9 (new_business_actor 1 7 0) deposit refl refl

-- The deposit comes twice, is answered twice over, and the aggregator sends what it got.
abbrev twice : List (Step empty_store none "10.0.0.1:9000")
twice =
    serves (envelope tt 9 1 deposit)
    ∷ serves (envelope tt 9 1 deposit)
    ∷ serves (emitted (answer 5))
    ∷ takes
    ∷ serves (emitted (answer 5))
    ∷ ticks
    ∷ []

answered_at_most_once_example :
    let s = run empty_store none "10.0.0.1:9000" twice (new_served 0) in
    of_request (1, 7, 5) (sent_to 1 s.aggregator.out)
      + of_request (1, 7, 5) (results_for 1 s.aggregator.batch)
      + of_request (1, 7, 5) (results_for 1 s.node.result_ch)
      + routed 1 (1, 7, 5) (lookup (1, 7, 5) s.node.reply_routes)
    ≤ requests 1 (1, 7, 5) empty_store none "10.0.0.1:9000" twice
answered_at_most_once_example =
    answered_at_most_once 1 (1, 7, 5) empty_store none "10.0.0.1:9000" 0 twice
