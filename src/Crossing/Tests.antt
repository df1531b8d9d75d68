-- ===== src/Crossing/Tests.antt =====
-- Two requests on their way from a gateway's channel to a node.
use actor_cluster.Prelude.{ℕ, ◌≡◌, refl, true, List, [], ◌∷◌, ◌++◌, none, map, arith}
use actor_cluster.Message.{RemoteEnvelope}
use actor_cluster.Persistence.{Store}
use actor_cluster.Server.{stream_messages}
use actor_cluster.Node.Runtime.{new_node}
use actor_cluster.Client.Metrics.{Metrics}
use actor_cluster.Client.Streamer.{flush_round, send_batch}
use actor_cluster.Client.Streamer.Batches.{concat}
use actor_cluster.Client.Life.{new_life, ticks, takes_envelope, Step, offers, flushes, step, run}
use actor_cluster.Client.Life.Wire.{accepted}
use actor_cluster.Crossing.{arrival, on_batch, Crossed, requests_cross}

abbrev empty_store : Store
empty_store = record {
  Db = Unit {0};
  execute_batch = λ db mode statements. (db, none);
  query_rows = λ db cql args. ([], none);
}

abbrev metrics : Metrics
metrics = record {
  req_sent = 5;
  resp_recv = 0;
  err_count = 0;
  latency_nanos = 0;
  latency_samples = 0;
  err_breakdown = [];
}

abbrev deposit : ℕ → RemoteEnvelope
deposit n = record {
  tenant_id = 1;
  uid = 7;
  tx_id = "t1";
  request_id = n;
  op_code = 1;
  payload = 0 ∷ 0 ∷ 0 ∷ 0 ∷ 0 ∷ 0 ∷ 0 ∷ 30 ∷ [];
  deadline_unix_ms = 0;
}

-- The second batch is still under way.
abbrev sending : List Step
sending =
    offers (deposit 300)
    ∷ offers (deposit 301)
    ∷ flushes (takes_envelope true)
    ∷ flushes (takes_envelope true)
    ∷ offers (deposit 302)
    ∷ flushes (takes_envelope true)
    ∷ flushes (ticks true)
    ∷ []

abbrev arrived : List (List RemoteEnvelope)
arrived = (deposit 300 ∷ deposit 301 ∷ []) ∷ []

both_sent : arrived ++ (deposit 302 ∷ []) ∷ [] ≡ (run 2 sending (new_life metrics)).flusher.sent
unfolding run step flush_round send_batch
both_sent = refl

requests_cross_example :
    let handler =
      on_batch empty_store none "10.0.0.1:9000" (λ i. tt) (λ i. i) (λ i. 0) (λ i n. n) 1 in
    let v = stream_messages handler 5000 (new_node 0, 0) (map arrival arrived) in
    (v.ending ≡ none)
    × Crossed empty_store none "10.0.0.1:9000"
        (λ i. tt)
        (λ i. i)
        (λ i. 0)
        (λ i n. n)
        1
        0
        arrived
        (new_node 0)
        v.state.0
    × ((later : List RemoteEnvelope) × (concat arrived ++ later
          ≡ accepted 2 sending (new_life metrics)))
requests_cross_example =
    requests_cross empty_store none "10.0.0.1:9000" (λ i. tt) (λ i. i) (λ i. 0) (λ i n. n) 1 2 5000
      sending metrics (new_node 0) arrived ((deposit 302 ∷ []) ∷ []) (omega arith) (omega arith)
      (omega arith) both_sent
