-- ===== src/Client/LifeTests.antt =====
-- The life of a streamer at concrete inputs.
use actor_cluster.Prelude.{
  ℕ, zero, suc, ◌+◌, ◌%◌, ◌≤◌, ◌*◌, ◌≡◌, ◌++◌, refl, true, List, [], ◌∷◌, some, arith,
}
use actor_cluster.Prelude.Lists.{length}
use actor_cluster.Prelude.Words.{u64_mod}
use actor_cluster.Prelude.Tests.{nat_eq}
use actor_cluster.Message.{RemoteEnvelope, RemoteResult}
use actor_cluster.Client.Callbacks.{CallbackEntry, Counts}
use actor_cluster.Client.Metrics.{Metrics}
use actor_cluster.Client.Streamer.{flush_round, send_batch}
use actor_cluster.Client.Streamer.Batches.{concat, Sized}
use actor_cluster.Client.Streamer.Results.{answered, waiting}
use actor_cluster.Client.Life.{
  Life, failing, new_life, ticks, takes_envelope, broken, Step, stores, offers, withdraws, flushes,
  receives, receive_ends, fails_shard, closes_transport, step, run,
}
use actor_cluster.Client.Life.Conserved.{asked, dropped, callbacks_conserved, run-Counts}
use actor_cluster.Client.Life.Swept.{fail_answers_all}
use actor_cluster.Client.Life.Carried.{AllMatch}
use actor_cluster.Client.Life.Matched.{Asked, Answers, answers_match}
use actor_cluster.Client.Life.Wire.{accepted, wire_in_order}

abbrev metrics : Metrics
metrics = record {
  req_sent = 5;
  resp_recv = 0;
  err_count = 0;
  latency_nanos = 0;
  latency_samples = 0;
  err_breakdown = [];
}

abbrev request : ℕ → RemoteEnvelope
request n = record {
  tenant_id = 1;
  uid = 7;
  tx_id = "t";
  request_id = n;
  op_code = 1;
  payload = [];
  deadline_unix_ms = 0;
}

abbrev result : ℕ → RemoteResult
result n = record {
  tenant_id = 1;
  uid = 7;
  tx_id = "t";
  request_id = n;
  op_code = 1;
  success = true;
  error_code = "";
  error_msg = "";
  payload = [];
}

abbrev callback : ℕ → CallbackEntry
callback ch = record { started_at = 0; resp_ch = some ch }

-- Three requests, of which one is answered, one timed out, and one waits when Recv fails.
abbrev busy : List Step
busy =
    stores 300 (callback 1)
    ∷ offers (request 300)
    ∷ stores 301 (callback 2)
    ∷ flushes (takes_envelope true)
    ∷ offers (request 301)
    ∷ flushes (ticks true)
    ∷ receives 9 (result 300)
    ∷ stores 302 (callback 3)
    ∷ offers (request 302)
    ∷ withdraws 301
    ∷ receive_ends broken
    ∷ []

abbrev after_busy : Life
after_busy = run 2 busy (new_life metrics)

abbrev all_shards : ℕ → List Step
all_shards zero = []
all_shards (suc n) = fails_shard ∷ all_shards n

begun : after_busy.phase ≡ failing "ERR_STREAM_INTERRUPTED" 0
unfolding run step flush_round send_batch
begun = refl

counted : Counts after_busy.receiver.callbacks
counted = run-Counts 2 busy (new_life metrics) (record { exact = refl; distinct = tt })

callbacks_conserved_example :
    let s = run 2 busy (new_life metrics) in
    (answered 2 s.receiver.answers
        + waiting 2 s.receiver.callbacks.entries
        + dropped 2 2 busy (new_life metrics)
      ≡ asked 2 busy)
    × (answered 2 s.receiver.answers ≤ asked 2 busy)
    × (s.receiver.callbacks.pending ≡ length s.receiver.callbacks.entries % u64_mod)
callbacks_conserved_example = callbacks_conserved 2 2 busy metrics

fail_answers_all_example :
    let s' = step 2 closes_transport (run 2 (withdraws 5 ∷ all_shards 256) after_busy) in
    (s'.receiver.callbacks.entries ≡ [])
    × (s'.receiver.callbacks.pending ≡ 0)
    × (answered 3 s'.receiver.answers + dropped 2 3 (withdraws 5 ∷ all_shards 256) after_busy
        ≡ answered 3 after_busy.receiver.answers + waiting 3 after_busy.receiver.callbacks.entries)
fail_answers_all_example =
    fail_answers_all 2 3 "ERR_STREAM_INTERRUPTED" (withdraws 5 ∷ all_shards 256) after_busy begun
      counted refl (omega arith)

wire_in_order_example :
    let s = run 2 busy (new_life metrics) in
    ((concat s.flusher.sent ++ s.flusher.batch) ++ s.queue ≡ accepted 2 busy (new_life metrics))
    × Sized 2 s.flusher.sent
    × (s.flusher.req_sent ≡ (5 + length (concat s.flusher.sent)) % u64_mod)
    × (length s.queue ≤ 2 * 2)
wire_in_order_example = wire_in_order 2 busy metrics (omega arith) (omega arith)

answers_match_example :
    AllMatch (Asked busy) (Answers busy) (run 2 busy (new_life metrics)).receiver.answers
answers_match_example = answers_match 2 busy metrics
