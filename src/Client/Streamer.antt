-- ===== src/Client/Streamer.antt =====
-- cmd/client/streamer.go: the flusher of one gRPC stream as a loop over what its select meets, and
-- the receiver over the results that arrive.
pub mod Batches
pub mod Sends
pub mod Results
pub mod Counters
use actor_cluster.Prelude.{
  ℕ, ◌+◌, String, Bool, true, false, List, [], ◌∷◌, ◌++◌, Option, none, some,
}
use actor_cluster.Prelude.Tests.{nat_eq, string_eq, leb, ◌==◌, if◌then◌else◌}
use actor_cluster.Prelude.Lists.{length}
use actor_cluster.Prelude.Words.{add64, sub64}
use actor_cluster.Prelude.Text.{◌^^◌}
use actor_cluster.Prelude.Dict.{lookup}
use actor_cluster.Message.{
  RemoteEnvelope, RemoteResult, BatchRequest, err_transport_closed, err_stream_interrupted,
}
use actor_cluster.Client.Callbacks.{CallbackEntry, CallbackMap, load_and_delete}
use actor_cluster.Client.Metrics.{Metrics, record_error, record_latency, count_error, fail_all}

-- What the select of flusherLoop meets. A Bool tells whether stream.Send succeeds, should the round
-- call it. `none` is a nil envelope.
pub data FlushEvent : Type 0 where
  ctx_done : FlushEvent
  stop_closed : Bool → FlushEvent
  envelope : Option RemoteEnvelope → Bool → FlushEvent
  channel_closed : FlushEvent
  ticker : Bool → FlushEvent

-- `batch` is the slice that is being filled, `sent` what the stream was given, `failed` whether
-- `fail` was called.
pub record Flusher : Type 0 where
  pub batch : List RemoteEnvelope
  pub sent : List (List RemoteEnvelope)
  pub req_sent : ℕ
  pub running : Bool
  pub failed : Bool

abbrev pub new_flusher : ℕ → Flusher
new_flusher req_sent = record {
  batch = [];
  sent = [];
  req_sent = req_sent;
  running = true;
  failed = false;
}

-- sendBatch of a batch that is not empty, and the reset of the slice after it.
abbrev pub sent_batch : Bool → Flusher → Flusher
sent_batch true f = record f {
  batch = [];
  sent = f.sent ++ f.batch ∷ [];
  req_sent = add64 f.req_sent (length f.batch);
}
sent_batch false f = record f { running = false; failed = true }

unfoldable pub send_batch : Bool → Flusher → Flusher
send_batch fine f = elim f.batch [ [] ↦ f | e ∷ es ↦ sent_batch fine f ]

abbrev pub take_envelope : ℕ → RemoteEnvelope → Bool → Flusher → Flusher
take_envelope target_size env fine f =
    let f' = record f { batch = f.batch ++ env ∷ [] } in
    if leb target_size (length f'.batch) then send_batch fine f' else f'

abbrev pub closed : Flusher → Flusher
closed f = record f { running = false }

-- One round of flusherLoop.
abbrev pub on_event : ℕ → FlushEvent → Flusher → Flusher
on_event target_size ctx_done f = closed f
on_event target_size (stop_closed fine) f = closed (send_batch fine f)
on_event target_size (envelope none fine) f = closed f
on_event target_size (envelope (some env) fine) f = take_envelope target_size env fine f
on_event target_size channel_closed f = closed f
on_event target_size (ticker fine) f = send_batch fine f

unfoldable pub flush_round : ℕ → Flusher → FlushEvent → Flusher
flush_round target_size f e = if f.running then on_event target_size e f else f

abbrev pub flusher_loop : ℕ → Flusher → List FlushEvent → Flusher
flusher_loop target_size f [] = f
flusher_loop target_size f (e ∷ es) = flusher_loop target_size (flush_round target_size f e) es

-- The callbacks of a stream, the router's counters, and the answers given, with their channels.
pub record Receiver : Type 0 where
  pub callbacks : CallbackMap
  pub metrics : Metrics
  pub answers : List (ℕ × RemoteResult)
  pub dead : Bool

abbrev pub error_key : RemoteResult → String
error_key res =
    if res.error_msg == "" then res.error_code else res.error_code ^^ " (" ^^ res.error_msg ^^ ")"

abbrev pub count_result : RemoteResult → Metrics → Metrics
count_result res m =
    if res.success
    then record m { resp_recv = add64 m.resp_recv 1 }
    else record_error (error_key res) (record m { err_count = add64 m.err_count 1 })

abbrev pub add_answer : Option ℕ → RemoteResult → List (ℕ × RemoteResult) → List (ℕ × RemoteResult)
add_answer none res answers = answers
add_answer (some ch) res answers = answers ++ (ch, res) ∷ []

-- What follows LoadAndDelete; `now` is the time of time.Since.
abbrev pub complete : ℕ → RemoteResult → CallbackMap × Option CallbackEntry → Receiver → Receiver
complete now res (callbacks, none) r = record r { callbacks = callbacks }
complete now res (callbacks, some entry) r = record r {
  callbacks = callbacks;
  metrics = record_latency (sub64 now entry.started_at) r.metrics;
  answers = add_answer entry.resp_ch res r.answers;
}

unfoldable pub receive_result : ℕ → RemoteResult → Receiver → Receiver
receive_result now res r =
    complete now res (load_and_delete res.request_id r.callbacks)
      (record r { metrics = count_result res r.metrics })

unfoldable pub receive_results : ℕ → List RemoteResult → Receiver → Receiver
receive_results now [] r = r
receive_results now (res ∷ ress) r = receive_results now ress (receive_result now res r)

abbrev pub after_fail_all : CallbackMap × Metrics × List (ℕ × RemoteResult) → Receiver → Receiver
after_fail_all (callbacks, metrics, answers) r = record {
  callbacks = callbacks;
  metrics = metrics;
  answers = r.answers ++ answers;
  dead = true;
}

-- fail, under its sync.Once, as far as the callbacks and the counters go.
unfoldable pub fail_stream : String → Receiver → Receiver
fail_stream err_code r =
    if r.dead then r else after_fail_all (fail_all err_code r.callbacks r.metrics) r

-- What stream.Recv returns; the Bool of an EOF tells whether the stream's context is done.
pub data Arrival : Type 0 where
  results : (now : ℕ) → List RemoteResult → Arrival
  end_of_stream : Bool → Arrival
  recv_failed : Arrival

-- receiverLoop over the arrivals, and whether it has returned.
unfoldable pub receiver_loop : List Arrival → Receiver → Receiver × Bool
unfolding receive_results fail_stream
receiver_loop [] r = (r, false)
receiver_loop (results now ress ∷ more) r = receiver_loop more (receive_results now ress r)
receiver_loop (end_of_stream true ∷ more) r = (r, true)
receiver_loop (end_of_stream false ∷ more) r = (fail_stream err_transport_closed r, true)
receiver_loop (recv_failed ∷ more) r = (fail_stream err_stream_interrupted r, true)
