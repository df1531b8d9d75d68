-- ===== src/Client/Life.antt =====
-- cmd/client/streamer.go and router.go: the life of one NodeStreamer, from NewNodeStreamer to the
-- end of its transport. Dispatchers, timeouts, the flusher, the receiver, `fail` and StopAndWait are
-- goroutines; a step is what one of them does between two points at which another can come between,
-- and a run is any sequence of steps. FailAll holds the lock of one of its 256 shards at a time, and
-- so takes 256 steps.
pub mod Carried
pub mod Clear
pub mod Conserved
pub mod Keeps
pub mod Matched
pub mod Reached
pub mod Shards
pub mod Swept
pub mod Wire
use actor_cluster.Prelude.{
  ℕ, suc, ◌*◌, ◌%◌, String, Bool, true, false, ◌&&◌, List, [], ◌∷◌, ◌++◌, Option, none, some,
}
use actor_cluster.Prelude.Tests.{nat_beq, nat_eq, ltb, if◌then◌else◌}
use actor_cluster.Prelude.Lists.{length}
use actor_cluster.Prelude.Dict.{Dict}
use actor_cluster.Message.{
  RemoteEnvelope, RemoteResult, err_transport_closed, err_stream_interrupted,
}
use actor_cluster.Client.Callbacks.{
  CallbackEntry, CallbackMap, new_callback_map, store, delete_callback,
}
use actor_cluster.Client.Metrics.{Metrics, Failed, fail_entries}
use actor_cluster.Client.Streamer.{
  FlushEvent, ctx_done, stop_closed, envelope, ticker, Flusher, new_flusher, flush_round, Receiver,
  receive_result,
}

-- Where the failOnce of the streamer stands: not taken, in FailAll before a shard, or through.
pub data Phase : Type 0 where
  alive : Phase
  failing : (err_code : String) (next : ℕ) → Phase
  failed : Phase

-- `queue` is what envelopeCh holds, `receiving` whether receiverLoop runs, `stopping` whether stopCh
-- is closed, `cancelled` whether the context is, `in_table` whether the router still knows the
-- streamer, and `conn_open` whether nobody has closed the connection.
pub record Life : Type 0 where
  pub receiver : Receiver
  pub flusher : Flusher
  pub queue : List RemoteEnvelope
  pub phase : Phase
  pub receiving : Bool
  pub stopping : Bool
  pub cancelled : Bool
  pub in_table : Bool
  pub conn_open : Bool

abbrev pub new_life : Metrics → Life
new_life m = record {
  receiver = record { callbacks = new_callback_map; metrics = m; answers = []; dead = false };
  flusher = new_flusher m.req_sent;
  queue = [];
  phase = alive;
  receiving = true;
  stopping = false;
  cancelled = false;
  in_table = true;
  conn_open = true;
}

-- NewNodeStreamer and its place in the router's table: the Bools tell whether grpc.Dial and
-- StreamMessages succeed.
abbrev pub connect : (dials opens : Bool) → Metrics → Option Life
connect false opens m = none
connect true false m = none
connect true true m = some (new_life m)

-- What the select of flusherLoop takes; a Bool tells whether stream.Send succeeds.
pub data Wake : Type 0 where
  ticks : Bool → Wake
  takes_envelope : Bool → Wake
  sees_stop : Bool → Wake
  sees_done : Wake

-- The error of Recv: an EOF or another one.
pub data Ending : Type 0 where
  eof : Ending
  broken : Ending

pub data Step : Type 0 where
  -- dispatchEnvelope: the callback, the send of the select, and the Delete of the other case, which
  -- callbackTimeout does too.
  stores : ℕ → CallbackEntry → Step
  offers : RemoteEnvelope → Step
  withdraws : ℕ → Step
  -- flusherLoop
  flushes : Wake → Step
  -- receiverLoop: one result, handled at a time; and an error.
  receives : ℕ → RemoteResult → Step
  receive_ends : Ending → Step
  -- fail, in whichever loop: one shard of FailAll, and closeTransport.
  fails_shard : Step
  closes_transport : Step
  -- StopAndWait: close(stopCh), and the cancel after `done`.
  stop_called : Step
  stop_ends : Step

abbrev pub shards : ℕ
shards = 256

abbrev pub in_shard : ℕ → ℕ → Bool
in_shard i req_id = nat_beq (req_id % shards) i

-- The callbacks of a shard, and the others.
unfoldable pub of_shard : ℕ → Dict ℕ CallbackEntry → Dict ℕ CallbackEntry
of_shard i [] = []
of_shard i ((req_id, entry) ∷ entries) =
    let rest = of_shard i entries in if in_shard i req_id then (req_id, entry) ∷ rest else rest

unfoldable pub out_of_shard : ℕ → Dict ℕ CallbackEntry → Dict ℕ CallbackEntry
out_of_shard i [] = []
out_of_shard i ((req_id, entry) ∷ entries) =
    let rest = out_of_shard i entries in if in_shard i req_id then rest else (req_id, entry) ∷ rest

abbrev pub after_shard : Failed → ℕ → Receiver → Receiver
after_shard f i r = record r {
  callbacks = record { pending = f.pending; entries = out_of_shard i r.callbacks.entries };
  metrics = f.metrics;
  answers = r.answers ++ f.answers;
}

-- FailAll, one shard.
unfoldable pub fail_shard : String → ℕ → Receiver → Receiver
unfolding of_shard out_of_shard
fail_shard err_code i r =
    after_shard
      (fail_entries err_code (of_shard i r.callbacks.entries) r.callbacks.pending r.metrics) i r

-- The first lines of fail, under its Once.
abbrev pub begin_fail : String → Phase → Life → Life
begin_fail err_code alive s = record s {
  receiver = record s.receiver { dead = true };
  phase = failing err_code 0;
  in_table = false;
}
begin_fail err_code (failing code next) s = s
begin_fail err_code failed s = s

abbrev pub next_shard : Phase → Life → Life
next_shard alive s = s
next_shard (failing err_code next) s =
    if ltb next shards
    then record s {
      receiver = fail_shard err_code next s.receiver;
      phase = failing err_code (suc next);
    }
    else s
next_shard failed s = s

-- closeTransport, which ends fail.
abbrev pub close_transport : Phase → Life → Life
close_transport alive s = s
close_transport (failing err_code next) s =
    if ltb next shards then s else record s { phase = failed; cancelled = true; conn_open = false }
close_transport failed s = s

-- A round of the flusher; it calls fail when its Send fails.
abbrev pub flushed : Flusher → Life → Life
flushed f s =
    let s' = record s { flusher = f } in
    if f.failed then begin_fail err_transport_closed s.phase s' else s'

abbrev pub on_wake : ℕ → Wake → List RemoteEnvelope → Life → Life
on_wake target_size (ticks fine) queue s =
    flushed (flush_round target_size s.flusher (ticker fine)) s
on_wake target_size (takes_envelope fine) [] s = s
on_wake target_size (takes_envelope fine) (env ∷ queue) s =
    flushed (flush_round target_size s.flusher (envelope (some env) fine))
      (record s { queue = queue })
on_wake target_size (sees_stop fine) queue s =
    if s.stopping then flushed (flush_round target_size s.flusher (stop_closed fine)) s else s
on_wake target_size sees_done queue s =
    if s.cancelled then flushed (flush_round target_size s.flusher ctx_done) s else s

-- receiverLoop returns, its deferred Close included.
abbrev pub returned : Life → Life
returned s = record s { receiving = false; conn_open = false }

-- The error of Recv, by whether the context is done.
abbrev pub on_ending : Ending → Life → Life
on_ending eof s =
    if s.cancelled then returned s else begin_fail err_transport_closed s.phase (returned s)
on_ending broken s = begin_fail err_stream_interrupted s.phase (returned s)

-- Whether `done` is closed: the receiver has returned, and so has the fail it may have called.
abbrev pub is_done : Phase → Life → Bool
is_done alive s = if s.receiving then false else true
is_done (failing err_code next) s = false
is_done failed s = if s.receiving then false else true

-- The test of `dead` that opens StopAndWait.
abbrev pub stop : Life → Life
stop s = if s.receiver.dead then s else record s { stopping = true }

unfoldable pub step : ℕ → Step → Life → Life
unfolding fail_shard
step target_size (stores req_id entry) s = record s {
  receiver = record s.receiver { callbacks = store req_id entry s.receiver.callbacks };
}
step target_size (offers env) s =
    if ltb (length s.queue) (target_size * 2) then record s { queue = s.queue ++ env ∷ [] } else s
step target_size (withdraws req_id) s = record s {
  receiver = record s.receiver { callbacks = delete_callback req_id s.receiver.callbacks };
}
step target_size (flushes w) s = if s.flusher.running then on_wake target_size w s.queue s else s
step target_size (receives now res) s =
    if s.receiving then record s { receiver = receive_result now res s.receiver } else s
step target_size (receive_ends ending) s = if s.receiving then on_ending ending s else s
step target_size fails_shard s = next_shard s.phase s
step target_size closes_transport s = close_transport s.phase s
step target_size stop_called s = stop s
step target_size stop_ends s =
    if s.stopping && is_done s.phase s then record s { cancelled = true } else s

unfoldable pub run : ℕ → List Step → Life → Life
unfolding step
run target_size [] s = s
run target_size (st ∷ steps) s = run target_size steps (step target_size st s)
