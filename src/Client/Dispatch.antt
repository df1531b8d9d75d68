-- ===== src/Client/Dispatch.antt =====
-- cmd/client/router.go: how a request reaches the streamer of its node, and the wait for its answer.
-- What another goroutine does to the streamer in between is an argument of each attempt.
pub mod Outcome
pub mod Wait
pub mod Reaches
use actor_cluster.Prelude.{ℕ, String, Bool, true, false, List, [], ◌∷◌, ◌++◌, Option, none, some}
use actor_cluster.Prelude.Tests.{nat_eq, string_eq, ◌==◌, if◌then◌else◌}
use actor_cluster.Prelude.Words.{add64}
use actor_cluster.Prelude.Text.{◌^^◌, show_u64}
use actor_cluster.Prelude.Dict.{Dict, lookup, insert, delete}
use actor_cluster.Message.{
  RemoteEnvelope, RemoteResult, err_discovery, err_connection, err_transport_closed,
  err_deadline_exceeded,
}
use actor_cluster.Discovery.Table.{NodeIp, found, err_table_not_initialized, err_no_owner}
use actor_cluster.Client.Callbacks.{
  CallbackEntry, CallbackMap, new_callback_map, store, delete_callback,
}
use actor_cluster.Client.Metrics.{Metrics, count_error, synthetic_result, fail_all}

-- What dispatch reads of a NodeStreamer; `queue` is what its channel was given.
pub record NodeStreamer : Type 0 where
  pub callbacks : CallbackMap
  pub queue : List RemoteEnvelope
  pub dead : Bool

abbrev pub new_node_streamer : NodeStreamer
new_node_streamer = record { callbacks = new_callback_map; queue = []; dead = false }

-- `detached` holds the streamers that an attempt had got and that failed under it, the last one
-- first; `answers` what was sent to channels, each with its number.
pub record Router : Type 0 where
  pub streamers : Dict String NodeStreamer
  pub detached : List NodeStreamer
  pub metrics : Metrics
  pub answers : List (ℕ × RemoteResult)

abbrev pub connected : Bool → String → Router → Router × Option NodeStreamer
connected true ip r =
    (record r { streamers = insert ip new_node_streamer r.streamers }, some new_node_streamer)
connected false ip r = (r, none)

abbrev pub usable : Option NodeStreamer → Bool → String → Router → Router × Option NodeStreamer
usable none connects ip r = connected connects ip r
usable (some ns) connects ip r =
    if ns.dead
    then connected connects ip (record r { streamers = delete ip r.streamers })
    else (r, some ns)

-- getStreamer; `connects` tells whether NewNodeStreamer succeeds. With no other goroutine in between,
-- the second look under the lock finds what the first one found.
unfoldable pub get_streamer : Bool → String → Router → Router × Option NodeStreamer
get_streamer connects ip r = usable (lookup ip r.streamers) connects ip r

-- What happens between getStreamer and the end of the select: the streamer stays alive and takes the
-- envelope; or it fails before the callback is stored, or after that. A failed one has its context
-- done, and the Bool tells whether the select takes the send all the same, its channel having room;
-- the text is the code that `fail` was called with.
pub data Turn : Type 0 where
  takes : Turn
  fails_before_store : String → Bool → Turn
  fails_after_store : String → Bool → Turn

abbrev after_fail :
    CallbackMap × Metrics × List (ℕ × RemoteResult)
    → String
    → NodeStreamer
    → Router
    → Router × NodeStreamer
after_fail (callbacks, metrics, answers) ip ns r = (
  record r { streamers = delete ip r.streamers; metrics = metrics; answers = r.answers ++ answers },
  record ns { callbacks = callbacks; dead = true },
)

-- fail of the streamer that stands in the table.
unfoldable pub fail_streamer :
    (err_code ip : String) → NodeStreamer → Router → Router × NodeStreamer
fail_streamer err_code ip ns r = after_fail (fail_all err_code ns.callbacks r.metrics) ip ns r

abbrev pub with_callback : ℕ → CallbackEntry → NodeStreamer → NodeStreamer
with_callback req_id entry ns = record ns { callbacks = store req_id entry ns.callbacks }

abbrev pub with_envelope : RemoteEnvelope → NodeStreamer → NodeStreamer
with_envelope env ns = record ns { queue = ns.queue ++ env ∷ [] }

abbrev pub without_callback : ℕ → NodeStreamer → NodeStreamer
without_callback req_id ns = record ns { callbacks = delete_callback req_id ns.callbacks }

-- The select on a streamer that has failed, and whether the send was taken.
abbrev pub select_failed : Bool → RemoteEnvelope → ℕ → Router × NodeStreamer → Router × Bool
select_failed true env req_id (r, ns) =
    (record r { detached = with_envelope env ns ∷ r.detached }, true)
select_failed false env req_id (r, ns) =
    (record r { detached = without_callback req_id ns ∷ r.detached }, false)

abbrev pub stored_late : ℕ → CallbackEntry → Router × NodeStreamer → Router × NodeStreamer
stored_late req_id entry (r, ns) = (r, with_callback req_id entry ns)

-- Store and select on the streamer that getStreamer returned.
abbrev pub offer :
    Turn → String → RemoteEnvelope → ℕ → CallbackEntry → NodeStreamer → Router → Router × Bool
offer takes ip env req_id entry ns r = (
  record r {
    streamers = insert ip (with_envelope env (with_callback req_id entry ns)) r.streamers;
  },
  true,
)
offer (fails_before_store err_code taken) ip env req_id entry ns r =
    select_failed taken env req_id (stored_late req_id entry (fail_streamer err_code ip ns r))
offer (fails_after_store err_code taken) ip env req_id entry ns r =
    select_failed taken env req_id (fail_streamer err_code ip (with_callback req_id entry ns) r)

pub record Attempt : Type 0 where
  pub connects : Bool
  pub turn : Turn

abbrev pub refused :
    RemoteEnvelope → (err_code err_msg : String) → Router → Router × Option RemoteResult
refused env err_code err_msg r = (
  record r { metrics = count_error err_code r.metrics },
  some (synthetic_result env err_code err_msg),
)

abbrev pub got :
    Turn
    → String
    → RemoteEnvelope
    → ℕ
    → CallbackEntry
    → Router × Option NodeStreamer
    → Router × Option Bool
got turn ip env req_id entry (r, none) = (r, none)
got turn ip env req_id entry (r, some ns) =
    let (r', taken) = offer turn ip env req_id entry ns r in (r', some taken)

abbrev pub after_offer :
    RemoteEnvelope
    → Router × Option Bool
    → (Router → Router × Option RemoteResult)
    → Router × Option RemoteResult
after_offer env (r, none) again = refused env err_connection err_connection r
after_offer env (r, some true) again = (r, none)
after_offer env (r, some false) again = again r

-- The loop of dispatchEnvelope.
abbrev pub attempts_on :
    String
    → RemoteEnvelope
    → ℕ
    → CallbackEntry
    → List Attempt
    → Router
    → Router × Option RemoteResult
attempts_on ip env req_id entry [] r = refused env err_transport_closed err_transport_closed r
attempts_on ip env req_id entry (a ∷ more) r =
    after_offer env (got a.turn ip env req_id entry (get_streamer a.connects ip r))
      (λ (r' : Router). attempts_on ip env req_id entry more r')

-- dispatchEnvelope, given the resolver's answer and what its two attempts meet.
unfoldable pub dispatch_envelope :
    NodeIp
    → Attempt
    → Attempt
    → RemoteEnvelope
    → ℕ
    → CallbackEntry
    → Router
    → Router × Option RemoteResult
unfolding get_streamer fail_streamer
dispatch_envelope (found ip) first second env req_id entry r =
    attempts_on ip env req_id entry (first ∷ second ∷ []) r
dispatch_envelope err_table_not_initialized first second env req_id entry r =
    refused env err_discovery "discovery: routing table not initialized" r
dispatch_envelope err_no_owner first second env req_id entry r =
    refused env err_discovery "discovery: slot is not assigned to any node" r

-- `r.streamers.Range(…)`
abbrev pub delete_everywhere : ℕ → Dict String NodeStreamer → Dict String NodeStreamer
delete_everywhere req_id [] = []
delete_everywhere req_id ((ip, ns) ∷ streamers) =
    (ip, without_callback req_id ns) ∷ delete_everywhere req_id streamers

unfoldable pub callback_timeout : ℕ → Router → Router
callback_timeout req_id r = record r {
  metrics = count_error err_deadline_exceeded r.metrics;
  streamers = delete_everywhere req_id r.streamers;
}

abbrev pub awaited :
    RemoteEnvelope → Option RemoteResult → Router × Option RemoteResult → Router × RemoteResult
awaited env reply (r, some immediate) = (r, immediate)
awaited env (some res) (r, none) = (r, res)
awaited env none (r, none) = (
  callback_timeout env.request_id r,
  synthetic_result env err_deadline_exceeded "gateway wait timeout",
)

-- ExecuteAndWait; `reply` is what its channel brings in time, if anything.
unfoldable pub execute_and_wait :
    NodeIp
    → Attempt
    → Attempt
    → Option RemoteResult
    → (started_at resp_ch : ℕ) → RemoteEnvelope
    → Router
    → Router × RemoteResult
unfolding dispatch_envelope callback_timeout
execute_and_wait answer first second reply started_at resp_ch env r = awaited env reply (
    dispatch_envelope answer first second env env.request_id
      (record { started_at = started_at; resp_ch = some resp_ch }) r)

-- EmulateGatewayFlow: a request whose answer nobody waits for.
abbrev pub emulate_gateway_flow :
    NodeIp → Attempt → Attempt → (started_at req_id : ℕ) → RemoteEnvelope → Router → Router
emulate_gateway_flow answer first second started_at req_id env r =
    (dispatch_envelope answer first second env req_id
      (record { started_at = started_at; resp_ch = none }) r).0

-- CallbackPending
unfoldable pub callback_pending : Dict String NodeStreamer → ℕ
callback_pending [] = 0
callback_pending ((ip, ns) ∷ streamers) = add64 ns.callbacks.pending (callback_pending streamers)

-- GetErrorBreakdown
unfoldable pub show_breakdown : Dict String ℕ → String
show_breakdown [] = ""
show_breakdown ((code, count) ∷ rest) = code ^^ ":" ^^ show_u64 count ^^ " " ^^ show_breakdown rest

unfoldable pub get_error_breakdown : Router → String
unfolding show_breakdown
get_error_breakdown r =
    let res = show_breakdown r.metrics.err_breakdown in if res == "" then "None" else res

-- ErrorBreakdownMap: `out[key] = …` for each entry.
unfoldable pub error_breakdown_map : Dict String ℕ → Dict String ℕ → Dict String ℕ
error_breakdown_map out [] = out
error_breakdown_map out ((code, count) ∷ rest) = error_breakdown_map (insert code count out) rest
