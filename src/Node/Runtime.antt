-- ===== src/Node/Runtime.antt =====
-- internal/node/node.go: the node's maps, Emit, eviction, passivation and HandleBatch, each as it runs
-- when no other goroutine comes between. The 256 shards are one map: a key's shard is fixed, and no
-- operation relates two shards. A BatchSender is its number; `now` is what time.Now returns.
use actor_cluster.Prelude.{
  ℕ, zero, suc, ◌*◌, ◌^◌, String, Bool, true, false, ◌||◌, List, [], ◌∷◌, ◌++◌, Option, none, some,
}
use actor_cluster.Prelude.Tests.{nat_beq, ltb, leb, string_eq, ◌==◌, if◌then◌else◌}
use actor_cluster.Prelude.Words.{sub64, is_neg}
use actor_cluster.Prelude.Dict.{Dict, lookup, insert, delete}
use actor_cluster.Message.{
  RemoteEnvelope, RemoteResult, BatchRequest, err_node_overloaded, err_bad_request, err_wrong_node,
  err_rehydration_failed,
}
use actor_cluster.Persistence.{Store}
use actor_cluster.Discovery.Table.{NodeIp, found, err_table_not_initialized, err_no_owner}
use actor_cluster.Mailbox.State.{Actor, new_actor, start, send, stop}
use actor_cluster.Wallet.State.{BusinessActor, new_business_actor}
use actor_cluster.Wallet.Ops.{rehydrate}
use actor_cluster.Node.Keys.{ActorKey, ResultRouteKey, actor_key_eq, result_route_key_eq}
use actor_cluster.Node.Flush.{QueuedResult}

abbrev pub default_mailbox_limit : ℕ
default_mailbox_limit = 1500000

abbrev pub mailbox_limit_of : ℕ → ℕ
mailbox_limit_of limit = if nat_beq limit 0 then default_mailbox_limit else limit

-- A wallet with its mailbox, `core`.
pub record LiveActor : Type 0 where
  pub wallet : BusinessActor
  pub core : Actor

-- `stopped` are the actors that the maps no longer hold and whose loops may still run.
pub record Node : Type 0 where
  pub actors : Dict ActorKey LiveActor
  pub reply_routes : Dict ResultRouteKey ℕ
  pub result_ch : List QueuedResult
  pub mailbox_limit : ℕ
  pub stopped : List LiveActor

abbrev pub new_node : ℕ → Node
new_node limit = record {
  actors = [];
  reply_routes = [];
  result_ch = [];
  mailbox_limit = mailbox_limit_of limit;
  stopped = [];
}

unfoldable pub enqueue_result : Option ℕ → RemoteResult → Node → Node
enqueue_result none res n = n
enqueue_result (some reply) res n = record n {
  result_ch = n.result_ch ++ record { res = some res; reply = some reply } ∷ [];
}

abbrev pub route_of : RemoteEnvelope → ResultRouteKey
route_of env = (env.tenant_id, env.uid, env.request_id)

abbrev pub result_route : RemoteResult → ResultRouteKey
result_route res = (res.tenant_id, res.uid, res.request_id)

-- LoadAndDelete of a reply route, and the result to the sender that was there.
abbrev pub reply_by_route : ResultRouteKey → RemoteResult → Node → Node
reply_by_route rk res n = elim (lookup rk n.reply_routes) [
  | none ↦ n
  | some reply ↦ record n {
    reply_routes = delete rk n.reply_routes;
    result_ch = n.result_ch ++ record { res = some res; reply = some reply } ∷ [];
  }
]

unfoldable pub emit : RemoteResult → Node → Node
emit res n = reply_by_route (result_route res) res n

abbrev pub refusal : RemoteEnvelope → ℕ → String → String → RemoteResult
refusal env op code msg = record {
  tenant_id = env.tenant_id;
  uid = env.uid;
  tx_id = env.tx_id;
  request_id = env.request_id;
  op_code = op;
  success = false;
  error_code = code;
  error_msg = msg;
  payload = [];
}

-- The goroutine of forceKillLocalActor, once the actor is dead: what Drain yields is answered.
unfoldable pub answer_drained : List RemoteEnvelope → Node → Node
answer_drained [] n = n
answer_drained (env ∷ envs) n = answer_drained envs (
    reply_by_route (route_of env)
      (refusal env env.op_code err_wrong_node "actor evicted due to ownership change, please retry")
      n)

-- The eviction up to the goroutine: the actor leaves the map and is stopped.
unfoldable pub force_kill_local_actor : ActorKey → Node → Node
force_kill_local_actor key n = elim (lookup key n.actors) [
  | none ↦ n
  | some a ↦ record n {
    actors = delete key n.actors;
    stopped = record a { core = stop a.core } ∷ n.stopped;
  }
]

-- int64(24 * time.Hour)
abbrev pub idle_threshold : ℕ
idle_threshold = 86400 * 10 ^ 9

-- now - lastActive > idleThreshold, on int64 bit patterns.
abbrev pub is_idle : ℕ → LiveActor → Bool
is_idle now a =
    let idle = sub64 now a.wallet.last_active in
    if is_neg idle then false else ltb idle_threshold idle

-- One round of passivationLoop over the maps.
unfoldable pub passivate : ℕ → Dict ActorKey LiveActor → Dict ActorKey LiveActor × List LiveActor
passivate now [] = ([], [])
passivate now ((key, a) ∷ actors) =
    let (kept, out) = passivate now actors in
    if is_idle now a then (kept, record a { core = stop a.core } ∷ out) else ((key, a) ∷ kept, out)

-- The first part of Stop: every actor is stopped and leaves its map.
unfoldable pub stop_actors : Dict ActorKey LiveActor → List LiveActor
stop_actors [] = []
stop_actors ((key, a) ∷ actors) = record a { core = stop a.core } ∷ stop_actors actors

abbrev pub is_bad_request : RemoteEnvelope → Bool
is_bad_request env =
    nat_beq env.tenant_id 0 || nat_beq env.uid 0 || env.tx_id == "" || nat_beq env.request_id 0

-- err != nil || ownerIP != n.myIP, for a resolver that is not nil.
abbrev pub is_foreign : String → NodeIp → Bool
is_foreign my_ip (found ip) = if ip == my_ip then false else true
is_foreign my_ip err_table_not_initialized = true
is_foreign my_ip err_no_owner = true

-- What follows the Send: the route that was registered for it stays, or goes with the dead actor.
-- The node, and whether Send took the message.
abbrev pub after_send : Option ℕ → RemoteEnvelope → LiveActor → Node → Actor × Bool → Node × Bool
after_send sender env a n (core, true) = (
  record n {
    reply_routes = elim sender [
      | none ↦ delete (route_of env) n.reply_routes
      | some k ↦ insert (route_of env) k n.reply_routes
    ];
    actors = insert (env.tenant_id, env.uid) (record a { core = core }) n.actors;
  },
  true,
)
after_send sender env a n (core, false) = (
  record n {
    reply_routes = delete (route_of env) n.reply_routes;
    actors = delete (env.tenant_id, env.uid) n.actors;
  },
  false,
)

-- Over, or once more with the node as it is now.
abbrev pub or_again : Node × Bool → (Node → Node × Bool) → Node × Bool
or_again (n, true) again = (n, true)
or_again (n, false) again = again n

module _ (st : Store) where
  -- A new actor that has just rehydrated, or the error.
  abbrev pub settled : ActorKey → BusinessActor × Option String → Node → Node × (Option String)
  settled key (wallet, none) n = (
    record n {
      actors = insert key (record { wallet = wallet; core = (start new_actor).0 }) n.actors;
    },
    none,
  )
  settled key (wallet, some e) n = (n, some e)

  abbrev pub ensured : st.Db → ℕ → ActorKey → Node → Option LiveActor → Node × Option String
  ensured db now key n (some a) = (n, none)
  ensured db now key n none = settled key (rehydrate st db (new_business_actor key.0 key.1 now)) n

  abbrev pub ensure_actor : st.Db → ℕ → ActorKey → Node → Node × Option String
  ensure_actor db now key n = ensured db now key n (lookup key n.actors)

  abbrev pub sent_through : Option ℕ → RemoteEnvelope → Node → Option LiveActor → Node × Bool
  sent_through sender env n none = (n, false)
  sent_through sender env n (some a) = after_send sender env a n (send env a.core)

  abbrev pub send_to : Option ℕ → RemoteEnvelope → ActorKey → Node → Node × Bool
  send_to sender env key n = sent_through sender env n (lookup key n.actors)

  -- One round of `retry`: done, or to be tried again.
  abbrev pub after_ensure :
      Option ℕ → RemoteEnvelope → ActorKey → Node × Option String → Node × Bool
  after_ensure sender env key (n, some e) =
      (enqueue_result sender (refusal env 0 err_rehydration_failed e) n, true)
  after_ensure sender env key (n, none) = send_to sender env key n

  -- `goto retry`, at most as many times as the fuel, with no other goroutine between the steps of a
  -- call. Node/Races.antt has the retry among other goroutines.
  unfoldable pub dispatch : ℕ → st.Db → ℕ → Option ℕ → RemoteEnvelope → Node → Node × Bool
  dispatch zero db now sender env n = (n, false)
  dispatch (suc fuel) db now sender env n =
      let key : ActorKey = (env.tenant_id, env.uid) in
      or_again (after_ensure sender env key (ensure_actor db now key n))
        (λ (n' : Node). dispatch fuel db now sender env n')

  abbrev pub unless_panicked : Node × Bool → (Node → Node × Bool) → Node × Bool
  unless_panicked (n, true) rest = rest n
  unless_panicked (n, false) rest = (n, false)

  module _ (resolver : Option (ℕ → ℕ → NodeIp)) (my_ip : String) where
    abbrev pub is_foreign_here : RemoteEnvelope → Bool
    is_foreign_here env = elim resolver [
      | none ↦ false
      | some get_node_ip ↦ is_foreign my_ip (get_node_ip env.tenant_id env.uid)
    ]

    -- The body of the loop of HandleBatch. A nil envelope is a nil dereference: `false`.
    unfoldable pub handle_envelope :
        st.Db → ℕ → Option ℕ → Option RemoteEnvelope → Node → Node × Bool
    unfolding dispatch enqueue_result force_kill_local_actor
    handle_envelope db now sender none n = (n, false)
    handle_envelope db now sender (some env) n =
        if is_bad_request env
        then (
          enqueue_result sender
              (refusal env env.op_code err_bad_request
                "missing tenant_id, uid, tx_id, or request_id")
              n,
          true,
        )
        else if is_foreign_here env
        then (
          enqueue_result sender
              (refusal env env.op_code err_wrong_node
                "routing table indicates this node is not the owner")
              (force_kill_local_actor (env.tenant_id, env.uid) n),
          true,
        )
        else dispatch 2 db now sender env n

    unfoldable pub handle_envelopes :
        st.Db → ℕ → Option ℕ → List (Option RemoteEnvelope) → Node → Node × Bool
    handle_envelopes db now sender [] n = (n, true)
    handle_envelopes db now sender (env ∷ envs) n =
        unless_panicked (handle_envelope db now sender env n)
          (λ (n' : Node). handle_envelopes db now sender envs n')

    -- The answers of an overloaded node. A nil envelope is passed over.
    unfoldable pub overload : Option ℕ → List (Option RemoteEnvelope) → Node → Node
    unfolding enqueue_result
    overload sender [] n = n
    overload sender (none ∷ envs) n = overload sender envs n
    overload sender (some env ∷ envs) n = overload sender envs (
        enqueue_result sender
          (refusal env env.op_code err_node_overloaded
            "node mailbox backlog limit reached, please retry")
          n)

    -- HandleBatch, with the backlog of the process; `false` where it panics.
    unfoldable pub handle_batch : st.Db → ℕ → ℕ → BatchRequest → Option ℕ → Node → Node × Bool
    unfolding overload handle_envelopes
    handle_batch db now backlog batch sender n =
        if leb n.mailbox_limit backlog
        then (overload sender batch.envelopes n, true)
        else handle_envelopes db now sender batch.envelopes n
