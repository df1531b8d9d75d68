-- ===== src/Node/Races.antt =====
-- The retry of HandleBatch among other goroutines: calls of HandleBatch for the same wallet, evictions,
-- the passivation loop and Stop run between its steps.
pub mod Ends
use actor_cluster.Prelude.{
  ℕ, zero, suc, ◌≡◌, refl, ap, ◌∙◌, String, Bool, true, false, Option, none, some, arith,
}
use actor_cluster.Prelude.Dict.{lookup, insert, delete}
use actor_cluster.Message.{RemoteEnvelope, err_rehydration_failed}
use actor_cluster.Persistence.{Store}
use actor_cluster.Node.Keys.{ActorKey, actor_key_eq, result_route_key_eq}
use actor_cluster.Node.Runtime.{
  Node, or_again, ensure_actor, send_to, after_ensure, dispatch, route_of, enqueue_result, refusal,
}

-- The actor that a round has found or made, when the round sends to it: the map still holds it, or
-- another goroutine has taken it out. An eviction stops the actor only after that: it may still take
-- a message.
pub data Held : Type 0 where
  in_map : Held
  removed : (accepts : Bool) → Held

-- What the other goroutines do, by the number of the round: before it, and between its look into the
-- map and its Send. The tables and the clock at its rehydration.
pub record Others (D : Type 0) : Type 0 where
  pub before : ℕ → Node → Node
  pub between : ℕ → Node → Node × Held
  pub db : ℕ → D
  pub now : ℕ → ℕ

abbrev pub with_route : Option ℕ → RemoteEnvelope → Node → Node
with_route none env n = record n { reply_routes = delete (route_of env) n.reply_routes }
with_route (some k) env n = record n { reply_routes = insert (route_of env) k n.reply_routes }

abbrev pub send_to_held :
    Store → Option ℕ → RemoteEnvelope → Node × Held → Option String → Node × Bool
send_to_held st sender env (n, held) (some e) =
    (enqueue_result sender (refusal env 0 err_rehydration_failed e) n, true)
send_to_held st sender env (n, in_map) none = send_to st sender env (env.tenant_id, env.uid) n
send_to_held st sender env (n, removed true) none = (with_route sender env n, true)
send_to_held st sender env (n, removed false) none =
    (record n { reply_routes = delete (route_of env) n.reply_routes }, false)

module _ (st : Store) (others : Others st.Db) where
  abbrev pub among : Option ℕ → RemoteEnvelope → ℕ → Node × Option String → Node × Bool
  among sender env round (n, err) = send_to_held st sender env (others.between round n) err

  -- One round, from `retry` to the Send.
  abbrev pub round_among : Option ℕ → RemoteEnvelope → ℕ → Node → Node × Bool
  round_among sender env round n = among sender env round (
      ensure_actor st (others.db round) (others.now round) (env.tenant_id, env.uid)
        (others.before round n))

  -- `goto retry` among the other goroutines, at most as many times as the fuel.
  unfoldable pub dispatch_among : (fuel round : ℕ) → Option ℕ → RemoteEnvelope → Node → Node × Bool
  dispatch_among zero round sender env n = (n, false)
  dispatch_among (suc fuel) round sender env n =
      or_again (round_among sender env round n)
        (λ (n' : Node). dispatch_among fuel (suc round) sender env n')

  -- The other goroutines leave the actor of this wallet alone in this round.
  pub record IsAlone (key : ActorKey) (round : ℕ) : Type 0 where
    pub kept_before : (n : Node) → lookup key (others.before round n).actors ≡ lookup key n.actors
    pub held : (n : Node) → (others.between round n).1 ≡ in_map
    pub kept : (n : Node) → lookup key (others.between round n).0.actors ≡ lookup key n.actors

-- No other goroutine.
abbrev pub nobody : {D : Type 0} → D → ℕ → Others D
nobody db now = record {
  before = λ round n. n;
  between = λ round n. (n, in_map);
  db = λ round. db;
  now = λ round. now;
}

-- `dispatch` is the retry without other goroutines.
pub dispatch-dispatch_among :
    (st : Store) (db : st.Db) (now fuel round : ℕ) (sender : Option ℕ) (env : RemoteEnvelope)
    (n : Node)
    → dispatch st fuel db now sender env n
      ≡ dispatch_among st (nobody db now) fuel round sender env n
unfolding dispatch dispatch_among
dispatch-dispatch_among st db now zero round sender env n = refl
dispatch-dispatch_among st db now (suc fuel) round sender env n =
    let key : ActorKey = (env.tenant_id, env.uid) in
    same_again (after_ensure st sender env key (ensure_actor st db now key n))
      (round_among st (nobody db now) sender env round n) (alike (ensure_actor st db now key n))
      (λ m. dispatch-dispatch_among st db now fuel (suc round) sender env m)
  where
    alike :
        (r : Node × Option String)
        → after_ensure st sender env (env.tenant_id, env.uid) r
          ≡ among st (nobody db now) sender env round r
    alike (m, none) = refl
    alike (m, some e) = refl

    same_again :
        (r s : Node × Bool)
        → r ≡ s
        → ((m : Node)
            → dispatch st fuel db now sender env m
              ≡ dispatch_among st (nobody db now) fuel (suc round) sender env m)
        → or_again r (λ (m : Node). dispatch st fuel db now sender env m)
          ≡ or_again s
              (λ (m : Node). dispatch_among st (nobody db now) fuel (suc round) sender env m)
    same_again r s e later =
        ap (λ (t : Node × Bool). or_again t (λ (m : Node). dispatch st fuel db now sender env m)) e
        ∙ at s
      where
        at :
            (t : Node × Bool)
            → or_again t (λ (m : Node). dispatch st fuel db now sender env m)
              ≡ or_again t
                  (λ (m : Node). dispatch_among st (nobody db now) fuel (suc round) sender env m)
        at (m, true) = refl
        at (m, false) = later m
