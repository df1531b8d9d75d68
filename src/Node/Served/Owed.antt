-- ===== src/Node/Served/Owed.antt =====
-- What a node owes a stream for a request, and how its calls change that.
use mathlib.Core.Path.{subst}
use actor_cluster.Prelude.{
  ℕ, zero, suc, ◌+◌, ◌≤◌, ◌≡◌, refl, sym, ap, ◌∙◌, inl, inr, String, Bool, true, false, List, [],
  ◌∷◌, ◌++◌, Option, none, some, arith,
}
use actor_cluster.Prelude.Tests.{
  nat_beq, string_eq, eq_iff, both, Bool-cases, Option-cases, ◌==◌, if◌then◌else◌,
}
use actor_cluster.Prelude.Dict.{Dict, lookup, insert, delete, lookup-insert, lookup-delete}
use actor_cluster.Message.{
  RemoteEnvelope, RemoteResult, err_wrong_node, err_bad_request, err_rehydration_failed,
}
use actor_cluster.Persistence.{Store}
use actor_cluster.Discovery.Table.{NodeIp}
use actor_cluster.Mailbox.State.{Actor, send}
use actor_cluster.Wallet.State.{BusinessActor, new_business_actor}
use actor_cluster.Wallet.Ops.{rehydrate}
use actor_cluster.Node.Keys.{ActorKey, ResultRouteKey, actor_key_eq, result_route_key_eq}
use actor_cluster.Node.Flush.{QueuedResult}
use actor_cluster.Node.Runtime.{
  Node, LiveActor, enqueue_result, route_of, result_route, reply_by_route, emit, refusal,
  answer_drained, force_kill_local_actor, after_send, or_again, settled, ensured, ensure_actor,
  sent_through, after_ensure, dispatch, is_bad_request, is_foreign_here, handle_envelope,
}
use actor_cluster.Node.Fate.{result_for_sender}
use actor_cluster.Node.Replies.{reply_routed, reply_unrouted}
use actor_cluster.Node.Routes.{Call, envelope, emitted, drained, evicted, swept, call}
use actor_cluster.Node.Delivery.{results_for, results_for-append}

-- The results of a request.
abbrev pub of_request : ResultRouteKey → List RemoteResult → ℕ
of_request rk [] = 0
of_request rk (res ∷ ress) = (if result_route res == rk then 1 else 0) + of_request rk ress

pub of_request-append :
    (rk : ResultRouteKey) (ress more : List RemoteResult)
    → of_request rk (ress ++ more) ≡ of_request rk ress + of_request rk more
of_request-append rk [] more = omega arith
of_request-append rk (res ∷ ress) more = omega (arith, of_request-append rk ress more)

module _ (k : ℕ) (rk : ResultRouteKey) where
  -- Whether a stream and a request are these.
  abbrev pub is_this : ℕ → ResultRouteKey → ℕ
  is_this j r = if nat_beq j k then if r == rk then 1 else 0 else 0

  abbrev pub routed : Option ℕ → ℕ
  routed none = 0
  routed (some j) = if nat_beq j k then 1 else 0

  -- The answers in resultCh, and the one that a reply route stands for.
  abbrev pub owed : Node → ℕ
  owed n = of_request rk (results_for k n.result_ch) + routed (lookup rk n.reply_routes)

  queued_one :
      (ch : List QueuedResult) (res : RemoteResult) (j : ℕ)
      → of_request rk (results_for k (ch ++ result_for_sender res j ∷ []))
        ≡ of_request rk (results_for k ch) + is_this j (result_route res)
  queued_one ch res j =
      ap (of_request rk) (results_for-append k ch (result_for_sender res j ∷ []))
      ∙ of_request-append rk (results_for k ch) (results_for k (result_for_sender res j ∷ []))
      ∙ ap (λ (m : ℕ). of_request rk (results_for k ch) + m) one
    where
      one :
          of_request rk (results_for k (result_for_sender res j ∷ []))
          ≡ is_this j (result_route res)
      one = elim (Bool-cases (nat_beq j k)) [ inl e ↦ rw (e) (omega arith) | inr e ↦ rw (e) refl ]

  routed-delete :
      (r : ResultRouteKey) (routes : Dict ResultRouteKey ℕ)
      → routed (lookup rk (delete r routes)) ≤ routed (lookup rk routes)
  routed-delete r routes = ground (arith, lookup-delete r rk routes)

  routed-insert :
      (r : ResultRouteKey) (j : ℕ) (routes : Dict ResultRouteKey ℕ)
      → routed (lookup rk (insert r j routes)) ≤ routed (lookup rk routes) + is_this j r
  routed-insert r j routes = ground (arith, lookup-insert r rk j routes)

  enqueue_result-owed :
      (j : ℕ) (res : RemoteResult) (n : Node)
      → owed (enqueue_result (some j) res n) ≤ owed n + is_this j (result_route res)
  unfolding enqueue_result
  enqueue_result-owed j res n = omega (arith, queued_one n.result_ch res j)

  reply_by_route-owed :
      (r : ResultRouteKey) (res : RemoteResult) (n : Node)
      → result_route res ≡ r
      → owed (reply_by_route r res n) ≤ owed n
  reply_by_route-owed r res n same = elim (Option-cases (lookup r n.reply_routes)) [
    | inl e ↦ subst (λ (m : Node). owed m ≤ owed n) (sym (reply_unrouted r res n e)) (omega arith)
    | inr (j, e) ↦
        subst (λ (m : Node). owed m ≤ owed n) (sym (reply_routed r res n j e))
          (omega (arith, queued_one n.result_ch res j, ap (is_this j) same, moved j e))
  ]
    where
      moved :
          (j : ℕ)
          → lookup r n.reply_routes ≡ some j
          → is_this j r + routed (lookup rk (delete r n.reply_routes))
            ≤ routed (lookup rk n.reply_routes)
      moved j e = elim (Bool-cases (r == rk)) [
        | inl here ↦ ground (
          arith,
          here,
          lookup-delete r rk n.reply_routes,
          sym (ap (λ (x : ResultRouteKey). lookup x n.reply_routes) ((eq_iff r rk).0 here)) ∙ e,
        )
        | inr other ↦ ground (arith, other, lookup-delete r rk n.reply_routes)
      ]

  -- What a round of the retry adds: nothing, unless it is the last.
  abbrev Adds : ℕ → RemoteEnvelope → Node → Node × Bool → Type 0
  Adds j env n t = owed t.0 ≤ owed n + (if t.1 then is_this j (route_of env) else 0)

  after_send-Adds :
      (j : ℕ) (env : RemoteEnvelope) (a : LiveActor) (n : Node) (t : Actor × Bool)
      → Adds j env n (after_send (some j) env a n t)
  after_send-Adds j env a n (core, true) =
      omega (arith, routed-insert (route_of env) j n.reply_routes)
  after_send-Adds j env a n (core, false) =
      omega (arith, routed-delete (route_of env) n.reply_routes)

  refused-Adds :
      (j op : ℕ) (env : RemoteEnvelope) (code msg : String) (n : Node)
      → Adds j env n (enqueue_result (some j) (refusal env op code msg) n, true)
  refused-Adds j op env code msg n = enqueue_result-owed j (refusal env op code msg) n

  killed-owed : (key : ActorKey) (n : Node) → owed (force_kill_local_actor key n) ≡ owed n
  unfolding force_kill_local_actor
  killed-owed key n = elim (Option-cases (lookup key n.actors)) [
    | inl e ↦ rw (e, force_kill_local_actor) refl
    | inr (a, e) ↦ rw (e, force_kill_local_actor) refl
  ]

  answer_drained-owed :
      (envs : List RemoteEnvelope) (n : Node) → owed (answer_drained envs n) ≤ owed n
  unfolding answer_drained
  answer_drained-owed [] n = omega arith
  answer_drained-owed (env ∷ envs) n = omega (
    arith,
    answer_drained-owed envs (reply_by_route (route_of env) (refused_of env) n),
    reply_by_route-owed (route_of env) (refused_of env) n refl,
  )
    where
      refused_of : RemoteEnvelope → RemoteResult
      refused_of e =
          refusal e e.op_code err_wrong_node "actor evicted due to ownership change, please retry"

  module _ (st : Store) where
    settled-owed :
        (key : ActorKey) (t : BusinessActor × Option String) (n : Node)
        → owed (settled st key t n).0 ≡ owed n
    settled-owed key (wallet, none) n = refl
    settled-owed key (wallet, some e) n = refl

    ensured-owed :
        (db : st.Db) (now : ℕ) (key : ActorKey) (n : Node) (o : Option LiveActor)
        → owed (ensured st db now key n o).0 ≡ owed n
    ensured-owed db now key n (some a) = refl
    ensured-owed db now key n none =
        settled-owed key (rehydrate st db (new_business_actor key.0 key.1 now)) n

    sent_through-Adds :
        (j : ℕ) (env : RemoteEnvelope) (n : Node) (o : Option LiveActor)
        → Adds j env n (sent_through st (some j) env n o)
    sent_through-Adds j env n none = omega arith
    sent_through-Adds j env n (some a) = after_send-Adds j env a n (send env a.core)

    after_ensure-Adds :
        (j : ℕ) (env : RemoteEnvelope) (key : ActorKey) (t : Node × Option String)
        → Adds j env t.0 (after_ensure st (some j) env key t)
    after_ensure-Adds j env key (n, some e) = refused-Adds j 0 env err_rehydration_failed e n
    after_ensure-Adds j env key (n, none) = sent_through-Adds j env n (lookup key n.actors)

    or_again-Adds :
        (j : ℕ) (env : RemoteEnvelope) (n : Node) (t : Node × Bool) (again : Node → Node × Bool)
        → Adds j env n t
        → ((m : Node) → Adds j env m (again m))
        → Adds j env n (or_again t again)
    or_again-Adds j env n (m, true) again h later = h
    or_again-Adds j env n (m, false) again h later = omega (arith, h, later m)

    dispatch-Adds :
        (fuel : ℕ) (db : st.Db) (now j : ℕ) (env : RemoteEnvelope) (n : Node)
        → Adds j env n (dispatch st fuel db now (some j) env n)
    unfolding dispatch
    dispatch-Adds zero db now j env n = omega arith
    dispatch-Adds (suc fuel) db now j env n =
        or_again-Adds j env n _ (dispatch st fuel db now (some j) env)
          (subst (λ (m : ℕ). owed round.0 ≤ m + (if round.1 then is_this j (route_of env) else 0))
            (ensured-owed db now key n (lookup key n.actors))
            (after_ensure-Adds j env key (ensure_actor st db now key n)))
          (λ (m : Node). dispatch-Adds fuel db now j env m)
      where
        key : ActorKey
        key = (env.tenant_id, env.uid)

        round : Node × Bool
        round = after_ensure st (some j) env key (ensure_actor st db now key n)

    module _ (resolver : Option (ℕ → ℕ → NodeIp)) (my_ip : String) where
      handle_envelope-owed :
          (db : st.Db) (now j : ℕ) (env : RemoteEnvelope) (n : Node)
          → owed (handle_envelope st resolver my_ip db now (some j) (some env) n).0
            ≤ owed n + is_this j (route_of env)
      unfolding handle_envelope
      handle_envelope-owed db now j env n =
          both Bounded (is_bad_request env)
            (refused-Adds j env.op_code env err_bad_request
              "missing tenant_id, uid, tx_id, or request_id" n)
            (both Bounded (is_foreign_here st resolver my_ip env)
              (omega (
                arith,
                refused-Adds j env.op_code env err_wrong_node
                    "routing table indicates this node is not the owner"
                    (force_kill_local_actor (env.tenant_id, env.uid) n),
                killed-owed (env.tenant_id, env.uid) n,
              ))
              (weaken (dispatch st 2 db now (some j) env n) (dispatch-Adds 2 db now j env n)))
        where
          Bounded : Node × Bool → Type 0
          Bounded t = owed t.0 ≤ owed n + is_this j (route_of env)

          weaken : (t : Node × Bool) → Adds j env n t → Bounded t
          weaken (m, true) h = h
          weaken (m, false) h = omega (arith, h)

      -- How often a call asks for this answer.
      abbrev pub asks_for : Call st resolver my_ip → ℕ
      asks_for (envelope db now j env) = is_this j (route_of env)
      asks_for _ = 0

      pub call-owed :
          (c : Call st resolver my_ip) (n : Node)
          → owed (call st resolver my_ip c n) ≤ owed n + asks_for c
      unfolding emit
      call-owed (envelope db now j env) n = handle_envelope-owed db now j env n
      call-owed (emitted res) n = omega (arith, reply_by_route-owed (result_route res) res n refl)
      call-owed (drained envs) n = omega (arith, answer_drained-owed envs n)
      call-owed (evicted key) n = omega (arith, killed-owed key n)
      call-owed (swept now) n = omega arith
