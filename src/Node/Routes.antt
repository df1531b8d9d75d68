-- ===== src/Node/Routes.antt =====
-- A reply route over any later calls, and the one reply that it lets through.
use actor_cluster.Prelude.{
  ℕ, ◌≡◌, ◌≢◌, refl, ap, ◌∙◌, inl, inr, String, Bool, List, [], ◌∷◌, ◌++◌, Option, none, some,
}
use actor_cluster.Prelude.Tests.{eq_refl, Option-cases, string_eq, if◌then◌else◌}
use actor_cluster.Prelude.Dict.{lookup, delete, lookup-delete}
use actor_cluster.Message.{RemoteEnvelope, RemoteResult}
use actor_cluster.Persistence.{Store}
use actor_cluster.Discovery.Table.{NodeIp}
use actor_cluster.Node.Keys.{ActorKey, ResultRouteKey, actor_key_eq, result_route_key_eq}
use actor_cluster.Node.Runtime.{
  Node, route_of, result_route, force_kill_local_actor, handle_envelope, reply_by_route, emit,
  answer_drained, passivate,
}
use actor_cluster.Node.Rounds.{handle_envelope-Fate}
use actor_cluster.Node.Fate.{kept_at, Accepted, result_for_sender}
use actor_cluster.Node.Replies.{reply_routed, reply_unrouted, reply_others}

abbrev pub passivated : ℕ → Node → Node
passivated now n = record n {
  actors = (passivate now n.actors).0;
  stopped = (passivate now n.actors).1 ++ n.stopped;
}

module _ (st : Store) (resolver : Option (ℕ → ℕ → NodeIp)) (my_ip : String) where
  -- Calls that the node serves one after another.
  pub data Call : Type 0 where
    envelope : st.Db → (now k : ℕ) → RemoteEnvelope → Call
    emitted : RemoteResult → Call
    drained : List RemoteEnvelope → Call
    evicted : ActorKey → Call
    swept : ℕ → Call

  abbrev pub call : Call → Node → Node
  call (envelope db now k env) n =
      (handle_envelope st resolver my_ip db now (some k) (some env) n).0
  call (emitted res) n = emit res n
  call (drained envs) n = answer_drained envs n
  call (evicted key) n = force_kill_local_actor key n
  call (swept now) n = passivated now n

  abbrev pub calls : List Call → Node → Node
  calls [] n = n
  calls (c ∷ cs) n = calls cs (call c n)

  abbrev pub AllAvoid : ResultRouteKey → List RemoteEnvelope → Type 0
  AllAvoid rk [] = Unit {0}
  AllAvoid rk (env ∷ envs) = (route_of env ≢ rk) × AllAvoid rk envs

  -- The call is not about the request of this route.
  abbrev pub Avoids : ResultRouteKey → Call → Type 0
  Avoids rk (envelope db now k env) = route_of env ≢ rk
  Avoids rk (emitted res) = result_route res ≢ rk
  Avoids rk (drained envs) = AllAvoid rk envs
  Avoids rk (evicted key) = Unit {0}
  Avoids rk (swept now) = Unit {0}

  abbrev pub Avoid : ResultRouteKey → List Call → Type 0
  Avoid rk [] = Unit {0}
  Avoid rk (c ∷ cs) = Avoids rk c × Avoid rk cs

  answer_drained-others :
      (rk : ResultRouteKey) (envs : List RemoteEnvelope) (n : Node)
      → AllAvoid rk envs
      → lookup rk (answer_drained envs n).reply_routes ≡ lookup rk n.reply_routes
  unfolding answer_drained
  answer_drained-others rk [] n h = refl
  answer_drained-others rk (env ∷ envs) n (ne, h) =
      answer_drained-others rk envs _ h
      ∙ kept_at (route_of env) _ _ rk (reply_others (route_of env) _ n) ne

  killed_routes :
      (key : ActorKey) (n : Node) → (force_kill_local_actor key n).reply_routes ≡ n.reply_routes
  unfolding force_kill_local_actor
  killed_routes key n = elim (Option-cases (lookup key n.actors)) [
    | inl e ↦ rw (e, force_kill_local_actor) refl
    | inr (a, e) ↦ rw (e, force_kill_local_actor) refl
  ]

  call-others :
      (rk : ResultRouteKey) (c : Call) (n : Node)
      → Avoids rk c
      → lookup rk (call c n).reply_routes ≡ lookup rk n.reply_routes
  unfolding emit
  call-others rk (envelope db now k env) n h =
      kept_at (route_of env) _ _ rk (handle_envelope-Fate st resolver my_ip db now k env n).1.others
        h
  call-others rk (emitted res) n h =
      kept_at (result_route res) _ _ rk (reply_others (result_route res) res n) h
  call-others rk (drained envs) n h = answer_drained-others rk envs n h
  call-others rk (evicted key) n h = ap (lookup rk) (killed_routes key n)
  call-others rk (swept now) n h = refl

  calls-others :
      (rk : ResultRouteKey) (cs : List Call) (n : Node)
      → Avoid rk cs
      → lookup rk (calls cs n).reply_routes ≡ lookup rk n.reply_routes
  calls-others rk [] n h = refl
  calls-others rk (c ∷ cs) n (h, hs) = calls-others rk cs (call c n) hs ∙ call-others rk c n h

  -- An accepted request is answered to the stream that sent it, and once: after any calls that are
  -- not about its route, emitting a result of this route queues it for the sender; and after any
  -- more such calls, emitting another result of this route changes nothing.
  pub accepted_answered_once :
      (k : ℕ) (env : RemoteEnvelope) (n m : Node) (before after : List Call)
      (res again : RemoteResult)
      → Accepted k env n m
      → Avoid (route_of env) before
      → Avoid (route_of env) after
      → result_route res ≡ route_of env
      → result_route again ≡ route_of env
      → let ready = calls before m in
        let answered = emit res ready in
        let later = calls after answered in
        (answered.result_ch ≡ ready.result_ch ++ result_for_sender res k ∷ [])
        × (answered.actors ≡ ready.actors)
        × (emit again later ≡ later)
  unfolding emit
  accepted_answered_once k env n m before after res again acc hb ha er ea =
      let ready = calls before m in
      let there : lookup (result_route res) ready.reply_routes ≡ some k =
        ap (λ (rk : ResultRouteKey). lookup rk ready.reply_routes) er
        ∙ calls-others (route_of env) before m hb
        ∙ acc.routed in
      let sent = reply_routed (result_route res) res ready k there in
      let answered = reply_by_route (result_route res) res ready in
      let gone : lookup (route_of env) answered.reply_routes ≡ none =
        ap (λ (x : Node). lookup (route_of env) x.reply_routes) sent
        ∙ ap (λ (rk : ResultRouteKey). lookup (route_of env) (delete rk ready.reply_routes)) er
        ∙ lookup-delete (route_of env) (route_of env) ready.reply_routes
        ∙ ap (λ (b : Bool). if b then none else lookup (route_of env) ready.reply_routes)
            (eq_refl (route_of env)) in
      (
        ap (λ (x : Node). x.result_ch) sent,
        ap (λ (x : Node). x.actors) sent,
        reply_unrouted (result_route again) again (calls after answered) (
            ap (λ (rk : ResultRouteKey). lookup rk (calls after answered).reply_routes) ea
            ∙ calls-others (route_of env) after answered ha
            ∙ gone),
      )
