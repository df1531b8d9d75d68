-- ===== src/Node/Rounds.antt =====
-- The rounds of HandleBatch: each envelope has its fate.
use mathlib.Core.Bool.{false≢true}
use mathlib.Core.Path.{subst}
use actor_cluster.Prelude.{
  ℕ, zero, suc, ◌≡◌, refl, sym, ◌∙◌, inl, inr, String, Bool, true, false, Option, none, some,
}
use actor_cluster.Prelude.Tests.{string_eq, Option-cases, Bool-cases}
use actor_cluster.Prelude.Dict.{lookup, insert}
use actor_cluster.Message.{RemoteEnvelope, err_rehydration_failed, err_bad_request, err_wrong_node}
use actor_cluster.Persistence.{Store}
use actor_cluster.Discovery.Table.{NodeIp}
use actor_cluster.Mailbox.State.{new_actor, start}
use actor_cluster.Wallet.State.{BusinessActor, new_business_actor}
use actor_cluster.Wallet.Ops.{rehydrate}
use actor_cluster.Node.Keys.{ActorKey, ResultRouteKey, actor_key_eq, result_route_key_eq}
use actor_cluster.Node.Runtime.{
  Node, LiveActor, or_again, settled, ensured, ensure_actor, sent_through, after_ensure, dispatch,
  route_of, force_kill_local_actor, is_bad_request, is_foreign_here, handle_envelope,
}
use actor_cluster.Node.Retry.{dispatch_ends}
use actor_cluster.Node.Fate.{
  kept_of, kept_at, Fate, Silent, Silent-Fate, enqueued-Fate, RoundFate, after_send-RoundFate,
}

module _ (st : Store) where
  pub sent_through-RoundFate :
      (k : ℕ) (env : RemoteEnvelope) (n : Node) (o : Option LiveActor)
      → RoundFate k env n (sent_through st (some k) env n o)
  sent_through-RoundFate k env n none = record {
    others = kept_of _ _ _ (λ other ne. refl);
    quiet = refl;
  }
  sent_through-RoundFate k env n (some a) = after_send-RoundFate k env a n

  after_ensure-RoundFate :
      (k : ℕ) (env : RemoteEnvelope) (n : Node) (r : BusinessActor × Option String)
      → RoundFate k env n (
          after_ensure st
            (some k)
            env
            (env.tenant_id, env.uid)
            (settled st (env.tenant_id, env.uid) r n))
  after_ensure-RoundFate k env n (wallet, some e) = enqueued-Fate k env 0 err_rehydration_failed e n
  after_ensure-RoundFate k env n (wallet, none) =
      let key : ActorKey = (env.tenant_id, env.uid) in
      let m : Node = record n {
        actors = insert key (record { wallet = wallet; core = (start new_actor).0 }) n.actors;
      } in
      from_same (sent_through st (some k) env m (lookup key m.actors))
        (sent_through-RoundFate k env m (lookup key m.actors))
    where
      from_same :
          (r : Node × Bool)
          → RoundFate k env
              (record n {
                actors =
                    insert
                      (env.tenant_id, env.uid)
                      (record { wallet = wallet; core = (start new_actor).0 })
                      n.actors;
              })
              r
          → RoundFate k env n r
      from_same (o, true) f =
          Silent-Fate k env n _ o
            (record { others = kept_of _ _ _ (λ other ne. refl); quiet = refl }) f
      from_same (o, false) s = record { others = s.others; quiet = s.quiet }

  round-RoundFate :
      (db : st.Db) (now k : ℕ) (env : RemoteEnvelope) (n : Node)
      → RoundFate k env n (
          after_ensure st
            (some k)
            env
            (env.tenant_id, env.uid)
            (ensure_actor st db now (env.tenant_id, env.uid) n))
  round-RoundFate db now k env n =
      let key : ActorKey = (env.tenant_id, env.uid) in
      elim (Option-cases (lookup key n.actors)) [
        | inl e ↦
            subst
              (λ (o : Option LiveActor).
                RoundFate k env n (after_ensure st (some k) env key (ensured st db now key n o)))
              (sym e)
              (after_ensure-RoundFate k env n
                (rehydrate st db (new_business_actor key.0 key.1 now)))
        | inr (a, e) ↦
            subst
              (λ (o : Option LiveActor).
                RoundFate k env n (after_ensure st (some k) env key (ensured st db now key n o)))
              (sym e) (sent_through-RoundFate k env n (lookup key n.actors))
      ]

  or_again-RoundFate :
      (k : ℕ) (env : RemoteEnvelope) (n : Node) (r : Node × Bool) (again : Node → Node × Bool)
      → RoundFate k env n r
      → ((m : Node) → RoundFate k env m (again m))
      → RoundFate k env n (or_again r again)
  or_again-RoundFate k env n (m, true) again f more = f
  or_again-RoundFate k env n (m, false) again s more = chained (again m) (more m)
    where
      chained : (r : Node × Bool) → RoundFate k env m r → RoundFate k env n r
      chained (o, true) f = Silent-Fate k env n m o s f
      chained (o, false) s' = record {
        others =
            kept_of _ _ _
              (λ other ne. kept_at _ _ _ other s'.others ne ∙ kept_at _ _ _ other s.others ne);
        quiet = s'.quiet ∙ s.quiet;
      }

  dispatch-RoundFate :
      (fuel : ℕ) (db : st.Db) (now k : ℕ) (env : RemoteEnvelope) (n : Node)
      → RoundFate k env n (dispatch st fuel db now (some k) env n)
  unfolding dispatch
  dispatch-RoundFate zero db now k env n = record {
    others = kept_of _ _ _ (λ other ne. refl);
    quiet = refl;
  }
  dispatch-RoundFate (suc fuel) db now k env n =
      or_again-RoundFate k env n _ _ (round-RoundFate db now k env n)
        (λ m. dispatch-RoundFate fuel db now k env m)

  pub ended-Fate :
      (k : ℕ) (env : RemoteEnvelope) (n : Node) (r : Node × Bool)
      → r.1 ≡ true
      → RoundFate k env n r
      → Fate k env n r.0
  ended-Fate k env n (m, true) e f = f
  ended-Fate k env n (m, false) e s = absurd (false≢true e)

  killed-Silent :
      (rk : ResultRouteKey) (key : ActorKey) (n : Node) → Silent rk n (force_kill_local_actor key n)
  unfolding force_kill_local_actor
  killed-Silent rk key n = elim (Option-cases (lookup key n.actors)) [
    | inl e ↦
        rw (e, force_kill_local_actor)
          (record { others = kept_of _ _ _ (λ other ne. refl); quiet = refl })
    | inr (a, e) ↦
        rw (e, force_kill_local_actor)
          (record { others = kept_of _ _ _ (λ other ne. refl); quiet = refl })
  ]

  module _ (resolver : Option (ℕ → ℕ → NodeIp)) (my_ip : String) where
    -- An envelope that is not nil never fails the batch, and has one of two fates: a refusal of this
    -- request is queued for its sender, or it is the last message in its wallet's mailbox and its
    -- reply route is the sender's. The routes of other requests stay.
    pub handle_envelope-Fate :
        (db : st.Db) (now k : ℕ) (env : RemoteEnvelope) (n : Node)
        → let r = handle_envelope st resolver my_ip db now (some k) (some env) n in
          (r.1 ≡ true) × Fate k env n r.0
    unfolding handle_envelope
    handle_envelope-Fate db now k env n = elim (Bool-cases (is_bad_request env)) [
      | inl e ↦ rw (e, handle_envelope) (refl, enqueued-Fate k env env.op_code err_bad_request _ n)
      | inr e ↦
          rw (e, handle_envelope)
            (elim (Bool-cases (is_foreign_here st resolver my_ip env)) [
              | inl f ↦
                  rw (f, handle_envelope)
                    (
                      refl,
                      Silent-Fate k env n _ _
                          (killed-Silent (route_of env) (env.tenant_id, env.uid) n)
                          (enqueued-Fate k env env.op_code err_wrong_node _ _),
                    )
              | inr f ↦
                  rw (f, handle_envelope)
                    (
                      dispatch_ends st db now (some k) env n,
                      ended-Fate k env n (dispatch st 2 db now (some k) env n)
                          (dispatch_ends st db now (some k) env n)
                          (dispatch-RoundFate 2 db now k env n),
                    )
            ])
    ]
