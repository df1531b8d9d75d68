-- ===== src/Node/Retry.antt =====
-- The retry of HandleBatch ends.
use mathlib.Core.Bool.{false≢true}
use mathlib.Core.Path.{subst}
use actor_cluster.Prelude.{
  ℕ, ◌≡◌, refl, sym, ap, ◌∙◌, ◌⊎◌, inl, inr, String, Bool, true, false, Option, none, some,
}
use actor_cluster.Prelude.Tests.{eq_refl, Option-cases, if◌then◌else◌}
use actor_cluster.Prelude.Dict.{lookup, insert, lookup-delete, lookup-insert_self}
use actor_cluster.Message.{RemoteEnvelope}
use actor_cluster.Persistence.{Store}
use actor_cluster.Mailbox.State.{Actor, new_actor, start, send}
use actor_cluster.Wallet.State.{BusinessActor, new_business_actor}
use actor_cluster.Wallet.Ops.{rehydrate}
use actor_cluster.Node.Keys.{ActorKey, actor_key_eq}
use actor_cluster.Node.Runtime.{
  Node, LiveActor, after_send, or_again, settled, ensured, ensure_actor, sent_through, after_ensure,
  dispatch,
}

module _ (st : Store) where
  -- With no actor in the map, a round ends: the actor is new and takes the message, or it did not
  -- rehydrate and that is answered.
  fresh_round :
      (sender : Option ℕ) (env : RemoteEnvelope) (n : Node) (r : BusinessActor × Option String)
      → (after_ensure st sender env
          (env.tenant_id, env.uid)
          (settled st (env.tenant_id, env.uid) r n)).1
        ≡ true
  unfolding start send
  fresh_round sender env n (wallet, some e) = refl
  fresh_round sender env n (wallet, none) =
      let a : LiveActor = record { wallet = wallet; core = (start new_actor).0 } in
      let n' : Node = record n { actors = insert (env.tenant_id, env.uid) a n.actors } in
      ap (λ (o : Option LiveActor). (sent_through st sender env n' o).1)
        (lookup-insert_self (env.tenant_id, env.uid) a n.actors)

  absent_round :
      (db : st.Db) (now : ℕ) (sender : Option ℕ) (env : RemoteEnvelope) (n : Node)
      → lookup (env.tenant_id, env.uid) n.actors ≡ none
      → (after_ensure st sender env
          (env.tenant_id, env.uid)
          (ensure_actor st db now (env.tenant_id, env.uid) n)).1
        ≡ true
  absent_round db now sender env n e =
      let key : ActorKey = (env.tenant_id, env.uid) in
      ap (λ (o : Option LiveActor). (after_ensure st sender env key (ensured st db now key n o)).1)
        e
      ∙ fresh_round sender env n (rehydrate st db (new_business_actor env.tenant_id env.uid now))

  pub or_again_over :
      (r : Node × Bool) (again : Node → Node × Bool) → r.1 ≡ true → (or_again r again).1 ≡ true
  or_again_over (n, true) again h = refl
  or_again_over (n, false) again h = absurd (false≢true h)

  -- A round that fails leaves no actor in the map.
  pub after_send_failed :
      (sender : Option ℕ) (env : RemoteEnvelope) (a : LiveActor) (n : Node) (r : Actor × Bool)
      → ((after_send sender env a n r).1 ≡ true)
        ⊎ (lookup (env.tenant_id, env.uid) (after_send sender env a n r).0.actors ≡ none)
  after_send_failed sender env a n (core, true) = inl refl
  after_send_failed sender env a n (core, false) =
      let key : ActorKey = (env.tenant_id, env.uid) in
      inr (
        lookup-delete key key n.actors
        ∙ ap (λ (b : Bool). if b then none else lookup key n.actors) (eq_refl key))

  pub or_again_ends :
      (r : Node × Bool) (again : Node → Node × Bool) (env : RemoteEnvelope)
      → (r.1 ≡ true) ⊎ (lookup (env.tenant_id, env.uid) r.0.actors ≡ none)
      → ((n : Node) → lookup (env.tenant_id, env.uid) n.actors ≡ none → (again n).1 ≡ true)
      → (or_again r again).1 ≡ true
  or_again_ends (n, true) again env e ends = refl
  or_again_ends (n, false) again env (inl e) ends = absurd (false≢true e)
  or_again_ends (n, false) again env (inr e) ends = ends n e

  first_round :
      (db : st.Db) (now : ℕ) (sender : Option ℕ) (env : RemoteEnvelope) (n : Node)
      → let r =
          after_ensure st sender env
            (env.tenant_id, env.uid)
            (ensure_actor st db now (env.tenant_id, env.uid) n) in
        (r.1 ≡ true) ⊎ (lookup (env.tenant_id, env.uid) r.0.actors ≡ none)
  first_round db now sender env n =
      let key : ActorKey = (env.tenant_id, env.uid) in
      elim (Option-cases (lookup key n.actors)) [
        | inl e ↦ inl (absent_round db now sender env n e)
        | inr (a, e) ↦
            subst
              (λ (o : Option LiveActor).
                ((after_ensure st sender env key (ensured st db now key n o)).1 ≡ true)
                ⊎ (lookup key (after_ensure st sender env key (ensured st db now key n o)).0.actors
                    ≡ none))
              (sym e)
              (subst
                (λ (o : Option LiveActor).
                  ((sent_through st sender env n o).1 ≡ true)
                  ⊎ (lookup key (sent_through st sender env n o).0.actors ≡ none))
                (sym e) (after_send_failed sender env a n (send env a.core)))
      ]

  -- The retry of HandleBatch runs at most once: with fuel for two rounds, an envelope is
  -- dispatched to an actor that takes it, or its failed rehydration is answered, whatever actor
  -- the map held before.
  pub dispatch_ends :
      (db : st.Db) (now : ℕ) (sender : Option ℕ) (env : RemoteEnvelope) (n : Node)
      → (dispatch st 2 db now sender env n).1 ≡ true
  unfolding dispatch
  dispatch_ends db now sender env n =
      or_again_ends _ _ env (first_round db now sender env n)
        (λ n' e. or_again_over _ _ (absent_round db now sender env n' e))
