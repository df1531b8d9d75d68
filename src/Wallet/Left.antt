-- ===== src/Wallet/Left.antt =====
-- The event that stands in the tables behind those that the actor counts: where it comes from.
use actor_cluster.Prelude.{
  ℕ, ◌+◌, ◌<◌, ◌≡◌, refl, sym, ap, ◌∙◌, inl, inr, String, List, [], ◌∷◌, ◌++◌, Option, none, some,
  arith,
}
use actor_cluster.Prelude.Tests.{leb, string_eq, Bool-cases}
use actor_cluster.Prelude.Lists.{length, length-append}
use actor_cluster.Prelude.Words.{i64_bound}
use actor_cluster.Message.{RemoteEnvelope}
use actor_cluster.Persistence.{Store, BatchMode}
use actor_cluster.Wallet.State.{add_tx_id, be_uint64}
use actor_cluster.Wallet.Ops.{
  applied, committed, settle, write_event, run_snapshot, event_statement,
}
use actor_cluster.Wallet.Log.{Event, WalletTables, event_of}
use actor_cluster.Wallet.Sync.{
  World, Step, handled, snapshotted, Reach, here, next, JobCut, All-pick, InSync, upsert_written,
}
use actor_cluster.Wallet.Cases.{handle_cases}
use actor_cluster.Wallet.Steps.{after_handled, Reach-InSync}

abbrev last_of : List Event → Option Event
last_of [] = none
last_of (e ∷ []) = some e
last_of (e ∷ f ∷ es) = last_of (f ∷ es)

last_of-append : (es : List Event) (e : Event) → last_of (es ++ e ∷ []) ≡ some e
last_of-append [] e = refl
last_of-append (f ∷ []) e = refl
last_of-append (f ∷ g ∷ es) e = last_of-append (g ∷ es) e

abbrev value_or : Event → Option Event → Event
value_or d none = d
value_or d (some e) = e

same_last : (xs ys : List Event) (x y : Event) → xs ++ x ∷ [] ≡ ys ++ y ∷ [] → x ≡ y
same_last xs ys x y e =
    ap (value_or x) (sym (last_of-append xs x) ∙ ap last_of e ∙ last_of-append ys y)

-- The event of a message of this history, whose write was answered by an error.
abbrev pub FailedWrite : (st : Store) → World st.Db → Event → Type 0
FailedWrite st w e =
    (y : World st.Db) × (now : ℕ) × (env : RemoteEnvelope) × (msg : String) × Reach st w y
    × ((st.execute_batch y.db BatchMode.unlogged_batch (
          event_statement (record y.actor { last_active = now }) now env (be_uint64 env.payload)
          ∷ [])).1
        ≡ some msg)
    × (e ≡ event_of y.actor env (be_uint64 env.payload))

module _ (st : Store) (tables : WalletTables st) where
  open tables use {events, snapshot, insert_event, insert_event_failed, insert_snapshot}

  -- What stands behind the counted events comes from a failed write.
  abbrev pub Explained : World st.Db → World st.Db → Type 0
  Explained w x =
      (front : List Event) (e : Event)
      → events x.db x.actor.tenant_id x.actor.uid ≡ front ++ e ∷ []
      → length front ≡ x.actor.version
      → FailedWrite st w e

  committed-Explained :
      (w x : World st.Db) (env : RemoteEnvelope)
      → Explained w x
      → Explained w (after_handled st tables x (committed st x.db x.actor env))
  unfolding committed
  committed-Explained w x env h = elim (Bool-cases (leb 1000 x.actor.event_count)) [
    | inl due ↦ rw (due, committed) h
    | inr early ↦ rw (early, committed) h
  ]

  settle-Explained :
      (w x : World st.Db) (now : ℕ) (env : RemoteEnvelope) (r : st.Db × Option String)
      → Reach st w x
      → InSync st tables x
      → x.actor.version + 1 < i64_bound
      → st.execute_batch x.db BatchMode.unlogged_batch (
          event_statement (record x.actor { last_active = now }) now env (be_uint64 env.payload)
          ∷ [])
        ≡ r
      → Explained w x
      → Explained w (
          after_handled st tables x
            (settle st (record x.actor { last_active = now }) env (be_uint64 env.payload) r))
  unfolding settle applied add_tx_id
  settle-Explained w x now env (db', none) reached s small done h =
      let b = record x.actor { last_active = now } in
      let e' = event_of x.actor env (be_uint64 env.payload) in
      committed-Explained w (record x { db = db'; actor = applied b env (be_uint64 env.payload) })
        env
        (λ front e rows len.
          let all =
            (insert_event x.db x.actor.tenant_id x.actor.uid e' now env.payload db' done).0
            ∙ upsert_written st tables x e' s (omega (arith, s.counted)) in
          absurd (
            ground (
              arith,
              s.counted,
              len,
              ap length (sym all ∙ rows),
              length-append front (e ∷ []),
              length-append s.written (e' ∷ []),
              small,
            )))
  settle-Explained w x now env (db', some msg) reached s small failed h = λ front e rows len.
      let e' = event_of x.actor env (be_uint64 env.payload) in
      elim (insert_event_failed x.db x.actor.tenant_id x.actor.uid e' now env.payload db' msg
        failed).0 [
          | inl same ↦ h front e (sym same ∙ rows) len
          | inr more ↦ (
            x,
            now,
            env,
            msg,
            reached,
            ap (λ (r : st.Db × Option String). r.1) failed,
            same_last front s.written e e'
                (sym rows ∙ more ∙ upsert_written st tables x e' s (omega (arith, s.counted))),
          )
        ]

  Step-Explained :
      (w : World st.Db) {x y : World st.Db}
      → Reach st w x
      → InSync st tables x
      → x.actor.version + 1 < i64_bound
      → Step st x y
      → Explained w x
      → Explained w y
  unfolding run_snapshot
  Step-Explained w {x} reached s small (handled now env) h =
      handle_cases st (λ r. Explained w (after_handled st tables x r)) x.db now x.actor env
        (λ res _. h)
        (λ _ _ _. unfold write_event in settle-Explained w x now env _ reached s small refl h)
  Step-Explained w {x} reached s small (snapshotted before j later split) h = λ front e rows len.
      let (job, rest) =
        All-pick (JobCut x.actor s.written) before j later (rw split at s.job_cuts) in
      let kept : events (run_snapshot st x.db j) x.actor.tenant_id x.actor.uid
          ≡ events x.db x.actor.tenant_id x.actor.uid =
        rw (← job.0, ← job.1) (insert_snapshot x.db j.tenant_id j.uid j.balance j.version).0 in
      h front e (sym kept ∙ rows) len

  pub Reach-Explained :
      {w x : World st.Db}
      → InSync st tables w
      → events w.db w.actor.tenant_id w.actor.uid ≡ []
      → Reach st w x
      → Explained w x
  Reach-Explained s fresh here = λ front e rows len.
      absurd (grind (arith, ap length (sym fresh ∙ rows), length-append front (e ∷ [])))
  Reach-Explained {w} s fresh (next r small step) =
      Step-Explained w r (Reach-InSync st tables r s) small step (Reach-Explained s fresh r)
