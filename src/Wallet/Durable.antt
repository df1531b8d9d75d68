-- ===== src/Wallet/Durable.antt =====
-- What a restart of a wallet's actor finds: the balance and the version that the actor held.
use actor_cluster.Prelude.{
  ℕ, ◌+◌, ◌<◌, ◌≡◌, ◌≢◌, refl, sym, ap, ◌∙◌, ◌⊎◌, inl, inr, String, List, [], ◌∷◌, ◌++◌, Option,
  none, some, arith,
}
use mathlib.Core.List.{append-nil}
use actor_cluster.Prelude.Lists.{length, length-append}
use actor_cluster.Prelude.Words.{add64, i64_bound}
use actor_cluster.Message.{RemoteEnvelope}
use actor_cluster.Persistence.{Store, BatchMode}
use actor_cluster.Wallet.State.{BusinessActor, add_tx_id, be_uint64, encode_int64}
use actor_cluster.Wallet.Ops.{
  Handled, applied, committed, settle, write_event, handle, rehydrate, event_statement,
}
use actor_cluster.Wallet.Log.{Event, WalletTables, event_of, replay, replay-append}
use actor_cluster.Wallet.Sync.{World, Reach, InSync, InSync-actor, upsert_written, handled_world}
use actor_cluster.Wallet.Steps.{after_handled, handled-InSync, Reach-InSync}
use actor_cluster.Wallet.Cases.{handle_cases}
use actor_cluster.Wallet.Left.{FailedWrite, Explained, Reach-Explained}
use actor_cluster.Wallet.Rehydrate.{Readable, rehydrate-eq-replay}

module _ (st : Store) (tables : WalletTables st) where
  open tables use {events, snapshot, insert_event}

  -- A wallet that nothing has been written for, and its new actor.
  pub record IsFresh (w : World st.Db) : Type 0 where
    pub no_events : events w.db w.actor.tenant_id w.actor.uid ≡ []
    pub no_snapshot : snapshot w.db w.actor.tenant_id w.actor.uid ≡ none
    pub no_balance : w.actor.balance ≡ 0
    pub no_version : w.actor.version ≡ 0
    pub no_jobs : w.jobs ≡ []

  pub IsFresh-InSync : (w : World st.Db) → IsFresh w → InSync st tables w
  unfolding replay
  IsFresh-InSync w f = record {
    written = [];
    left_over = [];
    stored = f.no_events;
    ordered = tt;
    one_left = inl refl;
    counted = sym f.no_version;
    summed = sym f.no_balance;
    cut = rw f.no_snapshot tt;
    job_cuts = rw f.no_jobs tt;
  }

  -- The last event that the tables hold is the last one that the actor counts.
  abbrev IsExact : World st.Db → Type 0
  IsExact w = length (events w.db w.actor.tenant_id w.actor.uid) ≡ w.actor.version

  written_out :
      (w : World st.Db) (s : InSync st tables w)
      → length (events w.db w.actor.tenant_id w.actor.uid) ≡ length s.written + length s.left_over
  written_out w s = ap length s.stored ∙ length-append s.written s.left_over

  -- An event that the tables hold behind those that the actor has counted.
  abbrev IsLast : World st.Db → Event → Type 0
  IsLast w e =
      (counted : List Event) × (events w.db w.actor.tenant_id w.actor.uid ≡ counted ++ e ∷ [])
      × (length counted ≡ w.actor.version)

  replay_cases :
      (w : World st.Db)
      → InSync st tables w
      → let all = events w.db w.actor.tenant_id w.actor.uid in
        ((length all ≡ w.actor.version) × (replay 0 all ≡ w.actor.balance))
        ⊎ ((e : Event) × IsLast w e
            × (length all ≡ w.actor.version + 1)
            × (replay 0 all ≡ add64 w.actor.balance e.delta))
  unfolding replay
  replay_cases w s = elim s.one_left [
    | inl e ↦
        let whole = s.stored ∙ (ap (λ (x : List Event). s.written ++ x) e ∙ append-nil s.written) in
        inl (rw whole s.counted, rw whole s.summed)
    | inr (y, e, at) ↦
        let whole = s.stored ∙ ap (λ (x : List Event). s.written ++ x) e in
        inr (
          y,
          (s.written, whole, s.counted),
          rw whole (omega (arith, length-append s.written (y ∷ []), s.counted)),
          rw whole (replay-append 0 s.written (y ∷ []) ∙ ap (λ (x : ℕ). add64 x y.delta) s.summed),
        )
  ]

  -- What rehydrate makes of the tables after a history of w.
  abbrev Restores : World st.Db → World st.Db → BusinessActor × Option String → Type 0
  Restores w x (b', error) =
      (error ≡ none)
      × (((b'.version ≡ x.actor.version) × (b'.balance ≡ x.actor.balance))
          ⊎ ((e : Event) × FailedWrite st w e
              × IsLast x e
              × (b'.version ≡ x.actor.version + 1)
              × (b'.balance ≡ add64 x.actor.balance e.delta)))

  restores :
      (w x : World st.Db) (b : BusinessActor)
      → Explained st tables w x
      → InSync st tables x
      → b.tenant_id ≡ x.actor.tenant_id
      → b.uid ≡ x.actor.uid
      → Readable st x.db b.tenant_id b.uid
      → x.actor.version + 1 < i64_bound
      → Restores w x (rehydrate st x.db b)
  restores w x b explained s ht hu readable small = elim (replay_cases x s) [
    | inl (len, sum) ↦
        let (fine, ver, bal) = all (omega arith) in
        (fine, inl (ver ∙ rw (ht, hu) len, bal ∙ rw (ht, hu) sum))
    | inr (e, (counted, rows, behind), len, sum) ↦
        let (fine, ver, bal) = all (omega arith) in
        (
          fine,
          inr (
            e,
            explained counted e rows behind,
            (counted, rows, behind),
            ver ∙ rw (ht, hu) len,
            bal ∙ rw (ht, hu) sum,
          ),
        )
  ]
    where
      all :
          length (events x.db x.actor.tenant_id x.actor.uid) < i64_bound
          → let rows = events x.db b.tenant_id b.uid in
            let (b', error) = rehydrate st x.db b in
            (error ≡ none) × (b'.version ≡ length rows) × (b'.balance ≡ replay 0 rows)
      all small' = rehydrate-eq-replay st tables x b s ht hu readable (rw (ht, hu) small')

  -- After any history of messages and snapshot goroutines from a fresh wallet, with fewer than 2 ^
  -- 63 - 1 events and both queries answering, rehydrate gives a new actor of this wallet the
  -- version and the balance that the old one held; or those after one event more, which stands in
  -- the tables behind the events that the old actor had counted, and is the event of a message of
  -- this history whose write was answered by an error.
  pub rehydrate_restored :
      (w x : World st.Db) (b : BusinessActor)
      → IsFresh w
      → Reach st w x
      → b.tenant_id ≡ x.actor.tenant_id
      → b.uid ≡ x.actor.uid
      → Readable st x.db b.tenant_id b.uid
      → x.actor.version + 1 < i64_bound
      → Restores w x (rehydrate st x.db b)
  rehydrate_restored w x b fresh r ht hu readable small =
      let s = IsFresh-InSync w fresh in
      restores w x b (Reach-Explained st tables s fresh.no_events r) (Reach-InSync st tables r s) ht
        hu readable small

  -- A call that returns a balance has stored its event as the last one.
  settle-IsExact :
      (w : World st.Db) (now : ℕ) (env : RemoteEnvelope) (amount : ℕ) (r : st.Db × Option String)
      → st.execute_batch w.db BatchMode.unlogged_batch (event_statement w.actor now env amount ∷ [])
        ≡ r
      → InSync st tables w
      → w.actor.version + 1 < i64_bound
      → (settle st w.actor env amount r).result.payload ≢ []
      → IsExact (after_handled st tables w (settle st w.actor env amount r))
  unfolding settle committed applied add_tx_id
  settle-IsExact w now env amount (db', some m) e s small paid = absurd (paid refl)
  settle-IsExact w now env amount (db', none) e s small paid = ground (
    arith,
    s.counted,
    ap length (
        (insert_event w.db w.actor.tenant_id w.actor.uid (event_of w.actor env amount) now
          env.payload db' e).0
        ∙ upsert_written st tables w (event_of w.actor env amount) s (omega (arith, s.counted))),
    length-append s.written (event_of w.actor env amount ∷ []),
  )

  restores_exact :
      (x : World st.Db) (b : BusinessActor)
      → InSync st tables x
      → IsExact x
      → b.tenant_id ≡ x.actor.tenant_id
      → b.uid ≡ x.actor.uid
      → Readable st x.db b.tenant_id b.uid
      → x.actor.version + 1 < i64_bound
      → let (b', error) = rehydrate st x.db b in
        (error ≡ none) × (b'.version ≡ x.actor.version) × (b'.balance ≡ x.actor.balance)
  restores_exact x b s exact ht hu readable small = elim (replay_cases x s) [
    | inl (len, sum) ↦
        let (fine, ver, bal) =
          rehydrate-eq-replay st tables x b s ht hu readable (rw (ht, hu) (omega arith)) in
        (fine, ver ∙ rw (ht, hu) len, bal ∙ rw (ht, hu) sum)
    | inr (e, last, len, sum) ↦ absurd (omega (arith, len, exact))
  ]

  -- What a call leaves that answers with a balance.
  abbrev Paid : World st.Db → Handled st.Db → Type 0
  Paid w h =
      IsExact (after_handled st tables w h)
      × (h.result.payload ≡ encode_int64 h.actor.balance)
      × (h.actor.version ≡ add64 w.actor.version 1)
      × (h.actor.tenant_id ≡ w.actor.tenant_id)
      × (h.actor.uid ≡ w.actor.uid)

  settle-Paid :
      (w : World st.Db) (now : ℕ) (env : RemoteEnvelope) (amount : ℕ) (r : st.Db × Option String)
      → st.execute_batch w.db BatchMode.unlogged_batch (event_statement w.actor now env amount ∷ [])
        ≡ r
      → InSync st tables w
      → w.actor.version + 1 < i64_bound
      → (settle st w.actor env amount r).result.payload ≢ []
      → Paid w (settle st w.actor env amount r)
  settle-Paid w now env amount (db', some m) e s small paid = absurd (unfold settle in paid refl)
  settle-Paid w now env amount (db', none) e s small paid = (
    settle-IsExact w now env amount (db', none) e s small paid,
    unfold settle committed applied add_tx_id in ground arith,
    unfold settle committed applied add_tx_id in ground arith,
    unfold settle committed applied add_tx_id in ground arith,
    unfold settle committed applied add_tx_id in ground arith,
  )

  handle-Paid :
      (w : World st.Db) (now : ℕ) (env : RemoteEnvelope)
      → InSync st tables w
      → w.actor.version + 1 < i64_bound
      → (handle st w.db now w.actor env).result.payload ≢ []
      → Paid w (handle st w.db now w.actor env)
  handle-Paid w now env s small =
      let b = record w.actor { last_active = now } in
      let w' = record w { actor = b } in
      handle_cases st (λ h. h.result.payload ≢ [] → Paid w h) w.db now w.actor env
        (λ res none_paid paid. absurd (paid none_paid))
        (λ _ _ _.
          unfold write_event in
          settle-Paid w' now env (be_uint64 env.payload) _ refl
            (InSync-actor st tables w b refl refl refl refl s) small)

  -- A balance that a call of Handle has answered with is durable: after any history from a fresh
  -- wallet, with fewer than 2 ^ 63 - 2 events before the call, an actor of this wallet that
  -- rehydrates from the tables as the call left them, both of its queries answering, has this
  -- balance and the next version. What is relied on of Cassandra is WalletTables.
  pub acknowledged_durable :
      (w x : World st.Db) (now : ℕ) (env : RemoteEnvelope) (b : BusinessActor)
      → IsFresh w
      → Reach st w x
      → x.actor.version + 2 < i64_bound
      → let h = handle st x.db now x.actor env in
        h.result.payload ≢ []
        → b.tenant_id ≡ x.actor.tenant_id
        → b.uid ≡ x.actor.uid
        → Readable st h.db b.tenant_id b.uid
        → let (b', error) = rehydrate st h.db b in
          (error ≡ none)
          × (b'.version ≡ add64 x.actor.version 1)
          × (h.result.payload ≡ encode_int64 b'.balance)
  acknowledged_durable w x now env b fresh r small paid ht hu readable =
      let s = Reach-InSync st tables r (IsFresh-InSync w fresh) in
      let h = handle st x.db now x.actor env in
      let y = handled_world st x now env in
      let s' = handled-InSync st tables x now env s (omega arith) in
      let (exact, pays, ver, t, u) = handle-Paid x now env s (omega arith) paid in
      let (fine, same_ver, same_bal) =
        restores_exact y b s' exact (ht ∙ sym t) (hu ∙ sym u) readable (omega (arith, ver)) in
      (fine, same_ver ∙ ver, pays ∙ ap encode_int64 (sym same_bal))
