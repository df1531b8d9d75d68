-- ===== src/Client/Gateway/Balance.antt =====
-- The balance that the gateway answers against the one that an actor rehydrates.
use mathlib.Core.Option.{none-ne-some}
use actor_cluster.Prelude.{
  ℕ, ◌≡◌, refl, sym, ap, ◌∙◌, inl, inr, String, List, [], ◌∷◌, map, Option, none,
}
use actor_cluster.Prelude.Tests.{nat_beq, Bool-cases}
use actor_cluster.Prelude.Words.{add64}
use actor_cluster.Persistence.{Store, Row, int32, int64, ok}
use actor_cluster.Wallet.State.{BusinessActor, seed_tx_id}
use actor_cluster.Wallet.Ops.{
  snap_cql, event_cql, scan_snapshot, Replayed, scan_events, loaded, load_events, rehydrate,
}
use actor_cluster.Wallet.Log.{Event, event_row}
use actor_cluster.Reconcile.Agree.{rehydrated-scan, rehydrate-load_events}
use actor_cluster.Client.Gateway.{
  balance_event_cql, scan_balance, events_added, add_events, compute_balance,
}

-- The row of an event in the gateway's SELECT.
abbrev pub balance_row : Event → Row
balance_row e = int64 e.version ∷ int64 e.delta ∷ []

scan_balance-scan_events :
    (r : Replayed) (es : List Event)
    → (scan_events r (map event_row es)).gap ≡ none
    → let r' = scan_events r (map event_row es) in
      scan_balance (r.balance, r.prev_version) (map balance_row es) ≡ (r'.balance, r'.prev_version)
unfolding scan_events scan_balance
scan_balance-scan_events r [] g = refl
scan_balance-scan_events r (e ∷ es) g =
    elim (Bool-cases (nat_beq e.version (add64 r.prev_version 1))) [
      | inl fits ↦ rw fits (
          scan_balance-scan_events
            (record r {
              actor = seed_tx_id e.tx_id r.actor;
              prev_version = e.version;
              balance = add64 r.balance e.delta;
            })
            es (rw fits at g))
      | inr gap ↦ absurd (none-ne-some _ (sym (rw gap at g)))
    ]

module _ (st : Store) where
  add_events-load_events :
      (db : st.Db) (b : BusinessActor) (cut : ℕ × ℕ) (es : List Event)
      → st.query_rows db event_cql (int32 b.tenant_id ∷ int64 b.uid ∷ int64 cut.1 ∷ [])
        ≡ (map event_row es, none)
      → st.query_rows db balance_event_cql (int32 b.tenant_id ∷ int64 b.uid ∷ int64 cut.1 ∷ [])
        ≡ (map balance_row es, none)
      → (load_events st db b cut).1 ≡ none
      → let b' = (load_events st db b cut).0 in
        add_events st db b.tenant_id b.uid cut ≡ ok (b'.balance, b'.version)
  unfolding load_events loaded add_events events_added
  add_events-load_events db b (balance, version) es read read' fine =
      let r0 : Replayed = record {
        actor = b;
        prev_version = version;
        balance = balance;
        gap = none;
      } in
      let (no_gap, total, last) =
        rehydrated-scan (scan_events r0 (map event_row es)) (rw read at fine) in
      rw (read, read') (rw (total, last) (ap ok (scan_balance-scan_events r0 es no_gap)))

  compute_balance-add_events :
      (db : st.Db) (b : BusinessActor) (rows : List Row)
      → st.query_rows db snap_cql (int32 b.tenant_id ∷ int64 b.uid ∷ []) ≡ (rows, none)
      → compute_balance st db b.tenant_id b.uid
        ≡ add_events st db b.tenant_id b.uid (scan_snapshot (0, 0) rows)
  unfolding compute_balance
  compute_balance-add_events db b rows read =
      rw (read, compute_balance)
        (ap
          (λ (q : List Row × Option String).
            add_events st db b.tenant_id b.uid (scan_snapshot (0, 0) q.0))
          read)

  -- The gateway's balance and version of a wallet are those that an actor of the wallet rehydrates,
  -- provided that the three SELECTs answer, the last two with the same events, and that the actor
  -- rehydrates without an error.
  pub compute_balance-rehydrate :
      (db : st.Db) (b : BusinessActor) (snap_rows : List Row) (es : List Event)
      → st.query_rows db snap_cql (int32 b.tenant_id ∷ int64 b.uid ∷ []) ≡ (snap_rows, none)
      → (let version = (scan_snapshot (0, 0) snap_rows).1 in
          st.query_rows db event_cql (int32 b.tenant_id ∷ int64 b.uid ∷ int64 version ∷ [])
          ≡ (map event_row es, none))
      → (let version = (scan_snapshot (0, 0) snap_rows).1 in
          st.query_rows db balance_event_cql (int32 b.tenant_id ∷ int64 b.uid ∷ int64 version ∷ [])
          ≡ (map balance_row es, none))
      → (rehydrate st db b).1 ≡ none
      → compute_balance st db b.tenant_id b.uid
        ≡ ok ((rehydrate st db b).0.balance, (rehydrate st db b).0.version)
  compute_balance-rehydrate db b snap_rows es read_snap read read' fine =
      let same = rehydrate-load_events st db b snap_rows read_snap in
      compute_balance-add_events db b snap_rows read_snap
      ∙ add_events-load_events db b (scan_snapshot (0, 0) snap_rows) es read read'
          (ap (λ (o : BusinessActor × Option String). o.1) (sym same) ∙ fine)
      ∙ ap (λ (o : BusinessActor × Option String). ok (o.0.balance, o.0.version)) (sym same)
