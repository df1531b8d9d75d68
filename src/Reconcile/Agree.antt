-- ===== src/Reconcile/Agree.antt =====
-- The recomputed balance against the one that an actor rehydrates.
use mathlib.Core.Option.{none-ne-some}
use actor_cluster.Prelude.{
  ℕ, ◌≡◌, refl, sym, ap, ◌∙◌, inl, inr, String, List, [], ◌∷◌, map, Option, none,
}
use actor_cluster.Prelude.Tests.{nat_beq, Bool-cases, Option-cases}
use actor_cluster.Prelude.Words.{add64}
use actor_cluster.Persistence.{Store, Row, int32, int64, ok}
use actor_cluster.Wallet.State.{BusinessActor, seed_tx_id}
use actor_cluster.Wallet.Ops.{
  snap_cql, event_cql, scan_snapshot, Replayed, scan_events, scan_result, rehydrated, loaded,
  load_events, rehydrate,
}
use actor_cluster.Wallet.Log.{Event, event_row}
use actor_cluster.Reconcile.{delta_cql, scan_deltas, summed, sum_deltas, compute_true_balance}

-- The row of an event in the SELECT of its delta alone.
abbrev pub delta_row : Event → Row
delta_row e = int64 e.delta ∷ []

-- A scan of events that meets no gap adds up the same deltas.
scan_deltas-scan_events :
    (r : Replayed) (es : List Event)
    → (scan_events r (map event_row es)).gap ≡ none
    → scan_deltas r.balance (map delta_row es) ≡ (scan_events r (map event_row es)).balance
unfolding scan_events scan_deltas
scan_deltas-scan_events r [] g = refl
scan_deltas-scan_events r (e ∷ es) g =
    elim (Bool-cases (nat_beq e.version (add64 r.prev_version 1))) [
      | inl fits ↦ rw fits (
          scan_deltas-scan_events
            (record r {
              actor = seed_tx_id e.tx_id r.actor;
              prev_version = e.version;
              balance = add64 r.balance e.delta;
            })
            es (rw fits at g))
      | inr gap ↦ absurd (none-ne-some _ (sym (rw gap at g)))
    ]

-- rehydrate succeeds only without a gap, and takes the balance and the version of the scan.
pub rehydrated-scan :
    (r : Replayed)
    → (rehydrated r (scan_result r none)).1 ≡ none
    → let b = (rehydrated r (scan_result r none)).0 in
      (r.gap ≡ none) × (b.balance ≡ r.balance) × (b.version ≡ r.prev_version)
unfolding rehydrated
rehydrated-scan r h = elim (Option-cases r.gap) [
  | inl e ↦ (e, rw e refl, rw e refl)
  | inr (gap, e) ↦ absurd (none-ne-some _ (sym (rw e at h)))
]

module _ (st : Store) where
  sum_deltas-load_events :
      (db : st.Db) (b : BusinessActor) (cut : ℕ × ℕ) (es : List Event)
      → st.query_rows db event_cql (int32 b.tenant_id ∷ int64 b.uid ∷ int64 cut.1 ∷ [])
        ≡ (map event_row es, none)
      → st.query_rows db delta_cql (int32 b.tenant_id ∷ int64 b.uid ∷ int64 cut.1 ∷ [])
        ≡ (map delta_row es, none)
      → (load_events st db b cut).1 ≡ none
      → sum_deltas st db b.tenant_id b.uid cut ≡ ok (load_events st db b cut).0.balance
  unfolding load_events loaded sum_deltas summed
  sum_deltas-load_events db b (balance, version) es read read' fine =
      let r0 : Replayed = record {
        actor = b;
        prev_version = version;
        balance = balance;
        gap = none;
      } in
      let (no_gap, total, _) =
        rehydrated-scan (scan_events r0 (map event_row es)) (rw read at fine) in
      rw (read, read') (ap ok (scan_deltas-scan_events r0 es no_gap ∙ sym total))

  pub rehydrate-load_events :
      (db : st.Db) (b : BusinessActor) (rows : List Row)
      → st.query_rows db snap_cql (int32 b.tenant_id ∷ int64 b.uid ∷ []) ≡ (rows, none)
      → rehydrate st db b ≡ load_events st db b (scan_snapshot (0, 0) rows)
  unfolding rehydrate
  rehydrate-load_events db b rows read =
      rw (read, rehydrate)
        (ap (λ (q : List Row × Option String). load_events st db b (scan_snapshot (0, 0) q.0)) read)

  compute_true_balance-sum_deltas :
      (db : st.Db) (b : BusinessActor) (rows : List Row)
      → st.query_rows db snap_cql (int32 b.tenant_id ∷ int64 b.uid ∷ []) ≡ (rows, none)
      → compute_true_balance st db b.tenant_id b.uid
        ≡ sum_deltas st db b.tenant_id b.uid (scan_snapshot (0, 0) rows)
  unfolding compute_true_balance
  compute_true_balance-sum_deltas db b rows read =
      rw (read, compute_true_balance)
        (ap
          (λ (q : List Row × Option String).
            sum_deltas st db b.tenant_id b.uid (scan_snapshot (0, 0) q.0))
          read)

  -- The balance that the reconciliation recomputes is the one that an actor of the wallet
  -- rehydrates, provided that the three SELECTs answer, the last two with the same events, and that
  -- the actor rehydrates without an error.
  pub compute_true_balance-rehydrate :
      (db : st.Db) (b : BusinessActor) (snap_rows : List Row) (es : List Event)
      → st.query_rows db snap_cql (int32 b.tenant_id ∷ int64 b.uid ∷ []) ≡ (snap_rows, none)
      → (let version = (scan_snapshot (0, 0) snap_rows).1 in
          st.query_rows db event_cql (int32 b.tenant_id ∷ int64 b.uid ∷ int64 version ∷ [])
          ≡ (map event_row es, none))
      → (let version = (scan_snapshot (0, 0) snap_rows).1 in
          st.query_rows db delta_cql (int32 b.tenant_id ∷ int64 b.uid ∷ int64 version ∷ [])
          ≡ (map delta_row es, none))
      → (rehydrate st db b).1 ≡ none
      → compute_true_balance st db b.tenant_id b.uid ≡ ok (rehydrate st db b).0.balance
  compute_true_balance-rehydrate db b snap_rows es read_snap read read' fine =
      let same = rehydrate-load_events db b snap_rows read_snap in
      compute_true_balance-sum_deltas db b snap_rows read_snap
      ∙ sum_deltas-load_events db b (scan_snapshot (0, 0) snap_rows) es read read'
          (ap (λ (o : BusinessActor × Option String). o.1) (sym same) ∙ fine)
      ∙ ap (λ (o : BusinessActor × Option String). ok o.0.balance) (sym same)
