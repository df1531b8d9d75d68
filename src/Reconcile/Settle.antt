-- ===== src/Reconcile/Settle.antt =====
-- A compensating transaction brings the recomputed balance to zero. `ReconcileTables` states what
-- reconciliation.go relies on of Cassandra: what its three SELECTs yield, and what its INSERT does.
use mathlib.Core.Option.{none-ne-some}
use mathlib.Core.Path.{subst}
use actor_cluster.Prelude.{
  ℕ, ◌+◌, ◌<◌, ◌≡◌, refl, sym, ap, ◌∙◌, String, true, List, [], ◌∷◌, ◌++◌, map, Option, none, some,
  arith,
}
use actor_cluster.Prelude.Lists.{length, length-append}
use actor_cluster.Prelude.Words.{u64_mod, i64_bound, add64, sub64, is_neg}
use actor_cluster.Persistence.{Store, Row, int32, int64, BatchMode, Scanned, ok, answer}
use actor_cluster.Wallet.Ops.{snap_cql, scan_snapshot}
use actor_cluster.Wallet.Log.{
  Event, event_insert, snapshot_rows, after, after_front, upsert, upsert_next, replay,
  replay-append, Contiguous, Contiguous-append,
}
use actor_cluster.Wallet.Sync.{IsCut, SnapshotCut, SnapshotCut-append}
use actor_cluster.Wallet.Rehydrate.{snapshot-IsCut}
use actor_cluster.Reconcile.{
  delta_cql, max_version_cql, scan_deltas, scan_version, summed, sum_deltas, compute_true_balance,
  compensating_tx_id, compensating_payload, compensating_statement, issue_compensating_transaction,
  insert_behind,
}
use actor_cluster.Reconcile.Agree.{delta_row}

-- ORDER BY version DESC LIMIT 1
abbrev pub last_version_rows : List Event → List Row
last_version_rows [] = []
last_version_rows (e ∷ []) = (int64 e.version ∷ []) ∷ []
last_version_rows (e ∷ f ∷ es) = last_version_rows (f ∷ es)

abbrev pub compensation : (tenant_id uid max_version now negative_balance : ℕ) → Event
compensation tenant_id uid max_version now negative_balance = record {
  version = add64 max_version 1;
  tx_id = compensating_tx_id tenant_id uid now;
  delta = sub64 0 negative_balance;
}

pub record ReconcileTables (st : Store) : Type 0 where
  pub events : st.Db → ℕ → ℕ → List Event
  pub snapshot : st.Db → ℕ → ℕ → Option (ℕ × ℕ)
  pub select_snapshot :
      (db : st.Db) (t u : ℕ) (rows : List Row)
      → st.query_rows db snap_cql (int32 t ∷ int64 u ∷ []) ≡ (rows, none)
      → rows ≡ snapshot_rows (snapshot db t u)
  pub select_deltas :
      (db : st.Db) (t u v : ℕ) (rows : List Row)
      → v < i64_bound
      → st.query_rows db delta_cql (int32 t ∷ int64 u ∷ int64 v ∷ []) ≡ (rows, none)
      → rows ≡ map delta_row (after v (events db t u))
  pub select_version :
      (db : st.Db) (t u : ℕ) (rows : List Row)
      → st.query_rows db max_version_cql (int32 t ∷ int64 u ∷ []) ≡ (rows, none)
      → rows ≡ last_version_rows (events db t u)
  pub insert_event :
      (db : st.Db) (t u : ℕ) (e : Event) (now : ℕ) (payload : List ℕ) (db' : st.Db)
      → st.execute_batch db BatchMode.unlogged_batch (event_insert t u e now payload ∷ [])
        ≡ (db', none)
      → (events db' t u ≡ upsert e (events db t u)) × (snapshot db' t u ≡ snapshot db t u)

scan_deltas-replay : (b : ℕ) (es : List Event) → scan_deltas b (map delta_row es) ≡ replay b es
unfolding scan_deltas replay
scan_deltas-replay b [] = refl
scan_deltas-replay b (e ∷ es) = scan_deltas-replay (add64 b e.delta) es

-- Events that go from p + 1 on end at p and as many.
scan_version-last :
    (p : ℕ) (e : Event) (es : List Event)
    → Contiguous p (e ∷ es)
    → scan_version (last_version_rows (e ∷ es)) ≡ p + length (e ∷ es)
unfolding scan_version
scan_version-last p e [] h = omega (arith, h.0)
scan_version-last p e (f ∷ es) h = omega (arith, scan_version-last (p + 1) f es h.1)

scan_version-all :
    (es : List Event) → Contiguous 0 es → scan_version (last_version_rows es) ≡ length es
unfolding scan_version
scan_version-all [] h = refl
scan_version-all (e ∷ es) h = omega (arith, scan_version-last 0 e es h)

replay-lt : (b : ℕ) (es : List Event) → b < u64_mod → replay b es < u64_mod
unfolding replay
replay-lt b [] h = h
replay-lt b (e ∷ es) h = replay-lt (add64 b e.delta) es (omega arith)

-- The two queries of a recomputation answer, whatever version the second one asks for.
pub record Answering (st : Store) (db : st.Db) (t u : ℕ) : Type 0 where
  pub snapshot_read : (st.query_rows db snap_cql (int32 t ∷ int64 u ∷ [])).1 ≡ none
  pub deltas_read :
      (v : ℕ) → (st.query_rows db delta_cql (int32 t ∷ int64 u ∷ int64 v ∷ [])).1 ≡ none

-- The events of a wallet follow on from version 1, and its snapshot is the balance at one of them.
pub record WellKept (es : List Event) (snapshot : Option (ℕ × ℕ)) : Type 0 where
  pub ordered : Contiguous 0 es
  pub cut : SnapshotCut es snapshot
  pub small : length es < i64_bound

-- An issued transaction has read the largest version, and its INSERT has succeeded.
insert_behind-done :
    (st : Store) (db db' : st.Db) (now t u balance : ℕ) (q : List Row × Option String)
    → insert_behind st db now t u balance (answer (λ (rows : List Row). ok (scan_version rows)) q)
      ≡ (db', none)
    → (q.1 ≡ none)
      × (st.execute_batch db BatchMode.unlogged_batch
            (compensating_statement t u (scan_version q.0) now balance ∷ [])
          ≡ (db', none))
insert_behind-done st db db' now t u balance (rows, none) h = (refl, h)
insert_behind-done st db db' now t u balance (rows, some e) h =
    absurd (none-ne-some _ (sym (ap (λ (r : st.Db × Option String). r.1) h)))

-- The total and the compensation of the balance that was computed from it.
settled :
    (total balance : ℕ)
    → total < u64_mod
    → ◌≡◌ {A = Scanned ℕ} (ok total) (ok balance)
    → add64 total (sub64 0 balance) ≡ 0
settled total balance h e = ground (arith, h, e)

module _ (st : Store) (tables : ReconcileTables st) where
  open tables use {events, snapshot, select_snapshot, select_deltas, select_version, insert_event}

  compute-sum_deltas :
      (db : st.Db) (t u : ℕ)
      → (st.query_rows db snap_cql (int32 t ∷ int64 u ∷ [])).1 ≡ none
      → compute_true_balance st db t u
        ≡ sum_deltas st db t u (scan_snapshot (0, 0) (snapshot_rows (snapshot db t u)))
  unfolding compute_true_balance
  compute-sum_deltas db t u answers = rw (read, compute_true_balance) (rw found)
    where
      rows : List Row
      rows = (st.query_rows db snap_cql (int32 t ∷ int64 u ∷ [])).0

      read : st.query_rows db snap_cql (int32 t ∷ int64 u ∷ []) ≡ (rows, none)
      read = λ i. (rows, answers i)

      found : rows ≡ snapshot_rows (snapshot db t u)
      found = select_snapshot db t u rows read

  sum_deltas-replay :
      (db : st.Db) (t u balance version : ℕ)
      → WellKept (events db t u) (snapshot db t u)
      → IsCut (events db t u) balance version
      → (st.query_rows db delta_cql (int32 t ∷ int64 u ∷ int64 version ∷ [])).1 ≡ none
      → sum_deltas st db t u (balance, version) ≡ ok (replay 0 (events db t u))
  unfolding sum_deltas summed
  sum_deltas-replay db t u balance version kept (front, back, split, len, sum) answers = rw read (
      ap ok (
        ap (scan_deltas balance) (found ∙ ap (map delta_row) behind)
        ∙ scan_deltas-replay balance back
        ∙ ap (λ (b : ℕ). replay b back) (sym sum)
        ∙ sym (replay-append 0 front back)
        ∙ ap (replay 0) (sym split)))
    where
      rows : List Row
      rows = (st.query_rows db delta_cql (int32 t ∷ int64 u ∷ int64 version ∷ [])).0

      read : st.query_rows db delta_cql (int32 t ∷ int64 u ∷ int64 version ∷ []) ≡ (rows, none)
      read = λ i. (rows, answers i)

      found : rows ≡ map delta_row (after version (events db t u))
      found =
          select_deltas db t u version rows
            (omega (arith, kept.small, ap length split, length-append front back, len)) read

      behind : after version (events db t u) ≡ back
      behind = rw (← len, split) (after_front front back (rw split at kept.ordered))

  compute-replay :
      (db : st.Db) (t u : ℕ)
      → WellKept (events db t u) (snapshot db t u)
      → Answering st db t u
      → compute_true_balance st db t u ≡ ok (replay 0 (events db t u))
  compute-replay db t u kept answers =
      compute-sum_deltas db t u answers.snapshot_read
      ∙ sum_deltas-replay db t u _ _ kept
          (snapshot-IsCut (events db t u) (snapshot db t u) kept.cut) (answers.deltas_read _)

  issued-events :
      (db db' : st.Db) (now t u balance : ℕ)
      → Contiguous 0 (events db t u)
      → length (events db t u) + 1 < i64_bound
      → is_neg balance ≡ true
      → issue_compensating_transaction st db now t u balance ≡ (db', none)
      → (events db' t u
          ≡ events db t u ++ compensation t u (length (events db t u)) now balance ∷ [])
        × (snapshot db' t u ≡ snapshot db t u)
  unfolding issue_compensating_transaction
  issued-events db db' now t u balance ordered small negative done =
      let q = st.query_rows db max_version_cql (int32 t ∷ int64 u ∷ []) in
      let (answers, inserted) =
        insert_behind-done st db db' now t u balance q (rw (negative) at done) in
      let last =
        ap scan_version (select_version db t u q.0 (λ i. (q.0, answers i)))
        ∙ scan_version-all (events db t u) ordered in
      let (written, kept) =
        insert_event db t u (compensation t u (length (events db t u)) now balance) now
          compensating_payload db'
          (subst
            (λ (v : ℕ).
              st.execute_batch db BatchMode.unlogged_batch
                (compensating_statement t u v now balance ∷ [])
              ≡ (db', none))
            last inserted) in
      (
        written
            ∙ upsert_next 0 (compensation t u (length (events db t u)) now balance) (events db t u)
                ordered (omega (arith, small)),
        kept,
      )

  -- For a wallet whose events follow on from version 1 and whose snapshot is the balance at one of
  -- them, with a version left, if the recomputed balance is negative and the compensating transaction for it succeeds, the
  -- balance that is recomputed then is zero, provided that the SELECTs of both recomputations answer.
  pub compensation_settles :
      (db db' : st.Db) (now t u balance : ℕ)
      → WellKept (events db t u) (snapshot db t u)
      → length (events db t u) + 1 < i64_bound
      → Answering st db t u
      → Answering st db' t u
      → compute_true_balance st db t u ≡ ok balance
      → is_neg balance ≡ true
      → issue_compensating_transaction st db now t u balance ≡ (db', none)
      → compute_true_balance st db' t u ≡ ok 0
  unfolding replay
  compensation_settles db db' now t u balance kept room answers answers' computed negative done =
      let (written, same) = issued-events db db' now t u balance kept.ordered room negative done in
      let added = compensation t u (length (events db t u)) now balance in
      let kept' : WellKept (events db' t u) (snapshot db' t u) = record {
        ordered =
            rw written
              (Contiguous-append 0 (events db t u) added kept.ordered (omega (arith, room)));
        cut =
            rw (written, same)
              (SnapshotCut-append (events db t u) added (snapshot db t u) kept.cut);
        small = omega (arith, ap length written, length-append (events db t u) (added ∷ []), room);
      } in
      compute-replay db' t u kept' answers'
      ∙ ap ok (
          ap (replay 0) written
          ∙ replay-append 0 (events db t u) (added ∷ [])
          ∙ settled (replay 0 (events db t u)) balance (replay-lt 0 (events db t u) (omega arith))
              (sym (compute-replay db t u kept answers) ∙ computed))
