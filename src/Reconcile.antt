-- ===== src/Reconcile.antt =====
-- internal/node/reconciliation.go: the balance recomputed from the tables, and the transaction that
-- brings a negative one back to zero.
pub mod Agree
pub mod Settle
mod Tests
mod SettleTests
use actor_cluster.Prelude.{
  ℕ, ◌+◌, ◌-◌, ◌^◌, String, Bool, true, false, List, [], ◌∷◌, Option, none, some,
}
use actor_cluster.Prelude.Tests.{ltb, if◌then◌else◌}
use actor_cluster.Prelude.Words.{add64, sub64, is_neg}
use actor_cluster.Prelude.Text.{◌^^◌, show_i64}
use actor_cluster.Persistence.{
  Store, Statement, Row, int32, int64, timestamp, text, blob, BatchMode, query, Scanned, ok, err,
}
use actor_cluster.Wallet.Ops.{snap_cql, insert_event_cql, scan_snapshot}

abbrev pub delta_cql : String
delta_cql =
    "SELECT delta_amount FROM wallet_events WHERE tenant_id = ? AND uid = ? AND version > ? ORDER BY version ASC"

abbrev pub max_version_cql : String
max_version_cql =
    "SELECT version FROM wallet_events WHERE tenant_id = ? AND uid = ? ORDER BY version DESC LIMIT 1"

-- `for s.Scan(&delta) { balance += delta }`
unfoldable pub scan_deltas : ℕ → List Row → ℕ
scan_deltas balance ((int64 delta ∷ []) ∷ rows) = scan_deltas (add64 balance delta) rows
scan_deltas balance _ = balance

-- One call of Scan: the first row's version, or the zero that was there.
unfoldable pub scan_version : List Row → ℕ
scan_version ((int64 version ∷ []) ∷ rows) = version
scan_version _ = 0

-- The second query's balance, or its error.
unfoldable pub summed : ℕ → List Row × Option String → Scanned ℕ
summed balance (rows, some e) = err ("computeTrueBalance: load events failed: " ^^ e)
summed balance (rows, none) = ok (scan_deltas balance rows)

-- []byte("reconciliation-compensating-tx")
abbrev pub compensating_payload : List ℕ
compensating_payload =
    114 ∷ 101 ∷ 99 ∷ 111 ∷ 110 ∷ 99 ∷ 105 ∷ 108 ∷ 105 ∷ 97 ∷ 116 ∷ 105 ∷ 111 ∷ 110 ∷ 45 ∷ 99 ∷ 111
    ∷ 109 ∷ 112 ∷ 101 ∷ 110 ∷ 115 ∷ 97 ∷ 116 ∷ 105 ∷ 110 ∷ 103 ∷ 45 ∷ 116 ∷ 120 ∷ []

-- An int32 in decimal, given by its bit pattern.
abbrev show_i32 : ℕ → String
show_i32 w = if ltb w (2 ^ 31) then show_i64 w else show_i64 (w + 2 ^ 64 - 2 ^ 32)

abbrev pub compensating_tx_id : (tenant_id uid now : ℕ) → String
compensating_tx_id tenant_id uid now =
    "reconciliation-" ^^ show_i32 tenant_id ^^ "-" ^^ show_i64 uid ^^ "-" ^^ show_i64 now

abbrev pub compensating_statement : (tenant_id uid max_version now negative_balance : ℕ) → Statement
compensating_statement tenant_id uid max_version now negative_balance = record {
  cql = insert_event_cql;
  args =
      int32 tenant_id
      ∷ int64 uid
      ∷ int64 (add64 max_version 1)
      ∷ timestamp now
      ∷ text (compensating_tx_id tenant_id uid now)
      ∷ int64 (sub64 0 negative_balance)
      ∷ blob compensating_payload
      ∷ [];
  idempotent = false;
}

module _ (st : Store) where
  unfoldable pub sum_deltas : st.Db → (tenant_id uid : ℕ) → ℕ × ℕ → Scanned ℕ
  sum_deltas db tenant_id uid (snapshot_balance, last_version) =
      summed snapshot_balance
        (st.query_rows db delta_cql (int32 tenant_id ∷ int64 uid ∷ int64 last_version ∷ []))

  unfoldable pub compute_true_balance : st.Db → (tenant_id uid : ℕ) → Scanned ℕ
  unfolding sum_deltas
  compute_true_balance db tenant_id uid =
      elim (query st db snap_cql (int32 tenant_id ∷ int64 uid ∷ [])
        (λ rows. ok (scan_snapshot (0, 0) rows))) [
          | err e ↦ err ("computeTrueBalance: load snapshot failed: " ^^ e)
          | ok snapshot ↦ sum_deltas db tenant_id uid snapshot
        ]

  -- The INSERT behind the largest version.
  abbrev pub insert_behind :
      st.Db → (now tenant_id uid negative_balance : ℕ) → Scanned ℕ → st.Db × Option String
  insert_behind db now tenant_id uid negative_balance (err e) =
      (db, some ("issueCompensatingTransaction: failed to get max version: " ^^ e))
  insert_behind db now tenant_id uid negative_balance (ok max_version) =
      st.execute_batch db BatchMode.unlogged_batch
        (compensating_statement tenant_id uid max_version now negative_balance ∷ [])

  -- The database and the error.
  unfoldable pub issue_compensating_transaction :
      st.Db → (now tenant_id uid negative_balance : ℕ) → st.Db × Option String
  issue_compensating_transaction db now tenant_id uid negative_balance =
      if is_neg negative_balance
      then insert_behind db now tenant_id uid negative_balance (
          query st db max_version_cql (int32 tenant_id ∷ int64 uid ∷ [])
            (λ rows. ok (scan_version rows)))
      else (db, none)

-- A pass over one wallet: the database, and whether it is counted as a discrepancy and as a success.
pub record Checked (D : Type 0) : Type 0 where
  pub db : D
  pub discrepancies : ℕ
  pub successes : ℕ

module _ (st : Store) where
  abbrev pub issued : Checked st.Db → st.Db × Option String → Checked st.Db
  issued c (db, none) = record c {
    db = db;
    discrepancies = c.discrepancies + 1;
    successes = c.successes + 1;
  }
  issued c (db, some e) = record c { db = db; discrepancies = c.discrepancies + 1 }

  abbrev pub check_balance : (now tenant_id uid : ℕ) → Scanned ℕ → Checked st.Db → Checked st.Db
  check_balance now tenant_id uid (err e) c = c
  check_balance now tenant_id uid (ok balance) c =
      if is_neg balance
      then issued c (issue_compensating_transaction st c.db now tenant_id uid balance)
      else record c { successes = c.successes + 1 }

  -- The loop of RunDailyReconciliation over its targets, each with the time of its compensation and
  -- with whether the context is done before it; the error is the context's.
  unfoldable pub reconcile_targets : List (Bool × ℕ × ℕ × ℕ) → Checked st.Db → Checked st.Db × Bool
  unfolding compute_true_balance issue_compensating_transaction
  reconcile_targets [] c = (c, false)
  reconcile_targets ((cancelled, now, tenant_id, uid) ∷ more) c =
      let rest =
        reconcile_targets more
          (check_balance now tenant_id uid (compute_true_balance st c.db tenant_id uid) c) in
      if cancelled then (c, true) else rest

  -- RunDailyReconciliation: the list of its targets is a placeholder that is always empty.
  abbrev pub run_daily_reconciliation : st.Db → Checked st.Db × Bool
  run_daily_reconciliation db =
      reconcile_targets [] (record { db = db; discrepancies = 0; successes = 0 })
