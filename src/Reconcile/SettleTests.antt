-- ===== src/Reconcile/SettleTests.antt =====
-- A compensation at concrete tables.
use actor_cluster.Prelude.{
  ℕ, ◌-◌, ◌^◌, ◌≡◌, refl, sym, ap, ◌∙◌, true, ◌&&◌, String, List, [], ◌∷◌, map, Option, none, some,
  arith,
}
use actor_cluster.Prelude.Tests.{nat_beq, string_eq, ◌==◌, if◌then◌else◌}
use actor_cluster.Persistence.{
  Store, Statement, Row, Value, int32, int64, timestamp, text, blob, ok,
}
use actor_cluster.Wallet.Ops.{scan_snapshot}
use actor_cluster.Wallet.Log.{Event, snapshot_rows, after, upsert, replay}
use actor_cluster.Reconcile.{
  max_version_cql, scan_deltas, scan_version, summed, sum_deltas, compute_true_balance,
  issue_compensating_transaction,
}
use actor_cluster.Reconcile.Agree.{delta_row}
use actor_cluster.Reconcile.Settle.{
  last_version_rows, ReconcileTables, Answering, WellKept, compensation_settles,
}

-- The events and the snapshot of each wallet.
abbrev Tables : Type 0
Tables = ℕ → ℕ → List Event × Option (ℕ × ℕ)

abbrev with_rows : Tables → ℕ → ℕ → List Event × Option (ℕ × ℕ) → Tables
with_rows db t u rows t' u' = if nat_beq t t' && nat_beq u u' then rows else db t' u'

abbrev insert_one : Tables → List Value → Tables
insert_one db (int32 t ∷ int64 u ∷ int64 v ∷ timestamp _ ∷ text tx ∷ int64 d ∷ blob _ ∷ []) =
    with_rows db t u (upsert (record { version = v; tx_id = tx; delta = d }) (db t u).0, (db t u).1)
insert_one db _ = db

abbrev insert_all : Tables → List Statement → Tables
insert_all db [] = db
insert_all db (s ∷ ss) = insert_all (insert_one db s.args) ss

abbrev select : Tables → String → List Value → List Row
select db cql (int32 t ∷ int64 u ∷ []) =
    if cql == max_version_cql then last_version_rows (db t u).0 else snapshot_rows (db t u).1
select db cql (int32 t ∷ int64 u ∷ int64 v ∷ []) = map delta_row (after v (db t u).0)
select db cql _ = []

abbrev in_memory : Store
in_memory = record {
  Db = Tables;
  execute_batch = λ db mode statements. (insert_all db statements, none);
  query_rows = λ db cql args. (select db cql args, none);
}

with_rows_self :
    (db : Tables) (t u : ℕ) (rows : List Event × Option (ℕ × ℕ)) → with_rows db t u rows t u ≡ rows
with_rows_self db t u rows = rw (same t, same u)
  where
    same : (n : ℕ) → nat_beq n n ≡ true
    same n = ground arith

in_memory_tables : ReconcileTables in_memory
in_memory_tables = record {
  events = λ db t u. (db t u).0;
  snapshot = λ db t u. (db t u).1;
  select_snapshot = λ db t u rows e. sym (ap (λ (r : List Row × Option String). r.0) e);
  select_deltas = λ db t u v rows small e. sym (ap (λ (r : List Row × Option String). r.0) e);
  select_version = λ db t u rows e. sym (ap (λ (r : List Row × Option String). r.0) e);
  insert_event = λ db t u e now payload db' done.
      let self =
        sym (ap (λ (r : Tables × Option String). r.0 t u) done) ∙ with_rows_self db t u _ in
      (
        ap (λ (r : List Event × Option (ℕ × ℕ)). r.0) self,
        ap (λ (r : List Event × Option (ℕ × ℕ)). r.1) self,
      );
}

-- A deposit of 20 and then, by mistake, a withdrawal of 50; the snapshot stands at the first.
abbrev overdrawn : Tables
overdrawn t u = (
  record { version = 1; tx_id = "t1"; delta = 20 }
      ∷ record { version = 2; tx_id = "t2"; delta = 2 ^ 64 - 50 }
      ∷ [],
  some (20, 1),
)

abbrev settled : Tables
settled = (issue_compensating_transaction in_memory overdrawn 9 1 7 (2 ^ 64 - 30)).0

WellKept-overdrawn : WellKept (overdrawn 1 7).0 (overdrawn 1 7).1
unfolding replay
WellKept-overdrawn = record {
  ordered = (refl, (refl, tt));
  cut = (
    record { version = 1; tx_id = "t1"; delta = 20 } ∷ [],
    record { version = 2; tx_id = "t2"; delta = 2 ^ 64 - 50 } ∷ [],
    refl,
    refl,
    refl,
  );
  small = omega arith;
}

Answering-in_memory : (db : Tables) (t u : ℕ) → Answering in_memory db t u
Answering-in_memory db t u = record { snapshot_read = refl; deltas_read = λ v. refl }

compensation_settles_example : compute_true_balance in_memory settled 1 7 ≡ ok 0
unfolding compute_true_balance issue_compensating_transaction sum_deltas summed scan_deltas
    scan_version scan_snapshot in_memory_tables
compensation_settles_example =
    compensation_settles in_memory in_memory_tables overdrawn settled 9 1 7 (2 ^ 64 - 30)
      WellKept-overdrawn (omega arith) (Answering-in_memory overdrawn 1 7)
      (Answering-in_memory settled 1 7) refl refl refl
