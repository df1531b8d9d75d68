-- ===== src/Wallet/Ops.antt =====
-- internal/node/actor.go: rehydrate, Handle and the snapshots. The store is the parameter `st`;
-- `now` is what time.Now returned. A goroutine that takeSnapshotAsync starts is a `SnapshotJob`,
-- which the caller runs at any later time.
use actor_cluster.Prelude.{ℕ, ◌+◌, String, true, false, List, [], ◌∷◌, Option, none, some}
use actor_cluster.Prelude.Tests.{ltb, leb, nat_beq, string_eq, if◌then◌else◌}
use actor_cluster.Prelude.Lists.{length}
use actor_cluster.Prelude.Words.{add64, is_neg}
use actor_cluster.Prelude.Text.{◌^^◌, show_i64}
use actor_cluster.Prelude.Dict.{lookup, is_some}
use actor_cluster.Message.{
  RemoteEnvelope, RemoteResult, err_invalid_payload, err_insufficient_funds, err_persistence_failed,
}
use actor_cluster.Persistence.{
  Store, Statement, Row, int32, int64, timestamp, text, blob, BatchMode, query, ok, err,
}
use actor_cluster.Wallet.State.{
  BusinessActor, snapshot_threshold, add_tx_id, seed_tx_id, be_uint64, encode_int64,
}

abbrev pub snap_cql : String
snap_cql = "SELECT balance, last_version FROM wallet_snapshots WHERE tenant_id = ? AND uid = ?"

abbrev pub event_cql : String
event_cql =
    "SELECT version, tx_id, delta_amount FROM wallet_events WHERE tenant_id = ? AND uid = ? AND version > ? ORDER BY version ASC"

abbrev pub insert_event_cql : String
insert_event_cql =
    "INSERT INTO wallet_events (tenant_id, uid, version, created_at, tx_id, delta_amount, payload) VALUES (?, ?, ?, ?, ?, ?, ?)"

abbrev pub insert_snapshot_cql : String
insert_snapshot_cql =
    "INSERT INTO wallet_snapshots (tenant_id, uid, balance, last_version) VALUES (?, ?, ?, ?)"

-- `for s.Scan(&snapshotBalance, &lastVersion) {}`: the last row stays.
unfoldable pub scan_snapshot : ℕ × ℕ → List Row → ℕ × ℕ
scan_snapshot acc ((int64 balance ∷ int64 version ∷ []) ∷ rows) =
    scan_snapshot (balance, version) rows
scan_snapshot acc _ = acc

-- What the scan of the events has built up: the actor with its transaction ids, the last version,
-- the balance; `gap` is the callback's error.
pub record Replayed : Type 0 where
  pub actor : BusinessActor
  pub prev_version : ℕ
  pub balance : ℕ
  pub gap : Option String

abbrev gap_error : ℕ → ℕ → String
gap_error expected got =
    "version gap: expected "
    ^^ show_i64 expected
    ^^ " got "
    ^^ show_i64 got
    ^^ " (data loss or out-of-order write)"

unfoldable pub scan_events : Replayed → List Row → Replayed
scan_events r ((int64 version ∷ text tx_id ∷ int64 delta ∷ []) ∷ rows) =
    let r' = record r {
      actor = seed_tx_id tx_id r.actor;
      prev_version = version;
      balance = add64 r.balance delta;
    } in
    let rest = scan_events r' rows in
    if nat_beq version (add64 r.prev_version 1)
    then rest
    else record r { gap = some (gap_error (add64 r.prev_version 1) version) }
scan_events r _ = r

-- What Query returns of a scan that ended in `r`.
abbrev pub scan_result : Replayed → Option String → Option String
scan_result r close_err = elim r.gap [ some e ↦ some e | none ↦ close_err ]

-- The actor at the end of `rehydrate`, by the error of its second query.
unfoldable pub rehydrated : Replayed → Option String → BusinessActor × Option String
rehydrated r (some e) = (r.actor, some ("rehydrate: load events failed: " ^^ e))
rehydrated r none = (record r.actor { balance = r.balance; version = r.prev_version }, none)

-- The second query of `rehydrate`, from the balance and the version of the snapshot.
unfoldable pub loaded :
    BusinessActor → ℕ → ℕ → List Row × Option String → BusinessActor × Option String
unfolding scan_events rehydrated
loaded b snapshot_balance last_version (rows, close_err) =
    let r =
      scan_events
        (record { actor = b; prev_version = last_version; balance = snapshot_balance; gap = none })
        rows in
    rehydrated r (scan_result r close_err)

module _ (st : Store) where
  unfoldable pub load_events : st.Db → BusinessActor → ℕ × ℕ → BusinessActor × Option String
  load_events db b (snapshot_balance, last_version) =
      loaded b snapshot_balance last_version
        (st.query_rows db event_cql (int32 b.tenant_id ∷ int64 b.uid ∷ int64 last_version ∷ []))

  -- The actor and the error; on an error the transaction ids read so far stay in the actor.
  unfoldable pub rehydrate : st.Db → BusinessActor → BusinessActor × Option String
  unfolding load_events
  rehydrate db b =
      elim (query st db snap_cql (int32 b.tenant_id ∷ int64 b.uid ∷ [])
        (λ rows. ok (scan_snapshot (0, 0) rows))) [
          | err e ↦ (b, some ("rehydrate: load snapshot failed: " ^^ e))
          | ok snapshot ↦ load_events db b snapshot
        ]

pub record SnapshotJob : Type 0 where
  pub tenant_id : ℕ
  pub uid : ℕ
  pub balance : ℕ
  pub version : ℕ

abbrev pub event_statement : BusinessActor → ℕ → RemoteEnvelope → ℕ → Statement
event_statement b now env amount = record {
  cql = insert_event_cql;
  args =
      int32 b.tenant_id
      ∷ int64 b.uid
      ∷ int64 (add64 b.version 1)
      ∷ timestamp now
      ∷ text env.tx_id
      ∷ int64 amount
      ∷ blob env.payload
      ∷ [];
  idempotent = false;
}

abbrev pub snapshot_statement : SnapshotJob → Statement
snapshot_statement j = record {
  cql = insert_snapshot_cql;
  args = int32 j.tenant_id ∷ int64 j.uid ∷ int64 j.balance ∷ int64 j.version ∷ [];
  idempotent = true;
}

abbrev pub job_of : BusinessActor → SnapshotJob
job_of b = record { tenant_id = b.tenant_id; uid = b.uid; balance = b.balance; version = b.version }

-- The identity of a result, with the business fields still at their zero values.
abbrev pub base_result : BusinessActor → RemoteEnvelope → RemoteResult
base_result b env = record {
  tenant_id = b.tenant_id;
  uid = b.uid;
  tx_id = env.tx_id;
  request_id = env.request_id;
  op_code = env.op_code;
  success = false;
  error_code = "";
  error_msg = "";
  payload = [];
}

abbrev pub refused : BusinessActor → RemoteEnvelope → String → String → RemoteResult
refused b env code msg = record (base_result b env) { error_code = code; error_msg = msg }

-- What a call of Handle leaves: the database, the actor, the result, and the snapshot goroutine
-- that it started, if any.
pub record Handled (D : Type 0) : Type 0 where
  pub db : D
  pub actor : BusinessActor
  pub result : RemoteResult
  pub job : Option SnapshotJob

-- The actor once the event is written, before the snapshot test.
unfoldable pub applied : BusinessActor → RemoteEnvelope → ℕ → BusinessActor
applied b env amount =
    let b' =
      add_tx_id env.tx_id
        (record b { balance = add64 b.balance amount; version = add64 b.version 1 }) in
    record b' { event_count = b'.event_count + 1 }

module _ (st : Store) where
  unfoldable pub committed : st.Db → BusinessActor → RemoteEnvelope → Handled st.Db
  committed db b env =
      let due = leb snapshot_threshold b.event_count in
      record {
        db = db;
        actor = if due then record b { event_count = 0 } else b;
        result = record (base_result b env) { success = true; payload = encode_int64 b.balance };
        job = if due then some (job_of b) else none;
      }

  -- The branch on the error of the write.
  unfoldable pub settle : BusinessActor → RemoteEnvelope → ℕ → st.Db × Option String → Handled st.Db
  settle b env amount (db, some e) = record {
    db = db;
    actor = b;
    result = refused b env err_persistence_failed e;
    job = none;
  }
  settle b env amount (db, none) = committed db (applied b env amount) env

  unfoldable pub write_event : st.Db → ℕ → BusinessActor → RemoteEnvelope → ℕ → Handled st.Db
  unfolding settle
  write_event db now b env amount =
      settle b env amount
        (st.execute_batch db BatchMode.unlogged_batch (event_statement b now env amount ∷ []))

  abbrev unchanged : st.Db → BusinessActor → RemoteResult → Handled st.Db
  unchanged db b res = record { db = db; actor = b; result = res; job = none }

  unfoldable pub handle : st.Db → ℕ → BusinessActor → RemoteEnvelope → Handled st.Db
  handle db now b0 env =
      let b = record b0 { last_active = now } in
      let amount = be_uint64 env.payload in
      if is_some (lookup env.tx_id b.tx_cache)
      then unchanged db b (record (base_result b env) { success = true })
      else if ltb (length env.payload) 8
      then unchanged db b
          (refused b env err_invalid_payload "payload must be 8 bytes (int64 big-endian)")
      else if is_neg (add64 b.balance amount)
      then unchanged db b (refused b env err_insufficient_funds "balance cannot be negative")
      else write_event db now b env amount

  -- The body of the goroutine: its error is dropped.
  unfoldable pub run_snapshot : st.Db → SnapshotJob → st.Db
  run_snapshot db j = (st.execute_batch db BatchMode.unlogged_batch (snapshot_statement j ∷ [])).0

  unfoldable pub take_snapshot_sync : st.Db → BusinessActor → st.Db
  unfolding run_snapshot
  take_snapshot_sync db b = if nat_beq b.event_count 0 then db else run_snapshot db (job_of b)
