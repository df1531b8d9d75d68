-- ===== src/Persistence.antt =====
-- pkg/persistence: the thin store under the wallet. The gocql session is not part of the
-- repository: it is the parameter `Session`. A `context.Context` is not modelled, a call that it
-- cancels is a call for which the session answers with an error.
use actor_cluster.Prelude.{ℕ, String, Bool, List, [], ◌∷◌, map, Option, none, some}
use actor_cluster.Prelude.Words.{add64}
use actor_cluster.Prelude.Text.{◌^^◌}

-- What the statements bind and the rows hold, `any` in the source.
pub data Value : Type 0 where
  int32 int64 timestamp : ℕ → Value
  text : String → Value
  blob : List ℕ → Value

abbrev pub Row : Type 0
Row = List Value

pub data BatchMode : Type 0 where
  logged_batch unlogged_batch : BatchMode

pub record Statement : Type 0 where
  pub cql : String
  pub args : List Value
  pub idempotent : Bool

-- `persistence.Store`. `execute_batch` returns the new database and the error, if any; a failed
-- write may have changed the database. `query_rows` returns the rows that the iterator yields to
-- `scan`, and the error that is reported when the iterator is closed.
pub record Store : Type 1 where
  pub Db : Type 0
  pub execute_batch : Db → BatchMode → List Statement → Db × Option String
  pub query_rows : Db → String → List Value → List Row × Option String

pub data Scanned {ℓ} (A : Type ℓ) : Type ℓ where
  ok : A → Scanned A
  err : String → Scanned A

abbrev closing {ℓ} : {A : Type ℓ} → Scanned A → Option String → Scanned A
closing (err e) close_err = err e
closing (ok a) none = ok a
closing (ok a) (some e) = err e

-- `Query`: the scan's own error comes first, then that of the iterator's Close.
abbrev pub answer {ℓ} : {A : Type ℓ} → (List Row → Scanned A) → List Row × Option String → Scanned A
answer scan (rows, close_err) = closing (scan rows) close_err

abbrev pub query {ℓ} :
    (st : Store) {A : Type ℓ} → st.Db → String → List Value → (List Row → Scanned A) → Scanned A
query st db cql args scan = answer scan (st.query_rows db cql args)

-- A gocql session. `exec` also says how long the call took, in nanoseconds.
pub record Session : Type 1 where
  pub Db : Type 0
  pub BatchType : Type 0
  pub logged : BatchType
  pub unlogged : BatchType
  pub exec : Db → BatchType → List (String × List Value × Bool) → Db × Option String × ℕ
  pub query : Db → String → List Value → List Row × Option String

-- The session's database, with the process-wide counters of the batch writes (uint64).
pub record Counted (D : Type 0) : Type 0 where
  pub db : D
  pub write_ns_sum : ℕ
  pub write_ns_count : ℕ

abbrev pub err_empty_batch : String
err_empty_batch = "persistence: statements slice must not be empty"

module _ (session : Session) where
  to_gocql_batch_type : BatchMode → session.BatchType
  to_gocql_batch_type BatchMode.logged_batch = session.logged
  to_gocql_batch_type BatchMode.unlogged_batch = session.unlogged

  abbrev entry : Statement → String × List Value × Bool
  entry s = (s.cql, s.args, s.idempotent)

  abbrev wrapped : String → Option String → Option String
  wrapped prefix none = none
  wrapped prefix (some e) = some (prefix ^^ e)

  execute_batch :
      Counted session.Db → BatchMode → List Statement → Counted session.Db × Option String
  unfolding to_gocql_batch_type
  execute_batch c mode [] = (c, some err_empty_batch)
  execute_batch c mode (s ∷ ss) =
      let (db, error, took) = session.exec c.db (to_gocql_batch_type mode) (map entry (s ∷ ss)) in
      (
        record {
          db = db;
          write_ns_sum = add64 c.write_ns_sum took;
          write_ns_count = add64 c.write_ns_count 1;
        },
        wrapped "persistence: ExecuteBatch failed: " error,
      )

  query_rows : Counted session.Db → String → List Value → List Row × Option String
  query_rows c cql args =
      let (rows, close_err) = session.query c.db cql args in
      (rows, wrapped "persistence: Query failed: " close_err)

  pub cassandra_store : Store
  unfolding execute_batch query_rows
  cassandra_store = record {
    Db = Counted session.Db;
    execute_batch = execute_batch;
    query_rows = query_rows;
  }
