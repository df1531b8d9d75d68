-- ===== src/Wallet/Log.antt =====
-- The wallet's tables seen abstractly: the events of one wallet in version order and its snapshot.
-- `WalletTables` states what internal/node relies on of Cassandra, the statements being those of
-- actor.go: rows come back by ascending version, an INSERT replaces the row of its primary key, and
-- a write that reports an error has been applied or not.
use actor_cluster.Prelude.{
  true, false, ℕ, suc, ◌+◌, ◌<◌, ◌≤◌, ◌≡◌, refl, ◌⊎◌, String, List, [], ◌∷◌, ◌++◌, map, Option,
  none, some, arith,
}
use actor_cluster.Prelude.Tests.{ltb, nat_beq, if◌then◌else◌}
use actor_cluster.Prelude.Lists.{length, keep}
use actor_cluster.Prelude.Words.{add64, i64_bound}
use actor_cluster.Message.{RemoteEnvelope}
use actor_cluster.Persistence.{
  Store, Row, Statement, int32, int64, timestamp, text, blob, BatchMode,
}
use actor_cluster.Wallet.State.{BusinessActor}
use actor_cluster.Wallet.Ops.{snap_cql, event_cql, insert_event_cql, insert_snapshot_cql}

pub record Event : Type 0 where
  pub version : ℕ
  pub tx_id : String
  pub delta : ℕ

abbrev pub event_row : Event → Row
event_row e = int64 e.version ∷ text e.tx_id ∷ int64 e.delta ∷ []

abbrev pub snapshot_rows : Option (ℕ × ℕ) → List Row
snapshot_rows none = []
snapshot_rows (some (balance, version)) = (int64 balance ∷ int64 version ∷ []) ∷ []

-- The events that `version > ?` selects, for a bound that is not negative.
abbrev pub after : ℕ → List Event → List Event
after v = keep (λ e. ltb v e.version)

-- An INSERT: the row of the same primary key is replaced.
unfoldable pub upsert : Event → List Event → List Event
upsert e [] = e ∷ []
upsert e (x ∷ xs) =
    if nat_beq x.version e.version
    then e ∷ xs
    else if ltb e.version x.version
    then e ∷ x ∷ xs
    else x ∷ upsert e xs

abbrev pub event_of : BusinessActor → RemoteEnvelope → ℕ → Event
event_of b env amount = record { version = add64 b.version 1; tx_id = env.tx_id; delta = amount }

-- The INSERT of an event's row, and that of a snapshot's.
abbrev pub event_insert : (tenant_id uid : ℕ) → Event → (now : ℕ) → List ℕ → Statement
event_insert t u e now payload = record {
  cql = insert_event_cql;
  args =
      int32 t
      ∷ int64 u
      ∷ int64 e.version
      ∷ timestamp now
      ∷ text e.tx_id
      ∷ int64 e.delta
      ∷ blob payload
      ∷ [];
  idempotent = false;
}

abbrev pub snapshot_insert : (tenant_id uid balance version : ℕ) → Statement
snapshot_insert t u balance version = record {
  cql = insert_snapshot_cql;
  args = int32 t ∷ int64 u ∷ int64 balance ∷ int64 version ∷ [];
  idempotent = true;
}

pub record WalletTables (st : Store) : Type 0 where
  pub events : st.Db → ℕ → ℕ → List Event
  pub snapshot : st.Db → ℕ → ℕ → Option (ℕ × ℕ)
  pub select_snapshot :
      (db : st.Db) (t u : ℕ) (rows : List Row)
      → st.query_rows db snap_cql (int32 t ∷ int64 u ∷ []) ≡ (rows, none)
      → rows ≡ snapshot_rows (snapshot db t u)
  pub select_events :
      (db : st.Db) (t u v : ℕ) (rows : List Row)
      → v < i64_bound
      → st.query_rows db event_cql (int32 t ∷ int64 u ∷ int64 v ∷ []) ≡ (rows, none)
      → rows ≡ map event_row (after v (events db t u))
  pub insert_event :
      (db : st.Db) (t u : ℕ) (e : Event) (now : ℕ) (payload : List ℕ) (db' : st.Db)
      → st.execute_batch db BatchMode.unlogged_batch (event_insert t u e now payload ∷ [])
        ≡ (db', none)
      → (events db' t u ≡ upsert e (events db t u)) × (snapshot db' t u ≡ snapshot db t u)
  pub insert_event_failed :
      (db : st.Db) (t u : ℕ) (e : Event) (now : ℕ) (payload : List ℕ) (db' : st.Db) (m : String)
      → st.execute_batch db BatchMode.unlogged_batch (event_insert t u e now payload ∷ [])
        ≡ (db', some m)
      → ((events db' t u ≡ events db t u) ⊎ (events db' t u ≡ upsert e (events db t u)))
        × (snapshot db' t u ≡ snapshot db t u)
  pub insert_snapshot :
      (db : st.Db) (t u balance version : ℕ)
      → let db' =
          (st.execute_batch db BatchMode.unlogged_batch
            (snapshot_insert t u balance version ∷ [])).0 in
        (events db' t u ≡ events db t u)
        × ((snapshot db' t u ≡ snapshot db t u) ⊎ (snapshot db' t u ≡ some (balance, version)))

-- The balance after the events, from a balance before them.
unfoldable pub replay : ℕ → List Event → ℕ
replay balance [] = balance
replay balance (e ∷ es) = replay (add64 balance e.delta) es

-- The versions go p + 1, p + 2, and so on.
abbrev pub Contiguous : ℕ → List Event → Type 0
Contiguous p [] = Unit {0}
Contiguous p (e ∷ es) = (e.version ≡ p + 1) × Contiguous (p + 1) es

pub replay-append : (b : ℕ) (xs ys : List Event) → replay b (xs ++ ys) ≡ replay (replay b xs) ys
unfolding replay
replay-append b [] ys = refl
replay-append b (x ∷ xs) ys = replay-append (add64 b x.delta) xs ys

pub Contiguous-split :
    (p : ℕ) (xs ys : List Event)
    → Contiguous p (xs ++ ys)
    → Contiguous p xs × Contiguous (p + length xs) ys
Contiguous-split p [] ys h = (tt, rw at_end h)
  where
    at_end : p + 0 ≡ p
    at_end = omega arith
Contiguous-split p (x ∷ xs) ys h =
    let (front, back) = Contiguous-split (p + 1) xs ys h.1 in ((h.0, front), rw (shift p xs) back)
  where
    shift : (p : ℕ) (xs : List Event) → p + suc (length xs) ≡ p + 1 + length xs
    shift p xs = omega arith

pub Contiguous-append :
    (p : ℕ) (xs : List Event) (e : Event)
    → Contiguous p xs
    → e.version ≡ p + length xs + 1
    → Contiguous p (xs ++ e ∷ [])
Contiguous-append p [] e h q = (omega arith, tt)
Contiguous-append p (x ∷ xs) e h q = (h.0, Contiguous-append (p + 1) xs e h.1 (omega arith))

-- Past the bound nothing is filtered out, and up to it everything is.
after_all : (p v : ℕ) (xs : List Event) → Contiguous p xs → v ≤ p → after v xs ≡ xs
after_all p v [] h le = refl
after_all p v (x ∷ xs) h le = ground (arith, after_all (p + 1) v xs h.1)

after_split :
    (p v : ℕ) (xs ys : List Event)
    → v ≡ p + length xs
    → Contiguous p (xs ++ ys)
    → after v (xs ++ ys) ≡ ys
after_split p v [] ys q h = after_all p v ys h (omega arith)
after_split p v (x ∷ xs) ys q h = ground (arith, after_split (p + 1) v xs ys (omega arith) h.1)

pub after_front : (xs ys : List Event) → Contiguous 0 (xs ++ ys) → after (length xs) (xs ++ ys) ≡ ys
after_front xs ys h = after_split 0 (length xs) xs ys (omega arith) h

-- The INSERT of the next version adds an event at the end.
pub upsert_next :
    (p : ℕ) (e : Event) (xs : List Event)
    → Contiguous p xs
    → e.version ≡ p + length xs + 1
    → upsert e xs ≡ xs ++ e ∷ []
unfolding upsert
upsert_next p e [] h q = refl
upsert_next p e (x ∷ xs) h q = ground (arith, upsert_next (p + 1) e xs h.1)

-- The INSERT of the last version replaces the last event.
pub upsert_last :
    (p : ℕ) (e y : Event) (xs : List Event)
    → Contiguous p xs
    → y.version ≡ p + length xs + 1
    → e.version ≡ p + length xs + 1
    → upsert e (xs ++ y ∷ []) ≡ xs ++ e ∷ []
unfolding upsert
upsert_last p e y [] h q r = ground arith
upsert_last p e y (x ∷ xs) h q r = ground (arith, upsert_last (p + 1) e y xs h.1)
