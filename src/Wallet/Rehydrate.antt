-- ===== src/Wallet/Rehydrate.antt =====
-- rehydrate rebuilds from the tables the balance and the version that the actor held.
use actor_cluster.Prelude.{
  ℕ, ◌+◌, ◌<◌, ◌≡◌, refl, sym, ap, ◌∙◌, inl, inr, true, List, [], ◌∷◌, ◌++◌, map, Option, none,
  some, arith,
}
use mathlib.Core.List.{append-nil, append_assoc}
use actor_cluster.Prelude.Tests.{nat_beq}
use actor_cluster.Prelude.Lists.{length, length-append}
use actor_cluster.Prelude.Words.{add64, i64_bound}
use actor_cluster.Persistence.{Store, Row, int32, int64}
use actor_cluster.Wallet.State.{BusinessActor, seed_tx_id}
use actor_cluster.Wallet.Ops.{
  snap_cql, event_cql, scan_snapshot, Replayed, scan_events, rehydrated, loaded, load_events,
  rehydrate, scan_result,
}
use actor_cluster.Wallet.Log.{
  Event, event_row, snapshot_rows, after, after_front, WalletTables, replay, replay-append,
  Contiguous, Contiguous-split, Contiguous-append,
}
use actor_cluster.Wallet.Sync.{World, IsCut, SnapshotCut, InSync}

-- The scan of events that follow on: no gap, and their deltas added up.
record Scans (r : Replayed) (es : List Event) (s : Replayed) : Type 0 where
  no_gap : s.gap ≡ none
  last : s.prev_version ≡ r.prev_version + length es
  total : s.balance ≡ replay r.balance es

scan_events-Scans :
    (r : Replayed) (es : List Event)
    → r.gap ≡ none
    → Contiguous r.prev_version es
    → r.prev_version + length es < i64_bound
    → Scans r es (scan_events r (map event_row es))
unfolding scan_events replay
scan_events-Scans r [] g c small = record { no_gap = g; last = omega arith; total = refl }
scan_events-Scans r (e ∷ es) g c small =
    let r' : Replayed = record r {
      actor = seed_tx_id e.tx_id r.actor;
      prev_version = e.version;
      balance = add64 r.balance e.delta;
    } in
    let ih = scan_events-Scans r' es g (rw c.0 c.1) (omega arith) in
    rw fits (record { no_gap = ih.no_gap; last = omega (arith, ih.last); total = ih.total })
  where
    fits : nat_beq e.version (add64 r.prev_version 1) ≡ true
    fits = ground arith

-- The part of the snapshot query that the scan keeps is a cut of the events.
pub snapshot-IsCut :
    (es : List Event) (s : Option (ℕ × ℕ))
    → SnapshotCut es s
    → IsCut es (scan_snapshot (0, 0) (snapshot_rows s)).0 (scan_snapshot (0, 0) (snapshot_rows s)).1
unfolding scan_snapshot replay
snapshot-IsCut es none h = ([], es, refl, refl, refl)
snapshot-IsCut es (some (balance, version)) h = h

-- Both queries answer, whatever version the second one asks for.
pub record Readable (st : Store) (db : st.Db) (t u : ℕ) : Type 0 where
  pub snapshot_read : (st.query_rows db snap_cql (int32 t ∷ int64 u ∷ [])).1 ≡ none
  pub events_read :
      (v : ℕ) → (st.query_rows db event_cql (int32 t ∷ int64 u ∷ int64 v ∷ [])).1 ≡ none

finish :
    (r : Replayed)
    → r.gap ≡ none
    → rehydrated r (scan_result r none)
      ≡ (record r.actor { balance = r.balance; version = r.prev_version }, none)
unfolding rehydrated
finish r g = rw g

module _ (st : Store) (tables : WalletTables st) where
  open tables use {events, snapshot, select_snapshot, select_events}

  all_ordered : (w : World st.Db) (s : InSync st tables w) → Contiguous 0 (s.written ++ s.left_over)
  all_ordered w s = elim s.one_left [
    | inl e ↦ rw (e, append-nil s.written) s.ordered
    | inr (y, e, at) ↦ rw e (Contiguous-append 0 s.written y s.ordered (omega arith))
  ]

  -- From a cut of the events, the second query yields the events behind it.
  loaded-eq-replay :
      (b : BusinessActor) (all front back : List Event)
      → all ≡ front ++ back
      → Contiguous 0 all
      → length all < i64_bound
      → let (b', error) =
          loaded b
            (replay 0 front)
            (length front)
            (map event_row (after (length front) all), none) in
        (error ≡ none) × (b'.version ≡ length all) × (b'.balance ≡ replay 0 all)
  unfolding loaded
  loaded-eq-replay b all front back split ordered small =
      let seen = after_front front back (rw split at ordered) in
      let r0 : Replayed = record {
        actor = b;
        prev_version = length front;
        balance = replay 0 front;
        gap = none;
      } in
      let behind = (Contiguous-split 0 front back (rw split at ordered)).1 in
      let s = scan_events-Scans r0 back refl (rw zero at behind) (omega (arith, sizes)) in
      rw (split, seen, finish (scan_events r0 (map event_row back)) s.no_gap)
        (refl, s.last ∙ sym (length-append front back), s.total ∙ sym (replay-append 0 front back))
    where
      zero : 0 + length front ≡ length front
      zero = omega arith

      sizes : length all ≡ length front + length back
      sizes = rw split (length-append front back)

  load_events-eq-replay :
      (db : st.Db) (b : BusinessActor) (cut : ℕ × ℕ) (front back : List Event)
      → let all = events db b.tenant_id b.uid in
        all ≡ front ++ back
        → length front ≡ cut.1
        → replay 0 front ≡ cut.0
        → Contiguous 0 all
        → length all < i64_bound
        → Readable st db b.tenant_id b.uid
        → let (b', error) = load_events st db b cut in
          (error ≡ none) × (b'.version ≡ length all) × (b'.balance ≡ replay 0 all)
  unfolding load_events
  load_events-eq-replay db b (balance, version) front back split len sum ordered small readable =
      rw (read, found, ← len, ← sum)
        (loaded-eq-replay b (events db b.tenant_id b.uid) front back split ordered small)
    where
      rows : List Row
      rows = (st.query_rows db event_cql (int32 b.tenant_id ∷ int64 b.uid ∷ int64 version ∷ [])).0

      read :
          st.query_rows db event_cql (int32 b.tenant_id ∷ int64 b.uid ∷ int64 version ∷ [])
          ≡ (rows, none)
      read = λ i. (rows, readable.events_read version i)

      sizes : length (events db b.tenant_id b.uid) ≡ length front + length back
      sizes = rw split (length-append front back)

      found : rows ≡ map event_row (after version (events db b.tenant_id b.uid))
      found = select_events db b.tenant_id b.uid version rows (omega (arith, sizes)) read

  rehydrate-eq-load_events :
      (db : st.Db) (b : BusinessActor)
      → Readable st db b.tenant_id b.uid
      → rehydrate st db b
        ≡ load_events st db b (scan_snapshot (0, 0) (snapshot_rows (snapshot db b.tenant_id b.uid)))
  unfolding rehydrate
  rehydrate-eq-load_events db b readable = rw (read, rehydrate) (rw found)
    where
      rows : List Row
      rows = (st.query_rows db snap_cql (int32 b.tenant_id ∷ int64 b.uid ∷ [])).0

      read : st.query_rows db snap_cql (int32 b.tenant_id ∷ int64 b.uid ∷ []) ≡ (rows, none)
      read = λ i. (rows, readable.snapshot_read i)

      found : rows ≡ snapshot_rows (snapshot db b.tenant_id b.uid)
      found = select_snapshot db b.tenant_id b.uid rows read

  -- rehydrate, from any actor object of the wallet, replays the whole log.
  pub rehydrate-eq-replay :
      (w : World st.Db) (b : BusinessActor)
      → InSync st tables w
      → b.tenant_id ≡ w.actor.tenant_id
      → b.uid ≡ w.actor.uid
      → Readable st w.db b.tenant_id b.uid
      → length (events w.db b.tenant_id b.uid) < i64_bound
      → let all = events w.db b.tenant_id b.uid in
        let (b', error) = rehydrate st w.db b in
        (error ≡ none) × (b'.version ≡ length all) × (b'.balance ≡ replay 0 all)
  rehydrate-eq-replay w b s ht hu readable small =
      let start = snapshot-IsCut s.written (snapshot w.db b.tenant_id b.uid) (rw (ht, hu) s.cut) in
      rw (rehydrate-eq-load_events w.db b readable) (
        load_events-eq-replay w.db b _ start.0 (start.1 ++ s.left_over)
          (stored
            ∙ ap (λ (x : List Event). x ++ s.left_over) start.2
            ∙ append_assoc start.0 start.1 s.left_over)
          start.3 start.4 (rw stored (all_ordered w s)) small readable)
    where
      stored : events w.db b.tenant_id b.uid ≡ s.written ++ s.left_over
      stored = rw (ht, hu) s.stored
