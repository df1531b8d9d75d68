-- ===== src/Reconcile/Tests.antt =====
-- The reconciliation of one wallet at concrete tables.
use actor_cluster.Prelude.{◌-◌, ◌^◌, ◌≡◌, refl, List, [], ◌∷◌, map, none}
use actor_cluster.Prelude.Tests.{string_eq, ◌==◌, if◌then◌else◌}
use actor_cluster.Persistence.{Store, int64, ok}
use actor_cluster.Wallet.State.{new_business_actor}
use actor_cluster.Wallet.Ops.{
  event_cql, scan_snapshot, scan_events, rehydrated, loaded, load_events, rehydrate,
}
use actor_cluster.Wallet.Log.{Event, event_row}
use actor_cluster.Reconcile.{delta_cql, compute_true_balance}
use actor_cluster.Reconcile.Agree.{delta_row, compute_true_balance-rehydrate}

-- A snapshot of 100 at version 1, then a withdrawal of 30 and a deposit of 5.
abbrev since : List Event
since =
    record { version = 2; tx_id = "t2"; delta = 2 ^ 64 - 30 }
    ∷ record { version = 3; tx_id = "t3"; delta = 5 }
    ∷ []

abbrev one_wallet : Store
one_wallet = record {
  Db = Unit {0};
  execute_batch = λ db mode statements. (db, none);
  query_rows = λ db cql args.
      if cql == delta_cql
      then (map delta_row since, none)
      else if cql == event_cql
      then (map event_row since, none)
      else ((int64 100 ∷ int64 1 ∷ []) ∷ [], none);
}

compute_true_balance-rehydrate_example :
    compute_true_balance one_wallet tt 1 7
    ≡ ok (rehydrate one_wallet tt (new_business_actor 1 7 0)).0.balance
unfolding new_business_actor rehydrate load_events loaded rehydrated scan_events scan_snapshot
compute_true_balance-rehydrate_example =
    compute_true_balance-rehydrate one_wallet tt (new_business_actor 1 7 0)
      ((int64 100 ∷ int64 1 ∷ []) ∷ []) since refl refl refl refl
