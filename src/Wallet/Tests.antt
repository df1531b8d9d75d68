-- ===== src/Wallet/Tests.antt =====
-- A store that keeps its tables in memory, and the wallet's theorems at concrete inputs.
use actor_cluster.Prelude.{
  ℕ, zero, suc, ◌≡◌, ◌≢◌, refl, sym, ap, ◌∙◌, ◌⊎◌, inr, String, true, false, List, [], ◌∷◌, map,
  Option, none, some, ◌&&◌, arith,
}
use actor_cluster.Prelude.Tests.{nat_beq, string_eq, eq_iff, if◌then◌else◌}
use actor_cluster.Prelude.Dict.{lookup, insert}
use mathlib.Core.Bool.{false≢true}
use actor_cluster.Prelude.Lists.{get_or, replicate, length-replicate}
use actor_cluster.Message.{RemoteEnvelope, err_insufficient_funds}
use actor_cluster.Persistence.{Store, Statement, Row, Value, int32, int64, timestamp, text, blob}
use actor_cluster.Wallet.State.{
  BusinessActor, new_business_actor, add_tx_id, seed_tx_id, be_uint64, encode_int64, tx_cache_size,
}
use actor_cluster.Wallet.Ops.{handle, write_event, settle, committed, applied, rehydrate}
use actor_cluster.Wallet.Log.{Event, event_row, snapshot_rows, after, upsert, WalletTables}
use actor_cluster.Wallet.Sync.{World, handled, Reach, here, next, handled_world, InSync}
use actor_cluster.Wallet.Steps.{Step-InSync}
use actor_cluster.Wallet.Rehydrate.{Readable}
use actor_cluster.Wallet.Durable.{IsFresh, IsFresh-InSync, rehydrate_restored, acknowledged_durable}
use actor_cluster.Wallet.Ring.{RingOk, slot, is_cached, seed_tx_id_leaks}
use actor_cluster.Wallet.Window.{handle_all, repeat_is_idempotent}
use actor_cluster.Wallet.Funds.{IsPayable, exact_sum, handle_decides}

-- The tables, by tenant and uid.
abbrev Tables : Type 0
Tables = ℕ → ℕ → List Event × Option (ℕ × ℕ)

abbrev update : Tables → ℕ → ℕ → List Event × Option (ℕ × ℕ) → Tables
update db t u rows t' u' = if nat_beq t t' && nat_beq u u' then rows else db t' u'

abbrev run_statement : Tables → List Value → Tables
run_statement db (int32 t ∷ int64 u ∷ int64 v ∷ timestamp _ ∷ text tx ∷ int64 d ∷ blob _ ∷ []) =
    update db t u (upsert (record { version = v; tx_id = tx; delta = d }) (db t u).0, (db t u).1)
run_statement db (int32 t ∷ int64 u ∷ int64 b ∷ int64 v ∷ []) =
    update db t u ((db t u).0, some (b, v))
run_statement db _ = db

abbrev run_batch : Tables → List Statement → Tables
run_batch db [] = db
run_batch db (s ∷ ss) = run_batch (run_statement db s.args) ss

abbrev select : Tables → List Value → List Row
select db (int32 t ∷ int64 u ∷ []) = snapshot_rows (db t u).1
select db (int32 t ∷ int64 u ∷ int64 v ∷ []) = map event_row (after v (db t u).0)
select db _ = []

abbrev in_memory : Store
in_memory = record {
  Db = Tables;
  execute_batch = λ db mode statements. (run_batch db statements, none);
  query_rows = λ db cql args. (select db args, none);
}

update_self :
    (db : Tables) (t u : ℕ) (rows : List Event × Option (ℕ × ℕ)) → update db t u rows t u ≡ rows
update_self db t u rows = rw (same t, same u)
  where
    same : (n : ℕ) → nat_beq n n ≡ true
    same n = ground arith

in_memory_tables : WalletTables in_memory
in_memory_tables = record {
  events = λ db t u. (db t u).0;
  snapshot = λ db t u. (db t u).1;
  select_snapshot = λ db t u rows e. sym (ap (λ (r : List Row × Option String). r.0) e);
  select_events = λ db t u v rows small e. sym (ap (λ (r : List Row × Option String). r.0) e);
  insert_event = λ db t u e now payload db' done.
      let self = sym (ap (λ (r : Tables × Option String). r.0 t u) done) ∙ update_self db t u _ in
      (
        ap (λ (r : List Event × Option (ℕ × ℕ)). r.0) self,
        ap (λ (r : List Event × Option (ℕ × ℕ)). r.1) self,
      );
  insert_event_failed = λ db t u e now payload db' m failed.
      absurd (cc (ap (λ (r : Tables × Option String). r.1) failed));
  insert_snapshot = λ db t u balance version.
      let self = update_self db t u ((db t u).0, some (balance, version)) in
      (
        ap (λ (r : List Event × Option (ℕ × ℕ)). r.0) self,
        inr (ap (λ (r : List Event × Option (ℕ × ℕ)). r.1) self),
      );
}

abbrev deposit : String → ℕ → RemoteEnvelope
deposit tx amount = record {
  tenant_id = 1;
  uid = 7;
  tx_id = tx;
  request_id = 9;
  op_code = 1;
  payload = 0 ∷ 0 ∷ 0 ∷ 0 ∷ 0 ∷ 0 ∷ 0 ∷ amount ∷ [];
  deadline_unix_ms = 0;
}

abbrev no_rows : Tables
no_rows t u = ([], none)

abbrev first_world : World Tables
first_world = record { db = no_rows; actor = new_business_actor 1 7 0; jobs = [] }

first_world-IsFresh : IsFresh in_memory in_memory_tables first_world
unfolding new_business_actor in_memory_tables
first_world-IsFresh = record {
  no_events = refl;
  no_snapshot = refl;
  no_balance = refl;
  no_version = refl;
  no_jobs = refl;
}

abbrev second_world : World Tables
second_world = handled_world in_memory first_world 10 (deposit "t1" 5)

abbrev third_world : World Tables
third_world = handled_world in_memory second_world 20 (deposit "t2" 6)

to_second : Reach in_memory first_world second_world
unfolding new_business_actor
to_second = next here (omega arith) (handled 10 (deposit "t1" 5))

always-Readable : (db : Tables) (t u : ℕ) → Readable in_memory db t u
always-Readable db t u = record { snapshot_read = refl; events_read = λ v. refl }

second_version : second_world.actor.version ≡ 1
unfolding handle write_event settle committed applied add_tx_id new_business_actor be_uint64 lookup
    insert
second_version = refl

second_paid :
    (handle in_memory second_world.db 20 second_world.actor (deposit "t2" 6)).result.payload
    ≡ 0 ∷ 0 ∷ 0 ∷ 0 ∷ 0 ∷ 0 ∷ 0 ∷ 11 ∷ []
unfolding handle write_event settle committed applied add_tx_id new_business_actor be_uint64
    encode_int64 lookup insert
second_paid = refl

second_identity : (second_world.actor.tenant_id ≡ 1) × (second_world.actor.uid ≡ 7)
unfolding handle write_event settle committed applied add_tx_id new_business_actor be_uint64 lookup
    insert
second_identity = (refl, refl)

not_nil : {x : ℕ} {xs ys : List ℕ} → ys ≡ x ∷ xs → ys ≢ []
not_nil e f = cc

rehydrate_restored_example :
    (rehydrate in_memory second_world.db (new_business_actor 1 7 99)).1 ≡ none
unfolding new_business_actor
rehydrate_restored_example =
    (rehydrate_restored in_memory in_memory_tables first_world second_world
      (new_business_actor 1 7 99) first_world-IsFresh to_second (sym second_identity.0)
      (sym second_identity.1) (always-Readable _ 1 7) (omega (arith, second_version))).0

acknowledged_durable_example :
    (rehydrate in_memory third_world.db (new_business_actor 1 7 99)).1 ≡ none
unfolding new_business_actor
acknowledged_durable_example =
    (acknowledged_durable in_memory in_memory_tables first_world second_world 20 (deposit "t2" 6)
      (new_business_actor 1 7 99) first_world-IsFresh to_second (omega (arith, second_version))
      (not_nil second_paid) (sym second_identity.0) (sym second_identity.1)
      (always-Readable _ 1 7)).0

Step-InSync_example : InSync in_memory in_memory_tables second_world
unfolding new_business_actor
Step-InSync_example =
    Step-InSync in_memory in_memory_tables (handled 10 (deposit "t1" 5)) (omega arith)
      (IsFresh-InSync in_memory in_memory_tables first_world first_world-IsFresh)

handle_decides_example :
    let b = new_business_actor 1 7 0 in
    let h = handle in_memory no_rows 10 b (deposit "t1" 5) in
    (IsPayable in_memory (exact_sum in_memory b (deposit "t1" 5))
      × (h
          ≡ write_event in_memory no_rows 10
              (record b { last_active = 10 })
              (deposit "t1" 5)
              (be_uint64 (deposit "t1" 5).payload)))
    ⊎ ((¬ IsPayable in_memory (exact_sum in_memory b (deposit "t1" 5)))
        × (h.db ≡ no_rows)
        × (h.actor.balance ≡ b.balance)
        × (h.result.success ≡ false)
        × (h.result.error_code ≡ err_insufficient_funds)
        × (h.result.payload ≡ []))
unfolding new_business_actor lookup
handle_decides_example =
    handle_decides in_memory no_rows 10 (new_business_actor 1 7 0) (deposit "t1" 5) (omega arith)
      (omega arith) refl (omega arith)

empty_slot : (n i : ℕ) → get_or {A = String} (replicate n "") i "" ≡ ""
empty_slot zero i = refl
empty_slot (suc n) zero = refl
empty_slot (suc n) (suc i) = empty_slot n i

new_actor-RingOk : RingOk (new_business_actor 1 7 0)
unfolding new_business_actor
new_actor-RingOk = record {
  full_length = length-replicate {A = String} tx_cache_size "";
  in_range = omega arith;
  cached = λ i full. absurd (full (empty_slot tx_cache_size i));
  one_slot = λ i j full same. absurd (full (empty_slot tx_cache_size i));
}

-- The cursor has come round to the slot of "a".
abbrev full_actor : BusinessActor
full_actor = record (new_business_actor 1 7 0) {
  tx_cache = ("a", tt) ∷ [];
  tx_ring = "a" ∷ replicate 999 "";
}

a_not_empty : ◌≢◌ {A = String} "a" ""
a_not_empty e = false≢true ((eq_iff {A = String} "a" "").1 e)

full_actor-RingOk : RingOk full_actor
unfolding new_business_actor
full_actor-RingOk = record {
  full_length = ap suc (length-replicate {A = String} 999 "");
  in_range = omega arith;
  cached = seen;
  one_slot = once;
}
  where
    seen : (i : ℕ) → slot full_actor i ≢ "" → is_cached (slot full_actor i) full_actor ≡ true
    seen zero full = unfold lookup in refl
    seen (suc i) full = absurd (full (empty_slot 999 i))

    once : (i j : ℕ) → slot full_actor i ≢ "" → slot full_actor i ≡ slot full_actor j → i ≡ j
    once zero zero full same = refl
    once zero (suc j) full same = absurd (full (same ∙ empty_slot 999 j))
    once (suc i) j full same = absurd (full (empty_slot 999 i))

seed_tx_id_leaks_example : is_cached "a" (seed_tx_id "b" full_actor) ≡ true
unfolding new_business_actor lookup
seed_tx_id_leaks_example = (seed_tx_id_leaks "b" full_actor full_actor-RingOk a_not_empty refl).0

first_paid :
    (handle in_memory no_rows 10 (new_business_actor 1 7 0) (deposit "t1" 5)).result.payload
    ≡ 0 ∷ 0 ∷ 0 ∷ 0 ∷ 0 ∷ 0 ∷ 0 ∷ 5 ∷ []
unfolding handle write_event settle committed applied add_tx_id new_business_actor be_uint64
    encode_int64 lookup insert
first_paid = refl

repeat_is_idempotent_example :
    (handle in_memory third_world.db 30 third_world.actor (deposit "t1" 5)).result.success ≡ true
unfolding handle_all
repeat_is_idempotent_example =
    (repeat_is_idempotent in_memory no_rows 10 (new_business_actor 1 7 0) (deposit "t1" 5)
      ((20, deposit "t2" 6) ∷ []) 30 (deposit "t1" 5) new_actor-RingOk
      (λ e. false≢true ((eq_iff {A = String} "t1" "").1 e)) (not_nil first_paid) (omega arith)
      refl).2
