-- ===== src/Wallet/State.antt =====
-- internal/node/actor.go: the fields of BusinessActor, its ring of transaction ids, the payload.
use actor_cluster.Prelude.{ℕ, ◌+◌, ◌*◌, ◌/◌, ◌%◌, ◌^◌, String, List, [], ◌∷◌}
use actor_cluster.Prelude.Tests.{string_eq, ◌==◌, if◌then◌else◌}
use actor_cluster.Prelude.Lists.{get_or, set, replicate, take}
use actor_cluster.Prelude.Dict.{Dict, lookup, insert, delete, is_some}

abbrev pub tx_cache_size : ℕ
tx_cache_size = 1000

abbrev pub snapshot_threshold : ℕ
snapshot_threshold = 1000

-- `core`, the mailbox, and `store` are not fields: a mailbox is `Mailbox`, the store a parameter.
-- `balance`, `version` and `last_active` are int64 bit patterns.
pub record BusinessActor : Type 0 where
  pub tenant_id : ℕ
  pub uid : ℕ
  pub balance : ℕ
  pub version : ℕ
  pub event_count : ℕ
  pub tx_cache : Dict String (Unit {0})
  pub tx_ring : List String
  pub tx_cursor : ℕ
  pub last_active : ℕ

unfoldable pub new_business_actor : ℕ → ℕ → ℕ → BusinessActor
new_business_actor tenant_id uid now = record {
  tenant_id = tenant_id;
  uid = uid;
  balance = 0;
  version = 0;
  event_count = 0;
  tx_cache = [];
  tx_ring = replicate tx_cache_size "";
  tx_cursor = 0;
  last_active = now;
}

-- The entry that leaves the ring leaves the cache too.
unfoldable pub add_tx_id : String → BusinessActor → BusinessActor
add_tx_id tx_id b =
    let old = get_or b.tx_ring b.tx_cursor "" in
    let cache = if old == "" then b.tx_cache else delete old b.tx_cache in
    record b {
      tx_cache = insert tx_id tt cache;
      tx_ring = set b.tx_ring b.tx_cursor tx_id;
      tx_cursor = (b.tx_cursor + 1) % tx_cache_size;
    }

unfoldable pub seed_tx_id : String → BusinessActor → BusinessActor
seed_tx_id tx_id b = if is_some (lookup tx_id b.tx_cache) then b else record b {
  tx_cache = insert tx_id tt b.tx_cache;
  tx_ring = set b.tx_ring b.tx_cursor tx_id;
  tx_cursor = (b.tx_cursor + 1) % tx_cache_size;
}

-- binary.BigEndian.Uint64 of the first eight bytes.
be_fold : ℕ → List ℕ → ℕ
be_fold acc [] = acc
be_fold acc (x ∷ xs) = be_fold (acc * 256 + x) xs

unfoldable pub be_uint64 : List ℕ → ℕ
unfolding be_fold
be_uint64 payload = be_fold 0 (take 8 payload)

-- binary.BigEndian.PutUint64.
unfoldable pub encode_int64 : ℕ → List ℕ
encode_int64 w =
    (w / 2 ^ 56 % 256)
    ∷ (w / 2 ^ 48 % 256)
    ∷ (w / 2 ^ 40 % 256)
    ∷ (w / 2 ^ 32 % 256)
    ∷ (w / 2 ^ 24 % 256)
    ∷ (w / 2 ^ 16 % 256)
    ∷ (w / 2 ^ 8 % 256)
    ∷ (w % 256)
    ∷ []
