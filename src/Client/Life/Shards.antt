-- ===== src/Client/Life/Shards.antt =====
-- The callbacks of one shard, and those of the others.
use actor_cluster.Prelude.{ℕ, ◌+◌, ◌%◌, ◌≡◌, refl, String, [], ◌∷◌, none, arith}
use actor_cluster.Prelude.Tests.{nat_eq, if◌then◌else◌}
use actor_cluster.Prelude.Lists.{length}
use actor_cluster.Prelude.Words.{u64_mod, sub64}
use actor_cluster.Prelude.Dict.{Dict, lookup, insert, Distinct}
use actor_cluster.Client.Callbacks.{CallbackEntry}
use actor_cluster.Client.Metrics.{Metrics, fail_entries}
use actor_cluster.Client.Streamer.Results.{asks, asks_of, waiting}
use actor_cluster.Client.Life.{in_shard, of_shard, out_of_shard}

pub waiting-insert :
    (ch k : ℕ) (entry : CallbackEntry) (entries : Dict ℕ CallbackEntry)
    → waiting ch (insert k entry entries) + asks_of ch (lookup k entries)
      ≡ waiting ch entries + asks ch entry.resp_ch
unfolding lookup insert
waiting-insert ch k entry [] = omega arith
waiting-insert ch k entry ((j, e) ∷ entries) = ground (arith, waiting-insert ch k entry entries)

pub waiting-split :
    (ch i : ℕ) (entries : Dict ℕ CallbackEntry)
    → waiting ch entries ≡ waiting ch (of_shard i entries) + waiting ch (out_of_shard i entries)
unfolding of_shard out_of_shard
waiting-split ch i [] = refl
waiting-split ch i ((k, e) ∷ entries) = ground (arith, waiting-split ch i entries)

pub length-split :
    (i : ℕ) (entries : Dict ℕ CallbackEntry)
    → length entries ≡ length (of_shard i entries) + length (out_of_shard i entries)
unfolding of_shard out_of_shard
length-split i [] = refl
length-split i ((k, e) ∷ entries) = ground (arith, length-split i entries)

pub lookup-out_of_shard :
    (i k : ℕ) (entries : Dict ℕ CallbackEntry)
    → lookup k (out_of_shard i entries) ≡ (if in_shard i k then none else lookup k entries)
unfolding lookup out_of_shard
lookup-out_of_shard i k [] = ground arith
lookup-out_of_shard i k ((j, e) ∷ entries) =
    ground (arith, nat_eq.same_iff j k, lookup-out_of_shard i k entries)

pub out_of_shard-Distinct :
    (i : ℕ) (entries : Dict ℕ CallbackEntry) → Distinct entries → Distinct (out_of_shard i entries)
unfolding out_of_shard
out_of_shard-Distinct i [] d = tt
out_of_shard-Distinct i ((j, e) ∷ entries) (fresh, d) =
    ground (arith, lookup-out_of_shard i j entries, out_of_shard-Distinct i entries d, fresh)

pub fail_entries-pending_rest :
    (err_code : String) (rest : ℕ) (entries : Dict ℕ CallbackEntry) (pending : ℕ) (m : Metrics)
    → pending ≡ (length entries + rest) % u64_mod
    → (fail_entries err_code entries pending m).pending ≡ rest % u64_mod
unfolding fail_entries
fail_entries-pending_rest err_code rest [] pending m h = omega (arith, h)
fail_entries-pending_rest err_code rest ((req_id, entry) ∷ entries) pending m h =
    fail_entries-pending_rest err_code rest entries (sub64 pending 1) _ (omega (arith, h))
