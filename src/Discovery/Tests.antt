-- ===== src/Discovery/Tests.antt =====
-- The discovery modules at concrete inputs.
use actor_cluster.Prelude.{
  ℕ, zero, suc, ◌+◌, ◌/◌, ◌%◌, ◌≡◌, ◌≢◌, refl, sym, String, List, [], ◌∷◌, none, arith,
}
use mathlib.Core.Bool.{false≢true}
use actor_cluster.Prelude.Tests.{string_eq, ltb, eq_iff, if◌then◌else◌}
use actor_cluster.Prelude.Lists.{length, get_or}
use actor_cluster.Discovery.Table.{build_routing_table, route_key, mix, partition_slots}
use actor_cluster.Discovery.Hash.{wallet_hash_injective}
use actor_cluster.Discovery.Routing.{NonEmpty, slots_owned, Apart, slots_owned-build_routing_table}

abbrev two_nodes : List String
two_nodes = "10.0.0.1:9000" ∷ "10.0.0.2:9000" ∷ []

differ : ◌≢◌ {A = String} "10.0.0.1:9000" "10.0.0.2:9000"
differ e = false≢true ((eq_iff {A = String} "10.0.0.1:9000" "10.0.0.2:9000").1 e)

Apart-two_nodes : Apart two_nodes
Apart-two_nodes zero zero hi hj e = refl
Apart-two_nodes zero (suc zero) hi hj e = absurd (differ e)
Apart-two_nodes zero (suc (suc j)) hi hj e = omega arith
Apart-two_nodes (suc zero) zero hi hj e = absurd (differ (sym e))
Apart-two_nodes (suc zero) (suc zero) hi hj e = refl
Apart-two_nodes (suc zero) (suc (suc j)) hi hj e = omega arith
Apart-two_nodes (suc (suc i)) j hi hj e = omega arith

NonEmpty-two_nodes : NonEmpty two_nodes
NonEmpty-two_nodes = (
  (λ e. false≢true ((eq_iff {A = String} "10.0.0.1:9000" "").1 e)),
  ((λ e. false≢true ((eq_iff {A = String} "10.0.0.2:9000" "").1 e)), tt),
)

slots_owned-build_routing_table_example :
    slots_owned (get_or two_nodes 1 "") (build_routing_table two_nodes none)
    ≡ partition_slots / length two_nodes
      + (if ltb 1 (partition_slots % length two_nodes) then 1 else 0)
slots_owned-build_routing_table_example =
    slots_owned-build_routing_table two_nodes 1 (omega arith) Apart-two_nodes

two_uids : ◌≢◌ {A = ℕ} 42 43
two_uids e = omega (arith, e)

wallet_hash_injective_example : mix (route_key 1 42) ≢ mix (route_key 1 43)
wallet_hash_injective_example = wallet_hash_injective 1 42 43 (omega arith) (omega arith) two_uids
