-- ===== src/Discovery/Etcd/Tests.antt =====
-- The resolver and the registration at concrete inputs.
use mathlib.Core.Bool.{false≢true}
use actor_cluster.Prelude.{
  ℕ, String, ◌≡◌, ◌⊎◌, ◌++◌, inl, inr, refl, true, false, List, [], ◌∷◌, none, some, ap,
}
use actor_cluster.Prelude.Tests.{string_eq, ◌==◌}
use actor_cluster.Prelude.Text.{◌^^◌}
use actor_cluster.Discovery.Table.{found, err_no_owner}
use actor_cluster.Discovery.Routing.{owner_of}
use actor_cluster.Prelude.Affixes.{trim_right, trim_prefix}
use actor_cluster.Discovery.Etcd.{
  has_node_topology_event, normalize_node_prefix, EtcdRegistry, new_etcd_registry, EtcdCall,
  Attempt, registered, alive, lost, Pass, register, establish_registration, new_etcd_resolver,
  resolver_node_ip, sorted_node_ips, event_put, WatchStep, watch_lost, response, watch,
}
use actor_cluster.Discovery.Etcd.Watch.{latest, watch_routes}
use actor_cluster.Discovery.Etcd.Keys.{contains, contains-sorted_node_ips}
use actor_cluster.Discovery.Etcd.Retry.{register_returns}
use actor_cluster.Discovery.Etcd.Lease.{full_registration, AllOwn, register_leaves_key}

-- A second node registers, and a stray key appears under the prefix of another directory.
abbrev joins : List WatchStep
joins =
    response (event_put ∷ [])
      (some ("/nodes/10.0.0.2:9000" ∷ "/nodes/10.0.0.1:9000" ∷ "/other/10.0.0.3:9000" ∷ []))
    ∷ watch_lost true
    ∷ response (event_put ∷ []) none
    ∷ []

abbrev first_keys : List String
first_keys = "/nodes/10.0.0.1:9000" ∷ []

watch_routes_example :
    let r = (watch (some first_keys) joins (new_etcd_resolver "/nodes")).0 in
    let n = normalize_node_prefix "/nodes" in
    let ips = sorted_node_ips n (latest first_keys joins) in
    let owner = owner_of ips 1 42 in
    ((ips ≡ []) × (resolver_node_ip r 1 42 ≡ err_no_owner))
    ⊎ ((resolver_node_ip r 1 42 ≡ found owner)
        × (contains (n ^^ owner) (latest first_keys joins) ≡ true))
watch_routes_example = watch_routes "/nodes" first_keys joins 1 42

two_nodes :
    sorted_node_ips (normalize_node_prefix "/nodes") (latest first_keys joins)
    ≡ "10.0.0.1:9000" ∷ "10.0.0.2:9000" ∷ []
unfolding sorted_node_ips normalize_node_prefix has_node_topology_event trim_right trim_prefix
two_nodes = refl

abbrev registry : EtcdRegistry
registry = new_etcd_registry "/nodes"

-- Put fails once, and then all three calls succeed; later the stream is lost, and the next lease
-- holds.
abbrev put_fails : Attempt
put_fails = record {
  ctx_done = false;
  lease = some 11;
  put_fine = false;
  keep_alive_fine = true;
  slept = true;
}

abbrev all_fine : ℕ → Attempt
all_fine lease = record {
  ctx_done = false;
  lease = some lease;
  put_fine = true;
  keep_alive_fine = true;
  slept = true;
}

abbrev stream_lost : Pass
stream_lost = record { stream = alive ∷ lost ∷ []; slept = true; attempts = all_fine 13 ∷ [] }

register_leaves_key_example :
    let (calls, outcome, later) =
      register registry "10.0.0.1:9000" (put_fails ∷ all_fine 12 ∷ []) (stream_lost ∷ []) in
    let key = registry.node_prefix ^^ "10.0.0.1:9000" in
    ((before : List EtcdCall) × (calls ≡ before ++ full_registration registry key 12))
    × AllOwn registry key (calls ++ later)
unfolding register establish_registration
register_leaves_key_example =
    register_leaves_key registry "10.0.0.1:9000" (put_fails ∷ all_fine 12 ∷ []) (stream_lost ∷ [])
      12 refl

register_returns_example :
    (register registry "10.0.0.1:9000" ((put_fails ∷ []) ++ all_fine 12 ∷ []) (stream_lost ∷ [])).1
    ≡ registered 12
register_returns_example =
    register_returns registry "10.0.0.1:9000" (put_fails ∷ []) (all_fine 12) [] (stream_lost ∷ [])
      12 ((refl, inr (inl refl), refl), tt) (refl, refl, refl, refl)

contains-sorted_node_ips_example :
    contains "10.0.0.2:9000" (sorted_node_ips "/nodes/" ("/nodes/10.0.0.2:9000" ∷ first_keys))
    ≡ contains ("/nodes/" ^^ "10.0.0.2:9000") ("/nodes/10.0.0.2:9000" ∷ first_keys)
contains-sorted_node_ips_example =
    contains-sorted_node_ips "/nodes/" "10.0.0.2:9000" ("/nodes/10.0.0.2:9000" ∷ first_keys)
      (λ e. false≢true (ap (λ (s : String). s == "") e))
