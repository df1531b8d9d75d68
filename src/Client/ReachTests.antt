-- ===== src/Client/ReachTests.antt =====
-- A client's and a node's resolver at concrete inputs.
use mathlib.Core.List.Permᴰ
use actor_cluster.Prelude.{◌≡◌, ◌⊎◌, refl, String, true, false, List, [], ◌∷◌}
use actor_cluster.Prelude.Affixes.{trim_right}
use actor_cluster.Discovery.Table.{found, err_no_owner}
use actor_cluster.Discovery.Etcd.{normalize_node_prefix, resolver_node_ip, watch_lost}
use actor_cluster.Node.Runtime.{is_foreign}
use actor_cluster.Client.Dispatch.Reaches.{watching, reaches_owner}

abbrev keys : List String
keys = "/nodes/10.0.0.1:9000" ∷ "/nodes/10.0.0.2:9000" ∷ []

abbrev other_order : List String
other_order = "/nodes/10.0.0.2:9000" ∷ "/nodes/10.0.0.1:9000" ∷ []

-- The node has lost its watch once, and found it again.
reaches_owner_example :
    let client = resolver_node_ip (watching "/nodes" keys []) 1 42 in
    let node = resolver_node_ip (watching "/nodes/" other_order (watch_lost true ∷ [])) 1 42 in
    ((client ≡ err_no_owner) × (node ≡ err_no_owner))
    ⊎ ((ip : String) × (client ≡ found ip) × (is_foreign ip node ≡ false))
unfolding normalize_node_prefix trim_right
reaches_owner_example =
    reaches_owner "/nodes" "/nodes/" keys other_order [] (watch_lost true ∷ []) 1 42 refl
      (Permᴰ.swap refl refl)
