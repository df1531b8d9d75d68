-- ===== src/Client/Dispatch/Reaches.antt =====
-- A request on its way from the client's resolver to the node that the node's own resolver names.
use mathlib.Core.List.{Permᴰ}
use actor_cluster.Prelude.{
  ℕ, ◌≡◌, sym, ap, ◌∙◌, ◌⊎◌, inl, inr, String, Bool, true, false, List, some,
}
use actor_cluster.Prelude.Tests.{string_eq, eq_refl, if◌then◌else◌}
use actor_cluster.Discovery.Table.{found, err_no_owner}
use actor_cluster.Discovery.Etcd.{
  EtcdResolver, new_etcd_resolver, normalize_node_prefix, resolver_node_ip, WatchStep, watch,
}
use actor_cluster.Discovery.Etcd.Watch.{latest, watch_routes}
use actor_cluster.Discovery.Etcd.Agree.{resolvers_agree}
use actor_cluster.Node.Runtime.{is_foreign}

-- The resolver of a process that is watching.
abbrev pub watching : String → List String → List WatchStep → EtcdResolver
watching prefix keys steps = (watch (some keys) steps (new_etcd_resolver prefix)).0

own_ip : (ip : String) → is_foreign ip (found ip) ≡ false
own_ip ip = ap (λ (b : Bool). if b then false else true) (eq_refl ip)

-- A client and a node under the same prefix, with a slash more or less, that got the same keys in their
-- last snapshots, in whatever order and after whatever else they met: the client finds no owner
-- for a wallet, or it finds an address, and the node of this address does not refuse the wallet as
-- foreign.
pub reaches_owner :
    (prefix prefix' : String) (keys keys' : List String) (steps steps' : List WatchStep)
    (tenant_id uid : ℕ)
    → normalize_node_prefix prefix ≡ normalize_node_prefix prefix'
    → Permᴰ (latest keys steps) (latest keys' steps')
    → let client = resolver_node_ip (watching prefix keys steps) tenant_id uid in
      let node = resolver_node_ip (watching prefix' keys' steps') tenant_id uid in
      ((client ≡ err_no_owner) × (node ≡ err_no_owner))
      ⊎ ((ip : String) × (client ≡ found ip) × (is_foreign ip node ≡ false))
reaches_owner prefix prefix' keys keys' steps steps' tenant_id uid same p =
    elim (watch_routes prefix keys steps tenant_id uid) [
      | inl (_, e) ↦ inl (e, sym agree ∙ e)
      | inr (e, _) ↦ inr (_, e, ap (is_foreign _) (sym agree ∙ e) ∙ own_ip _)
    ]
  where
    agree :
        resolver_node_ip (watching prefix keys steps) tenant_id uid
        ≡ resolver_node_ip (watching prefix' keys' steps') tenant_id uid
    agree = resolvers_agree prefix prefix' keys keys' steps steps' tenant_id uid same p
