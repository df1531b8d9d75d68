-- ===== src/Discovery/Etcd/Watch.antt =====
-- What the resolver's table is, and what it answers, whatever the watch meets.
use actor_cluster.Prelude.{
  ℕ, ◌%◌, ◌<◌, ◌≡◌, ◌≢◌, refl, sym, ap, ◌∙◌, ◌⊎◌, inl, inr, String, Bool, true, false, List, [],
  ◌∷◌, none, some, arith, zero, suc,
}
use native.Mathlib.Nat.{mod-lt}
use actor_cluster.Prelude.Tests.{string_eq, eq_refl, if◌then◌else◌}
use actor_cluster.Prelude.Text.{◌^^◌}
use actor_cluster.Prelude.Lists.{length, get_or, replicate}
use actor_cluster.Discovery.Table.{
  get_node_ip, Table, found, err_no_owner, modulo_slot_owner, build_routing_table, partition_slots,
  slot_of,
}
use actor_cluster.Discovery.Routing.{NonEmpty, get_or-NonEmpty, owner_of, get_node_ip_owner}
use actor_cluster.Discovery.Etcd.{
  EtcdResolver, new_etcd_resolver, resolver_node_ip, sorted_node_ips, normalize_node_prefix,
  refresh_snapshot, WatchStep, watch_done, watch_lost, response, has_node_topology_event,
  watch_loop, watch,
}
use actor_cluster.Discovery.Etcd.Keys.{contains, contains-sorted_node_ips, sorted_node_ips-NonEmpty}

-- The keys of the last GET that succeeded, of those that a topology event asked for before the loop
-- returned.
abbrev pub latest : List String → List WatchStep → List String
latest keys [] = keys
latest keys (watch_done ∷ more) = keys
latest keys (watch_lost slept ∷ more) = if slept then latest keys more else keys
latest keys (response events none ∷ more) = latest keys more
latest keys (response events (some got) ∷ more) =
    latest (if has_node_topology_event events then got else keys) more

-- A resolver whose table was built from the keys.
abbrev after : EtcdResolver → List String → EtcdResolver
after r keys = record r {
  tab = some (build_routing_table (sorted_node_ips r.node_prefix keys) r.slot_owner);
}

response-latest :
    (more : List WatchStep) (got keys : List String) (r : EtcdResolver)
    → ((ks : List String) → (watch_loop more (after r ks)).0 ≡ after r (latest ks more))
    → (b : Bool)
    → (watch_loop more (if b then after r got else after r keys)).0
      ≡ after r (latest (if b then got else keys) more)
response-latest more got keys r ih true = ih got
response-latest more got keys r ih false = ih keys

watch_loop-latest :
    (steps : List WatchStep) (keys : List String) (r : EtcdResolver)
    → (watch_loop steps (after r keys)).0 ≡ after r (latest keys steps)
unfolding watch_loop refresh_snapshot
watch_loop-latest [] keys r = refl
watch_loop-latest (watch_done ∷ more) keys r = refl
watch_loop-latest (watch_lost true ∷ more) keys r = watch_loop-latest more keys r
watch_loop-latest (watch_lost false ∷ more) keys r = refl
watch_loop-latest (response events none ∷ more) keys r =
    response-latest more keys keys r (λ (ks : List String). watch_loop-latest more ks r)
      (has_node_topology_event events)
    ∙ ap (after r) (same (has_node_topology_event events))
  where
    same : (b : Bool) → latest (if b then keys else keys) more ≡ latest keys more
    same true = refl
    same false = refl
watch_loop-latest (response events (some got) ∷ more) keys r =
    response-latest more got keys r (λ (ks : List String). watch_loop-latest more ks r)
      (has_node_topology_event events)

contains-get_or : (xs : List String) (i : ℕ) → i < length xs → contains (get_or xs i "") xs ≡ true
unfolding contains
contains-get_or [] i h = elim h [ ]
contains-get_or (x ∷ xs) zero h = ground (arith, eq_refl x)
contains-get_or (x ∷ xs) (suc i) h = ground (arith, contains-get_or xs i (omega arith))

get_or-blank : (n i : ℕ) → ◌≡◌ {A = String} (get_or (replicate n "") i "") ""
get_or-blank zero i = refl
get_or-blank (suc n) zero = refl
get_or-blank (suc n) (suc i) = get_or-blank n i

-- What a table of these addresses answers.
TableAnswers : List String → ℕ → ℕ → Type 0
TableAnswers ips tenant_id uid =
    let owner = owner_of ips tenant_id uid in
    let answer =
      get_node_ip (some (build_routing_table ips (some modulo_slot_owner))) tenant_id uid in
    ((ips ≡ []) × (answer ≡ err_no_owner))
    ⊎ ((answer ≡ found owner) × (owner ≢ "") × (contains owner ips ≡ true))

same_table :
    (ips : List String)
    → build_routing_table ips none ≡ build_routing_table ips (some modulo_slot_owner)
unfolding build_routing_table
same_table ips = refl

no_owner :
    (tenant_id uid : ℕ)
    → get_node_ip (some (build_routing_table [] (some modulo_slot_owner))) tenant_id uid
      ≡ err_no_owner
unfolding build_routing_table get_node_ip
no_owner tenant_id uid = rw (get_or-blank partition_slots (slot_of tenant_id uid)) refl

build_routing_table-TableAnswers :
    (ips : List String) (tenant_id uid : ℕ) → NonEmpty ips → TableAnswers ips tenant_id uid
unfolding TableAnswers
build_routing_table-TableAnswers [] tenant_id uid n = inl (refl, no_owner tenant_id uid)
build_routing_table-TableAnswers (x ∷ xs) tenant_id uid n = inr (
  ap (λ (t : Table). get_node_ip (some t) tenant_id uid) (sym (same_table (x ∷ xs)))
      ∙ (get_node_ip_owner (x ∷ xs) tenant_id uid (omega arith) n).0,
  get_or-NonEmpty (x ∷ xs) _ n in_range,
  contains-get_or (x ∷ xs) _ in_range,
)
  where
    in_range : slot_of tenant_id uid % length (x ∷ xs) < length (x ∷ xs)
    in_range = mod-lt (slot_of tenant_id uid) {m = length (x ∷ xs)} (omega arith)

-- The answer of a resolver that is watching is that of the table of the last keys.
pub resolver-latest :
    (prefix : String) (keys : List String) (steps : List WatchStep) (tenant_id uid : ℕ)
    → resolver_node_ip (watch (some keys) steps (new_etcd_resolver prefix)).0 tenant_id uid
      ≡ get_node_ip
          (some (
            build_routing_table
              (sorted_node_ips (normalize_node_prefix prefix) (latest keys steps))
              (some modulo_slot_owner)))
          tenant_id
          uid
unfolding watch
resolver-latest prefix keys steps tenant_id uid =
    ap (λ (r : EtcdResolver). resolver_node_ip r tenant_id uid)
      (watch_loop-latest steps keys (new_etcd_resolver prefix))

-- A resolver that is watching answers from the keys of the last snapshot it got: if no key under its
-- prefix carries an address, that a wallet has no owner; else with an address whose key is among
-- them, the owner of the wallet's slot among the sorted addresses. A snapshot that fails changes
-- nothing, nor does a lost watch, nor a response without a change of a key.
pub watch_routes :
    (prefix : String) (keys : List String) (steps : List WatchStep) (tenant_id uid : ℕ)
    → let r = (watch (some keys) steps (new_etcd_resolver prefix)).0 in
      let n = normalize_node_prefix prefix in
      let ips = sorted_node_ips n (latest keys steps) in
      let owner = owner_of ips tenant_id uid in
      ((ips ≡ []) × (resolver_node_ip r tenant_id uid ≡ err_no_owner))
      ⊎ ((resolver_node_ip r tenant_id uid ≡ found owner)
          × (contains (n ^^ owner) (latest keys steps) ≡ true))
unfolding TableAnswers
watch_routes prefix keys steps tenant_id uid =
    elim (build_routing_table-TableAnswers ips tenant_id uid
      (sorted_node_ips-NonEmpty n (latest keys steps))) [
        | inl (none_there, e) ↦
            inl (none_there, resolver-latest prefix keys steps tenant_id uid ∙ e)
        | inr (e, real, there) ↦ inr (
          resolver-latest prefix keys steps tenant_id uid ∙ e,
          sym (contains-sorted_node_ips n (owner_of ips tenant_id uid) (latest keys steps) real)
              ∙ there,
        )
      ]
  where
    n : String
    n = normalize_node_prefix prefix

    ips : List String
    ips = sorted_node_ips n (latest keys steps)
