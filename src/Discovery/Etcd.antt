-- ===== src/Discovery/Etcd.antt =====
-- pkg/discovery/etcd_resolver.go: the registration of a node, and the resolver that watches the
-- nodes. What etcd and the context answer are arguments; a key stands for its key-value pair, whose
-- value nobody reads.
pub mod Keys
pub mod Prefix
pub mod Watch
pub mod Agree
pub mod Lease
pub mod Retry
mod Tests
use Prim.Native.String.{compare}
use Prim.Native.Nat.{Ordering}
use actor_cluster.Prelude.{ℕ, String, Bool, true, false, List, [], ◌∷◌, ◌++◌, Option, none, some}
use actor_cluster.Prelude.Tests.{string_eq, ◌==◌, if◌then◌else◌}
use actor_cluster.Prelude.Text.{◌^^◌}
use actor_cluster.Prelude.Affixes.{has_prefix, trim_prefix, trim_right}
use actor_cluster.Discovery.Table.{
  Table, SlotOwner, modulo_slot_owner, build_routing_table, NodeIp, get_node_ip,
}

abbrev pub default_lease_ttl : ℕ
default_lease_ttl = 5

unfoldable pub normalize_node_prefix : String → String
normalize_node_prefix prefix =
    let trimmed = trim_right "/" prefix in if trimmed == "" then "/" else trimmed ^^ "/"

pub record EtcdRegistry : Type 0 where
  pub node_prefix : String
  pub lease_ttl : ℕ
  pub value : String

abbrev pub new_etcd_registry : String → EtcdRegistry
new_etcd_registry node_prefix = record {
  node_prefix = normalize_node_prefix node_prefix;
  lease_ttl = default_lease_ttl;
  value = "";
}

-- The calls of the etcd client that change its store.
pub data EtcdCall : Type 0 where
  grant : ℕ → EtcdCall
  put : (key value : String) (lease : ℕ) → EtcdCall
  keep_alive : ℕ → EtcdCall
  delete_key : String → EtcdCall

-- One pass of the loop in establishRegistration: whether the context is done when it begins, what the
-- three calls answer, and whether the sleep after a failed one runs out before the context is done.
pub record Attempt : Type 0 where
  pub ctx_done : Bool
  pub lease : Option ℕ
  pub put_fine : Bool
  pub keep_alive_fine : Bool
  pub slept : Bool

-- `trying` is a loop that has not returned.
pub data Outcome : Type 0 where
  registered : (lease : ℕ) → Outcome
  ctx_err : Outcome
  trying : Outcome

-- The calls that an attempt makes, and the lease if all three succeed: what Grant answers, whether Put
-- succeeds, and whether KeepAlive does.
abbrev pub attempt_calls : EtcdRegistry → String → Option ℕ → Bool → Bool → List EtcdCall × Option ℕ
attempt_calls r key none put_fine keep_alive_fine = (grant r.lease_ttl ∷ [], none)
attempt_calls r key (some lease) false keep_alive_fine =
    (grant r.lease_ttl ∷ put key r.value lease ∷ [], none)
attempt_calls r key (some lease) true keep_alive_fine = (
  grant r.lease_ttl ∷ put key r.value lease ∷ keep_alive lease ∷ [],
  if keep_alive_fine then some lease else none,
)

abbrev pub after_attempt :
    List EtcdCall × Option ℕ → Bool → List EtcdCall × Outcome → List EtcdCall × Outcome
after_attempt (calls, some lease) slept rest = (calls, registered lease)
after_attempt (calls, none) true rest = (calls ++ rest.0, rest.1)
after_attempt (calls, none) false rest = (calls, ctx_err)

unfoldable pub establish_registration :
    EtcdRegistry → String → List Attempt → List EtcdCall × Outcome
establish_registration r key [] = ([], trying)
establish_registration r key (a ∷ more) =
    let rest = establish_registration r key more in
    if a.ctx_done
    then ([], ctx_err)
    else after_attempt (attempt_calls r key a.lease a.put_fine a.keep_alive_fine) a.slept rest

-- The keepalive stream: a response, or a closed stream or nil response, or the context's end.
pub data KeepAlive : Type 0 where
  alive : KeepAlive
  lost : KeepAlive
  ended : KeepAlive

-- `none` while it waits.
unfoldable pub consume_keep_alive : List KeepAlive → Option Bool
consume_keep_alive [] = none
consume_keep_alive (alive ∷ more) = consume_keep_alive more
consume_keep_alive (lost ∷ more) = some true
consume_keep_alive (ended ∷ more) = some false

-- One pass of maintainRegistration: what the stream brings, whether the sleep runs out, and the
-- attempts of the registration that follows.
pub record Pass : Type 0 where
  pub stream : List KeepAlive
  pub slept : Bool
  pub attempts : List Attempt

abbrev pub after_loss : List EtcdCall × Outcome → List EtcdCall × Bool → List EtcdCall × Bool
after_loss (calls, registered lease) rest = (calls ++ rest.0, rest.1)
after_loss (calls, ctx_err) rest = (calls, true)
after_loss (calls, trying) rest = (calls, false)

abbrev pub after_stream :
    Option Bool → Bool → List EtcdCall × Outcome → List EtcdCall × Bool → List EtcdCall × Bool
after_stream none slept tried rest = ([], false)
after_stream (some false) slept tried rest = ([], true)
after_stream (some true) false tried rest = ([], true)
after_stream (some true) true tried rest = after_loss tried rest

-- The calls of maintainRegistration, and whether it has returned.
unfoldable pub maintain_registration : EtcdRegistry → String → List Pass → List EtcdCall × Bool
maintain_registration r key [] = ([], false)
maintain_registration r key (p ∷ more) =
    after_stream (consume_keep_alive p.stream) p.slept (establish_registration r key p.attempts)
      (maintain_registration r key more)

abbrev pub node_key : EtcdRegistry → String → String
node_key r ip = r.node_prefix ^^ ip

-- The goroutine that Register starts, if it succeeds.
abbrev pub background : Outcome → List EtcdCall → List EtcdCall
background (registered lease) calls = calls
background ctx_err calls = []
background trying calls = []

-- The calls of Register, its outcome, and the calls of the goroutine that it starts.
unfoldable pub register :
    EtcdRegistry → String → List Attempt → List Pass → List EtcdCall × Outcome × List EtcdCall
register r ip attempts passes =
    let (calls, outcome) = establish_registration r (node_key r ip) attempts in
    (calls, outcome, background outcome (maintain_registration r (node_key r ip) passes).0)

abbrev pub deregister : EtcdRegistry → String → EtcdCall
deregister r ip = delete_key (node_key r ip)

-- `none` for a table is Go's nil.
pub record EtcdResolver : Type 0 where
  pub tab : Option Table
  pub node_prefix : String
  pub slot_owner : Option SlotOwner

abbrev pub new_etcd_resolver : String → EtcdResolver
new_etcd_resolver node_prefix = record {
  tab = none;
  node_prefix = normalize_node_prefix node_prefix;
  slot_owner = some modulo_slot_owner;
}

abbrev pub resolver_node_ip : EtcdResolver → ℕ → ℕ → NodeIp
resolver_node_ip r tenant_id uid = get_node_ip r.tab tenant_id uid

-- sort.Strings, which orders by the bytes.
unfoldable pub insert_sorted : String → List String → List String
insert_sorted x [] = x ∷ []
insert_sorted x (y ∷ ys) =
    let rest = insert_sorted x ys in elim (compare x y) [ Ordering.gt ↦ y ∷ rest | _ ↦ x ∷ y ∷ ys ]

unfoldable pub sort_strings : List String → List String
unfolding insert_sorted
sort_strings [] = []
sort_strings (x ∷ xs) = insert_sorted x (sort_strings xs)

unfoldable pub node_ips : String → List String → List String
node_ips prefix [] = []
node_ips prefix (key ∷ keys) =
    let ips = node_ips prefix keys in
    if has_prefix key prefix
    then (if trim_prefix key prefix == "" then ips else trim_prefix key prefix ∷ ips)
    else ips

unfoldable pub sorted_node_ips : String → List String → List String
unfolding sort_strings node_ips
sorted_node_ips prefix [] = []
sorted_node_ips prefix (key ∷ keys) = sort_strings (node_ips prefix (key ∷ keys))

-- refreshSnapshot, and whether it returned an error; `none` is a GET that failed.
unfoldable pub refresh_snapshot : Option (List String) → EtcdResolver → EtcdResolver × Bool
refresh_snapshot none r = (r, true)
refresh_snapshot (some keys) r = (
  record r { tab = some (build_routing_table (sorted_node_ips r.node_prefix keys) r.slot_owner) },
  false,
)

pub data EventType : Type 0 where
  event_put : EventType
  event_delete : EventType
  other_event : ℕ → EventType

abbrev pub is_topology : EventType → Bool
is_topology event_put = true
is_topology event_delete = true
is_topology (other_event n) = false

unfoldable pub has_node_topology_event : List EventType → Bool
has_node_topology_event [] = false
has_node_topology_event (e ∷ es) =
    let rest = has_node_topology_event es in if is_topology e then true else rest

-- What watchLoop meets: the context's end; a watch channel that is closed or reports an error, and
-- whether the sleep that follows runs out; a response, with the answer of the GET should it be made.
pub data WatchStep : Type 0 where
  watch_done : WatchStep
  watch_lost : Bool → WatchStep
  response : List EventType → Option (List String) → WatchStep

-- watchLoop, and whether it has returned.
unfoldable pub watch_loop : List WatchStep → EtcdResolver → EtcdResolver × Bool
watch_loop [] r = (r, false)
watch_loop (watch_done ∷ more) r = (r, true)
watch_loop (watch_lost true ∷ more) r = watch_loop more r
watch_loop (watch_lost false ∷ more) r = (r, true)
watch_loop (response events got ∷ more) r =
    watch_loop more (if has_node_topology_event events then (refresh_snapshot got r).0 else r)

-- Watch and the goroutine that it starts, and whether Watch returned an error.
unfoldable pub watch : Option (List String) → List WatchStep → EtcdResolver → EtcdResolver × Bool
unfolding refresh_snapshot
watch none steps r = (r, true)
watch (some keys) steps r = ((watch_loop steps (refresh_snapshot (some keys) r).0).0, false)
