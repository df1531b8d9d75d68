-- ===== src/Discovery/Routing.antt =====
-- What a lookup in a built table answers, and how the slots are shared out.
use mathlib.Core.List.{Mem, mem-cons_self, mem-cons_of_mem}
use actor_cluster.Prelude.{
  ℕ, zero, suc, ◌+◌, ◌*◌, ◌/◌, ◌%◌, ◌<◌, ◌≡◌, ◌≢◌, ap, ◌∙◌, String, Bool, false, List, [], ◌∷◌,
  none, some, arith,
}
use native.Mathlib.Nat.{div-add-mod', div-eq_of_lt-le, zero-div, zero-mod, mod-lt}
use native.Mathlib.Decide.{dec_lt}
use actor_cluster.Prelude.Tests.{nat_beq, ltb, string_eq, ◌==◌, eq_iff, if◌then◌else◌}
use actor_cluster.Prelude.Lists.{length, get_or}
use actor_cluster.Discovery.Table.{
  partition_slots, Table, SlotOwner, modulo_slot_owner, fill, build_routing_table, found, slot_of,
  get_node_ip,
}
use actor_cluster.Discovery.Hash.{slot_of-lt}

get_or-fill :
    (owner : SlotOwner) (nodes : List String) (from n i : ℕ)
    → i < n
    → get_or (fill owner nodes from n) i "" ≡ owner nodes (from + i)
unfolding fill
get_or-fill owner nodes from zero i h = elim h [ ]
get_or-fill owner nodes from (suc n) zero h = ap (owner nodes) (omega arith)
get_or-fill owner nodes from (suc n) (suc i) h =
    get_or-fill owner nodes (from + 1) n i (omega arith) ∙ ap (owner nodes) (omega arith)

get_or-mem : (xs : List String) (i : ℕ) → i < length xs → Mem (get_or xs i "") xs
get_or-mem [] i h = elim h [ ]
get_or-mem (x ∷ xs) zero h = mem-cons_self
get_or-mem (x ∷ xs) (suc i) h = mem-cons_of_mem x (get_or-mem xs i (omega arith))

abbrev pub owner_of : List String → ℕ → ℕ → String
owner_of nodes tenant_id uid = get_or nodes (slot_of tenant_id uid % length nodes) ""

-- No address is empty.
abbrev pub NonEmpty : List String → Type 0
NonEmpty [] = Unit {0}
NonEmpty (x ∷ xs) = (x ≢ "") × NonEmpty xs

pub get_or-NonEmpty : (xs : List String) (i : ℕ) → NonEmpty xs → i < length xs → get_or xs i "" ≢ ""
get_or-NonEmpty [] i n h = elim h [ ]
get_or-NonEmpty (x ∷ xs) zero n h = n.0
get_or-NonEmpty (x ∷ xs) (suc i) n h = get_or-NonEmpty xs i n.1 (omega arith)

table_entry :
    (nodes : List String) (tenant_id uid : ℕ)
    → 0 < length nodes
    → get_or (build_routing_table nodes none) (slot_of tenant_id uid) ""
      ≡ owner_of nodes tenant_id uid
unfolding build_routing_table modulo_slot_owner
table_entry nodes tenant_id uid h =
    rw (some_nodes, build_routing_table)
      (get_or-fill modulo_slot_owner nodes 0 partition_slots (slot_of tenant_id uid)
          (slot_of-lt tenant_id uid)
        ∙ rw some_nodes (ap (λ (i : ℕ). get_or nodes (i % length nodes) "") (omega arith)))
  where
    some_nodes : nat_beq (length nodes) 0 ≡ false
    some_nodes = ground arith

-- With at least one live node, and no empty address, every wallet has an owner: the lookup answers
-- with the live node at the wallet's slot modulo the number of nodes.
pub get_node_ip_owner :
    (nodes : List String) (tenant_id uid : ℕ)
    → 0 < length nodes
    → NonEmpty nodes
    → (get_node_ip (some (build_routing_table nodes none)) tenant_id uid
        ≡ found (owner_of nodes tenant_id uid))
      × Mem (owner_of nodes tenant_id uid) nodes
unfolding get_node_ip
get_node_ip_owner nodes tenant_id uid h names = (
  rw (table_entry nodes tenant_id uid h) (
      ground
        (arith, eq_iff (owner_of nodes tenant_id uid) "", get_or-NonEmpty nodes _ names in_range)),
  get_or-mem nodes _ in_range,
)
  where
    in_range : slot_of tenant_id uid % length nodes < length nodes
    in_range = omega arith

div_next : (k n : ℕ) → 0 < k → n % k + 1 < k → ((n + 1) / k ≡ n / k) × ((n + 1) % k ≡ n % k + 1)
div_next k n h small =
    let whole = div-add-mod' n k in
    let q : (n + 1) / k ≡ n / k =
      div-eq_of_lt-le {k = n / k} k (omega (arith, whole)) (omega (arith, whole)) in
    (q, omega (arith, whole, div-add-mod' (n + 1) k, ap (λ (x : ℕ). x * k) q))

div_wrap : (k n : ℕ) → 0 < k → n % k + 1 ≡ k → ((n + 1) / k ≡ n / k + 1) × ((n + 1) % k ≡ 0)
div_wrap k n h last =
    let whole = div-add-mod' n k in
    let q : (n + 1) / k ≡ n / k + 1 =
      div-eq_of_lt-le {k = n / k + 1} k (omega (arith, whole)) (omega (arith, whole)) in
    (q, omega (arith, whole, div-add-mod' (n + 1) k, ap (λ (x : ℕ). x * k) q))

abbrev one_if : Bool → ℕ
one_if b = if b then 1 else 0

-- How many of the first n slots fall to node i of k.
abbrev share : ℕ → ℕ → ℕ → ℕ
share k i n = n / k + (if ltb i (n % k) then 1 else 0)

share_next :
    (k i n : ℕ) → i < k → share k i (n + 1) ≡ share k i n + (if nat_beq (n % k) i then 1 else 0)
share_next k i n h = elim (dec_lt (n % k + 1) k) [
  | yes small ↦ let (q, r) = div_next k n (omega arith) small in ground (arith, q, r)
  | no big ↦
      let last = mod-lt n {m = k} (omega arith) in
      let (q, r) = div_wrap k n (omega arith) (omega (arith, last)) in ground (arith, q, r, last)
]

-- The slots of a table that a node owns.
unfoldable pub slots_owned : String → Table → ℕ
slots_owned a [] = 0
slots_owned a (x ∷ xs) = (if x == a then 1 else 0) + slots_owned a xs

-- Each address stands at one place.
abbrev pub Apart : List String → Type 0
Apart nodes =
    (i j : ℕ) → i < length nodes → j < length nodes → get_or nodes i "" ≡ get_or nodes j "" → i ≡ j

slots_owned-fill :
    (nodes : List String) (i from n : ℕ)
    → i < length nodes
    → Apart nodes
    → let k = length nodes in
      slots_owned (get_or nodes i "") (fill modulo_slot_owner nodes from n) + share k i from
      ≡ share k i (from + n)
unfolding slots_owned fill
slots_owned-fill nodes i from zero h apart = omega (arith, ap (share (length nodes) i) still)
  where
    still : from ≡ from + 0
    still = omega arith
slots_owned-fill nodes i from (suc n) h apart = omega (
  arith,
  slots_owned-fill nodes i (from + 1) n h apart,
  share_next (length nodes) i from h,
  ap (share (length nodes) i) shift,
  owns,
)
  where
    shift : from + suc n ≡ from + 1 + n
    shift = omega arith

    owns :
        one_if (modulo_slot_owner nodes from == get_or nodes i "")
        ≡ one_if (nat_beq (from % length nodes) i)
    owns =
        unfold modulo_slot_owner in
        ground (
          arith,
          eq_iff (get_or nodes (from % length nodes) "") (get_or nodes i ""),
          apart (from % length nodes) i (mod-lt from {m = length nodes} (omega arith)) h,
        )

-- The slots are shared out evenly: of the 1024 slots, the node at place i of k distinct nodes owns
-- 1024 / k, and one more if i is below 1024 % k.
pub slots_owned-build_routing_table :
    (nodes : List String) (i : ℕ)
    → i < length nodes
    → Apart nodes
    → slots_owned (get_or nodes i "") (build_routing_table nodes none)
      ≡ partition_slots / length nodes + (if ltb i (partition_slots % length nodes) then 1 else 0)
unfolding build_routing_table
slots_owned-build_routing_table nodes i h apart =
    rw (some_nodes, build_routing_table)
      (omega (arith, slots_owned-fill nodes i 0 partition_slots h apart, at_zero))
  where
    some_nodes : nat_beq (length nodes) 0 ≡ false
    some_nodes = ground arith

    at_zero : share (length nodes) i 0 ≡ 0
    at_zero = ground (arith, zero-div (length nodes), zero-mod (length nodes))
