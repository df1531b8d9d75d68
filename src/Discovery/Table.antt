-- ===== src/Discovery/Table.antt =====
-- pkg/discovery/table.go: slots, the routing table and the lookup in it. `none` for a `SlotOwner`
-- or a table is Go's nil.
use Prim.Native.Nat.{bit_and, bit_xor}
use actor_cluster.Prelude.{
  ℕ, zero, suc, ◌+◌, ◌*◌, ◌/◌, ◌%◌, ◌^◌, String, true, false, List, [], ◌∷◌, Option, none, some,
}
use actor_cluster.Prelude.Tests.{nat_beq, string_eq, ◌==◌, if◌then◌else◌}
use actor_cluster.Prelude.Lists.{length, get_or, replicate}
use actor_cluster.Prelude.Words.{u64_mod}

abbrev pub partition_slots : ℕ
partition_slots = 1024

abbrev pub slot_mask : ℕ
slot_mask = 1023

-- One entry for each slot, "" where no node owns it.
abbrev pub Table : Type 0
Table = List String

-- uint64(uint32(tenantID))<<32 ^ uint64(uid), on the two bit patterns.
unfoldable pub route_key : ℕ → ℕ → ℕ
route_key tenant_id uid = bit_xor (tenant_id % 2 ^ 32 * 2 ^ 32 % u64_mod) uid

-- x ^= x >> 33
abbrev pub xorshift : ℕ → ℕ
xorshift x = bit_xor x (x / 2 ^ 33)

-- The SplitMix64 finalizer.
unfoldable pub mix : ℕ → ℕ
mix x =
    xorshift
      (xorshift (xorshift x * 0xff51_afd7_ed55_8ccd % u64_mod) * 0xc4ce_b9fe_1a85_ec53 % u64_mod)

unfoldable pub slot_of : ℕ → ℕ → ℕ
unfolding mix route_key
slot_of tenant_id uid = bit_and (mix (route_key tenant_id uid)) slot_mask

abbrev pub SlotOwner : Type 0
SlotOwner = List String → ℕ → String

unfoldable pub modulo_slot_owner : SlotOwner
modulo_slot_owner nodes slot =
    if nat_beq (length nodes) 0 then "" else get_or nodes (slot % length nodes) ""

-- `for slot := from; …; slot++ { t[slot] = owner(nodes, slot) }`, n rounds.
unfoldable pub fill : SlotOwner → List String → ℕ → ℕ → Table
fill owner nodes from zero = []
fill owner nodes from (suc n) = owner nodes from ∷ fill owner nodes (from + 1) n

abbrev or_modulo : Option SlotOwner → SlotOwner
or_modulo none = modulo_slot_owner
or_modulo (some owner) = owner

unfoldable pub build_routing_table : List String → Option SlotOwner → Table
build_routing_table nodes owner = elim (nat_beq (length nodes) 0) [
  | true ↦ replicate partition_slots ""
  | false ↦ fill (or_modulo owner) nodes 0 partition_slots
]

pub data NodeIp : Type 0 where
  found : String → NodeIp
  err_table_not_initialized : NodeIp
  err_no_owner : NodeIp

unfoldable pub get_node_ip : Option Table → ℕ → ℕ → NodeIp
get_node_ip none tenant_id uid = err_table_not_initialized
get_node_ip (some table) tenant_id uid =
    let ip = get_or table (slot_of tenant_id uid) "" in if ip == "" then err_no_owner else found ip
