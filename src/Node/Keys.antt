-- ===== src/Node/Keys.antt =====
-- internal/node/node.go: the keys of its maps. ActorKey is a pair, resultRouteKey a triple.
use Prim.Native.Nat.{bit_xor}
use mathlib.Core.Logic.{◌↔◌}
use actor_cluster.Prelude.{ℕ, ◌%◌, ◌^◌, ◌≡◌, Bool, true, ◌&&◌, arith}
use actor_cluster.Prelude.Tests.{nat_beq, Comparable}

abbrev pub ActorKey : Type 0
ActorKey = ℕ × ℕ

abbrev pub ResultRouteKey : Type 0
ResultRouteKey = ℕ × ℕ × ℕ

-- uint64(k.TenantID^int32(k.UID)) % 256, on the bit patterns: the sign extension leaves the low byte.
unfoldable pub shard_index : ActorKey → ℕ
shard_index (tenant_id, uid) = bit_xor (tenant_id % 2 ^ 32) (uid % 2 ^ 32) % 256

abbrev pub same_key : ActorKey → ActorKey → Bool
same_key p q = nat_beq p.0 q.0 && nat_beq p.1 q.1

abbrev pub same_route : ResultRouteKey → ResultRouteKey → Bool
same_route p q = nat_beq p.0 q.0 && nat_beq p.1 q.1 && nat_beq p.2 q.2

pub same_key_iff : (p q : ActorKey) → (same_key p q ≡ true) ↔ (p ≡ q)
same_key_iff p q = ground arith

pub same_route_iff : (p q : ResultRouteKey) → (same_route p q ≡ true) ↔ (p ≡ q)
same_route_iff p q = ground arith

instance abbrev pub actor_key_eq : Comparable ActorKey
actor_key_eq = record { same = same_key; same_iff = same_key_iff }

instance abbrev pub result_route_key_eq : Comparable ResultRouteKey
result_route_key_eq = record { same = same_route; same_iff = same_route_iff }
