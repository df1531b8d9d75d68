-- ===== src/Discovery/Hash.antt =====
-- The hash behind the slots loses nothing: it is one to one on 64-bit keys.
use Prim.Native.Nat.{bit_xor}
use actor_cluster.Prelude.{ℕ, ◌*◌, ◌/◌, ◌%◌, ◌^◌, ◌<◌, ◌≡◌, ◌≢◌, sym, ap, ◌∙◌, arith}
use actor_cluster.Prelude.Bits.{
  bit_and-le, bit_xor-lt, bit_xor_injective, bit_xor_comm, xorshift_injective,
}
use actor_cluster.Prelude.Words.{u64_mod}
use actor_cluster.Discovery.Table.{route_key, xorshift, mix, slot_of, partition_slots, slot_mask}

-- Every key has a slot of the table.
pub slot_of-lt : (tenant_id uid : ℕ) → slot_of tenant_id uid < partition_slots
unfolding slot_of
slot_of-lt tenant_id uid = omega (arith, bit_and-le (mix (route_key tenant_id uid)) slot_mask)

-- The two factors are odd: each has an inverse modulo 2 ^ 64.
first_factor_undone :
    (x : ℕ)
    → x < u64_mod
    → x * 0xff51_afd7_ed55_8ccd % u64_mod * 0x4f74_430c_22a5_4005 % u64_mod ≡ x
first_factor_undone x h = omega arith

second_factor_undone :
    (x : ℕ)
    → x < u64_mod
    → x * 0xc4ce_b9fe_1a85_ec53 % u64_mod * 0x9cb4_b2f8_1293_37db % u64_mod ≡ x
second_factor_undone x h = omega arith

first_factor_injective :
    (x y : ℕ)
    → x < u64_mod
    → y < u64_mod
    → x * 0xff51_afd7_ed55_8ccd % u64_mod ≡ y * 0xff51_afd7_ed55_8ccd % u64_mod
    → x ≡ y
first_factor_injective x y hx hy e =
    sym (first_factor_undone x hx)
    ∙ ap (λ (z : ℕ). z * 0x4f74_430c_22a5_4005 % u64_mod) e
    ∙ first_factor_undone y hy

second_factor_injective :
    (x y : ℕ)
    → x < u64_mod
    → y < u64_mod
    → x * 0xc4ce_b9fe_1a85_ec53 % u64_mod ≡ y * 0xc4ce_b9fe_1a85_ec53 % u64_mod
    → x ≡ y
second_factor_injective x y hx hy e =
    sym (second_factor_undone x hx)
    ∙ ap (λ (z : ℕ). z * 0x9cb4_b2f8_1293_37db % u64_mod) e
    ∙ second_factor_undone y hy

xorshift-lt : (x : ℕ) → x < u64_mod → xorshift x < u64_mod
xorshift-lt x h = bit_xor-lt 64 x (x / 2 ^ 33) h (omega arith)

-- Two 64-bit keys that the finalizer takes to the same word are the same key.
pub mix_injective : (x y : ℕ) → x < u64_mod → y < u64_mod → mix x ≡ mix y → x ≡ y
unfolding mix
mix_injective x y hx hy e = xorshift_injective x y hx hy (
    first_factor_injective _ _ (xorshift-lt x hx) (xorshift-lt y hy) (
      xorshift_injective _ _ (omega arith) (omega arith) (
        second_factor_injective _ _ (xorshift-lt _ (omega arith)) (xorshift-lt _ (omega arith))
          (xorshift_injective _ _ (omega arith) (omega arith) e))))

-- Two different wallets of one tenant, their uids words below 2 ^ 64, hash to two different words.
pub wallet_hash_injective :
    (tenant_id uid uid' : ℕ)
    → uid < u64_mod
    → uid' < u64_mod
    → uid ≢ uid'
    → mix (route_key tenant_id uid) ≢ mix (route_key tenant_id uid')
unfolding route_key
wallet_hash_injective tenant_id uid uid' h h' differ e =
    let top = tenant_id % 2 ^ 32 * 2 ^ 32 % u64_mod in
    differ (
      bit_xor_injective uid uid' top (
        bit_xor_comm uid top
        ∙ mix_injective (bit_xor top uid) (bit_xor top uid') (bit_xor-lt 64 top uid (omega arith) h)
            (bit_xor-lt 64 top uid' (omega arith) h') e
        ∙ bit_xor_comm top uid'))
