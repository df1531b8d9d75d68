-- ===== src/Client/Callbacks.antt =====
-- cmd/client/router.go: ShardedCallbackMap, whose 256 shards are one map: a request's shard is fixed
-- by its id, and every operation but FailAll stays under the lock of one shard. A channel for the
-- answer is its number.
use actor_cluster.Prelude.{ℕ, ◌+◌, ◌%◌, ◌≡◌, ap, ◌∙◌, inl, inr, true, List, [], ◌∷◌, Option, arith}
use actor_cluster.Prelude.Tests.{nat_eq, Bool-cases, if◌then◌else◌}
use actor_cluster.Prelude.Lists.{length}
use actor_cluster.Prelude.Words.{u64_mod, add64, sub64}
use actor_cluster.Prelude.Dict.{
  Dict, is_some, lookup, insert, delete, length-insert, length-delete, Distinct, insert-Distinct,
  delete-Distinct,
}

pub record CallbackEntry : Type 0 where
  pub started_at : ℕ
  pub resp_ch : Option ℕ

pub record CallbackMap : Type 0 where
  pub pending : ℕ
  pub entries : Dict ℕ CallbackEntry

abbrev pub new_callback_map : CallbackMap
new_callback_map = record { pending = 0; entries = [] }

unfoldable pub store : ℕ → CallbackEntry → CallbackMap → CallbackMap
store req_id entry sm = record {
  pending = if is_some (lookup req_id sm.entries) then sm.pending else add64 sm.pending 1;
  entries = insert req_id entry sm.entries;
}

unfoldable pub load_and_delete : ℕ → CallbackMap → CallbackMap × Option CallbackEntry
load_and_delete req_id sm = (
  if is_some (lookup req_id sm.entries)
      then record { pending = sub64 sm.pending 1; entries = delete req_id sm.entries }
      else sm,
  lookup req_id sm.entries,
)

unfoldable pub delete_callback : ℕ → CallbackMap → CallbackMap
delete_callback req_id sm =
    if is_some (lookup req_id sm.entries)
    then record { pending = sub64 sm.pending 1; entries = delete req_id sm.entries }
    else sm

-- The counter is the number of the callbacks, modulo 2 ^ 64, and no request stands twice.
pub record Counts (sm : CallbackMap) : Type 0 where
  pub exact : sm.pending ≡ length sm.entries % u64_mod
  pub distinct : Distinct sm.entries

add64_next : (p n : ℕ) → p ≡ n % u64_mod → add64 p 1 ≡ (n + 1) % u64_mod
add64_next p n e = omega (arith, e)

sub64_last : (p n : ℕ) → p ≡ (n + 1) % u64_mod → sub64 p 1 ≡ n % u64_mod
sub64_last p n e = omega (arith, e)

pub store-Counts :
    (req_id : ℕ) (entry : CallbackEntry) (sm : CallbackMap)
    → Counts sm
    → Counts (store req_id entry sm)
unfolding store
store-Counts req_id entry sm c = record {
  exact = ground (
    arith,
    length-insert req_id entry sm.entries,
    add64_next sm.pending (length sm.entries) c.exact,
    c.exact,
  );
  distinct = insert-Distinct req_id entry sm.entries c.distinct;
}

pub delete_callback-Counts :
    (req_id : ℕ) (sm : CallbackMap) → Counts sm → Counts (delete_callback req_id sm)
unfolding delete_callback
delete_callback-Counts req_id sm c = elim (Bool-cases (is_some (lookup req_id sm.entries))) [
  | inl there ↦
      rw (there, delete_callback)
        (record {
          exact = sub64_last sm.pending _ (c.exact ∙ ap (λ (n : ℕ). n % u64_mod) (one_less there));
          distinct = delete-Distinct req_id sm.entries c.distinct;
        })
  | inr gone ↦ rw (gone, delete_callback) c
]
  where
    one_less :
        is_some (lookup req_id sm.entries) ≡ true
        → length sm.entries ≡ length (delete req_id sm.entries) + 1
    one_less there = ground (arith, there, length-delete req_id sm.entries c.distinct)

-- One call, under the lock of its shard.
pub data CallbackOp : Type 0 where
  stored : ℕ → CallbackEntry → CallbackOp
  taken : ℕ → CallbackOp
  deleted : ℕ → CallbackOp

abbrev pub run_op : CallbackOp → CallbackMap → CallbackMap
run_op (stored req_id entry) sm = store req_id entry sm
run_op (taken req_id) sm = (load_and_delete req_id sm).0
run_op (deleted req_id) sm = delete_callback req_id sm

abbrev pub run_ops : List CallbackOp → CallbackMap → CallbackMap
run_ops [] sm = sm
run_ops (op ∷ ops) sm = run_ops ops (run_op op sm)

run_op-Counts : (op : CallbackOp) (sm : CallbackMap) → Counts sm → Counts (run_op op sm)
unfolding load_and_delete delete_callback
run_op-Counts (stored req_id entry) sm c = store-Counts req_id entry sm c
run_op-Counts (taken req_id) sm c = delete_callback-Counts req_id sm c
run_op-Counts (deleted req_id) sm c = delete_callback-Counts req_id sm c

run_ops-Counts : (ops : List CallbackOp) (sm : CallbackMap) → Counts sm → Counts (run_ops ops sm)
run_ops-Counts [] sm c = c
run_ops-Counts (op ∷ ops) sm c = run_ops-Counts ops (run_op op sm) (run_op-Counts op sm c)

-- After any calls on a new map, Pending is the number of the callbacks that are stored, modulo
-- 2 ^ 64.
pub pending_counts :
    (ops : List CallbackOp)
    → (run_ops ops new_callback_map).pending
      ≡ length (run_ops ops new_callback_map).entries % u64_mod
pending_counts ops =
    (run_ops-Counts ops new_callback_map (record { exact = omega arith; distinct = tt })).exact
