-- ===== src/Node/Identity.antt =====
-- The result of a wallet's actor carries the identity of the request, by which it is routed.
use actor_cluster.Prelude.{ℕ, ◌≡◌, refl, ◌∙◌, inl, inr, String, Option, none, some, arith}
use actor_cluster.Prelude.Tests.{nat_beq, ltb, Bool-cases, string_eq, if◌then◌else◌, ◌==◌}
use actor_cluster.Prelude.Lists.{length}
use actor_cluster.Prelude.Words.{add64, is_neg}
use actor_cluster.Prelude.Dict.{lookup, is_some}
use actor_cluster.Message.{RemoteEnvelope, RemoteResult}
use actor_cluster.Persistence.{Store}
use actor_cluster.Mailbox.State.{complete_result}
use actor_cluster.Wallet.State.{BusinessActor, be_uint64, add_tx_id}
use actor_cluster.Wallet.Ops.{handle, write_event, settle, committed, applied}
use actor_cluster.Node.Runtime.{route_of, result_route}

-- The five fields that say whose result it is.
record Identified (b : BusinessActor) (env : RemoteEnvelope) (res : RemoteResult) : Type 0 where
  tenant : res.tenant_id ≡ b.tenant_id
  uid : res.uid ≡ b.uid
  tx : res.tx_id ≡ env.tx_id
  request : res.request_id ≡ env.request_id
  op : res.op_code ≡ env.op_code

module _ (st : Store) where
  settle-Identified :
      (b : BusinessActor) (env : RemoteEnvelope) (amount : ℕ) (r : st.Db × Option String)
      → Identified b env (settle st b env amount r).result
  unfolding settle committed applied add_tx_id
  settle-Identified b env amount (db, some e) = record {
    tenant = refl;
    uid = refl;
    tx = refl;
    request = refl;
    op = refl;
  }
  settle-Identified b env amount (db, none) = record {
    tenant = refl;
    uid = refl;
    tx = refl;
    request = refl;
    op = refl;
  }

  handle-Identified :
      (db : st.Db) (now : ℕ) (b : BusinessActor) (env : RemoteEnvelope)
      → Identified b env (handle st db now b env).result
  unfolding handle write_event
  handle-Identified db now b env = elim (Bool-cases (is_some (lookup env.tx_id b.tx_cache))) [
    | inl e ↦
        rw (e, handle) (record { tenant = refl; uid = refl; tx = refl; request = refl; op = refl })
    | inr e ↦
        rw (e, handle)
          (elim (Bool-cases (ltb (length env.payload) 8)) [
            | inl f ↦
                rw (f, handle)
                  (record { tenant = refl; uid = refl; tx = refl; request = refl; op = refl })
            | inr f ↦
                rw (f, handle)
                  (elim (Bool-cases (is_neg (add64 b.balance (be_uint64 env.payload)))) [
                    | inl g ↦
                        rw (g, handle)
                          (record {
                            tenant = refl;
                            uid = refl;
                            tx = refl;
                            request = refl;
                            op = refl;
                          })
                    | inr g ↦
                        rw (g, handle)
                          (from_same (
                            settle-Identified (record b { last_active = now }) env
                              (be_uint64 env.payload) _))
                  ])
          ])
  ]
    where
      from_same :
          {res : RemoteResult}
          → Identified (record b { last_active = now }) env res
          → Identified b env res
      from_same i = record {
        tenant = i.tenant;
        uid = i.uid;
        tx = i.tx;
        request = i.request;
        op = i.op;
      }

  or_else : (x y : ℕ) → x ≡ y → (if nat_beq x 0 then y else x) ≡ y
  or_else x y e = ground (arith, e)

  or_text : (s t : String) → s ≡ t → (if s == "" then t else s) ≡ t
  or_text s t e = elim (Bool-cases (s == "")) [ inl f ↦ rw f refl | inr f ↦ rw f e ]

  -- On every branch of Handle, what the loop emits for a request of the actor's own wallet has the
  -- request's route, transaction id and operation code.
  pub emitted_route :
      (db : st.Db) (now : ℕ) (b : BusinessActor) (env : RemoteEnvelope)
      → b.tenant_id ≡ env.tenant_id
      → b.uid ≡ env.uid
      → let res = complete_result (handle st db now b env).result env in
        (result_route res ≡ route_of env) × (res.tx_id ≡ env.tx_id) × (res.op_code ≡ env.op_code)
  unfolding complete_result
  emitted_route db now b env ht hu =
      let i = handle-Identified db now b env in
      let t = or_else _ _ (i.tenant ∙ ht) in
      let u = or_else _ _ (i.uid ∙ hu) in
      let r = or_else _ _ i.request in (λ j. (t j, u j, r j), or_text _ _ i.tx, or_else _ _ i.op)
