-- ===== src/Wallet/Cases.antt =====
-- What `handle` does, by its guards: nothing but note the time of the call, or the write.
use actor_cluster.Prelude.{ℕ, ◌≡◌, refl, inl, inr, true, false, [], none}
use actor_cluster.Prelude.Tests.{ltb, string_eq, Bool-cases}
use actor_cluster.Prelude.Lists.{length}
use actor_cluster.Prelude.Words.{add64, is_neg}
use actor_cluster.Prelude.Dict.{lookup, is_some}
use actor_cluster.Message.{RemoteEnvelope, RemoteResult}
use actor_cluster.Persistence.{Store}
use actor_cluster.Wallet.State.{BusinessActor, be_uint64}
use actor_cluster.Wallet.Ops.{Handled, write_event, handle}

module _ (st : Store) where
  pub handle_cases {ℓ} :
      (P : Handled st.Db → Type ℓ) (db : st.Db) (now : ℕ) (b : BusinessActor) (env : RemoteEnvelope)
      → ((res : RemoteResult)
          → res.payload ≡ []
          → P (record {
            db = db;
            actor = record b { last_active = now };
            result = res;
            job = none;
          }))
      → (is_some (lookup env.tx_id b.tx_cache) ≡ false
          → ltb (length env.payload) 8 ≡ false
          → is_neg (add64 b.balance (be_uint64 env.payload)) ≡ false
          → P (write_event st db now (record b { last_active = now }) env (be_uint64 env.payload)))
      → P (handle st db now b env)
  unfolding handle
  handle_cases P db now b env keep write =
      elim (Bool-cases (is_some (lookup env.tx_id b.tx_cache))) [
        | inl seen ↦ rw (seen, handle) (keep _ refl)
        | inr new ↦
            rw (new, handle)
              (elim (Bool-cases (ltb (length env.payload) 8)) [
                | inl short ↦ rw (short, handle) (keep _ refl)
                | inr long ↦
                    rw (long, handle)
                      (elim (Bool-cases (is_neg (add64 b.balance (be_uint64 env.payload)))) [
                        | inl poor ↦ rw (poor, handle) (keep _ refl)
                        | inr rich ↦ rw (rich, handle) (write new long rich)
                      ])
              ])
      ]

  -- A transaction that the cache holds is acknowledged, and nothing else happens.
  pub handle_seen :
      (db : st.Db) (now : ℕ) (b : BusinessActor) (env : RemoteEnvelope)
      → is_some (lookup env.tx_id b.tx_cache) ≡ true
      → let h = handle st db now b env in
        (h.db ≡ db)
        × (h.actor ≡ record b { last_active = now })
        × (h.result.success ≡ true)
        × (h.result.payload ≡ [])
        × (h.job ≡ none)
  unfolding handle
  handle_seen db now b env seen = rw (seen, handle) (refl, refl, refl, refl, refl)
