-- ===== src/Wallet/Funds.antt =====
-- The balance in terms of integers: no overdraft, no wrap-around.
use actor_cluster.Prelude.{
  ℕ, ◌-◌, ◌<◌, ◌≤◌, ◌≡◌, ◌↔◌, refl, ◌⊎◌, inl, inr, String, true, false, List, [], ◌∷◌, Option, none,
  some, arith,
}
use actor_cluster.Prelude.Tests.{ltb, string_eq, Bool-cases}
use actor_cluster.Prelude.Lists.{length}
use actor_cluster.Prelude.Words.{add64, is_neg, i64_bound, u64_mod, ℤ, pos, signed64, ◌+ℤ◌, ◌≤ℤ◌}
use actor_cluster.Prelude.Dict.{lookup, is_some}
use actor_cluster.Message.{RemoteEnvelope, err_insufficient_funds}
use actor_cluster.Persistence.{Store}
use actor_cluster.Wallet.State.{BusinessActor, add_tx_id, be_uint64, encode_int64}
use actor_cluster.Wallet.Ops.{applied, committed, settle, write_event, handle}
use actor_cluster.Wallet.Cases.{handle_cases}

abbrev pub IsBytes : List ℕ → Type 0
IsBytes [] = Unit {0}
IsBytes (x ∷ xs) = (x < 256) × IsBytes xs

pub be_uint64-lt : (payload : List ℕ) → IsBytes payload → be_uint64 payload < u64_mod
unfolding be_uint64
be_uint64-lt [] bs = omega arith
be_uint64-lt (a ∷ []) bs = omega arith
be_uint64-lt (a ∷ b ∷ []) bs = omega arith
be_uint64-lt (a ∷ b ∷ c ∷ []) bs = omega arith
be_uint64-lt (a ∷ b ∷ c ∷ d ∷ []) bs = omega arith
be_uint64-lt (a ∷ b ∷ c ∷ d ∷ e ∷ []) bs = omega arith
be_uint64-lt (a ∷ b ∷ c ∷ d ∷ e ∷ f ∷ []) bs = omega arith
be_uint64-lt (a ∷ b ∷ c ∷ d ∷ e ∷ f ∷ g ∷ []) bs = omega arith
be_uint64-lt (a ∷ b ∷ c ∷ d ∷ e ∷ f ∷ g ∷ h ∷ _) bs = omega arith

-- The balance that is sent, a word below 2 ^ 64, is read back as it was.
pub be_uint64-encode_int64 : (w : ℕ) → w < u64_mod → be_uint64 (encode_int64 w) ≡ w
unfolding be_uint64 encode_int64
be_uint64-encode_int64 w h = omega arith

pub signed64-add64 :
    (b a : ℕ)
    → b < i64_bound
    → a < u64_mod
    → is_neg (add64 b a) ≡ false
    → (add64 b a < i64_bound) × (signed64 (add64 b a) ≡ signed64 b +ℤ signed64 a)
signed64-add64 b a hb ha n = ground arith

module _ (st : Store) where
  pub balance_settled :
      (db : st.Db) (b : BusinessActor) (env : RemoteEnvelope) (amount : ℕ)
      → (settle st b env amount (db, none)).actor.balance ≡ add64 b.balance amount
  unfolding settle committed applied add_tx_id
  balance_settled db b env amount = ground arith

  -- For a payload of bytes, a balance that is not negative never becomes negative, and changes by
  -- exactly the amount of the message, as integers, or not at all.
  pub handle_funds :
      (db : st.Db) (now : ℕ) (b : BusinessActor) (env : RemoteEnvelope)
      → b.balance < i64_bound
      → IsBytes env.payload
      → let h = handle st db now b env in
        (h.actor.balance < i64_bound)
        × ((h.actor.balance ≡ b.balance)
            ⊎ (signed64 h.actor.balance ≡ signed64 b.balance +ℤ signed64 (be_uint64 env.payload)))
  handle_funds db now b env small bytes =
      handle_cases st (λ h. Moves h.actor) db now b env (λ res _. (small, inl refl))
        (λ _ _ rich. unfold write_event in settled (st.execute_batch _ _ _) rich)
    where
      Moves : BusinessActor → Type 0
      Moves c =
          (c.balance < i64_bound)
          × ((c.balance ≡ b.balance)
              ⊎ (signed64 c.balance ≡ signed64 b.balance +ℤ signed64 (be_uint64 env.payload)))

      settled :
          (w : st.Db × Option String)
          → is_neg (add64 b.balance (be_uint64 env.payload)) ≡ false
          → Moves (settle st (record b { last_active = now }) env (be_uint64 env.payload) w).actor
      settled (db', some m) rich = unfold settle in (small, inl refl)
      settled (db', none) rich =
          let (fits, sum) =
            signed64-add64 b.balance (be_uint64 env.payload) small (be_uint64-lt env.payload bytes)
              rich in
          let same =
            balance_settled db' (record b { last_active = now }) env (be_uint64 env.payload) in
          (rw same fits, inr (rw same sum))

  abbrev pub exact_sum : BusinessActor → RemoteEnvelope → ℤ
  exact_sum b env = signed64 b.balance +ℤ signed64 (be_uint64 env.payload)

  abbrev pub IsPayable : ℤ → Type 0
  IsPayable z = (pos 0 ≤ℤ z) × (z ≤ℤ pos (i64_bound - 1))

  pub is_neg_iff :
      (b a : ℕ)
      → b < i64_bound
      → a < u64_mod
      → (is_neg (add64 b a) ≡ false) ↔ IsPayable (signed64 b +ℤ signed64 a)
  is_neg_iff b a hb ha = (λ n. ground arith, λ h. ground arith)

  -- With a balance that is not negative, a transaction that is not cached and has a payload of at
  -- least 8 bytes is written exactly when the exact sum of balance and amount is a balance,
  -- neither negative nor beyond int64; otherwise it is refused for insufficient funds, with no
  -- payload, and the tables and the balance stay as they were.
  pub handle_decides :
      (db : st.Db) (now : ℕ) (b : BusinessActor) (env : RemoteEnvelope)
      → b.balance < i64_bound
      → IsBytes env.payload
      → is_some (lookup env.tx_id b.tx_cache) ≡ false
      → 8 ≤ length env.payload
      → let h = handle st db now b env in
        (IsPayable (exact_sum b env)
          × (h
              ≡ write_event st db now (record b { last_active = now }) env (be_uint64 env.payload)))
        ⊎ ((¬ IsPayable (exact_sum b env))
            × (h.db ≡ db)
            × (h.actor.balance ≡ b.balance)
            × (h.result.success ≡ false)
            × (h.result.error_code ≡ err_insufficient_funds)
            × (h.result.payload ≡ []))
  unfolding handle
  handle_decides db now b env small bytes new whole =
      let iff =
        is_neg_iff b.balance (be_uint64 env.payload) small (be_uint64-lt env.payload bytes) in
      elim (Bool-cases (is_neg (add64 b.balance (be_uint64 env.payload)))) [
        | inl poor ↦
            let (same_db, same_balance, failed, code, empty) = refuses poor in
            inr (λ h. cc (poor, iff.1 h), same_db, same_balance, failed, code, empty)
        | inr rich ↦ inl (iff.0 rich, rw (new, handle) (rw (long, handle) (rw (rich, handle) refl)))
      ]
    where
      long : ltb (length env.payload) 8 ≡ false
      long = ground arith

      refuses :
          is_neg (add64 b.balance (be_uint64 env.payload)) ≡ true
          → let h = handle st db now b env in
            (h.db ≡ db)
            × (h.actor.balance ≡ b.balance)
            × (h.result.success ≡ false)
            × (h.result.error_code ≡ err_insufficient_funds)
            × (h.result.payload ≡ [])
      refuses poor =
          rw (new, handle) (rw (long, handle) (rw (poor, handle) (refl, refl, refl, refl, refl)))
