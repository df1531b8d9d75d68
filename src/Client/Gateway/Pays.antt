-- ===== src/Client/Gateway/Pays.antt =====
-- A payment from the gateway's request to its reply, through the actor of the wallet.
use mathlib.Core.Path.{subst}
use actor_cluster.Prelude.{
  ℕ, ◌<◌, ◌≤◌, ◌≡◌, ◌≢◌, refl, sym, ap, ◌∙◌, ◌⊎◌, inl, inr, String, Bool, true, false, List, [],
  ◌∷◌, Option, none, some, arith,
}
use actor_cluster.Prelude.Tests.{leb, string_eq, eq_iff, if◌then◌else◌}
use actor_cluster.Prelude.Lists.{length}
use actor_cluster.Prelude.Words.{add64, u64_mod, i64_bound, not_positive, signed64, ◌+ℤ◌}
use actor_cluster.Prelude.Text.{show_u64}
use actor_cluster.Prelude.Decimal.{show_u64_filled}
use actor_cluster.Prelude.Dict.{is_some, lookup}
use actor_cluster.Message.{RemoteEnvelope, RemoteResult, err_insufficient_funds}
use actor_cluster.Persistence.{Store, BatchMode}
use actor_cluster.Wallet.State.{BusinessActor, be_uint64, encode_int64, add_tx_id}
use actor_cluster.Wallet.Ops.{
  event_statement, write_event, settle, committed, applied, handle, Handled,
}
use actor_cluster.Wallet.Funds.{
  IsBytes, IsPayable, be_uint64-encode_int64, handle_decides, signed64-add64, balance_settled,
  is_neg_iff,
}
use actor_cluster.Node.Runtime.{is_bad_request}
use actor_cluster.Client.Gateway.{
  Body, executed, Response, ExecuteRequest, execute_envelope, execute_response,
  map_error_to_http_status,
}

-- The balance that a reply reports.
abbrev pub reported : Body → Option ℕ
reported (executed r) = r.balance
reported _ = none

passes_guards :
    (req_id : ℕ) (req : ExecuteRequest)
    → req_id < u64_mod
    → req_id ≢ 0
    → not_positive req.uid ≡ false
    → is_bad_request (execute_envelope req_id req) ≡ false
passes_guards req_id req small some_id paid =
    ground (arith, eq_iff (show_u64 req_id) "", show_u64_filled req_id small some_id, some_id, paid)

whole_payload : (w : ℕ) → (8 ≤ length (encode_int64 w)) × IsBytes (encode_int64 w)
unfolding encode_int64
whole_payload w = ground arith

module _ (req_id : ℕ) (req : ExecuteRequest) where
  -- What the reply says of a result.
  paid_response :
      (res : RemoteResult) (w : ℕ)
      → w < u64_mod
      → res.success ≡ true
      → res.payload ≡ encode_int64 w
      → let r = execute_response req_id req res in (r.status ≡ 200) × (reported r.body ≡ some w)
  unfolding execute_response
  paid_response res w small good read = (
    ap (λ (b : Bool). if b then 200 else map_error_to_http_status res.error_code) good,
    ap (λ (p : List ℕ). if leb 8 (length p) then some (be_uint64 p) else none) read
        ∙ full
        ∙ ap some (be_uint64-encode_int64 w small),
  )
    where
      full :
          (if leb 8 (length (encode_int64 w)) then some (be_uint64 (encode_int64 w)) else none)
          ≡ some (be_uint64 (encode_int64 w))
      full = ground (arith, (whole_payload w).0)

  failed_response :
      (res : RemoteResult) (status : ℕ)
      → res.success ≡ false
      → res.payload ≡ []
      → map_error_to_http_status res.error_code ≡ status
      → let r = execute_response req_id req res in (r.status ≡ status) × (reported r.body ≡ none)
  unfolding execute_response
  failed_response res status bad empty code = (
    ap (λ (b : Bool). if b then 200 else map_error_to_http_status res.error_code) bad ∙ code,
    ap (λ (p : List ℕ). if leb 8 (length p) then some (be_uint64 p) else none) empty,
  )

module _ (st : Store) where
  -- The write, as Handle asks for it.
  abbrev pub write_of : st.Db → ℕ → BusinessActor → RemoteEnvelope → st.Db × Option String
  write_of db now b env =
      st.execute_batch db BatchMode.unlogged_batch
        (event_statement (record b { last_active = now }) now env (be_uint64 env.payload) ∷ [])

  abbrev pub Replied : ℕ → Option ℕ → Response → Type 0
  Replied status balance r = (r.status ≡ status) × (reported r.body ≡ balance)

  -- What follows the write, by its error.
  abbrev pub Settled : ℕ → ExecuteRequest → BusinessActor → Option String → Handled st.Db → Type 0
  Settled req_id req b failure h =
      ((failure ≡ none)
        × Replied 200 (some h.actor.balance) (execute_response req_id req h.result)
        × (signed64 h.actor.balance ≡ signed64 b.balance +ℤ signed64 req.amount))
      ⊎ ((e : String) × (failure ≡ some e)
          × Replied 500 none (execute_response req_id req h.result)
          × (h.actor.balance ≡ b.balance))

  applied-balance :
      (b : BusinessActor) (env : RemoteEnvelope) (amount : ℕ)
      → (applied b env amount).balance ≡ add64 b.balance amount
  unfolding applied add_tx_id
  applied-balance b env amount = ground arith

  settle-Settled :
      (req_id : ℕ) (req : ExecuteRequest) (b : BusinessActor) (w : st.Db × Option String)
      → signed64 (add64 b.balance req.amount) ≡ signed64 b.balance +ℤ signed64 req.amount
      → Settled req_id req b w.1 (settle st b (execute_envelope req_id req) req.amount w)
  unfolding settle committed map_error_to_http_status
  settle-Settled req_id req b (db, some e) sum =
      inr (e, refl, failed_response req_id req _ 500 refl refl refl, refl)
  settle-Settled req_id req b (db, none) sum =
      let (status, balance) =
        paid_response req_id req (committed st db (applied b env req.amount) env).result
          (add64 b.balance req.amount) (omega arith) refl
          (ap encode_int64 (applied-balance b env req.amount)) in
      inl (refl, (status, balance ∙ ap some (sym new_balance)), ap signed64 new_balance ∙ sum)
    where
      env : RemoteEnvelope
      env = execute_envelope req_id req

      new_balance :
          (settle st b env req.amount (db, none)).actor.balance ≡ add64 b.balance req.amount
      new_balance = balance_settled st db b env req.amount

  written-Settled :
      (db : st.Db) (now req_id : ℕ) (req : ExecuteRequest) (b : BusinessActor)
      → req.amount < u64_mod
      → signed64 (add64 b.balance req.amount) ≡ signed64 b.balance +ℤ signed64 req.amount
      → let env = execute_envelope req_id req in
        let b' = record b { last_active = now } in
        Settled req_id req b
          (write_of db now b env).1
          (write_event st db now b' env (be_uint64 env.payload))
  unfolding write_event
  written-Settled db now req_id req b small sum =
      subst
        (λ (amount : ℕ).
          let w = st.execute_batch db BatchMode.unlogged_batch (
            event_statement (record b { last_active = now }) now (execute_envelope req_id req)
              amount
            ∷ []) in
          Settled req_id req b w.1
            (settle st (record b { last_active = now }) (execute_envelope req_id req) amount w))
        (sym (be_uint64-encode_int64 req.amount small))
        (settle-Settled req_id req (record b { last_active = now }) _ sum)

  -- How the wallet decides a message, by whether it can pay.
  abbrev Decided : Type 0 → st.Db → ℕ → BusinessActor → RemoteEnvelope → Type 0
  Decided payable db now b env =
      let h = handle st db now b env in
      (payable
        × (h ≡ write_event st db now (record b { last_active = now }) env (be_uint64 env.payload)))
      ⊎ ((¬ payable)
          × (h.db ≡ db)
          × (h.actor.balance ≡ b.balance)
          × (h.result.success ≡ false)
          × (h.result.error_code ≡ err_insufficient_funds)
          × (h.result.payload ≡ []))

  request-Decided :
      (db : st.Db) (now req_id : ℕ) (req : ExecuteRequest) (b : BusinessActor)
      → b.balance < i64_bound
      → req.amount < u64_mod
      → is_some (lookup (show_u64 req_id) b.tx_cache) ≡ false
      → Decided
          (IsPayable st (signed64 b.balance +ℤ signed64 req.amount))
          db
          now
          b
          (execute_envelope req_id req)
  request-Decided db now req_id req b rich small new =
      let env = execute_envelope req_id req in
      let (whole, bytes) = whole_payload req.amount in
      subst
        (λ (amount : ℕ).
          Decided (IsPayable st (signed64 b.balance +ℤ signed64 amount)) db now b env)
        (be_uint64-encode_int64 req.amount small)
        (handle_decides st db now b env rich bytes new whole)

  -- For a wallet whose balance is not negative, a request with a positive uid and an amount of 64 bits,
  -- and a request id of 64 bits that is not zero and whose text the wallet does not cache: the envelope passes the node's
  -- guards; and if the exact sum of balance and amount is a balance, neither negative nor beyond int64,
  -- then either the event is written, and the gateway replies 200 with the wallet's new balance, which
  -- is that sum, or the write fails, and the gateway replies 500 without a balance and the wallet's
  -- stays; otherwise the gateway replies 400 without a balance, and the tables and the wallet's balance
  -- stay as they were.
  pub execute_pays :
      (db : st.Db) (now req_id : ℕ) (req : ExecuteRequest) (b : BusinessActor)
      → b.balance < i64_bound
      → req.amount < u64_mod
      → not_positive req.uid ≡ false
      → req_id < u64_mod
      → req_id ≢ 0
      → is_some (lookup (show_u64 req_id) b.tx_cache) ≡ false
      → let env = execute_envelope req_id req in
        let h = handle st db now b env in
        let r = execute_response req_id req h.result in
        let sum = signed64 b.balance +ℤ signed64 req.amount in
        (is_bad_request env ≡ false)
        × ((IsPayable st sum × Settled req_id req b (write_of db now b env).1 h)
            ⊎ ((¬ IsPayable st sum)
                × (h.db ≡ db)
                × (h.actor.balance ≡ b.balance)
                × (r.status ≡ 400)
                × (reported r.body ≡ none)))
  execute_pays db now req_id req b rich small paid low some_id new = (
    passes_guards req_id req low some_id paid,
    elim (request-Decided db now req_id req b rich small new) [
      | inl (payable, wrote) ↦ inl (
        payable,
        subst (Settled req_id req b (write_of db now b env).1) (sym wrote)
            (written-Settled db now req_id req b small (sum payable)),
      )
      | inr (poor, same_db, same_balance, failed, code, empty) ↦
          let (status, balance) =
            failed_response req_id req (handle st db now b env).result 400 failed empty
              (invalid code) in
          inr (poor, same_db, same_balance, status, balance)
    ],
  )
    where
      env : RemoteEnvelope
      env = execute_envelope req_id req

      sum :
          IsPayable st (signed64 b.balance +ℤ signed64 req.amount)
          → signed64 (add64 b.balance req.amount) ≡ signed64 b.balance +ℤ signed64 req.amount
      sum payable =
          (signed64-add64 b.balance req.amount rich small
            ((is_neg_iff st b.balance req.amount rich small).1 payable)).1

      invalid :
          (handle st db now b env).result.error_code ≡ err_insufficient_funds
          → map_error_to_http_status (handle st db now b env).result.error_code ≡ 400
      invalid code = unfold map_error_to_http_status in ap map_error_to_http_status code
