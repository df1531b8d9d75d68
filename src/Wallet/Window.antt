-- ===== src/Wallet/Window.antt =====
-- A transaction id is remembered over the next 999 messages, whatever they are.
use actor_cluster.Prelude.{
  ℕ, ◌+◌, ◌-◌, ◌%◌, ◌<◌, ◌≤◌, ◌≡◌, ◌≢◌, refl, sym, ◌∙◌, ◌⊎◌, inl, inr, String, true, false, List,
  [], ◌∷◌, Option, none, some, arith,
}
use actor_cluster.Prelude.Tests.{nat_beq, string_eq}
use actor_cluster.Prelude.Lists.{length}
use actor_cluster.Message.{RemoteEnvelope}
use actor_cluster.Persistence.{Store}
use actor_cluster.Wallet.State.{BusinessActor, tx_cache_size, add_tx_id, be_uint64}
use actor_cluster.Wallet.Ops.{applied, committed, settle, write_event, handle}
use actor_cluster.Wallet.Cases.{handle_cases, handle_seen}
use actor_cluster.Wallet.Ring.{
  slot, is_cached, RingOk, slot-add_tx_id, add_tx_id-RingOk, SameRing, RingOk-same,
}

-- The id went into the ring `age` steps ago.
record Recent (tx : String) (age : ℕ) (b : BusinessActor) : Type 0 where
  ring : RingOk b
  started : 0 < age
  kept : age ≤ tx_cache_size
  here : slot b ((b.tx_cursor + tx_cache_size - age) % tx_cache_size) ≡ tx

Recent-is_cached :
    (tx : String) (age : ℕ) (b : BusinessActor) → tx ≢ "" → Recent tx age b → is_cached tx b ≡ true
Recent-is_cached tx age b full r = rw r.here at (
    r.ring.cached ((b.tx_cursor + tx_cache_size - age) % tx_cache_size)
      (λ e. full (sym r.here ∙ e)))

cursor-add_tx_id :
    (tx : String) (b : BusinessActor)
    → (add_tx_id tx b).tx_cursor ≡ (b.tx_cursor + 1) % tx_cache_size
unfolding add_tx_id
cursor-add_tx_id tx b = refl

-- A new id has age 1.
Recent-new :
    (tx : String) (b : BusinessActor)
    → is_cached tx b ≡ false
    → RingOk b
    → Recent tx 1 (add_tx_id tx b)
Recent-new tx b new ok = record {
  ring = add_tx_id-RingOk tx b new ok;
  started = omega arith;
  kept = omega arith;
  here = rw (slot-add_tx_id tx b _ ok, at_cursor) refl;
}
  where
    at_cursor :
        nat_beq b.tx_cursor (((add_tx_id tx b).tx_cursor + tx_cache_size - 1) % tx_cache_size)
        ≡ true
    at_cursor = ground (arith, cursor-add_tx_id tx b, ok.in_range)

-- Each other id that comes in makes the first one older by one.
Recent-older :
    (tx other : String) (age : ℕ) (b : BusinessActor)
    → is_cached other b ≡ false
    → age < tx_cache_size
    → Recent tx age b
    → Recent tx (age + 1) (add_tx_id other b)
Recent-older tx other age b new young r = record {
  ring = add_tx_id-RingOk other b new r.ring;
  started = omega arith;
  kept = omega arith;
  here = rw (moved, slot-add_tx_id other b _ r.ring, elsewhere) r.here;
}
  where
    moved :
        ((add_tx_id other b).tx_cursor + tx_cache_size - (age + 1)) % tx_cache_size
        ≡ (b.tx_cursor + tx_cache_size - age) % tx_cache_size
    moved = omega (arith, cursor-add_tx_id other b, r.ring.in_range, r.started)

    elsewhere : nat_beq b.tx_cursor ((b.tx_cursor + tx_cache_size - age) % tx_cache_size) ≡ false
    elsewhere = ground (arith, r.ring.in_range, r.started)

Recent-same :
    (tx : String) (age : ℕ) (b b' : BusinessActor)
    → SameRing b b'
    → Recent tx age b
    → Recent tx age b'
Recent-same tx age b b' s r = record {
  ring = RingOk-same b b' s r.ring;
  started = r.started;
  kept = r.kept;
  here = rw (s.ring, s.cursor) r.here;
}

module _ (st : Store) where
  committed-SameRing :
      (db : st.Db) (b : BusinessActor) (env : RemoteEnvelope) (amount : ℕ)
      → SameRing (add_tx_id env.tx_id b) (settle st b env amount (db, none)).actor
  unfolding settle committed applied add_tx_id
  committed-SameRing db b env amount = ground arith

  -- How one message ages an id: not at all, or by one.
  Aged : String → ℕ → BusinessActor → Type 0
  Aged tx age b = Recent tx age b ⊎ Recent tx (age + 1) b

  handle-Aged :
      (tx : String) (age : ℕ) (db : st.Db) (now : ℕ) (b : BusinessActor) (env : RemoteEnvelope)
      → age < tx_cache_size
      → Recent tx age b
      → Aged tx age (handle st db now b env).actor
  unfolding Aged
  handle-Aged tx age db now b env young r =
      handle_cases st (λ h. Recent tx age h.actor ⊎ Recent tx (age + 1) h.actor) db now b env
        (λ res _. inl r') (λ new _ _. unfold write_event in settled (st.execute_batch _ _ _) new)
    where
      b' : BusinessActor
      b' = record b { last_active = now }

      r' : Recent tx age b'
      r' = Recent-same tx age b b' (record { ring = refl; cursor = refl; cache = refl }) r

      settled :
          (w : st.Db × Option String)
          → is_cached env.tx_id b' ≡ false
          → let h = settle st b' env (be_uint64 env.payload) w in
            Recent tx age h.actor ⊎ Recent tx (age + 1) h.actor
      settled (db', some m) new = unfold settle in inl r'
      settled (db', none) new = inr (
          Recent-same tx (age + 1) (add_tx_id env.tx_id b') _
            (committed-SameRing db' b' env (be_uint64 env.payload))
            (Recent-older tx env.tx_id age b' new young r'))

  -- The messages of one mailbox, one after another, each with the time at which it is handled.
  unfoldable pub handle_all :
      st.Db → BusinessActor → List (ℕ × RemoteEnvelope) → st.Db × BusinessActor
  handle_all db b [] = (db, b)
  handle_all db b ((now, env) ∷ rest) =
      let h = handle st db now b env in handle_all h.db h.actor rest

  handle_all-is_cached :
      (tx : String) (age : ℕ) (db : st.Db) (b : BusinessActor) (later : List (ℕ × RemoteEnvelope))
      → tx ≢ ""
      → age + length later ≤ tx_cache_size
      → Recent tx age b
      → is_cached tx (handle_all db b later).1 ≡ true
  unfolding handle_all Aged
  handle_all-is_cached tx age db b [] full room r = Recent-is_cached tx age b full r
  handle_all-is_cached tx age db b ((now, env) ∷ rest) full room r =
      let h = handle st db now b env in
      elim (handle-Aged tx age db now b env (omega arith) r) [
        | inl same ↦ handle_all-is_cached tx age h.db h.actor rest full (omega arith) same
        | inr older ↦ handle_all-is_cached tx (age + 1) h.db h.actor rest full (omega arith) older
      ]

  handle-new :
      (db : st.Db) (now : ℕ) (b : BusinessActor) (env : RemoteEnvelope)
      → RingOk b
      → (handle st db now b env).result.payload ≢ []
      → Recent env.tx_id 1 (handle st db now b env).actor
  handle-new db now b env ok paid =
      handle_cases st (λ h. h.result.payload ≢ [] → Recent env.tx_id 1 h.actor) db now b env
        (λ res none_paid p. absurd (p none_paid))
        (λ new _ _. unfold write_event in settled (st.execute_batch _ _ _) new) paid
    where
      b' : BusinessActor
      b' = record b { last_active = now }

      settled :
          (w : st.Db × Option String)
          → is_cached env.tx_id b' ≡ false
          → (settle st b' env (be_uint64 env.payload) w).result.payload ≢ []
          → Recent env.tx_id 1 (settle st b' env (be_uint64 env.payload) w).actor
      settled (db', some m) new paid = absurd (unfold settle in paid refl)
      settled (db', none) new paid =
          Recent-same env.tx_id 1 (add_tx_id env.tx_id b') _
            (committed-SameRing db' b' env (be_uint64 env.payload))
            (Recent-new env.tx_id b' new
              (RingOk-same b b' (record { ring = refl; cursor = refl; cache = refl }) ok))

  -- Once a transaction whose id is not empty has been applied, by an actor whose ring is
  -- well-formed, each of the next 999 messages may be anything, and a message that repeats its id
  -- is acknowledged with no balance, writes nothing and leaves the wallet as it was, but for the
  -- time of its last activity.
  pub repeat_is_idempotent :
      (db : st.Db) (now : ℕ) (b : BusinessActor) (env : RemoteEnvelope)
      (later : List (ℕ × RemoteEnvelope)) (now' : ℕ) (again : RemoteEnvelope)
      → RingOk b
      → env.tx_id ≢ ""
      → (handle st db now b env).result.payload ≢ []
      → length later < tx_cache_size
      → again.tx_id ≡ env.tx_id
      → let h = handle st db now b env in
        let (db', b') = handle_all h.db h.actor later in
        let h' = handle st db' now' b' again in
        (h'.db ≡ db')
        × (h'.actor ≡ record b' { last_active = now' })
        × (h'.result.success ≡ true)
        × (h'.result.payload ≡ [])
        × (h'.job ≡ none)
  repeat_is_idempotent db now b env later now' again ok full paid room same =
      let h = handle st db now b env in
      let seen =
        handle_all-is_cached env.tx_id 1 h.db h.actor later full (omega arith)
          (handle-new db now b env ok paid) in
      handle_seen st (handle_all h.db h.actor later).0 now' (handle_all h.db h.actor later).1 again
        (rw same seen)
