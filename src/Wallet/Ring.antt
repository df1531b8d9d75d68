-- ===== src/Wallet/Ring.antt =====
-- The ring of recent transaction ids and the cache beside it.
use actor_cluster.Prelude.{
  ℕ, ◌+◌, ◌%◌, ◌<◌, ◌≡◌, ◌≢◌, sym, ap, ◌∙◌, ◌⊎◌, inl, inr, String, Bool, true, false, List, arith,
}
use actor_cluster.Prelude.Tests.{nat_beq, string_eq, ◌==◌, eq_iff, Bool-cases, if◌then◌else◌}
use actor_cluster.Prelude.Lists.{length, get_or, set, length-set, get_or-set_self, get_or-set_ne}
use actor_cluster.Prelude.Dict.{lookup, insert, delete, is_some, lookup-insert, lookup-delete}
use actor_cluster.Wallet.State.{BusinessActor, tx_cache_size, add_tx_id, seed_tx_id}

abbrev pub slot : BusinessActor → ℕ → String
slot b i = get_or b.tx_ring i ""

abbrev pub is_cached : String → BusinessActor → Bool
is_cached tx b = is_some (lookup tx b.tx_cache)

-- Every id in the ring is cached, and stands in one slot. An empty slot holds "".
pub record RingOk (b : BusinessActor) : Type 0 where
  pub full_length : length b.tx_ring ≡ tx_cache_size
  pub in_range : b.tx_cursor < tx_cache_size
  pub cached : (i : ℕ) → slot b i ≢ "" → is_cached (slot b i) b ≡ true
  pub one_slot : (i j : ℕ) → slot b i ≢ "" → slot b i ≡ slot b j → i ≡ j

-- What a new id in the slot of the cursor does to the slots.
slot-set :
    (ring : List String) (c : ℕ) (tx : String) (i : ℕ)
    → c < length ring
    → get_or (set ring c tx) i "" ≡ (if nat_beq c i then tx else get_or ring i "")
slot-set ring c tx i h = elim (Bool-cases (nat_beq c i)) [
  | inl e ↦ rw (e, same) (get_or-set_self ring c tx "" h)
  | inr e ↦ rw e (get_or-set_ne ring c i tx "" (ground arith))
]
  where
    same : nat_beq c i ≡ true → i ≡ c
    same e = ground arith

is_cached-add_tx_id :
    (tx k : String) (b : BusinessActor)
    → is_cached k (add_tx_id tx b) ≡ (
        if tx == k
        then true
        else if slot b b.tx_cursor == ""
        then is_cached k b
        else if slot b b.tx_cursor == k
        then false
        else is_cached k b)
unfolding add_tx_id
is_cached-add_tx_id tx k b =
    let old = slot b b.tx_cursor in
    ground (
      arith,
      lookup-insert tx k tt b.tx_cache,
      lookup-insert tx k tt (delete old b.tx_cache),
      lookup-delete old k b.tx_cache,
    )

pub slot-add_tx_id :
    (tx : String) (b : BusinessActor) (i : ℕ)
    → RingOk b
    → slot (add_tx_id tx b) i ≡ (if nat_beq b.tx_cursor i then tx else slot b i)
unfolding add_tx_id
slot-add_tx_id tx b i ok =
    slot-set b.tx_ring b.tx_cursor tx i (omega (arith, ok.full_length, ok.in_range))

-- An id in the ring that is not in the cursor's slot stays cached.
is_cached-add_kept :
    (tx : String) (b : BusinessActor) (i : ℕ)
    → RingOk b
    → slot b i ≢ ""
    → b.tx_cursor ≢ i
    → is_cached (slot b i) (add_tx_id tx b) ≡ true
is_cached-add_kept tx b i ok full ne = ground (
  arith,
  is_cached-add_tx_id tx (slot b i) b,
  ok.cached i full,
  eq_iff (slot b b.tx_cursor) (slot b i),
  eq_iff (slot b b.tx_cursor) "",
  λ (f : slot b b.tx_cursor ≢ ""). ok.one_slot b.tx_cursor i f,
)

-- A new id in the cursor's slot keeps the ring, if the other slots' ids stay cached.
RingOk-write :
    (tx : String) (b b' : BusinessActor)
    → RingOk b
    → is_cached tx b ≡ false
    → ((i : ℕ) → slot b' i ≡ (if nat_beq b.tx_cursor i then tx else slot b i))
    → is_cached tx b' ≡ true
    → ((i : ℕ) → slot b i ≢ "" → b.tx_cursor ≢ i → is_cached (slot b i) b' ≡ true)
    → length b'.tx_ring ≡ length b.tx_ring
    → b'.tx_cursor < tx_cache_size
    → RingOk b'
RingOk-write tx b b' ok new slots own others len range = record {
  full_length = len ∙ ok.full_length;
  in_range = range;
  cached = λ i full. cached' i (Bool-cases (nat_beq b.tx_cursor i)) full;
  one_slot = λ i j full same.
      one' i j (Bool-cases (nat_beq b.tx_cursor i)) (Bool-cases (nat_beq b.tx_cursor j)) full same;
}
  where
    cached' :
        (i : ℕ)
        → (nat_beq b.tx_cursor i ≡ true) ⊎ (nat_beq b.tx_cursor i ≡ false)
        → slot b' i ≢ ""
        → is_cached (slot b' i) b' ≡ true
    cached' i (inl e) full = rw (slots i, e) own
    cached' i (inr e) full = rw (slots i, e) (others i (rw (slots i, e) at full) (ground arith))

    not_old : (i : ℕ) → slot b i ≢ "" → tx ≢ slot b i
    not_old i full p = cc (ok.cached i full, ap (λ (x : String). is_cached x b) p, new)

    one' :
        (i j : ℕ)
        → (nat_beq b.tx_cursor i ≡ true) ⊎ (nat_beq b.tx_cursor i ≡ false)
        → (nat_beq b.tx_cursor j ≡ true) ⊎ (nat_beq b.tx_cursor j ≡ false)
        → slot b' i ≢ ""
        → slot b' i ≡ slot b' j
        → i ≡ j
    one' i j (inl e) (inl f) full same = ground arith
    one' i j (inr e) (inr f) full same =
        ok.one_slot i j (rw (slots i, e) at full) (rw (slots i, slots j, e, f) at same)
    one' i j (inl e) (inr f) full same =
        let s = rw (slots i, slots j, e, f) at same in
        absurd (not_old j (rw s at (rw (slots i, e) at full)) s)
    one' i j (inr e) (inl f) full same =
        let s = rw (slots i, slots j, e, f) at same in
        absurd (not_old i (rw (slots i, e) at full) (sym s))

pub add_tx_id-RingOk :
    (tx : String) (b : BusinessActor) → is_cached tx b ≡ false → RingOk b → RingOk (add_tx_id tx b)
add_tx_id-RingOk tx b new ok =
    RingOk-write tx b (add_tx_id tx b) ok new (λ i. slot-add_tx_id tx b i ok)
      (ground (arith, is_cached-add_tx_id tx tx b, eq_iff tx tx))
      (λ i full ne. is_cached-add_kept tx b i ok full ne)
      (unfold add_tx_id in length-set b.tx_ring b.tx_cursor tx) (unfold add_tx_id in omega arith)

pub seed_tx_id-RingOk : (tx : String) (b : BusinessActor) → RingOk b → RingOk (seed_tx_id tx b)
unfolding seed_tx_id
seed_tx_id-RingOk tx b ok = elim (Bool-cases (is_cached tx b)) [
  | inl old ↦ rw (old, seed_tx_id) ok
  | inr new ↦
      rw (new, seed_tx_id)
        (RingOk-write tx b
          (record b {
            tx_cache = insert tx tt b.tx_cache;
            tx_ring = set b.tx_ring b.tx_cursor tx;
            tx_cursor = (b.tx_cursor + 1) % tx_cache_size;
          })
          ok new
          (λ i. slot-set b.tx_ring b.tx_cursor tx i (omega (arith, ok.full_length, ok.in_range)))
          (ground (arith, lookup-insert tx tx tt b.tx_cache, eq_iff tx tx))
          (λ i full ne. ground (arith, lookup-insert tx (slot b i) tt b.tx_cache, ok.cached i full))
          (length-set b.tx_ring b.tx_cursor tx) (omega arith))
]

-- Only the ring, its cursor and the cache matter.
pub record SameRing (b b' : BusinessActor) : Type 0 where
  pub ring : b'.tx_ring ≡ b.tx_ring
  pub cursor : b'.tx_cursor ≡ b.tx_cursor
  pub cache : b'.tx_cache ≡ b.tx_cache

pub RingOk-same : (b b' : BusinessActor) → SameRing b b' → RingOk b → RingOk b'
RingOk-same b b' s ok = record {
  full_length = rw s.ring ok.full_length;
  in_range = rw s.cursor ok.in_range;
  cached = rw (s.ring, s.cache) ok.cached;
  one_slot = rw s.ring ok.one_slot;
}

-- When the ring is well-formed and the slot at its cursor is in use, seeding an id that is not
-- cached takes the old id out of the ring and leaves it in the cache: no slot holds it any more.
pub seed_tx_id_leaks :
    (tx : String) (b : BusinessActor)
    → RingOk b
    → slot b b.tx_cursor ≢ ""
    → is_cached tx b ≡ false
    → (is_cached (slot b b.tx_cursor) (seed_tx_id tx b) ≡ true)
      × ((i : ℕ) → slot (seed_tx_id tx b) i ≢ slot b b.tx_cursor)
unfolding seed_tx_id
seed_tx_id_leaks tx b ok full new = (
  ground (arith, new, stays, lookup-insert tx (slot b b.tx_cursor) tt b.tx_cache),
  λ i same. gone i (Bool-cases (nat_beq b.tx_cursor i)) same,
)
  where
    stays : is_cached (slot b b.tx_cursor) b ≡ true
    stays = ok.cached b.tx_cursor full

    at : (i : ℕ) → slot (seed_tx_id tx b) i ≡ (if nat_beq b.tx_cursor i then tx else slot b i)
    at i =
        rw (new, seed_tx_id)
          (slot-set b.tx_ring b.tx_cursor tx i (omega (arith, ok.full_length, ok.in_range)))

    differ : (i : ℕ) → nat_beq b.tx_cursor i ≡ false → b.tx_cursor ≢ i
    differ i e = ground arith

    gone :
        (i : ℕ)
        → (nat_beq b.tx_cursor i ≡ true) ⊎ (nat_beq b.tx_cursor i ≡ false)
        → slot (seed_tx_id tx b) i ≢ slot b b.tx_cursor
    gone i (inl e) same =
        let s : tx ≡ slot b b.tx_cursor = rw (at i, e) at same in
        cc (stays, ap (λ (x : String). is_cached x b) s, new)
    gone i (inr e) same =
        let s : slot b i ≡ slot b b.tx_cursor = rw (at i, e) at same in
        absurd (omega (arith, ok.one_slot b.tx_cursor i full (sym s), differ i e))
