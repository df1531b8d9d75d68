-- ===== src/Mailbox/Order.antt =====
-- The queue's order, whatever the interleaving: the loop handles the messages as they were swapped in.
use actor_cluster.Prelude.{
  ℕ, suc, ◌+◌, ◌<◌, ◌≤◌, ◌≡◌, refl, sym, ◌∙◌, ap, ◌⊎◌, inl, inr, Option, none, some, arith,
}
use actor_cluster.Prelude.Tests.{nat_beq, Bool-cases}
use actor_cluster.Prelude.Lists.{length, take, nth}
use actor_cluster.Mailbox.State.{update}
use actor_cluster.Mailbox.Threads.{Pc, swapped, Phase, handling, System}

-- The link that a caller of Send has still to store.
abbrev pub flight : Pc → Option (ℕ × ℕ)
flight (swapped prev node) = some (prev, node)
flight _ = none

abbrev pub in_hand : Phase → Option ℕ
in_hand (handling n) = some n
in_hand _ = none

abbrev pub held : Option ℕ → ℕ
held none = 0
held (some _) = 1

-- The nodes from the head on are numbered in the order of their Swap, and each is linked to the
-- one before it, or its sender has still to do that.
pub record Ordered (s : System) : Type 0 where
  pub fresh_tail : s.actor.fresh ≡ suc s.actor.tail
  pub tail_sent : s.actor.tail ≡ length s.sent
  pub head_tail : s.actor.head ≤ s.actor.tail
  pub count_head : length s.handled + held (in_hand s.phase) ≡ s.actor.head
  pub hand_head : (n : ℕ) → in_hand s.phase ≡ some n → n ≡ s.actor.head
  pub prefix : s.handled ≡ take (length s.handled) s.sent
  pub stored :
      (k : ℕ) → length s.handled ≤ k → k < length s.sent → s.actor.msg (suc k) ≡ nth s.sent k
  pub last : s.actor.next s.actor.tail ≡ none
  pub chain :
      (k : ℕ)
      → s.actor.head ≤ k
      → k < s.actor.tail
      → (s.actor.next k ≡ some (suc k)) ⊎ ((i : ℕ) × (flight (s.pc i) ≡ some (k, suc k)))
  pub flying :
      (i p n : ℕ)
      → flight (s.pc i) ≡ some (p, n)
      → (n ≡ suc p) × (s.actor.head ≤ p) × (p < s.actor.tail) × (s.actor.next p ≡ none)
  pub alone :
      (i j p n m : ℕ) → flight (s.pc i) ≡ some (p, n) → flight (s.pc j) ≡ some (p, m) → i ≡ j

pub record SameQueue (s t : System) : Type 0 where
  pub msg : t.actor.msg ≡ s.actor.msg
  pub next : t.actor.next ≡ s.actor.next
  pub fresh : t.actor.fresh ≡ s.actor.fresh
  pub head : t.actor.head ≡ s.actor.head
  pub tail : t.actor.tail ≡ s.actor.tail
  pub sent : t.sent ≡ s.sent
  pub handled : t.handled ≡ s.handled
  pub hand : in_hand t.phase ≡ in_hand s.phase
  pub flights : (i : ℕ) → flight (t.pc i) ≡ flight (s.pc i)

pub Ordered-SameQueue : (s t : System) → SameQueue s t → Ordered s → Ordered t
Ordered-SameQueue s t q o = record {
  fresh_tail = rw (q.fresh, q.tail) o.fresh_tail;
  tail_sent = rw (q.tail, q.sent) o.tail_sent;
  head_tail = rw (q.head, q.tail) o.head_tail;
  count_head = rw (q.handled, q.hand, q.head) o.count_head;
  hand_head = rw (q.hand, q.head) o.hand_head;
  prefix = rw (q.handled, q.sent) o.prefix;
  stored = rw (q.handled, q.sent, q.msg) o.stored;
  last = rw (q.next, q.tail) o.last;
  chain = λ k low high. elim (o.chain k (rw q.head at low) (rw q.tail at high)) [
    | inl next_set ↦ inl (rw q.next next_set)
    | inr (i, f) ↦ inr (i, q.flights i ∙ f)
  ];
  flying = λ i p n f. rw (q.head, q.tail, q.next) (o.flying i p n (sym (q.flights i) ∙ f));
  alone = λ i j p n m f g. o.alone i j p n m (sym (q.flights i) ∙ f) (sym (q.flights j) ∙ g);
}

-- Moving one caller between places with no link to store changes no flight.
pub flight-update :
    (pc : ℕ → Pc) (i : ℕ) (x : Pc)
    → flight x ≡ none
    → flight (pc i) ≡ none
    → (j : ℕ) → flight (update pc i x j) ≡ flight (pc j)
flight-update pc i x fx fi j = elim (Bool-cases (nat_beq i j)) [
  | inl same ↦ rw same (fx ∙ sym fi ∙ ap (λ (k : ℕ). flight (pc k)) (ground (arith, same)))
  | inr other ↦ rw other refl
]
