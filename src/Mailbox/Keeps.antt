-- ===== src/Mailbox/Keeps.antt =====
-- Each step of a caller or of the loop keeps the order of the queue.
use actor_cluster.Prelude.{
  ℕ, suc, ◌<◌, ◌≤◌, ◌≡◌, ◌≢◌, sym, ◌∙◌, ap, ◌⊎◌, inl, inr, Option, none, some, arith,
}
use actor_cluster.Mailbox.State.{update, link}
use actor_cluster.Mailbox.Threads.{Pc, swapped, linked, System}
use native.Mathlib.Decide.{ℕ_discrete}
use mathlib.Core.Option.{none-ne-some}
use actor_cluster.Mailbox.Order.{flight, Ordered}

pub update_at {ℓ} : {A : Type ℓ} (f : ℕ → A) (i j : ℕ) (v : A) → i ≡ j → update f i v j ≡ v
update_at f i j v h = ground (arith, h)

pub update_other {ℓ} : {A : Type ℓ} (f : ℕ → A) (i j : ℕ) (v : A) → i ≢ j → update f i v j ≡ f j
update_other f i j v h = ground (arith, h)

-- Where a flight comes from once caller i has moved to x.
pub flight-update_cases :
    (pc : ℕ → Pc) (i : ℕ) (x : Pc) (j : ℕ) (q : ℕ × ℕ)
    → flight (update pc i x j) ≡ some q
    → ((i ≡ j) × (flight x ≡ some q)) ⊎ ((i ≢ j) × (flight (pc j) ≡ some q))
flight-update_cases pc i x j q f = elim (ℕ_discrete i j) [
  | yes same ↦ inl (same, ap flight (sym (update_at pc i j x same)) ∙ f)
  | no other ↦ inr (other, ap flight (sym (update_other pc i j x other)) ∙ f)
]

pub same_pair :
    (a b p n : ℕ) → ◌≡◌ {A = Option (ℕ × ℕ)} (some (a, b)) (some (p, n)) → (a ≡ p) × (b ≡ n)
same_pair a b p n e = (ap first e, ap second e)
  where
    first : Option (ℕ × ℕ) → ℕ
    first none = a
    first (some q) = q.0

    second : Option (ℕ × ℕ) → ℕ
    second none = b
    second (some q) = q.1

pub store_next-Ordered :
    (s : System) (i prev node : ℕ)
    → s.pc i ≡ swapped prev node
    → Ordered s
    → Ordered (record s { pc = update s.pc i linked; actor = link prev node s.actor })
unfolding link
store_next-Ordered s i prev node at_i o = record {
  fresh_tail = o.fresh_tail;
  tail_sent = o.tail_sent;
  head_tail = o.head_tail;
  count_head = o.count_head;
  hand_head = o.hand_head;
  prefix = o.prefix;
  stored = o.stored;
  last =
      update_other s.actor.next prev s.actor.tail (some node) (λ e. omega (arith, e, mine.2))
      ∙ o.last;
  chain = λ k low high. elim (ℕ_discrete prev k) [
    | yes here ↦
        inl (update_at s.actor.next prev k (some node) here ∙ ap some (omega (arith, mine.0, here)))
    | no other ↦ elim (o.chain k low high) [
      | inl set_already ↦ inl (update_other s.actor.next prev k (some node) other ∙ set_already)
      | inr (j, f) ↦
          inr (j, ap flight (update_other s.pc i j linked (not_at j k (suc k) f other)) ∙ f)
    ]
  ];
  flying = λ j p n f. elim (flight-update_cases s.pc i linked j (p, n) f) [
    | inl (at_i', e) ↦ absurd (none-ne-some _ e)
    | inr (other, e) ↦
        let (en, low, high, free) = o.flying j p n e in
        (
          en,
          low,
          high,
          update_other s.actor.next prev p (some node) (elsewhere j p n e other) ∙ free,
        )
  ];
  alone = λ j k p n m f g. elim (flight-update_cases s.pc i linked j (p, n) f) [
    | inl (at_j, e) ↦ absurd (none-ne-some _ e)
    | inr (other, e) ↦ elim (flight-update_cases s.pc i linked k (p, m) g) [
      | inl (at_k, e') ↦ absurd (none-ne-some _ e')
      | inr (other', e') ↦ o.alone j k p n m e e'
    ]
  ];
}
  where
    mine :
        (node ≡ suc prev)
        × (s.actor.head ≤ prev)
        × (prev < s.actor.tail)
        × (s.actor.next prev ≡ none)
    mine = o.flying i prev node (ap flight at_i)

    not_at : (j k n : ℕ) → flight (s.pc j) ≡ some (k, n) → prev ≢ k → i ≢ j
    not_at j k n f other e =
        other
          (same_pair prev node k n (sym (ap flight at_i) ∙ ap (λ (x : ℕ). flight (s.pc x)) e ∙ f)).0

    elsewhere : (j p n : ℕ) → flight (s.pc j) ≡ some (p, n) → i ≢ j → prev ≢ p
    elsewhere j p n f other e =
        other (o.alone i j p node n (ap flight at_i ∙ ap (λ (x : ℕ). some (x, node)) e) f)
