-- ===== src/Mailbox/Swap.antt =====
-- The swap of the tail, by which a message enters the queue.
use actor_cluster.Prelude.{
  ℕ, suc, ◌<◌, ◌≤◌, ◌≡◌, ◌≢◌, refl, sym, ◌∙◌, ap, ◌⊎◌, inl, inr, [], ◌∷◌, ◌++◌, none, some, arith,
}
use actor_cluster.Prelude.Lists.{
  length, nth, nth-append_old, nth-append_new, take-append_le, length-append,
}
use actor_cluster.Message.{RemoteEnvelope}
use actor_cluster.Mailbox.State.{update, swap_tail}
use actor_cluster.Mailbox.Threads.{counted, swapped, System}
use native.Mathlib.Decide.{dec_lt}
use mathlib.Core.Option.{none-ne-some}
use actor_cluster.Mailbox.Order.{flight, Ordered}
use actor_cluster.Mailbox.Keeps.{update_at, update_other, flight-update_cases, same_pair}

module _ (s : System) (i : ℕ) (env : RemoteEnvelope) (at_i : s.pc i ≡ counted env)
    (o : Ordered s) where
  -- Caller i has swapped the tail, and has still to link its node to the one before it.
  abbrev after_swap : System
  after_swap = record s {
    pc = update s.pc i (swapped s.actor.tail s.actor.fresh);
    actor = swap_tail env s.actor;
    sent = s.sent ++ env ∷ [];
  }

  unset : (k : ℕ) → k < s.actor.fresh → update s.actor.next s.actor.fresh none k ≡ s.actor.next k
  unset k h = update_other s.actor.next s.actor.fresh k none (λ e. omega (arith, e, h))

  not_at : (j : ℕ) (q : ℕ × ℕ) → flight (s.pc j) ≡ some q → i ≢ j
  not_at j q f e = none-ne-some _ (sym (ap flight at_i) ∙ ap (λ (k : ℕ). flight (s.pc k)) e ∙ f)

  too_far : (j p n : ℕ) → flight (s.pc j) ≡ some (p, n) → s.actor.tail ≡ p → ⊥
  too_far j p n f e = omega (arith, e, (o.flying j p n f).2)

  swap-stored :
      (k : ℕ)
      → length s.handled ≤ k
      → k < length after_swap.sent
      → after_swap.actor.msg (suc k) ≡ nth after_swap.sent k
  unfolding swap_tail
  swap-stored k low high = elim (dec_lt k (length s.sent)) [
    | yes old ↦
        update_other s.actor.msg s.actor.fresh (suc k) (some env)
          (λ e. omega (arith, e, o.fresh_tail, o.tail_sent, old))
        ∙ o.stored k low old
        ∙ sym (nth-append_old s.sent (env ∷ []) k old)
    | no new ↦
        let here : k ≡ length s.sent = omega (arith, high, length-append s.sent (env ∷ [])) in
        update_at s.actor.msg s.actor.fresh (suc k) (some env)
          (omega (arith, o.fresh_tail, o.tail_sent, here))
        ∙ sym (nth-append_new s.sent env)
        ∙ ap (nth (s.sent ++ env ∷ [])) (sym here)
  ]

  swap-chain :
      (k : ℕ)
      → s.actor.head ≤ k
      → k < after_swap.actor.tail
      → (after_swap.actor.next k ≡ some (suc k))
        ⊎ ((j : ℕ) × (flight (after_swap.pc j) ≡ some (k, suc k)))
  unfolding swap_tail
  swap-chain k low high = elim (dec_lt k s.actor.tail) [
    | yes old ↦ elim (o.chain k low old) [
      | inl set_already ↦ inl (unset k (omega (arith, o.fresh_tail)) ∙ set_already)
      | inr (j, f) ↦ inr (j, ap flight (update_other s.pc i j _ (not_at j _ f)) ∙ f)
    ]
    | no new ↦
        let here : k ≡ s.actor.tail = omega (arith, high, o.fresh_tail) in
        inr (i, ap flight (update_at s.pc i i _ refl) ∙ rw (here, o.fresh_tail) refl)
  ]

  swap-flying :
      (j p n : ℕ)
      → flight (after_swap.pc j) ≡ some (p, n)
      → (n ≡ suc p)
        × (s.actor.head ≤ p)
        × (p < after_swap.actor.tail)
        × (after_swap.actor.next p ≡ none)
  unfolding swap_tail
  swap-flying j p n f = elim (flight-update_cases s.pc i _ j (p, n) f) [
    | inl (at_i', e) ↦
        let (ep, en) = same_pair _ _ p n e in
        (
          omega (arith, ep, en, o.fresh_tail),
          omega (arith, ep, o.head_tail),
          omega (arith, ep, o.fresh_tail),
          unset p (omega (arith, ep, o.fresh_tail)) ∙ ap s.actor.next (sym ep) ∙ o.last,
        )
    | inr (other, e) ↦
        let (en, low, high, free) = o.flying j p n e in
        (
          en,
          low,
          omega (arith, high, o.fresh_tail),
          unset p (omega (arith, high, o.fresh_tail)) ∙ free,
        )
  ]

  swap-alone :
      (j k p n m : ℕ)
      → flight (after_swap.pc j) ≡ some (p, n)
      → flight (after_swap.pc k) ≡ some (p, m)
      → j ≡ k
  swap-alone j k p n m f g = elim (flight-update_cases s.pc i _ j (p, n) f) [
    | inl (at_j, e) ↦ elim (flight-update_cases s.pc i _ k (p, m) g) [
      | inl (at_k, e') ↦ sym at_j ∙ at_k
      | inr (other, e') ↦ absurd (too_far k p m e' (same_pair _ _ p n e).0)
    ]
    | inr (other, e) ↦ elim (flight-update_cases s.pc i _ k (p, m) g) [
      | inl (at_k, e') ↦ absurd (too_far j p n e (same_pair _ _ p m e').0)
      | inr (other', e') ↦ o.alone j k p n m e e'
    ]
  ]

  pub swap-Ordered : Ordered after_swap
  unfolding swap_tail
  swap-Ordered = record {
    fresh_tail = refl;
    tail_sent = omega (arith, o.fresh_tail, o.tail_sent, length-append s.sent (env ∷ []));
    head_tail = omega (arith, o.fresh_tail, o.head_tail);
    count_head = o.count_head;
    hand_head = o.hand_head;
    prefix = o.prefix ∙ sym (take-append_le (length s.handled) s.sent (env ∷ []) short);
    stored = swap-stored;
    last = update_at s.actor.next s.actor.fresh s.actor.fresh none refl;
    chain = swap-chain;
    flying = swap-flying;
    alone = swap-alone;
  }
    where
      short : length s.handled ≤ length s.sent
      short = omega (arith, o.count_head, o.head_tail, o.tail_sent)
