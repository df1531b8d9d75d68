-- ===== src/Mailbox/Drain.antt =====
-- Drain yields what the loop left.
use actor_cluster.Prelude.{
  ℕ, zero, suc, ◌+◌, ◌<◌, ◌≤◌, ◌≡◌, refl, sym, ◌∙◌, ap, inl, inr, List, [], ◌∷◌, ◌++◌, Option, none,
  some, arith,
}
use actor_cluster.Prelude.Lists.{length, drop, nth}
use actor_cluster.Message.{RemoteEnvelope}
use actor_cluster.Mailbox.State.{update, Actor, clear_msg, put_envelope}
use actor_cluster.Mailbox.Threads.{Phase, returned, System, Reach}
use mathlib.Core.Option.{none-ne-some}
use actor_cluster.Prelude.Words.{sub64}
use actor_cluster.Mailbox.State.{drain, add_some}
use actor_cluster.Mailbox.Order.{flight, in_hand, held}
use actor_cluster.Mailbox.Keeps.{update_other}
use actor_cluster.Mailbox.Fifo.{Reach-Ordered}
use actor_cluster.Prelude.{◌-◌}
use actor_cluster.Prelude.Lists.{length-drop, nth-drop, take-append-drop}

-- A queue with no link missing that holds the messages es behind its head.
record Queued (a : Actor) (es : List RemoteEnvelope) : Type 0 where
  full : a.head + length es ≡ a.tail
  last : a.next a.tail ≡ none
  chain : (k : ℕ) → a.head ≤ k → k < a.tail → a.next k ≡ some (suc k)
  stored : (k : ℕ) → k < length es → a.msg (a.head + suc k) ≡ nth es k

advanced : Actor → Actor
unfolding put_envelope clear_msg
advanced a =
    let b = clear_msg (suc a.head) a in
    put_envelope a.head (record b { head = suc a.head; pending = sub64 b.pending 1 })

Queued-advanced :
    (a : Actor) (e : RemoteEnvelope) (es : List RemoteEnvelope)
    → Queued a (e ∷ es)
    → Queued (advanced a) es
unfolding advanced put_envelope clear_msg
Queued-advanced a e es q = record {
  full = omega (arith, q.full);
  last = update_other a.next a.head a.tail none (λ h. omega (arith, h, q.full)) ∙ q.last;
  chain = λ k low high.
      update_other a.next a.head k none (λ h. omega (arith, h, low))
      ∙ q.chain k (omega (arith, low)) high;
  stored = λ k h.
      update_other (update a.msg (suc a.head) none) a.head (suc a.head + suc k) none
        (λ x. omega (arith, x))
      ∙ update_other a.msg (suc a.head) (suc a.head + suc k) none (λ x. omega (arith, x))
      ∙ ap a.msg (shift k)
      ∙ q.stored (suc k) (omega (arith, h));
}
  where
    shift : (k : ℕ) → suc a.head + suc k ≡ a.head + suc (suc k)
    shift k = omega arith

drain-Queued :
    (fuel : ℕ) (a : Actor) (es : List RemoteEnvelope)
    → Queued a es
    → length es < fuel
    → (drain fuel a).1 ≡ es
unfolding drain advanced
drain-Queued zero a es q h = elim h [ ]
drain-Queued (suc fuel) a [] q h = rw (ended, drain) refl
  where
    ended : a.next a.head ≡ none
    ended = ap a.next (omega (arith, q.full)) ∙ q.last
drain-Queued (suc fuel) a (e ∷ es) q h =
    rw (linked_on, drain)
      (ap (λ (o : Option RemoteEnvelope). add_some o (drain fuel (advanced a)).1) first
        ∙ ap (λ (r : List RemoteEnvelope). e ∷ r)
            (drain-Queued fuel (advanced a) es (Queued-advanced a e es q) (omega (arith, h))))
  where
    linked_on : a.next a.head ≡ some (suc a.head)
    linked_on = q.chain a.head (omega arith) (omega (arith, q.full))

    first : a.msg (suc a.head) ≡ some e
    first = ap a.msg (omega arith) ∙ q.stored 0 (omega arith)

-- Once the loop has returned and every caller is done, Drain, with more fuel than there are nodes
-- behind the head, yields in their order the messages that were not handled: with those handled,
-- they are all that were swapped in.
pub drain_yields_rest :
    {s : System}
    → Reach s
    → s.phase ≡ returned
    → ((i : ℕ) → flight (s.pc i) ≡ none)
    → (fuel : ℕ) → s.actor.tail < s.actor.head + fuel
    → (s.handled ++ (drain fuel s.actor).1) ≡ s.sent
drain_yields_rest {s} r at still fuel enough =
    let o = Reach-Ordered r in
    let counted_all : length s.handled ≡ s.actor.head =
      omega (arith, o.count_head, ap (λ (p : Phase). held (in_hand p)) at) in
    let size : length (drop (length s.handled) s.sent) ≡ length s.sent - length s.handled =
      length-drop (length s.handled) s.sent in
    let q : Queued s.actor (drop (length s.handled) s.sent) = record {
      full = omega (arith, size, counted_all, o.head_tail, o.tail_sent);
      last = o.last;
      chain = λ k low high. elim (o.chain k low high) [
        | inl e ↦ e
        | inr (i, f) ↦ absurd (none-ne-some _ (sym (still i) ∙ f))
      ];
      stored = λ k h.
          ap s.actor.msg (shifted s.actor.head k (length s.handled) counted_all)
          ∙ o.stored (length s.handled + k) (omega arith) (omega (arith, h, size))
          ∙ sym (nth-drop s.sent (length s.handled) k);
    } in
    ap (λ (es : List RemoteEnvelope). s.handled ++ es)
      (drain-Queued fuel s.actor _ q
        (omega (arith, enough, size, counted_all, o.tail_sent, o.head_tail)))
    ∙ ap (λ (es : List RemoteEnvelope). es ++ drop (length s.handled) s.sent) o.prefix
    ∙ take-append-drop (length s.handled) s.sent
  where
    shifted : (h k n : ℕ) → n ≡ h → h + suc k ≡ suc (n + k)
    shifted h k n e = omega (arith, e)
