-- ===== src/Mailbox/Loop.antt =====
-- The loop keeps the order of the queue when it takes a message and when it has handled it.
use actor_cluster.Prelude.{
  ℕ, suc, ◌+◌, ◌<◌, ◌≤◌, ◌≡◌, sym, ◌∙◌, ap, inl, inr, List, [], ◌∷◌, ◌++◌, Option, none, some,
  arith,
}
use actor_cluster.Prelude.Lists.{length, take, nth, take-next, length-append}
use actor_cluster.Message.{RemoteEnvelope}
use actor_cluster.Mailbox.State.{update, clear_msg, put_envelope}
use actor_cluster.Mailbox.Threads.{Phase, polling, handling, System}
use mathlib.Core.Option.{none-ne-some}
use actor_cluster.Prelude.Words.{sub64}
use native.Mathlib.Decide.{dec_lt}
use actor_cluster.Mailbox.Order.{in_hand, held, Ordered}
use actor_cluster.Mailbox.Keeps.{update_other}

-- What is linked to the head is the next node.
next_head :
    (s : System) (n : ℕ)
    → Ordered s
    → s.actor.next s.actor.head ≡ some n
    → (n ≡ suc s.actor.head) × (s.actor.head < s.actor.tail)
next_head s n o e = elim (dec_lt s.actor.head s.actor.tail) [
  | yes room ↦ elim (o.chain s.actor.head (omega arith) room) [
    | inl set_already ↦ (some_injective (sym e ∙ set_already), room)
    | inr (i, f) ↦ absurd (none-ne-some _ (sym (o.flying i _ _ f).3 ∙ e))
  ]
  | no full ↦
      let here : s.actor.head ≡ s.actor.tail = omega (arith, o.head_tail) in
      absurd (none-ne-some _ (sym o.last ∙ ap s.actor.next (sym here) ∙ e))
]
  where
    some_injective : ◌≡◌ {A = Option ℕ} (some n) (some (suc s.actor.head)) → n ≡ suc s.actor.head
    some_injective = ap (λ (x : Option ℕ). elim x [ none ↦ n | some k ↦ k ])

pub dequeued-Ordered :
    (s : System) (n : ℕ)
    → in_hand s.phase ≡ none
    → s.actor.next s.actor.head ≡ some n
    → Ordered s
    → Ordered (record s {
      phase = handling n;
      actor =
          put_envelope s.actor.head
            (record s.actor { head = n; pending = sub64 s.actor.pending 1 });
    })
unfolding put_envelope
dequeued-Ordered s n free e o = record {
  fresh_tail = o.fresh_tail;
  tail_sent = o.tail_sent;
  head_tail = omega (arith, is_next.0, is_next.1);
  count_head = omega (arith, is_next.0, counted_all);
  hand_head = λ m h. sym (in_some m h);
  prefix = o.prefix;
  stored = λ k low high.
      update_other s.actor.msg s.actor.head (suc k) none (λ h. omega (arith, h, low, counted_all))
      ∙ o.stored k low high;
  last = unchanged s.actor.tail is_next.1 ∙ o.last;
  chain = λ k low high. elim (o.chain k (omega (arith, low, is_next.0)) high) [
    | inl set_already ↦ inl (unchanged k (omega (arith, low, is_next.0)) ∙ set_already)
    | inr f ↦ inr f
  ];
  flying = λ i p m f.
      let (em, low, high, open_end) = o.flying i p m f in
      let past = above p low open_end in
      (em, omega (arith, is_next.0, past), high, unchanged p past ∙ open_end);
  alone = o.alone;
}
  where
    is_next : (n ≡ suc s.actor.head) × (s.actor.head < s.actor.tail)
    is_next = next_head s n o e

    counted_all : length s.handled ≡ s.actor.head
    counted_all = omega (arith, o.count_head, ap held free)

    in_some : (m : ℕ) → ◌≡◌ {A = Option ℕ} (some n) (some m) → n ≡ m
    in_some m = ap (λ (x : Option ℕ). elim x [ none ↦ n | some k ↦ k ])

    unchanged :
        (k : ℕ) → s.actor.head < k → update s.actor.next s.actor.head none k ≡ s.actor.next k
    unchanged k h = update_other s.actor.next s.actor.head k none (λ x. omega (arith, x, h))

    above : (p : ℕ) → s.actor.head ≤ p → s.actor.next p ≡ none → s.actor.head < p
    above p low open_end = elim (dec_lt s.actor.head p) [
      | yes h ↦ h
      | no h ↦
          let here : p ≡ s.actor.head = omega (arith, h, low) in
          absurd (none-ne-some _ (sym open_end ∙ ap s.actor.next here ∙ e))
    ]

pub handle_one-Ordered :
    (s : System) (n : ℕ) (env : RemoteEnvelope)
    → s.phase ≡ handling n
    → s.actor.msg n ≡ some env
    → Ordered s
    → Ordered
        (record s { phase = polling; actor = clear_msg n s.actor; handled = s.handled ++ env ∷ [] })
unfolding clear_msg
handle_one-Ordered s n env at_n message o = record {
  fresh_tail = o.fresh_tail;
  tail_sent = o.tail_sent;
  head_tail = o.head_tail;
  count_head = at_head;
  hand_head = λ m h. absurd (none-ne-some _ h);
  prefix =
      ap (λ (es : List RemoteEnvelope). es ++ env ∷ []) o.prefix
      ∙ sym (take-next s.sent (length s.handled) env (sym the_message ∙ message_here))
      ∙ ap (λ (k : ℕ). take k s.sent) (sym one_more);
  stored = λ k low high.
      update_other s.actor.msg n (suc k) none (λ h. omega (arith, h, low, one_more, here))
      ∙ o.stored k (omega (arith, low, one_more)) high;
  last = o.last;
  chain = o.chain;
  flying = o.flying;
  alone = o.alone;
}
  where
    here : n ≡ suc (length s.handled)
    here = omega (
      arith,
      o.hand_head n (ap in_hand at_n),
      o.count_head,
      ap (λ (p : Phase). held (in_hand p)) at_n,
    )

    one_more : length (s.handled ++ env ∷ []) ≡ suc (length s.handled)
    one_more = omega (arith, length-append s.handled (env ∷ []))

    at_head : length (s.handled ++ env ∷ []) + 0 ≡ s.actor.head
    at_head = omega (arith, one_more, here, o.hand_head n (ap in_hand at_n))

    the_message : s.actor.msg (suc (length s.handled)) ≡ nth s.sent (length s.handled)
    the_message =
        o.stored (length s.handled) (omega arith)
          (omega (arith, here, o.hand_head n (ap in_hand at_n), o.head_tail, o.tail_sent))

    message_here : s.actor.msg (suc (length s.handled)) ≡ some env
    message_here = ap s.actor.msg (sym here) ∙ message
