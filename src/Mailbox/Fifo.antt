-- ===== src/Mailbox/Fifo.antt =====
-- Every step keeps the order of the queue; what this says of the messages.
use actor_cluster.Prelude.{
  ℕ, suc, ◌<◌, ◌≡◌, refl, sym, ◌∙◌, ap, inl, inr, Bool, false, Option, none, some, arith,
}
use actor_cluster.Prelude.Tests.{Option-cases}
use actor_cluster.Prelude.Lists.{length, take, nth}
use actor_cluster.Mailbox.State.{
  Status, status_running, status_stopping, status_dead, update, Actor, start, count_up, signal,
  mark_stopping, dequeue, put_envelope,
}
use actor_cluster.Mailbox.Threads.{
  Pc, idle, checked, counted, linked, Phase, polling, found_none, parked, returned, System, initial,
  Step, check, count, swap, store_next, wake_up, stop_cas, start_loop, poll, handle_one, leave,
  park, unpark, cancelled, Reach, begin, then_step,
}
use mathlib.Core.Option.{none-ne-some}
use actor_cluster.Prelude.Words.{sub64}
use actor_cluster.Mailbox.Threads.{after_dequeue}
use actor_cluster.Mailbox.Order.{
  flight, in_hand, held, Ordered, SameQueue, Ordered-SameQueue, flight-update,
}
use actor_cluster.Mailbox.Keeps.{update_other, store_next-Ordered}
use actor_cluster.Mailbox.Swap.{swap-Ordered}
use actor_cluster.Mailbox.Loop.{dequeued-Ordered, handle_one-Ordered}

initial-Ordered : Ordered initial
initial-Ordered = record {
  fresh_tail = refl;
  tail_sent = refl;
  head_tail = omega arith;
  count_head = refl;
  hand_head = λ n h. absurd (none-ne-some _ h);
  prefix = refl;
  stored = λ k low high. elim high [ ];
  last = refl;
  chain = λ k low high. elim high [ ];
  flying = λ i p n f. absurd (none-ne-some _ f);
  alone = λ i j p n m f g. absurd (none-ne-some _ f);
}

-- A step of a caller that stores no link.
caller-Ordered :
    (s : System) (i : ℕ) (x : Pc) (a : Actor)
    → flight x ≡ none
    → flight (s.pc i) ≡ none
    → SameQueue s (record s { actor = a })
    → Ordered s
    → Ordered (record s { pc = update s.pc i x; actor = a })
caller-Ordered s i x a fx fi q = Ordered-SameQueue s _ (record {
  msg = q.msg;
  next = q.next;
  fresh = q.fresh;
  head = q.head;
  tail = q.tail;
  sent = refl;
  handled = refl;
  hand = refl;
  flights = flight-update s.pc i x fx fi;
})

-- A step of the loop that takes no message.
loop-Ordered :
    (s : System) (p : Phase) (a : Actor)
    → in_hand p ≡ none
    → in_hand s.phase ≡ none
    → SameQueue s (record s { actor = a })
    → Ordered s
    → Ordered (record s { phase = p; actor = a })
loop-Ordered s p a fp fs q = Ordered-SameQueue s _ (record {
  msg = q.msg;
  next = q.next;
  fresh = q.fresh;
  head = q.head;
  tail = q.tail;
  sent = refl;
  handled = refl;
  hand = fp ∙ sym fs;
  flights = λ i. refl;
})

same : (s : System) → SameQueue s s
same s = record {
  msg = refl;
  next = refl;
  fresh = refl;
  head = refl;
  tail = refl;
  sent = refl;
  handled = refl;
  hand = refl;
  flights = λ i. refl;
}

counted-SameQueue : (s : System) → SameQueue s (record s { actor = count_up s.actor })
unfolding count_up
counted-SameQueue s = record {
  msg = refl;
  next = refl;
  fresh = refl;
  head = refl;
  tail = refl;
  sent = refl;
  handled = refl;
  hand = refl;
  flights = λ i. refl;
}

signal-SameQueue : (s : System) → SameQueue s (record s { actor = signal s.actor })
unfolding signal
signal-SameQueue s = record {
  msg = refl;
  next = refl;
  fresh = refl;
  head = refl;
  tail = refl;
  sent = refl;
  handled = refl;
  hand = refl;
  flights = λ i. refl;
}

status-SameQueue :
    (s : System) (st : Status) (w : Bool)
    → SameQueue s (record s { actor = record s.actor { status = st; wake = w } })
status-SameQueue s st w = record {
  msg = refl;
  next = refl;
  fresh = refl;
  head = refl;
  tail = refl;
  sent = refl;
  handled = refl;
  hand = refl;
  flights = λ i. refl;
}

pub dequeue_empty : (a : Actor) → a.next a.head ≡ none → dequeue a ≡ (a, none)
unfolding dequeue
dequeue_empty a e = rw (e, dequeue) refl

pub dequeue_linked :
    (a : Actor) (n : ℕ)
    → a.next a.head ≡ some n
    → dequeue a ≡ (put_envelope a.head (record a { head = n; pending = sub64 a.pending 1 }), some n)
unfolding dequeue
dequeue_linked a n e = rw (e, dequeue) refl

polled-Ordered :
    (s : System)
    → s.phase ≡ polling
    → Ordered s
    → Ordered (record s { phase = after_dequeue (dequeue s.actor).1; actor = (dequeue s.actor).0 })
polled-Ordered s at o = elim (Option-cases (s.actor.next s.actor.head)) [
  | inl e ↦
      rw (dequeue_empty s.actor e)
        (loop-Ordered s found_none s.actor refl (ap in_hand at) (same s) o)
  | inr (n, e) ↦ rw (dequeue_linked s.actor n e) (dequeued-Ordered s n (ap in_hand at) e o)
]

-- Every step of every thread keeps the order of the queue.
pub Step-Ordered : {s t : System} → Step s t → Ordered s → Ordered t
Step-Ordered {s} (check i env at alive) o =
    caller-Ordered s i (checked env) s.actor refl (ap flight at) (same s) o
Step-Ordered {s} (count i env at) o =
    caller-Ordered s i (counted env) (count_up s.actor) refl (ap flight at) (counted-SameQueue s) o
Step-Ordered {s} (swap i env at) o = swap-Ordered s i env at o
Step-Ordered {s} (store_next i prev node at) o = store_next-Ordered s i prev node at o
Step-Ordered {s} (wake_up i at) o =
    caller-Ordered s i idle (signal s.actor) refl (ap flight at) (signal-SameQueue s) o
Step-Ordered {s} (stop_cas i at alive) o =
    unfold mark_stopping in
    rw (alive, mark_stopping)
      (caller-Ordered s i linked (record s.actor { status = status_stopping }) refl (ap flight at)
        (status-SameQueue s status_stopping s.actor.wake) o)
Step-Ordered {s} (start_loop at ready) o =
    unfold start in
    rw (ready, start)
      (loop-Ordered s polling (record s.actor { status = status_running }) refl (ap in_hand at)
        (status-SameQueue s status_running s.actor.wake) o)
Step-Ordered {s} (poll at) o = polled-Ordered s at o
Step-Ordered {s} (handle_one n env at message) o = handle_one-Ordered s n env at message o
Step-Ordered {s} (leave at stopping) o =
    loop-Ordered s returned (record s.actor { status = status_dead }) refl (ap in_hand at)
      (status-SameQueue s status_dead s.actor.wake) o
Step-Ordered {s} (park at going) o = loop-Ordered s parked s.actor refl (ap in_hand at) (same s) o
Step-Ordered {s} (unpark at woken) o =
    loop-Ordered s polling (record s.actor { wake = false }) refl (ap in_hand at)
      (status-SameQueue s s.actor.status false) o
Step-Ordered {s} (cancelled at) o =
    loop-Ordered s returned (record s.actor { status = status_dead }) refl (ap in_hand at)
      (status-SameQueue s status_dead s.actor.wake) o

pub Reach-Ordered : {s : System} → Reach s → Ordered s
Reach-Ordered begin = initial-Ordered
Reach-Ordered (then_step r step) = Step-Ordered step (Reach-Ordered r)

-- First in, first out: whatever the interleaving of the callers of Send and Stop with the loop,
-- the messages handled are the first ones swapped in, each once and in that order.
pub handled_in_order : {s : System} → Reach s → s.handled ≡ take (length s.handled) s.sent
handled_in_order r = (Reach-Ordered r).prefix

-- While no sender stands between its Swap and its link, a dequeue finds a node whenever a message
-- has not been taken yet, and the node holds the next one.
pub dequeue_finds :
    {s : System}
    → Reach s
    → ((i : ℕ) → flight (s.pc i) ≡ none)
    → s.phase ≡ polling
    → length s.handled < length s.sent
    → (n : ℕ) × ((dequeue s.actor).1 ≡ some n)
      × ((dequeue s.actor).0.msg n ≡ nth s.sent (length s.handled))
unfolding put_envelope
dequeue_finds {s} r still at more =
    let o = Reach-Ordered r in
    let here : length s.handled ≡ s.actor.head =
      omega (arith, o.count_head, ap (λ (p : Phase). held (in_hand p)) at) in
    elim (o.chain s.actor.head (omega arith) (omega (arith, here, more, o.tail_sent))) [
      | inl e ↦ (
        suc s.actor.head,
        ap (λ (x : Actor × Option ℕ). x.1) (dequeue_linked s.actor _ e),
        ap (λ (x : Actor × Option ℕ). x.0.msg (suc s.actor.head)) (dequeue_linked s.actor _ e)
            ∙ update_other s.actor.msg s.actor.head (suc s.actor.head) none (λ h. omega (arith, h))
            ∙ ap (λ (k : ℕ). s.actor.msg (suc k)) (sym here)
            ∙ o.stored (length s.handled) (omega arith) more,
      )
      | inr (i, f) ↦ absurd (none-ne-some _ (sym (still i) ∙ f))
    ]
