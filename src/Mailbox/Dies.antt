-- ===== src/Mailbox/Dies.antt =====
-- After a Stop the loop ends: what the waits for IsDead, in the node's Stop and in its evictions, rely
-- on.
use actor_cluster.Prelude.{
  ℕ, ◌+◌, ◌*◌, ◌≤◌, ◌<◌, ◌≡◌, refl, sym, ◌∙◌, ap, ◌⊎◌, inl, inr, Bool, true, false, Option, none,
  some, arith, [], ◌∷◌,
}
use mathlib.Core.Bool.{false≢true}
use actor_cluster.Prelude.Tests.{Option-cases}
use actor_cluster.Prelude.Lists.{length, nth-lt, length-append}
use actor_cluster.Message.{RemoteEnvelope}
use actor_cluster.Mailbox.State.{
  Status, status_stopping, status_dead, is_alive, Actor, count_up, swap_tail, link, signal,
  put_envelope, dequeue, clear_msg,
}
use actor_cluster.Mailbox.Threads.{
  linked, Phase, unstarted, polling, found_none, parked, handling, returned, System, Step, check,
  count, swap, store_next, wake_up, stop_cas, start_loop, poll, handle_one, leave, park, unpark,
  cancelled, Reach, then_step, after_dequeue,
}
use actor_cluster.Mailbox.Order.{in_hand, held}
use actor_cluster.Mailbox.Fifo.{Reach-Ordered, dequeue_empty, dequeue_linked}
use actor_cluster.Mailbox.Wake.{no_lost_wake_up}

-- Any steps of any threads, the first ones first.
pub data Run (s : System) : System → Type 0 where
  here : Run s s
  further : {t u : System} → Run s t → Step t u → Run s u

-- Whether a step is one of the loop.
abbrev pub loop_turn : {s t : System} → Step s t → ℕ
loop_turn (check i env at alive) = 0
loop_turn (count i env at) = 0
loop_turn (swap i env at) = 0
loop_turn (store_next i prev node at) = 0
loop_turn (wake_up i at) = 0
loop_turn (stop_cas i at alive) = 0
loop_turn _ = 1

abbrev pub loop_turns : {s t : System} → Run s t → ℕ
loop_turns here = 0
loop_turns (further r st) = loop_turns r + loop_turn st

Reach-Run : {s t : System} → Reach s → Run s t → Reach t
Reach-Run r here = r
Reach-Run r (further run st) = then_step (Reach-Run r run) st

-- How far a loop that has been told to stop has come, within one message.
abbrev weight : Phase → ℕ
weight unstarted = 0
weight parked = 0
weight polling = 1
weight (handling n) = 2
weight found_none = 2
weight returned = 3

abbrev progress : System → ℕ
progress s = 2 * length s.handled + weight s.phase

abbrev is_going : Phase → Bool
is_going unstarted = false
is_going returned = false
is_going _ = true

-- The loop has been told to stop and goes on, or it has returned.
abbrev Winding : Phase → Status → Type 0
Winding p st =
    ((is_going p ≡ true) × (st ≡ status_stopping)) ⊎ ((p ≡ returned) × (st ≡ status_dead))

dequeue-status : (a : Actor) → (dequeue a).0.status ≡ a.status
unfolding put_envelope
dequeue-status a = elim (Option-cases (a.next a.head)) [
  | inl e ↦ rw (dequeue_empty a e) refl
  | inr (n, e) ↦ rw (dequeue_linked a n e) refl
]

after_dequeue-weight :
    (o : Option ℕ) → (weight (after_dequeue o) ≡ 2) × (is_going (after_dequeue o) ≡ true)
after_dequeue-weight none = (refl, refl)
after_dequeue-weight (some n) = (refl, refl)

Winding-not_alive : (p : Phase) (st : Status) → Winding p st → is_alive st ≡ false
Winding-not_alive p st (inl (_, stopping)) = ap is_alive stopping
Winding-not_alive p st (inr (_, dead)) = ap is_alive dead

Winding-stopping :
    (p : Phase) (st : Status) → is_going p ≡ true → Winding p st → st ≡ status_stopping
Winding-stopping p st going (inl (_, stopping)) = stopping
Winding-stopping p st going (inr (at, _)) = absurd (false≢true (sym (ap is_going at) ∙ going))

-- A step keeps the end in sight, and one of the loop comes closer to it.
Nearer : (s t : System) → ℕ → Type 0
Nearer s t n = Winding t.phase t.actor.status × (progress s + n ≤ progress t)

Step-Nearer :
    {s t : System} (st : Step s t) → Winding s.phase s.actor.status → Nearer s t (loop_turn st)
unfolding Nearer
Step-Nearer {s} (check i env at alive) w =
    absurd (false≢true (sym (Winding-not_alive _ _ w) ∙ alive))
Step-Nearer {s} (count i env at) w = unfold count_up in (w, omega arith)
Step-Nearer {s} (swap i env at) w = unfold swap_tail in (w, omega arith)
Step-Nearer {s} (store_next i prev node at) w = unfold link in (w, omega arith)
Step-Nearer {s} (wake_up i at) w = unfold signal in (w, omega arith)
Step-Nearer {s} (stop_cas i at alive) w =
    absurd (false≢true (sym (Winding-not_alive _ _ w) ∙ alive))
Step-Nearer {s} (start_loop at ready) w =
    absurd (false≢true (sym (Winding-not_alive _ _ w) ∙ ap is_alive ready))
Step-Nearer {s} (poll at) w =
    let (heavy, going) = after_dequeue-weight (dequeue s.actor).1 in
    (
      inl (going, dequeue-status s.actor ∙ Winding-stopping _ _ (ap is_going at) w),
      omega (arith, heavy, ap weight at),
    )
Step-Nearer {s} (handle_one n env at message) w =
    unfold clear_msg in
    (
      inl (refl, Winding-stopping _ _ (ap is_going at) w),
      omega (arith, ap weight at, length-append s.handled (env ∷ [])),
    )
Step-Nearer {s} (leave at stopping) w = (inr (refl, refl), omega (arith, ap weight at))
Step-Nearer {s} (park at going) w = absurd (going (Winding-stopping _ _ (ap is_going at) w))
Step-Nearer {s} (unpark at woken) w =
    (inl (refl, Winding-stopping _ _ (ap is_going at) w), omega (arith, ap weight at))
Step-Nearer {s} (cancelled at) w = (inr (refl, refl), omega (arith, ap weight at))

Run-Nearer :
    {s t : System} (r : Run s t) → Winding s.phase s.actor.status → Nearer s t (loop_turns r)
unfolding Nearer
Run-Nearer here w = (w, omega arith)
Run-Nearer (further r st) w =
    let (w', near) = Run-Nearer r w in
    let (w'', nearer) = Step-Nearer st w' in (w'', omega (arith, near, nearer))

weight-le : (p : Phase) → weight p ≤ 3
weight-le unstarted = omega arith
weight-le parked = omega arith
weight-le polling = omega arith
weight-le (handling n) = omega arith
weight-le found_none = omega arith
weight-le returned = omega arith

handled-le : {s : System} → Reach s → length s.handled ≤ length s.sent
handled-le r = let o = Reach-Ordered r in omega (arith, o.count_head, o.head_tail, o.tail_sent)

-- The message of the node in Handle is there.
in_hand-message :
    {s : System} (n : ℕ)
    → Reach s
    → s.phase ≡ handling n
    → (env : RemoteEnvelope) × (s.actor.msg n ≡ some env)
in_hand-message {s} n r at =
    let o = Reach-Ordered r in
    let counted : length s.handled + 1 ≡ s.actor.head =
      omega (arith, o.count_head, ap (λ (p : Phase). held (in_hand p)) at) in
    let room : length s.handled < length s.sent =
      omega (arith, counted, o.head_tail, o.tail_sent) in
    let (env, e) = nth-lt s.sent (length s.handled) room in
    (
      env,
      ap s.actor.msg (omega (arith, o.hand_head n (ap in_hand at), counted))
          ∙ o.stored (length s.handled) (omega arith) room
          ∙ e,
    )

-- The loop can make a step, or it waits for the signal that a caller is about to give.
abbrev pub CanGo : System → Type 0
CanGo s =
    ((t : System) × (st : Step s t) × (loop_turn st ≡ 1))
    ⊎ ((s.phase ≡ parked) × ((i : ℕ) × (s.pc i ≡ linked)))

going-CanGo :
    (s : System) (p : Phase)
    → s.phase ≡ p
    → Reach s
    → is_going p ≡ true
    → s.actor.status ≡ status_stopping
    → CanGo s
going-CanGo s unstarted at r going stopping = absurd (false≢true going)
going-CanGo s returned at r going stopping = absurd (false≢true going)
going-CanGo s polling at r going stopping = inl (_, poll at, refl)
going-CanGo s found_none at r going stopping = inl (_, leave at stopping, refl)
going-CanGo s (handling n) at r going stopping =
    let (env, e) = in_hand-message n r at in inl (_, handle_one n env at e, refl)
going-CanGo s parked at r going stopping = elim (no_lost_wake_up r at (inr stopping)) [
  | inl woken ↦ inl (_, unpark at woken, refl)
  | inr waits ↦ inr (at, waits)
]

-- When an actor has been told to stop while its loop is running, the loop ends, whatever the other
-- threads do: it makes at most three more steps, and two for each message that it has not handled;
-- and as long as the actor is not dead, with its loop returned, the loop can make a step, or waits
-- for the signal that a caller is about to give.
pub stop_kills :
    {s t : System}
    → Reach s
    → is_going s.phase ≡ true
    → s.actor.status ≡ status_stopping
    → (r : Run s t)
    → (loop_turns r + 2 * length s.handled ≤ 2 * length t.sent + 3)
      × (((t.actor.status ≡ status_dead) × (t.phase ≡ returned)) ⊎ CanGo t)
unfolding Nearer
stop_kills {s} {t} reached going stopping r =
    let (w, near) = Run-Nearer r (inl (going, stopping)) in
    (
      omega (arith, near, weight-le t.phase, handled-le (Reach-Run reached r)),
      elim w [
        | inl (going', stopping') ↦
            inr (going-CanGo t t.phase refl (Reach-Run reached r) going' stopping')
        | inr (at, dead) ↦ inl (dead, at)
      ],
    )
