-- ===== src/Mailbox/Wake.antt =====
-- The loop never sleeps through a message or a Stop.
use actor_cluster.Prelude.{
  ℕ, ◌≡◌, refl, sym, ◌∙◌, ap, ◌⊎◌, inl, inr, Bool, true, false, List, none, arith,
}
use actor_cluster.Prelude.Tests.{Option-cases}
use actor_cluster.Message.{RemoteEnvelope}
use actor_cluster.Mailbox.State.{
  status_stopping, update, Actor, count_up, swap_tail, signal, dequeue,
}
use actor_cluster.Mailbox.Threads.{
  Pc, checked, counted, linked, Phase, found_none, parked, System, Step, check, count, swap,
  store_next, wake_up, stop_cas, start_loop, poll, handle_one, leave, park, unpark, cancelled,
  Reach, begin, then_step,
}
use mathlib.Core.Bool.{false≢true}
use mathlib.Core.Logic.{◌≢◌}
use actor_cluster.Prelude.Dict.{is_some}
use actor_cluster.Mailbox.Threads.{after_dequeue}
use actor_cluster.Mailbox.Order.{Ordered}
use actor_cluster.Mailbox.Keeps.{update_at, update_other}
use actor_cluster.Mailbox.Fifo.{Reach-Ordered, dequeue_empty, dequeue_linked}

-- The loop is past its look at the queue, and will next look at the status or wait.
abbrev pub about_to_sleep : Phase → Bool
about_to_sleep found_none = true
about_to_sleep parked = true
about_to_sleep _ = false

-- The signal is there, or a caller is about to give it.
abbrev pub Signalled : System → Type 0
Signalled s = (s.actor.wake ≡ true) ⊎ ((i : ℕ) × (s.pc i ≡ linked))

-- A linked message or, for a loop in the select, a Stop comes with a signal.
pub record Awake (s : System) : Type 0 where
  pub message :
      about_to_sleep s.phase ≡ true → is_some (s.actor.next s.actor.head) ≡ true → Signalled s
  pub stopped : s.phase ≡ parked → s.actor.status ≡ status_stopping → Signalled s

Awake-Signalled : (s : System) → Signalled s → Awake s
Awake-Signalled s y = record { message = λ _ _. y; stopped = λ _ _. y }

Awake-busy : (s : System) → about_to_sleep s.phase ≡ false → Awake s
Awake-busy s busy = record {
  message = λ sleepy _. absurd (false≢true (sym busy ∙ sleepy));
  stopped = λ at _. absurd (false≢true (sym busy ∙ ap about_to_sleep at));
}

-- A caller that is not about to signal moves.
caller-Awake :
    (s : System) (i : ℕ) (x : Pc) (a : Actor) (es : List RemoteEnvelope)
    → s.pc i ≢ linked
    → a.wake ≡ s.actor.wake
    → a.status ≡ s.actor.status
    → a.next a.head ≡ s.actor.next s.actor.head
    → Awake s
    → Awake (record s { pc = update s.pc i x; actor = a; sent = es })
caller-Awake s i x a es quiet w st nx v = record {
  message = λ sleepy more. kept (v.message sleepy (ap is_some (sym nx) ∙ more));
  stopped = λ at stopping. kept (v.stopped at (sym st ∙ stopping));
}
  where
    kept : Signalled s → Signalled (record s { pc = update s.pc i x; actor = a; sent = es })
    kept (inl there) = inl (w ∙ there)
    kept (inr (j, at)) = inr (j, update_other s.pc i j x (λ e. quiet (ap s.pc e ∙ at)) ∙ at)

abbrev is_linked : Pc → Bool
is_linked linked = true
is_linked _ = false

not_linked : (p : Pc) → is_linked p ≡ false → p ≢ linked
not_linked p h e = false≢true (sym h ∙ ap is_linked e)

swap_head :
    (s : System) (env : RemoteEnvelope)
    → Ordered s
    → (swap_tail env s.actor).next (swap_tail env s.actor).head ≡ s.actor.next s.actor.head
unfolding swap_tail
swap_head s env o =
    update_other s.actor.next s.actor.fresh s.actor.head none
      (λ e. omega (arith, e, o.fresh_tail, o.head_tail))

polled-Awake :
    (s : System)
    → Awake (record s { phase = after_dequeue (dequeue s.actor).1; actor = (dequeue s.actor).0 })
polled-Awake s = elim (Option-cases (s.actor.next s.actor.head)) [
  | inl e ↦ rw (dequeue_empty s.actor e) (record {
    message = λ _ more. absurd (false≢true (ap is_some (sym e) ∙ more));
    stopped = λ at _. absurd (false≢true (ap is_parked at));
  })
  | inr (n, e) ↦ rw (dequeue_linked s.actor n e) (Awake-busy _ refl)
]
  where
    is_parked : Phase → Bool
    is_parked parked = true
    is_parked _ = false

Step-Awake : {s t : System} → Step s t → Ordered s → Awake s → Awake t
Step-Awake {s} (check i env at alive) o v =
    caller-Awake s i (checked env) s.actor s.sent (not_linked _ (ap is_linked at)) refl refl refl v
Step-Awake {s} (count i env at) o v =
    unfold count_up in
    caller-Awake s i (counted env) (count_up s.actor) s.sent (not_linked _ (ap is_linked at)) refl
      refl refl v
Step-Awake {s} (swap i env at) o v =
    caller-Awake s i _ (swap_tail env s.actor) _ (not_linked _ (ap is_linked at))
      (unfold swap_tail in refl) (unfold swap_tail in refl) (swap_head s env o) v
Step-Awake {s} (store_next i prev node at) o v =
    Awake-Signalled _ (inr (i, update_at s.pc i i linked refl))
Step-Awake {s} (wake_up i at) o v = Awake-Signalled _ (inl (unfold signal in refl))
Step-Awake {s} (stop_cas i at alive) o v =
    Awake-Signalled _ (inr (i, update_at s.pc i i linked refl))
Step-Awake {s} (start_loop at ready) o v = Awake-busy _ refl
Step-Awake {s} (poll at) o v = polled-Awake s
Step-Awake {s} (handle_one n env at message) o v = Awake-busy _ refl
Step-Awake {s} (leave at stopping) o v = Awake-busy _ refl
Step-Awake {s} (park at going) o v = record {
  message = λ _. v.message (ap about_to_sleep at);
  stopped = λ _ stopping. absurd (going stopping);
}
Step-Awake {s} (unpark at woken) o v = Awake-busy _ refl
Step-Awake {s} (cancelled at) o v = Awake-busy _ refl

Reach-Awake : {s : System} → Reach s → Awake s
Reach-Awake begin = Awake-busy _ refl
Reach-Awake (then_step r step) = Step-Awake step (Reach-Ordered r) (Reach-Awake r)

-- No wake-up is lost: when the loop waits in its select and a linked message is there, or the
-- actor is stopping, then the signal is in the channel or a caller is about to put it there.
pub no_lost_wake_up :
    {s : System}
    → Reach s
    → s.phase ≡ parked
    → (is_some (s.actor.next s.actor.head) ≡ true) ⊎ (s.actor.status ≡ status_stopping)
    → Signalled s
no_lost_wake_up r at (inl more) = (Reach-Awake r).message (ap about_to_sleep at) more
no_lost_wake_up r at (inr stopping) = (Reach-Awake r).stopped at stopping
