-- ===== src/Mailbox/Tests.antt =====
-- The mailbox at a concrete history: one message sent, then taken and handled, then a Stop.
use actor_cluster.Prelude.{ℕ, ◌+◌, ◌*◌, ◌≤◌, ◌⊎◌, ◌≡◌, refl, inl, true, [], ◌∷◌, ◌++◌, none, arith}
use actor_cluster.Prelude.Lists.{length, take}
use actor_cluster.Message.{RemoteEnvelope}
use actor_cluster.Mailbox.State.{
  start, count_up, swap_tail, link, signal, put_envelope, dequeue, clear_msg, drain,
  status_stopping, status_dead, mark_stopping,
}
use actor_cluster.Mailbox.Threads.{
  System, Reach, begin, then_step, check, count, swap, store_next, wake_up, start_loop, poll,
  handle_one, park, stop_cas, leave, returned,
}
use actor_cluster.Mailbox.Fifo.{handled_in_order}
use actor_cluster.Mailbox.Wake.{no_lost_wake_up, Signalled}
use actor_cluster.Mailbox.Drain.{drain_yields_rest}
use actor_cluster.Mailbox.Dies.{Run, here, further, loop_turns, CanGo, stop_kills}
use actor_cluster.Mailbox.Order.{flight}
use mathlib.Core.Bool.{false≢true}
use actor_cluster.Prelude.{ap, Bool}
use actor_cluster.Mailbox.State.{Status}
use actor_cluster.Mailbox.Threads.{cancelled}
use actor_cluster.Prelude.{false}

abbrev letter : RemoteEnvelope
letter = record {
  tenant_id = 1;
  uid = 7;
  tx_id = "t1";
  request_id = 5;
  op_code = 1;
  payload = [];
  deadline_unix_ms = 0;
}

-- Caller 0 sends the letter, up to its link.
to_linked : (s : System) × Reach s
unfolding count_up swap_tail link
to_linked = (
  _,
  then_step
      (then_step (then_step (then_step begin (check 0 letter refl refl)) (count 0 letter refl))
        (swap 0 letter refl))
      (store_next 0 0 1 refl),
)

to_polling : (s : System) × Reach s
unfolding to_linked count_up swap_tail link signal start
to_polling = (_, then_step (then_step to_linked.1 (wake_up 0 refl)) (start_loop refl refl))

to_handled : (s : System) × Reach s
unfolding to_linked to_polling count_up swap_tail link signal start put_envelope dequeue clear_msg
to_handled = (_, then_step (then_step to_polling.1 (poll refl)) (handle_one 1 letter refl refl))

handled_in_order_example :
    to_handled.0.handled ≡ take (length to_handled.0.handled) to_handled.0.sent
handled_in_order_example = handled_in_order to_handled.1

no_flight : (i : ℕ) → flight (to_polling.0.pc i) ≡ none
unfolding to_linked to_polling count_up swap_tail link signal start
no_flight i = ground arith

-- The loop finds nothing, and the letter is linked while it waits.
to_parked : (s : System) × Reach s
unfolding count_up swap_tail link start dequeue
to_parked = (
  _,
  then_step
      (then_step
        (then_step
          (then_step
            (then_step (then_step (then_step begin (start_loop refl refl)) (poll refl))
              (park refl (λ e. false≢true (ap is_stopping e))))
            (check 0 letter refl refl))
          (count 0 letter refl))
        (swap 0 letter refl))
      (store_next 0 0 1 refl),
)
  where
    is_stopping : Status → Bool
    is_stopping status_stopping = true
    is_stopping _ = false

no_lost_wake_up_example : Signalled to_parked.0
unfolding to_parked count_up swap_tail link start dequeue
no_lost_wake_up_example = no_lost_wake_up to_parked.1 refl (inl refl)

-- The context is done, and the letter stays behind.
to_returned : (s : System) × Reach s
unfolding to_parked count_up swap_tail link signal start dequeue
to_returned = (_, then_step (then_step to_parked.1 (wake_up 0 refl)) (cancelled refl))

no_flight_left : (i : ℕ) → flight (to_returned.0.pc i) ≡ none
unfolding to_parked to_returned count_up swap_tail link signal start dequeue
no_flight_left i = ground arith

drain_yields_rest_example : ([] ++ (drain 2 to_returned.0.actor).1) ≡ letter ∷ []
unfolding to_parked to_returned count_up swap_tail link signal start dequeue
drain_yields_rest_example = drain_yields_rest to_returned.1 refl no_flight_left 2 (omega arith)

-- Caller 1 stops the actor while its loop has still to take the letter; the loop handles it and ends.
to_stopping : (s : System) × Reach s
unfolding to_linked to_polling count_up swap_tail link signal start mark_stopping
to_stopping = (_, then_step to_polling.1 (stop_cas 1 refl refl))

to_end : (t : System) × Run to_stopping.0 t
unfolding to_linked to_polling to_stopping count_up swap_tail link signal start mark_stopping
    put_envelope dequeue clear_msg
to_end = (
  _,
  further (further (further (further here (poll refl)) (handle_one 1 letter refl refl)) (poll refl))
      (leave refl refl),
)

stop_kills_example :
    (loop_turns to_end.1 + 2 * length to_stopping.0.handled ≤ 2 * length to_end.0.sent + 3)
    × (((to_end.0.actor.status ≡ status_dead) × (to_end.0.phase ≡ returned)) ⊎ CanGo to_end.0)
unfolding to_linked to_polling to_stopping count_up swap_tail link signal start mark_stopping
stop_kills_example = stop_kills to_stopping.1 refl refl to_end.1
