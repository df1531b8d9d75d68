-- ===== src/Mailbox/Threads.antt =====
-- pkg/actor/actor.go as interleaved threads: the callers of Send and Stop, and the loop. `sent` and
-- `handled` record the messages in the order of their Swap and of their Handle.
use actor_cluster.Prelude.{ℕ, ◌≡◌, true, false, List, [], ◌∷◌, ◌++◌, Option, none, some}
use actor_cluster.Message.{RemoteEnvelope}
use actor_cluster.Mailbox.State.{
  status_init, status_stopping, status_dead, update, Actor, new_actor, start, is_alive, count_up,
  swap_tail, link, signal, mark_stopping, dequeue, clear_msg,
}

-- Where a caller of Send or Stop stands.
pub data Pc : Type 0 where
  idle : Pc
  checked : RemoteEnvelope → Pc
  counted : RemoteEnvelope → Pc
  swapped : (prev node : ℕ) → Pc
  linked : Pc

-- Where the loop stands: before Start, at dequeue, after a dequeue that found nothing, in the
-- select, in Handle with a node, returned.
pub data Phase : Type 0 where
  unstarted : Phase
  polling : Phase
  found_none : Phase
  parked : Phase
  handling : ℕ → Phase
  returned : Phase

pub record System : Type 0 where
  pub actor : Actor
  pub pc : ℕ → Pc
  pub phase : Phase
  pub sent : List RemoteEnvelope
  pub handled : List RemoteEnvelope

abbrev pub initial : System
initial = record { actor = new_actor; pc = λ _. idle; phase = unstarted; sent = []; handled = [] }

abbrev pub after_dequeue : Option ℕ → Phase
after_dequeue none = found_none
after_dequeue (some n) = handling n

pub data Step (s : System) : System → Type 0 where
  -- Send reads the status.
  check :
      (i : ℕ) (env : RemoteEnvelope)
      → s.pc i ≡ idle
      → is_alive s.actor.status ≡ true
      → Step s (record s { pc = update s.pc i (checked env) })
  count :
      (i : ℕ) (env : RemoteEnvelope)
      → s.pc i ≡ checked env
      → Step s (record s { pc = update s.pc i (counted env); actor = count_up s.actor })
  swap :
      (i : ℕ) (env : RemoteEnvelope)
      → s.pc i ≡ counted env
      → Step s (record s {
        pc = update s.pc i (swapped s.actor.tail s.actor.fresh);
        actor = swap_tail env s.actor;
        sent = s.sent ++ env ∷ [];
      })
  store_next :
      (i prev node : ℕ)
      → s.pc i ≡ swapped prev node
      → Step s (record s { pc = update s.pc i linked; actor = link prev node s.actor })
  wake_up :
      (i : ℕ)
      → s.pc i ≡ linked
      → Step s (record s { pc = update s.pc i idle; actor = signal s.actor })
  -- Stop: its compare-and-swap. The signal after it is a `wake_up`.
  stop_cas :
      (i : ℕ)
      → s.pc i ≡ idle
      → is_alive s.actor.status ≡ true
      → Step s (record s { pc = update s.pc i linked; actor = mark_stopping s.actor })
  start_loop :
      s.phase ≡ unstarted
      → s.actor.status ≡ status_init
      → Step s (record s { phase = polling; actor = (start s.actor).0 })
  poll :
      s.phase ≡ polling
      → Step s (record s { phase = after_dequeue (dequeue s.actor).1; actor = (dequeue s.actor).0 })
  handle_one :
      (n : ℕ) (env : RemoteEnvelope)
      → s.phase ≡ handling n
      → s.actor.msg n ≡ some env
      → Step s (record s {
        phase = polling;
        actor = clear_msg n s.actor;
        handled = s.handled ++ env ∷ [];
      })
  leave :
      s.phase ≡ found_none
      → s.actor.status ≡ status_stopping
      → Step s (record s { phase = returned; actor = record s.actor { status = status_dead } })
  park :
      s.phase ≡ found_none
      → (s.actor.status ≡ status_stopping → ⊥)
      → Step s (record s { phase = parked })
  unpark :
      s.phase ≡ parked
      → s.actor.wake ≡ true
      → Step s (record s { phase = polling; actor = record s.actor { wake = false } })
  -- The context is done.
  cancelled :
      s.phase ≡ parked
      → Step s (record s { phase = returned; actor = record s.actor { status = status_dead } })

pub data Reach : System → Type 0 where
  begin : Reach initial
  then_step : {s t : System} → Reach s → Step s t → Reach t
