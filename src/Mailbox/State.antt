-- ===== src/Mailbox/State.antt =====
-- pkg/actor/actor.go: the atomic operations of an actor. A queue node is a number, and the memory
-- two functions on these; GetEnvelope answers with a node that nothing else holds, whose number is
-- `fresh`. `pending` is this actor's part of the counter processMailboxPending.
use actor_cluster.Prelude.{ℕ, zero, suc, Bool, true, false, List, [], ◌∷◌, Option, none, some}
use actor_cluster.Prelude.Tests.{nat_beq, string_eq, ◌==◌, if◌then◌else◌}
use actor_cluster.Prelude.Words.{add64, sub64}
use actor_cluster.Message.{RemoteEnvelope, RemoteResult}

pub data Status : Type 0 where
  status_init : Status
  status_running : Status
  status_stopping : Status
  status_dead : Status

abbrev pub update {ℓ} : {A : Type ℓ} → (ℕ → A) → ℕ → A → ℕ → A
update f i v j = if nat_beq i j then v else f j

pub record Actor : Type 0 where
  pub msg : ℕ → Option RemoteEnvelope
  pub next : ℕ → Option ℕ
  pub fresh : ℕ
  pub head : ℕ
  pub tail : ℕ
  pub status : Status
  pub wake : Bool
  pub pending : ℕ

-- The dummy is node 0.
abbrev pub new_actor : Actor
new_actor = record {
  msg = λ _. none;
  next = λ _. none;
  fresh = 1;
  head = 0;
  tail = 0;
  status = status_init;
  wake = false;
  pending = 0;
}

-- Whether the loop is started.
unfoldable pub start : Actor → Actor × Bool
start a = elim a.status [
  | status_init ↦ (record a { status = status_running }, true)
  | _ ↦ (a, false)
]

abbrev pub is_alive : Status → Bool
is_alive status_init = true
is_alive status_running = true
is_alive status_stopping = false
is_alive status_dead = false

abbrev pub is_dead : Status → Bool
is_dead status_dead = true
is_dead _ = false

-- processMailboxPending.Add(1)
unfoldable pub count_up : Actor → Actor
count_up a = record a { pending = add64 a.pending 1 }

-- prev := a.tail.Swap(env): the new node is the old `fresh`, prev the old `tail`.
unfoldable pub swap_tail : RemoteEnvelope → Actor → Actor
swap_tail env a = record a {
  msg = update a.msg a.fresh (some env);
  next = update a.next a.fresh none;
  fresh = suc a.fresh;
  tail = a.fresh;
}

-- prev.next.Store(env)
unfoldable pub link : ℕ → ℕ → Actor → Actor
link prev node a = record a { next = update a.next prev (some node) }

-- A send on the channel of capacity one, with a default.
unfoldable pub signal : Actor → Actor
signal a = record a { wake = true }

unfoldable pub send_envelope : RemoteEnvelope → Actor → Actor
unfolding count_up swap_tail link signal
send_envelope env a = signal (link a.tail a.fresh (swap_tail env (count_up a)))

-- A call of Send that no other thread interrupts.
unfoldable pub send : RemoteEnvelope → Actor → Actor × Bool
send env a = if is_alive a.status then (send_envelope env a, true) else (a, false)

-- The compare-and-swap of Stop, without the signal that follows it.
unfoldable pub mark_stopping : Actor → Actor
mark_stopping a = if is_alive a.status then record a { status = status_stopping } else a

unfoldable pub stop : Actor → Actor
unfolding mark_stopping signal
stop a = if is_alive a.status then signal (mark_stopping a) else a

-- PutEnvelope on a node: nothing reads it before GetEnvelope gives it out again.
unfoldable pub put_envelope : ℕ → Actor → Actor
put_envelope i a = record a { msg = update a.msg i none; next = update a.next i none }

abbrev pub move_head : ℕ → Actor → Actor
move_head n a = record a { head = n; pending = sub64 a.pending 1 }

unfoldable pub dequeue : Actor → Actor × Option ℕ
unfolding put_envelope
dequeue a = elim (a.next a.head) [
  | none ↦ (a, none)
  | some n ↦ (put_envelope a.head (move_head n a), some n)
]

-- qnode.Msg = nil
unfoldable pub clear_msg : ℕ → Actor → Actor
clear_msg n a = record a { msg = update a.msg n none }

abbrev pub add_some : Option RemoteEnvelope → List RemoteEnvelope → List RemoteEnvelope
add_some none es = es
add_some (some e) es = e ∷ es

-- Drain, for as many rounds as the fuel.
unfoldable pub drain : ℕ → Actor → Actor × List RemoteEnvelope
unfolding clear_msg put_envelope
drain zero a = (a, [])
drain (suc n) a = elim (a.next a.head) [
  | none ↦ (a, [])
  | some node ↦
      let (a', es) = drain n (put_envelope a.head (move_head node (clear_msg node a))) in
      (a', add_some (a.msg node) es)
]

-- The fields that a handler left at zero.
unfoldable pub complete_result : RemoteResult → RemoteEnvelope → RemoteResult
complete_result r env = record r {
  tenant_id = if nat_beq r.tenant_id 0 then env.tenant_id else r.tenant_id;
  uid = if nat_beq r.uid 0 then env.uid else r.uid;
  request_id = if nat_beq r.request_id 0 then env.request_id else r.request_id;
  tx_id = if r.tx_id == "" then env.tx_id else r.tx_id;
  op_code = if nat_beq r.op_code 0 then env.op_code else r.op_code;
}
