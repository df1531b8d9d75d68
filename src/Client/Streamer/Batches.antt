-- ===== src/Client/Streamer/Batches.antt =====
-- What the flusher puts on the wire.
use actor_cluster.Prelude.{
  ℕ, ◌+◌, ◌%◌, ◌<◌, ◌≤◌, ◌≡◌, refl, sym, ap, ◌∙◌, ◌⊎◌, inl, inr, Bool, true, false, List, [], ◌∷◌,
  ◌++◌, none, some, arith,
}
use mathlib.Core.List.{append_assoc, append-nil}
use actor_cluster.Prelude.Tests.{leb, Bool-cases, if◌then◌else◌}
use actor_cluster.Prelude.Lists.{length, length-append}
use actor_cluster.Prelude.Words.{u64_mod}
use actor_cluster.Message.{RemoteEnvelope}
use actor_cluster.Client.Streamer.{
  FlushEvent, ctx_done, stop_closed, envelope, channel_closed, ticker, Flusher, sent_batch,
  send_batch, take_envelope, closed, on_event, flush_round,
}

abbrev pub concat : List (List RemoteEnvelope) → List RemoteEnvelope
concat [] = []
concat (b ∷ bs) = b ++ concat bs

pub concat-append :
    (bs cs : List (List RemoteEnvelope)) → concat (bs ++ cs) ≡ concat bs ++ concat cs
concat-append [] cs = refl
concat-append (b ∷ bs) cs =
    ap (λ (r : List RemoteEnvelope). b ++ r) (concat-append bs cs)
    ∙ sym (append_assoc b (concat bs) (concat cs))

-- The envelopes that the channel holds out.
abbrev pub offered : List FlushEvent → List RemoteEnvelope
offered [] = []
offered (envelope (some env) fine ∷ es) = env ∷ offered es
offered (_ ∷ es) = offered es

-- Each batch holds at least one envelope and at most the target size.
abbrev pub Sized : ℕ → List (List RemoteEnvelope) → Type 0
Sized target [] = Unit {0}
Sized target (b ∷ bs) = (0 < length b) × (length b ≤ target) × Sized target bs

Sized-append :
    (target : ℕ) (bs : List (List RemoteEnvelope)) (b : List RemoteEnvelope)
    → Sized target bs
    → 0 < length b
    → length b ≤ target
    → Sized target (bs ++ b ∷ [])
Sized-append target [] b h low high = (low, high, tt)
Sized-append target (x ∷ bs) b (l, u, h) low high = (l, u, Sized-append target bs b h low high)

-- Sent and still held, in order.
abbrev pub passed : Flusher → List RemoteEnvelope
passed f = concat f.sent ++ f.batch

-- What holds of the flusher between rounds; `start` is the counter it began with. The batch of a
-- loop that has returned may be full.
pub record Filling (target start : ℕ) (f : Flusher) : Type 0 where
  pub sizes : Sized target f.sent
  pub counted : f.req_sent ≡ (start + length (concat f.sent)) % u64_mod
  pub room : length f.batch ≤ target

passed-sent :
    (f : Flusher) → passed (record f { batch = []; sent = f.sent ++ f.batch ∷ [] }) ≡ passed f
passed-sent f =
    append-nil (concat (f.sent ++ f.batch ∷ []))
    ∙ concat-append f.sent (f.batch ∷ [])
    ∙ ap (λ (r : List RemoteEnvelope). concat f.sent ++ r) (append-nil f.batch)

sent_batch-Filling :
    (target start : ℕ) (fine : Bool) (f : Flusher)
    → 0 < length f.batch
    → Filling target start f
    → Filling target start (sent_batch fine f) × (passed (sent_batch fine f) ≡ passed f)
sent_batch-Filling target start true f some_one i = (
  record {
    sizes = Sized-append target f.sent f.batch i.sizes some_one i.room;
    counted = omega (arith, i.counted, grown);
    room = omega arith;
  },
  passed-sent f,
)
  where
    grown : length (concat (f.sent ++ f.batch ∷ [])) ≡ length (concat f.sent) + length f.batch
    grown =
        ap length (
          concat-append f.sent (f.batch ∷ [])
          ∙ ap (λ (r : List RemoteEnvelope). concat f.sent ++ r) (append-nil f.batch))
        ∙ length-append (concat f.sent) f.batch
sent_batch-Filling target start false f some_one i =
    (record { sizes = i.sizes; counted = i.counted; room = i.room }, refl)

send_batch-Filling :
    (target start : ℕ) (fine : Bool) (f : Flusher)
    → Filling target start f
    → Filling target start (send_batch fine f) × (passed (send_batch fine f) ≡ passed f)
unfolding send_batch
send_batch-Filling target start fine f i = at f.batch refl
  where
    at :
        (b : List RemoteEnvelope)
        → f.batch ≡ b
        → Filling target start (elim b [ [] ↦ f | e ∷ es ↦ sent_batch fine f ])
          × (passed (elim b [ [] ↦ f | e ∷ es ↦ sent_batch fine f ]) ≡ passed f)
    at [] e = (i, refl)
    at (x ∷ xs) e = sent_batch-Filling target start fine f (omega (arith, ap length e)) i

-- A loop that goes on has room for another envelope.
abbrev pub Between : ℕ → ℕ → Flusher → Type 0
Between target start f = Filling target start f × ((length f.batch < target) ⊎ (f.running ≡ false))

sent_batch-Between :
    (target start : ℕ) (fine : Bool) (f : Flusher)
    → 0 < target
    → 0 < length f.batch
    → Filling target start f
    → Between target start (sent_batch fine f) × (passed (sent_batch fine f) ≡ passed f)
sent_batch-Between target start true f pos some_one i =
    let (i', e) = sent_batch-Filling target start true f some_one i in ((i', inl pos), e)
sent_batch-Between target start false f pos some_one i =
    let (i', e) = sent_batch-Filling target start false f some_one i in ((i', inr refl), e)

send_batch-Between :
    (target start : ℕ) (fine : Bool) (f : Flusher)
    → 0 < target
    → Filling target start f
    → Between target start (send_batch fine f) × (passed (send_batch fine f) ≡ passed f)
unfolding send_batch
send_batch-Between target start fine f pos i = at f.batch refl
  where
    at :
        (b : List RemoteEnvelope)
        → f.batch ≡ b
        → Between target start (elim b [ [] ↦ f | e ∷ es ↦ sent_batch fine f ])
          × (passed (elim b [ [] ↦ f | e ∷ es ↦ sent_batch fine f ]) ≡ passed f)
    at [] e = ((i, inl (omega (arith, ap length e, pos))), refl)
    at (x ∷ xs) e = sent_batch-Between target start fine f pos (omega (arith, ap length e)) i

abbrev added : RemoteEnvelope → Flusher → Flusher
added env f = record f { batch = f.batch ++ env ∷ [] }

take_envelope-Between :
    (target start : ℕ) (env : RemoteEnvelope) (fine : Bool) (f : Flusher)
    → 0 < target
    → Filling target start f
    → length f.batch < target
    → let f' = take_envelope target env fine f in
      Between target start f' × (passed f' ≡ passed f ++ env ∷ [])
take_envelope-Between target start env fine f pos i room =
    elim (Bool-cases (leb target (length (added env f).batch))) [
      | inl full ↦ rw (full) (
          let (b, e) = send_batch-Between target start fine (added env f) pos i' in
          (b, e ∙ one_more))
      | inr free ↦ rw (free) ((i', inl (ground (arith, free))), one_more)
    ]
  where
    one_more : passed (added env f) ≡ passed f ++ env ∷ []
    one_more = sym (append_assoc (concat f.sent) f.batch (env ∷ []))

    i' : Filling target start (added env f)
    i' = record {
      sizes = i.sizes;
      counted = i.counted;
      room = omega (arith, length-append f.batch (env ∷ []), room);
    }

closed-Between :
    (target start : ℕ) (f : Flusher) → Filling target start f → Between target start (closed f)
closed-Between target start f i =
    (record { sizes = i.sizes; counted = i.counted; room = i.room }, inr refl)

-- One round of a loop that goes on.
pub on_event-Between :
    (target start : ℕ) (e : FlushEvent) (f : Flusher)
    → 0 < target
    → Filling target start f
    → length f.batch < target
    → let f' = on_event target e f in
      Between target start f' × (passed f' ≡ passed f ++ offered (e ∷ []))
on_event-Between target start ctx_done f pos i room =
    (closed-Between target start f i, sym (append-nil (passed f)))
on_event-Between target start (stop_closed fine) f pos i room =
    let ((i', _), e) = send_batch-Between target start fine f pos i in
    (closed-Between target start (send_batch fine f) i', e ∙ sym (append-nil (passed f)))
on_event-Between target start (envelope none fine) f pos i room =
    (closed-Between target start f i, sym (append-nil (passed f)))
on_event-Between target start (envelope (some env) fine) f pos i room =
    take_envelope-Between target start env fine f pos i room
on_event-Between target start channel_closed f pos i room =
    (closed-Between target start f i, sym (append-nil (passed f)))
on_event-Between target start (ticker fine) f pos i room =
    let (b, e) = send_batch-Between target start fine f pos i in
    (b, e ∙ sym (append-nil (passed f)))

pub offered-cons :
    (e : FlushEvent) (es : List FlushEvent) → offered (e ∷ []) ++ offered es ≡ offered (e ∷ es)
offered-cons ctx_done es = refl
offered-cons (stop_closed fine) es = refl
offered-cons (envelope none fine) es = refl
offered-cons (envelope (some env) fine) es = refl
offered-cons channel_closed es = refl
offered-cons (ticker fine) es = refl

pub flush_round-if :
    (target : ℕ) (f : Flusher) (e : FlushEvent) (b : Bool)
    → f.running ≡ b
    → flush_round target f e ≡ (if b then on_event target e f else f)
unfolding flush_round
flush_round-if target f e b h = ap (λ (c : Bool). if c then on_event target e f else f) h
