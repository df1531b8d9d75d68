-- ===== src/Client/Life/Wire.antt =====
-- What reaches the wire.
use mathlib.Core.Path.{subst}
use mathlib.Core.List.{append_assoc, append-nil}
use actor_cluster.Prelude.{
  ℕ, ◌+◌, ◌*◌, ◌%◌, ◌<◌, ◌≤◌, ◌≡◌, refl, sym, ap, ◌∙◌, inl, inr, String, Bool, true, ◌&&◌, List, [],
  ◌∷◌, ◌++◌, some, arith,
}
use actor_cluster.Prelude.Tests.{both, ltb, Bool-cases, if◌then◌else◌}
use actor_cluster.Prelude.Lists.{length, length-append}
use actor_cluster.Prelude.Words.{u64_mod}
use actor_cluster.Message.{RemoteEnvelope, err_transport_closed, err_stream_interrupted}
use actor_cluster.Client.Metrics.{Metrics}
use actor_cluster.Client.Streamer.{
  FlushEvent, ctx_done, stop_closed, envelope, ticker, Flusher, new_flusher, flush_round,
}
use actor_cluster.Client.Streamer.Batches.{
  concat, offered, Sized, passed, Filling, Between, on_event-Between, flush_round-if,
}
use actor_cluster.Client.Life.{
  Phase, alive, failing, failed, Life, new_life, Wake, ticks, takes_envelope, sees_stop, sees_done,
  Ending, eof, broken, Step, stores, offers, withdraws, flushes, receives, receive_ends,
  fails_shard, closes_transport, stop_called, stop_ends, begin_fail, next_shard, close_transport,
  flushed, on_wake, returned, on_ending, is_done, step, run, shards,
}

-- The envelopes that the channel took from the dispatchers.
abbrev pub accepted_by : ℕ → Step → Life → List RemoteEnvelope
accepted_by target (offers env) s = if ltb (length s.queue) (target * 2) then env ∷ [] else []
accepted_by target _ s = []

abbrev pub accepted : ℕ → List Step → Life → List RemoteEnvelope
accepted target [] s = []
accepted target (st ∷ steps) s = accepted_by target st s ++ accepted target steps (step target st s)

module _ (target start : ℕ) (pos : 0 < target) where
  -- The envelopes `want` have been sent or are in the batch or in the channel, in this order.
  abbrev Carries : List RemoteEnvelope → Life → Type 0
  Carries want s =
      Between target start s.flusher
      × (passed s.flusher ++ s.queue ≡ want)
      × (length s.queue ≤ target * 2)

  flush_round-Between :
      (e : FlushEvent) (f : Flusher)
      → f.running ≡ true
      → Between target start f
      → let f' = flush_round target f e in
        Between target start f' × (passed f' ≡ passed f ++ offered (e ∷ []))
  flush_round-Between e f on (i, inr off) = ground (arith, on, off)
  flush_round-Between e f on (i, inl room) =
      subst (λ (f' : Flusher). Between target start f' × (passed f' ≡ passed f ++ offered (e ∷ [])))
        (sym (flush_round-if target f e true on)) (on_event-Between target start e f pos i room)

  begin_fail-Carries :
      (want : List RemoteEnvelope) (err_code : String) (p : Phase) (s : Life)
      → Carries want s
      → Carries want (begin_fail err_code p s)
  begin_fail-Carries want err_code alive s h = h
  begin_fail-Carries want err_code (failing code next) s h = h
  begin_fail-Carries want err_code failed s h = h

  flushed-Carries :
      (want : List RemoteEnvelope) (f : Flusher) (s : Life)
      → Carries want (record s { flusher = f })
      → Carries want (flushed f s)
  flushed-Carries want f s h =
      both (Carries want) f.failed
        (begin_fail-Carries want err_transport_closed s.phase (record s { flusher = f }) h) h

  -- A round that takes nothing from the channel.
  idle_round :
      (want : List RemoteEnvelope) (e : FlushEvent) (s : Life)
      → offered (e ∷ []) ≡ []
      → s.flusher.running ≡ true
      → Carries want s
      → Carries want (flushed (flush_round target s.flusher e) s)
  idle_round want e s idle on (b, q, small) =
      let (b', q') = flush_round-Between e s.flusher on b in
      flushed-Carries want (flush_round target s.flusher e) s (
        b',
        ap (λ (l : List RemoteEnvelope). l ++ s.queue)
              (q'
                ∙ ap (λ (l : List RemoteEnvelope). passed s.flusher ++ l) idle
                ∙ append-nil (passed s.flusher))
            ∙ q,
        small,
      )

  on_wake-Carries :
      (want : List RemoteEnvelope) (w : Wake) (queue : List RemoteEnvelope) (s : Life)
      → s.queue ≡ queue
      → s.flusher.running ≡ true
      → Carries want s
      → Carries want (on_wake target w queue s)
  on_wake-Carries want (ticks fine) queue s e on h = idle_round want (ticker fine) s refl on h
  on_wake-Carries want (takes_envelope fine) [] s e on h = h
  on_wake-Carries want (takes_envelope fine) (env ∷ queue) s e on (b, q, small) =
      let (b', q') = flush_round-Between (envelope (some env) fine) s.flusher on b in
      flushed-Carries want _ (record s { queue = queue })
        (
          b',
          ap (λ (l : List RemoteEnvelope). l ++ queue) q'
              ∙ append_assoc (passed s.flusher) (env ∷ []) queue
              ∙ ap (λ (l : List RemoteEnvelope). passed s.flusher ++ l) (sym e)
              ∙ q,
          omega (arith, ap length e, small),
        )
  on_wake-Carries want (sees_stop fine) queue s e on h =
      both (Carries want) s.stopping (idle_round want (stop_closed fine) s refl on h) h
  on_wake-Carries want sees_done queue s e on h =
      both (Carries want) s.cancelled (idle_round want ctx_done s refl on h) h

  on_ending-Carries :
      (want : List RemoteEnvelope) (ending : Ending) (s : Life)
      → Carries want s
      → Carries want (on_ending ending s)
  on_ending-Carries want eof s h =
      both (Carries want) s.cancelled h
        (begin_fail-Carries want err_transport_closed s.phase (returned s) h)
  on_ending-Carries want broken s h =
      begin_fail-Carries want err_stream_interrupted s.phase (returned s) h

  next_shard-Carries :
      (want : List RemoteEnvelope) (p : Phase) (s : Life)
      → Carries want s
      → Carries want (next_shard p s)
  next_shard-Carries want alive s h = h
  next_shard-Carries want (failing err_code next) s h = both (Carries want) (ltb next shards) h h
  next_shard-Carries want failed s h = h

  close_transport-Carries :
      (want : List RemoteEnvelope) (p : Phase) (s : Life)
      → Carries want s
      → Carries want (close_transport p s)
  close_transport-Carries want alive s h = h
  close_transport-Carries want (failing err_code next) s h =
      both (Carries want) (ltb next shards) h h
  close_transport-Carries want failed s h = h

  offer-Carries :
      (want : List RemoteEnvelope) (env : RemoteEnvelope) (s : Life)
      → Carries want s
      → Carries (want ++ accepted_by target (offers env) s) (step target (offers env) s)
  unfolding step
  offer-Carries want env s (b, q, small) = elim (Bool-cases (ltb (length s.queue) (target * 2))) [
    | inl free ↦ rw (free) (
      b,
      sym (append_assoc (passed s.flusher) s.queue (env ∷ []))
          ∙ ap (λ (l : List RemoteEnvelope). l ++ env ∷ []) q,
      ground (arith, free, length-append s.queue (env ∷ [])),
    )
    | inr full ↦ rw (full) (b, q ∙ sym (append-nil want), small)
  ]

  -- A step that is not a send.
  quiet : (want : List RemoteEnvelope) (s : Life) → Carries want s → Carries (want ++ []) s
  quiet want s h = subst (λ (w : List RemoteEnvelope). Carries w s) (sym (append-nil want)) h

  step-Carries :
      (want : List RemoteEnvelope) (st : Step) (s : Life)
      → Carries want s
      → Carries (want ++ accepted_by target st s) (step target st s)
  unfolding step
  step-Carries want (offers env) s h = offer-Carries want env s h
  step-Carries want (flushes w) s h =
      quiet want (step target (flushes w) s) (elim (Bool-cases s.flusher.running) [
        | inl on ↦
            subst (λ (b : Bool). Carries want (if b then on_wake target w s.queue s else s))
              (sym on) (on_wake-Carries want w s.queue s refl on h)
        | inr off ↦
            subst (λ (b : Bool). Carries want (if b then on_wake target w s.queue s else s))
              (sym off) h
      ])
  step-Carries want (stores j entry) s h = quiet want (step target (stores j entry) s) h
  step-Carries want (withdraws j) s h = quiet want (step target (withdraws j) s) h
  step-Carries want (receives now res) s h =
      quiet want (step target (receives now res) s) (both (Carries want) s.receiving h h)
  step-Carries want (receive_ends ending) s h =
      quiet want (step target (receive_ends ending) s)
        (both (Carries want) s.receiving (on_ending-Carries want ending s h) h)
  step-Carries want fails_shard s h =
      quiet want (step target fails_shard s) (next_shard-Carries want s.phase s h)
  step-Carries want closes_transport s h =
      quiet want (step target closes_transport s) (close_transport-Carries want s.phase s h)
  step-Carries want stop_called s h =
      quiet want (step target stop_called s) (both (Carries want) s.receiver.dead h h)
  step-Carries want stop_ends s h =
      quiet want (step target stop_ends s)
        (both (Carries want) (s.stopping && is_done s.phase s) h h)

  run-Carries :
      (want : List RemoteEnvelope) (steps : List Step) (s : Life)
      → Carries want s
      → Carries (want ++ accepted target steps s) (run target steps s)
  unfolding run
  run-Carries want [] s h = quiet want s h
  run-Carries want (st ∷ steps) s h =
      subst (λ (w : List RemoteEnvelope). Carries w (run target steps (step target st s)))
        (append_assoc want (accepted_by target st s) (accepted target steps (step target st s)))
        (run-Carries (want ++ accepted_by target st s) steps (step target st s)
          (step-Carries want st s h))

-- However the goroutines of a streamer interleave, from NewNodeStreamer on, with a target size above
-- zero and a uint64 counter: the envelopes that its channel took have been sent, or are in the slice
-- or in the channel, each once and in the order in which they were taken, the sent ones first. Each
-- batch that was sent holds at least one envelope and at most the target size, the counter of the sent
-- requests has grown by their number, modulo 2 ^ 64, and the channel never holds more than twice the
-- target size.
pub wire_in_order :
    (target : ℕ) (steps : List Step) (m : Metrics)
    → 0 < target
    → m.req_sent < u64_mod
    → let s = run target steps (new_life m) in
      ((concat s.flusher.sent ++ s.flusher.batch) ++ s.queue ≡ accepted target steps (new_life m))
      × Sized target s.flusher.sent
      × (s.flusher.req_sent ≡ (m.req_sent + length (concat s.flusher.sent)) % u64_mod)
      × (length s.queue ≤ target * 2)
wire_in_order target steps m pos small =
    let ((i, _), e, q) =
      run-Carries target m.req_sent pos [] steps (new_life m)
        ((begun, inl pos), refl, omega arith) in
    (e, i.sizes, i.counted, q)
  where
    begun : Filling target m.req_sent (new_flusher m.req_sent)
    begun = record { sizes = tt; counted = omega (arith, small); room = omega arith }
