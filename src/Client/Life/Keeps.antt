-- ===== src/Client/Life/Keeps.antt =====
-- What the flusher and the receiver of a streamer change of its life, for a property that looks at
-- the callbacks and at where `fail` stands.
use actor_cluster.Prelude.{ℕ, String, List, [], ◌∷◌}
use actor_cluster.Prelude.Tests.{both}
use actor_cluster.Message.{RemoteEnvelope, err_transport_closed, err_stream_interrupted}
use actor_cluster.Client.Streamer.{Flusher}
use actor_cluster.Client.Life.{
  Life, Wake, ticks, takes_envelope, sees_stop, sees_done, Ending, eof, broken, flushes,
  receive_ends, begin_fail, flushed, on_wake, returned, on_ending, step,
}

-- A property that does not look at the batch, the channel or the connection, and that the first lines
-- of `fail` keep.
pub record Keeps (P : Life → Type 0) : Type 0 where
  pub flusher : (f : Flusher) (s : Life) → P s → P (record s { flusher = f })
  pub queue : (queue : List RemoteEnvelope) (s : Life) → P s → P (record s { queue = queue })
  pub leaves : (s : Life) → P s → P (returned s)
  pub begins : (err_code : String) (s : Life) → P s → P (begin_fail err_code s.phase s)

module _ (P : Life → Type 0) (keeps : Keeps P) where
  flushed-Keeps : (f : Flusher) (s : Life) → P s → P (flushed f s)
  flushed-Keeps f s h =
      let h' = keeps.flusher f s h in
      both P f.failed (keeps.begins err_transport_closed (record s { flusher = f }) h') h'

  on_wake-Keeps :
      (target : ℕ) (w : Wake) (queue : List RemoteEnvelope) (s : Life)
      → P s
      → P (on_wake target w queue s)
  on_wake-Keeps target (ticks fine) queue s h = flushed-Keeps _ s h
  on_wake-Keeps target (takes_envelope fine) [] s h = h
  on_wake-Keeps target (takes_envelope fine) (env ∷ queue) s h =
      flushed-Keeps _ (record s { queue = queue }) (keeps.queue queue s h)
  on_wake-Keeps target (sees_stop fine) queue s h = both P s.stopping (flushed-Keeps _ s h) h
  on_wake-Keeps target sees_done queue s h = both P s.cancelled (flushed-Keeps _ s h) h

  on_ending-Keeps : (ending : Ending) (s : Life) → P s → P (on_ending ending s)
  on_ending-Keeps eof s h =
      let h' = keeps.leaves s h in
      both P s.cancelled h' (keeps.begins err_transport_closed (returned s) h')
  on_ending-Keeps broken s h = keeps.begins err_stream_interrupted (returned s) (keeps.leaves s h)

  pub step-flushes : (target : ℕ) (w : Wake) (s : Life) → P s → P (step target (flushes w) s)
  unfolding step
  step-flushes target w s h = both P s.flusher.running (on_wake-Keeps target w s.queue s h) h

  pub step-receive_ends :
      (target : ℕ) (ending : Ending) (s : Life) → P s → P (step target (receive_ends ending) s)
  unfolding step
  step-receive_ends target ending s h = both P s.receiving (on_ending-Keeps ending s h) h
