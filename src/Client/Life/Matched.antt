-- ===== src/Client/Life/Matched.antt =====
-- No answer goes to the channel of another request.
use actor_cluster.Prelude.{ℕ, ◌≡◌, refl, ◌⊎◌, inl, inr, String, List, [], ◌∷◌, Option, none, some}
use actor_cluster.Prelude.Tests.{nat_eq}
use actor_cluster.Message.{RemoteResult}
use actor_cluster.Client.Callbacks.{CallbackEntry}
use actor_cluster.Client.Metrics.{Metrics, failed_result}
use actor_cluster.Client.Life.{
  new_life, Step, stores, offers, withdraws, flushes, receives, receive_ends, fails_shard,
  closes_transport, stop_called, stop_ends, run,
}
use actor_cluster.Client.Life.Carried.{Wants, AllMatch, Fits, AllFit, run-IsMatched}

-- A Store of the request with the channel is among the steps.
abbrev pub Asked : List Step → ℕ → ℕ → Type 0
Asked [] k ch = ⊥
Asked (stores j entry ∷ steps) k ch = ((j ≡ k) × (entry.resp_ch ≡ some ch)) ⊎ Asked steps k ch
Asked (_ ∷ steps) k ch = Asked steps k ch

-- The result is among those received.
abbrev pub Received : List Step → RemoteResult → Type 0
Received [] res = ⊥
Received (receives now other ∷ steps) res = (other ≡ res) ⊎ Received steps res
Received (_ ∷ steps) res = Received steps res

-- The result was received, or it is the failure of its request.
abbrev pub Answers : List Step → RemoteResult → Type 0
Answers steps res =
    Received steps res ⊎ ((err_code : String) × (res ≡ failed_result res.request_id err_code))

Asked-later :
    (st : Step) (steps : List Step) (k ch : ℕ) → Asked steps k ch → Asked (st ∷ steps) k ch
Asked-later (stores j entry) steps k ch h = inr h
Asked-later (offers env) steps k ch h = h
Asked-later (withdraws j) steps k ch h = h
Asked-later (flushes wake) steps k ch h = h
Asked-later (receives now res) steps k ch h = h
Asked-later (receive_ends ending) steps k ch h = h
Asked-later fails_shard steps k ch h = h
Asked-later closes_transport steps k ch h = h
Asked-later stop_called steps k ch h = h
Asked-later stop_ends steps k ch h = h

Received-later :
    (st : Step) (steps : List Step) (res : RemoteResult)
    → Received steps res
    → Received (st ∷ steps) res
Received-later (stores j entry) steps res h = h
Received-later (offers env) steps res h = h
Received-later (withdraws j) steps res h = h
Received-later (flushes wake) steps res h = h
Received-later (receives now other) steps res h = inr h
Received-later (receive_ends ending) steps res h = h
Received-later fails_shard steps res h = h
Received-later closes_transport steps res h = h
Received-later stop_called steps res h = h
Received-later stop_ends steps res h = h

module _ (all : List Step) where
  store-Fits :
      (k : ℕ) (entry : CallbackEntry) (steps : List Step)
      → ((j ch : ℕ) → Asked (stores k entry ∷ steps) j ch → Asked all j ch)
      → Wants (Asked all) (Answers all) k entry.resp_ch
  store-Fits k entry steps asked = at entry.resp_ch refl
    where
      at : (o : Option ℕ) → entry.resp_ch ≡ o → Wants (Asked all) (Answers all) k o
      at none e = tt
      at (some ch) e = asked k ch (inl (refl, e))

  steps-AllFit :
      (steps : List Step)
      → ((k ch : ℕ) → Asked steps k ch → Asked all k ch)
      → ((res : RemoteResult) → Received steps res → Received all res)
      → AllFit (Asked all) (Answers all) steps
  steps-AllFit [] asked got = tt
  steps-AllFit (st ∷ steps) asked got = (
    fits st asked got,
    steps-AllFit steps (λ k ch h. asked k ch (Asked-later st steps k ch h))
        (λ res h. got res (Received-later st steps res h)),
  )
    where
      fits :
          (st : Step)
          → ((k ch : ℕ) → Asked (st ∷ steps) k ch → Asked all k ch)
          → ((res : RemoteResult) → Received (st ∷ steps) res → Received all res)
          → Fits (Asked all) (Answers all) st
      fits (stores k entry) asked' got' = store-Fits k entry steps asked'
      fits (offers env) asked' got' = tt
      fits (withdraws j) asked' got' = tt
      fits (flushes wake) asked' got' = tt
      fits (receives now res) asked' got' = inl (got' res (inl refl))
      fits (receive_ends ending) asked' got' = tt
      fits fails_shard asked' got' = tt
      fits closes_transport asked' got' = tt
      fits stop_called asked' got' = tt
      fits stop_ends asked' got' = tt

-- However the goroutines of a streamer interleave, from NewNodeStreamer on, a channel is only given
-- answers that are meant for it: for each answer that it was given, a callback with this channel was
-- stored for the request whose id the answer carries; and the answer is a result that was received,
-- or the failure of this request.
pub answers_match :
    (target : ℕ) (steps : List Step) (m : Metrics)
    → AllMatch (Asked steps) (Answers steps) (run target steps (new_life m)).receiver.answers
answers_match target steps m =
    (run-IsMatched (Asked steps) (Answers steps) (λ k err_code. inr (err_code, refl)) target steps
      (new_life m) (steps-AllFit steps steps (λ k ch h. h) (λ res h. h)) (tt, tt)).1
