-- ===== src/Client/Life/Conserved.antt =====
-- How the channels of the callbacks are served.
use mathlib.Core.Path.{subst}
use actor_cluster.Prelude.{
  ℕ, ◌+◌, ◌*◌, ◌%◌, ◌≤◌, ◌≡◌, refl, sym, ap, ◌∙◌, inl, inr, String, ◌&&◌, List, [], ◌∷◌, arith,
}
use actor_cluster.Prelude.Tests.{nat_eq, both, ltb, Option-cases}
use actor_cluster.Prelude.Lists.{length}
use actor_cluster.Prelude.Words.{u64_mod}
use actor_cluster.Prelude.Dict.{Dict, lookup, delete, delete_absent}
use actor_cluster.Message.{RemoteResult}
use actor_cluster.Client.Callbacks.{
  CallbackEntry, CallbackMap, new_callback_map, Counts, store, delete_callback, store-Counts,
  delete_callback-Counts,
}
use actor_cluster.Client.Metrics.{Metrics, fail_entries}
use actor_cluster.Client.Streamer.{Receiver, receive_result}
use actor_cluster.Client.Streamer.Results.{
  asks, asks_of, waiting, answered, answered-append, waiting-delete, answered-fail_entries, held,
  held-receive_result, callbacks-receive_result,
}
use actor_cluster.Client.Life.{
  Phase, alive, failing, failed, Life, new_life, Step, stores, offers, withdraws, flushes, receives,
  receive_ends, fails_shard, closes_transport, stop_called, stop_ends, of_shard, out_of_shard,
  fail_shard, begin_fail, next_shard, close_transport, is_done, step, run, shards,
}
use actor_cluster.Client.Life.Keeps.{Keeps, step-flushes, step-receive_ends}
use actor_cluster.Client.Life.Shards.{
  waiting-insert, waiting-split, length-split, out_of_shard-Distinct, fail_entries-pending_rest,
}

-- The callbacks of a channel that a step stores, and those that it takes away without an answer: by a
-- Delete, or under a Store of the same request.
abbrev pub asked_by : ℕ → Step → ℕ
asked_by ch (stores req_id entry) = asks ch entry.resp_ch
asked_by ch _ = 0

abbrev pub dropped_by : ℕ → Step → Dict ℕ CallbackEntry → ℕ
dropped_by ch (stores req_id entry) entries = asks_of ch (lookup req_id entries)
dropped_by ch (withdraws req_id) entries = asks_of ch (lookup req_id entries)
dropped_by ch _ entries = 0

abbrev pub asked : ℕ → List Step → ℕ
asked ch [] = 0
asked ch (st ∷ steps) = asked_by ch st + asked ch steps

abbrev pub dropped : ℕ → ℕ → List Step → Life → ℕ
dropped target ch [] s = 0
dropped target ch (st ∷ steps) s =
    dropped_by ch st s.receiver.callbacks.entries + dropped target ch steps (step target st s)

-- What a step does to a channel: `lost` callbacks are taken away, and `more` are stored.
abbrev Moved : (ch lost more : ℕ) → Receiver → Receiver → Type 0
Moved ch lost more r r' = (held ch r' + lost ≡ held ch r + more) × Counts r'.callbacks

fail_shard-Moved :
    (ch : ℕ) (err_code : String) (i : ℕ) (r : Receiver)
    → Counts r.callbacks
    → Moved ch 0 0 r (fail_shard err_code i r)
unfolding fail_shard
fail_shard-Moved ch err_code i r c = (
  omega (
    arith,
    answered-append ch r.answers (fail_entries err_code here r.callbacks.pending r.metrics).answers,
    answered-fail_entries ch err_code here r.callbacks.pending r.metrics,
    waiting-split ch i r.callbacks.entries,
  ),
  record {
    exact =
        fail_entries-pending_rest err_code (length (out_of_shard i r.callbacks.entries)) here
          r.callbacks.pending r.metrics
          (c.exact ∙ ap (λ (n : ℕ). n % u64_mod) (length-split i r.callbacks.entries));
    distinct = out_of_shard-Distinct i r.callbacks.entries c.distinct;
  },
)
  where
    here : Dict ℕ CallbackEntry
    here = of_shard i r.callbacks.entries

module _ (ch : ℕ) (r : Receiver) where
  -- A state whose channel has not changed.
  abbrev Still : Life → Type 0
  Still s = Moved ch 0 0 r s.receiver

  begin_fail-Still :
      (err_code : String) (p : Phase) (s : Life) → Still s → Still (begin_fail err_code p s)
  begin_fail-Still err_code alive s (e, c) = (e, c)
  begin_fail-Still err_code (failing code next) s h = h
  begin_fail-Still err_code failed s h = h

  Still-Keeps : Keeps Still
  Still-Keeps = record {
    flusher = λ f s h. h;
    queue = λ queue s h. h;
    leaves = λ s h. h;
    begins = λ err_code s h. begin_fail-Still err_code s.phase s h;
  }

  close_transport-Still : (p : Phase) (s : Life) → Still s → Still (close_transport p s)
  close_transport-Still alive s h = h
  close_transport-Still (failing err_code next) s h = both Still (ltb next shards) h h
  close_transport-Still failed s h = h

next_shard-Moved :
    (ch : ℕ) (p : Phase) (s : Life)
    → Counts s.receiver.callbacks
    → Moved ch 0 0 s.receiver (next_shard p s).receiver
next_shard-Moved ch alive s c = (refl, c)
next_shard-Moved ch (failing err_code next) s c =
    both (Still ch s.receiver) (ltb next shards) (fail_shard-Moved ch err_code next s.receiver c)
      (refl, c)
next_shard-Moved ch failed s c = (refl, c)

store-Moved :
    (ch req_id : ℕ) (entry : CallbackEntry) (r : Receiver)
    → Counts r.callbacks
    → Moved ch
        (asks_of ch (lookup req_id r.callbacks.entries))
        (asks ch entry.resp_ch)
        r
        (record r { callbacks = store req_id entry r.callbacks })
unfolding store
store-Moved ch req_id entry r c = (
  omega (arith, waiting-insert ch req_id entry r.callbacks.entries),
  store-Counts req_id entry r.callbacks c,
)

pub entries-delete_callback :
    (k : ℕ) (sm : CallbackMap) → (delete_callback k sm).entries ≡ delete k sm.entries
unfolding delete_callback
entries-delete_callback k sm = elim (Option-cases (lookup k sm.entries)) [
  | inl e ↦ rw (e) (sym (delete_absent k sm.entries e))
  | inr (entry, e) ↦ rw (e) refl
]

delete-Moved :
    (ch req_id : ℕ) (r : Receiver)
    → Counts r.callbacks
    → Moved ch
        (asks_of ch (lookup req_id r.callbacks.entries))
        0
        r
        (record r { callbacks = delete_callback req_id r.callbacks })
delete-Moved ch req_id r c = (
  omega (
    arith,
    ap (waiting ch) (entries-delete_callback req_id r.callbacks),
    waiting-delete ch req_id r.callbacks.entries c.distinct,
  ),
  delete_callback-Counts req_id r.callbacks c,
)

receive_result-Moved :
    (ch now : ℕ) (res : RemoteResult) (r : Receiver)
    → Counts r.callbacks
    → Moved ch 0 0 r (receive_result now res r)
receive_result-Moved ch now res r c = (
  ap (λ (n : ℕ). n + 0) (held-receive_result ch now res r c.distinct),
  subst Counts (sym (callbacks-receive_result now res r))
      (delete_callback-Counts res.request_id r.callbacks c),
)

pub step-Moved :
    (target ch : ℕ) (st : Step) (s : Life)
    → Counts s.receiver.callbacks
    → Moved ch
        (dropped_by ch st s.receiver.callbacks.entries)
        (asked_by ch st)
        s.receiver
        (step target st s).receiver
unfolding step
step-Moved target ch (stores req_id entry) s c = store-Moved ch req_id entry s.receiver c
step-Moved target ch (offers env) s c =
    both (Still ch s.receiver) (ltb (length s.queue) (target * 2)) (refl, c) (refl, c)
step-Moved target ch (withdraws req_id) s c = delete-Moved ch req_id s.receiver c
step-Moved target ch (flushes w) s c =
    step-flushes (Still ch s.receiver) (Still-Keeps ch s.receiver) target w s (refl, c)
step-Moved target ch (receives now res) s c =
    both (Still ch s.receiver) s.receiving (receive_result-Moved ch now res s.receiver c) (refl, c)
step-Moved target ch (receive_ends ending) s c =
    step-receive_ends (Still ch s.receiver) (Still-Keeps ch s.receiver) target ending s (refl, c)
step-Moved target ch fails_shard s c = next_shard-Moved ch s.phase s c
step-Moved target ch closes_transport s c = close_transport-Still ch s.receiver s.phase s (refl, c)
step-Moved target ch stop_called s c =
    both (Still ch s.receiver) s.receiver.dead (refl, c) (refl, c)
step-Moved target ch stop_ends s c =
    both (Still ch s.receiver) (s.stopping && is_done s.phase s) (refl, c) (refl, c)

pub run-Counts :
    (target : ℕ) (steps : List Step) (s : Life)
    → Counts s.receiver.callbacks
    → Counts (run target steps s).receiver.callbacks
unfolding run
run-Counts target [] s c = c
run-Counts target (st ∷ steps) s c =
    run-Counts target steps (step target st s) (step-Moved target 0 st s c).1

pub held-run :
    (target ch : ℕ) (steps : List Step) (s : Life)
    → Counts s.receiver.callbacks
    → held ch (run target steps s).receiver + dropped target ch steps s
      ≡ held ch s.receiver + asked ch steps
unfolding run
held-run target ch [] s c = refl
held-run target ch (st ∷ steps) s c =
    let (e, c') = step-Moved target ch st s c in
    omega (arith, e, held-run target ch steps (step target st s) c')

-- However the goroutines of a streamer interleave, from NewNodeStreamer on, each callback that was
-- stored for a channel has been answered, or still waits, or was taken away by a Delete or by a Store
-- of the same request, and only one of these: a channel is given at most as many answers as callbacks
-- were stored for it.
pub callbacks_conserved :
    (target ch : ℕ) (steps : List Step) (m : Metrics)
    → let s = run target steps (new_life m) in
      (answered ch s.receiver.answers
          + waiting ch s.receiver.callbacks.entries
          + dropped target ch steps (new_life m)
        ≡ asked ch steps)
      × (answered ch s.receiver.answers ≤ asked ch steps)
      × (s.receiver.callbacks.pending ≡ length s.receiver.callbacks.entries % u64_mod)
callbacks_conserved target ch steps m =
    let e = held-run target ch steps (new_life m) c in
    (omega (arith, e), omega (arith, e), (run-Counts target steps (new_life m) c).exact)
  where
    c : Counts new_callback_map
    c = record { exact = omega arith; distinct = tt }
