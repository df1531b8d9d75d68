-- ===== src/Client/Life/Carried.antt =====
-- What holds of the requests that are stored and of the results that are received holds of the
-- callbacks and of the answers, after any steps.
use mathlib.Core.Path.{subst}
use actor_cluster.Prelude.{
  ℕ, ◌*◌, sym, inl, inr, String, ◌&&◌, List, [], ◌∷◌, ◌++◌, Option, none, some,
}
use actor_cluster.Prelude.Tests.{nat_eq, ◌==◌, both, ltb, Bool-cases}
use actor_cluster.Prelude.Lists.{length}
use actor_cluster.Prelude.Words.{sub64}
use actor_cluster.Prelude.Dict.{Dict, lookup, insert, delete}
use actor_cluster.Message.{RemoteResult}
use actor_cluster.Client.Callbacks.{
  CallbackEntry, CallbackMap, store, delete_callback, load_and_delete,
}
use actor_cluster.Client.Metrics.{Metrics, answer, failed_result, fail_entries, count_error}
use actor_cluster.Client.Streamer.{Receiver, add_answer, complete, receive_result}
use actor_cluster.Client.Streamer.Results.{callbacks-receive_result}
use actor_cluster.Client.Life.{
  Phase, alive, failing, failed, Life, Step, stores, offers, withdraws, flushes, receives,
  receive_ends, fails_shard, closes_transport, stop_called, stop_ends, of_shard, out_of_shard,
  fail_shard, begin_fail, next_shard, close_transport, is_done, step, run, shards, in_shard,
}
use actor_cluster.Client.Life.Keeps.{Keeps, step-flushes, step-receive_ends}
use actor_cluster.Client.Life.Conserved.{entries-delete_callback}

-- `Asks k ch` is to hold if channel ch waits for request k, `Comes res` of each result that is
-- received.
module _ (Asks : ℕ → ℕ → Type 0) (Comes : RemoteResult → Type 0) where
  abbrev pub Wants : ℕ → Option ℕ → Type 0
  Wants k none = Unit {0}
  Wants k (some ch) = Asks k ch

  abbrev pub AllWant : Dict ℕ CallbackEntry → Type 0
  AllWant [] = Unit {0}
  AllWant ((k, entry) ∷ entries) = Wants k entry.resp_ch × AllWant entries

  -- Each answer has come, and answers a request for which its channel waited.
  abbrev pub AllMatch : List (ℕ × RemoteResult) → Type 0
  AllMatch [] = Unit {0}
  AllMatch ((ch, res) ∷ answers) = (Asks res.request_id ch × Comes res) × AllMatch answers

  abbrev pub Matched : Receiver → Type 0
  Matched r = AllWant r.callbacks.entries × AllMatch r.answers

  -- What a step says of the requests and the results.
  abbrev pub Fits : Step → Type 0
  Fits (stores k entry) = Wants k entry.resp_ch
  Fits (receives now res) = Comes res
  Fits _ = Unit {0}

  abbrev pub AllFit : List Step → Type 0
  AllFit [] = Unit {0}
  AllFit (st ∷ steps) = Fits st × AllFit steps

  AllMatch-append :
      (answers more : List (ℕ × RemoteResult))
      → AllMatch answers
      → AllMatch more
      → AllMatch (answers ++ more)
  AllMatch-append [] more h h' = h'
  AllMatch-append ((ch, res) ∷ answers) more (h, hs) h' = (h, AllMatch-append answers more hs h')

  AllWant-insert :
      (k : ℕ) (entry : CallbackEntry) (entries : Dict ℕ CallbackEntry)
      → Wants k entry.resp_ch
      → AllWant entries
      → AllWant (insert k entry entries)
  unfolding insert
  AllWant-insert k entry [] w h = (w, tt)
  AllWant-insert k entry ((j, e) ∷ entries) w (h, hs) =
      both AllWant (j == k) (w, hs) (h, AllWant-insert k entry entries w hs)

  AllWant-delete :
      (k : ℕ) (entries : Dict ℕ CallbackEntry) → AllWant entries → AllWant (delete k entries)
  unfolding delete
  AllWant-delete k [] h = tt
  AllWant-delete k ((j, e) ∷ entries) (h, hs) =
      let rest = AllWant-delete k entries hs in both AllWant (j == k) rest (h, rest)

  AllWant-shard :
      (i : ℕ) (entries : Dict ℕ CallbackEntry)
      → AllWant entries
      → AllWant (of_shard i entries) × AllWant (out_of_shard i entries)
  unfolding of_shard out_of_shard
  AllWant-shard i [] h = (tt, tt)
  AllWant-shard i ((k, e) ∷ entries) (h, hs) =
      let (here, there) = AllWant-shard i entries hs in
      (both AllWant (in_shard i k) (h, here) here, both AllWant (in_shard i k) there (h, there))

  abbrev WantsOf : ℕ → Option CallbackEntry → Type 0
  WantsOf k none = Unit {0}
  WantsOf k (some entry) = Wants k entry.resp_ch

  lookup-WantsOf :
      (k : ℕ) (entries : Dict ℕ CallbackEntry) → AllWant entries → WantsOf k (lookup k entries)
  unfolding lookup
  lookup-WantsOf k [] h = tt
  lookup-WantsOf k ((j, entry) ∷ entries) (h, hs) = elim (Bool-cases (j == k)) [
    | inl same ↦ rw same (subst (λ (x : ℕ). Wants x entry.resp_ch) ((nat_eq.same_iff j k).0 same) h)
    | inr other ↦ rw other (lookup-WantsOf k entries hs)
  ]

  module _ (fails : (k : ℕ) (err_code : String) → Comes (failed_result k err_code)) where
    answer-AllMatch :
        (k : ℕ) (err_code : String) (entry : CallbackEntry) (answers : List (ℕ × RemoteResult))
        → Wants k entry.resp_ch
        → AllMatch answers
        → AllMatch (answer k err_code entry answers)
    answer-AllMatch k err_code entry answers w h = at entry.resp_ch w
      where
        at :
            (o : Option ℕ)
            → Wants k o
            → AllMatch
                (elim o [ none ↦ answers | some c ↦ (c, failed_result k err_code) ∷ answers ])
        at none w = h
        at (some c) w = ((w, fails k err_code), h)

    fail_entries-AllMatch :
        (err_code : String) (entries : Dict ℕ CallbackEntry) (pending : ℕ) (m : Metrics)
        → AllWant entries
        → AllMatch (fail_entries err_code entries pending m).answers
    unfolding fail_entries
    fail_entries-AllMatch err_code [] pending m h = tt
    fail_entries-AllMatch err_code ((k, entry) ∷ entries) pending m (w, h) =
        answer-AllMatch k err_code entry _ w
          (fail_entries-AllMatch err_code entries (sub64 pending 1) (count_error err_code m) h)

    fail_shard-Matched :
        (err_code : String) (i : ℕ) (r : Receiver) → Matched r → Matched (fail_shard err_code i r)
    unfolding fail_shard
    fail_shard-Matched err_code i r (w, h) =
        let (here, there) = AllWant-shard i r.callbacks.entries w in
        (there, AllMatch-append r.answers _ h (fail_entries-AllMatch err_code _ _ _ here))

    add_answer-AllMatch :
        (o : Option ℕ) (res : RemoteResult) (answers : List (ℕ × RemoteResult))
        → Wants res.request_id o
        → Comes res
        → AllMatch answers
        → AllMatch (add_answer o res answers)
    add_answer-AllMatch none res answers w c h = h
    add_answer-AllMatch (some ch) res answers w c h = AllMatch-append answers _ h ((w, c), tt)

    complete-AllMatch :
        (now : ℕ) (res : RemoteResult) (sm : CallbackMap) (o : Option CallbackEntry) (r : Receiver)
        → Comes res
        → WantsOf res.request_id o
        → AllMatch r.answers
        → AllMatch (complete now res (sm, o) r).answers
    complete-AllMatch now res sm none r c w h = h
    complete-AllMatch now res sm (some entry) r c w h =
        add_answer-AllMatch entry.resp_ch res r.answers w c h

    delete_callback-AllWant :
        (k : ℕ) (sm : CallbackMap) → AllWant sm.entries → AllWant (delete_callback k sm).entries
    delete_callback-AllWant k sm h =
        subst AllWant (sym (entries-delete_callback k sm)) (AllWant-delete k sm.entries h)

    receive_result-Matched :
        (now : ℕ) (res : RemoteResult) (r : Receiver)
        → Comes res
        → Matched r
        → Matched (receive_result now res r)
    receive_result-Matched now res r c (w, h) = (
      subst (λ (sm : CallbackMap). AllWant sm.entries) (sym (callbacks-receive_result now res r))
          (delete_callback-AllWant res.request_id r.callbacks w),
      unfold receive_result load_and_delete in
          complete-AllMatch now res _ (lookup res.request_id r.callbacks.entries) _ c
            (lookup-WantsOf res.request_id r.callbacks.entries w) h,
    )

    abbrev pub IsMatched : Life → Type 0
    IsMatched s = Matched s.receiver

    begin_fail-IsMatched :
        (err_code : String) (p : Phase) (s : Life)
        → IsMatched s
        → IsMatched (begin_fail err_code p s)
    begin_fail-IsMatched err_code alive s h = h
    begin_fail-IsMatched err_code (failing code next) s h = h
    begin_fail-IsMatched err_code failed s h = h

    IsMatched-Keeps : Keeps IsMatched
    IsMatched-Keeps = record {
      flusher = λ f s h. h;
      queue = λ queue s h. h;
      leaves = λ s h. h;
      begins = λ err_code s h. begin_fail-IsMatched err_code s.phase s h;
    }

    next_shard-IsMatched : (p : Phase) (s : Life) → IsMatched s → IsMatched (next_shard p s)
    next_shard-IsMatched alive s h = h
    next_shard-IsMatched (failing err_code next) s h =
        both IsMatched (ltb next shards) (fail_shard-Matched err_code next s.receiver h) h
    next_shard-IsMatched failed s h = h

    close_transport-IsMatched :
        (p : Phase) (s : Life) → IsMatched s → IsMatched (close_transport p s)
    close_transport-IsMatched alive s h = h
    close_transport-IsMatched (failing err_code next) s h = both IsMatched (ltb next shards) h h
    close_transport-IsMatched failed s h = h

    step-IsMatched :
        (target : ℕ) (st : Step) (s : Life) → Fits st → IsMatched s → IsMatched (step target st s)
    unfolding step store
    step-IsMatched target (stores k entry) s f (w, h) =
        (AllWant-insert k entry s.receiver.callbacks.entries f w, h)
    step-IsMatched target (offers env) s f h =
        both IsMatched (ltb (length s.queue) (target * 2)) h h
    step-IsMatched target (withdraws k) s f (w, h) =
        (delete_callback-AllWant k s.receiver.callbacks w, h)
    step-IsMatched target (flushes wake) s f h =
        step-flushes IsMatched IsMatched-Keeps target wake s h
    step-IsMatched target (receives now res) s f h =
        both IsMatched s.receiving (receive_result-Matched now res s.receiver f h) h
    step-IsMatched target (receive_ends ending) s f h =
        step-receive_ends IsMatched IsMatched-Keeps target ending s h
    step-IsMatched target fails_shard s f h = next_shard-IsMatched s.phase s h
    step-IsMatched target closes_transport s f h = close_transport-IsMatched s.phase s h
    step-IsMatched target stop_called s f h = both IsMatched s.receiver.dead h h
    step-IsMatched target stop_ends s f h = both IsMatched (s.stopping && is_done s.phase s) h h

    pub run-IsMatched :
        (target : ℕ) (steps : List Step) (s : Life)
        → AllFit steps
        → IsMatched s
        → IsMatched (run target steps s)
    unfolding run
    run-IsMatched target [] s f h = h
    run-IsMatched target (st ∷ steps) s (f, fs) h =
        run-IsMatched target steps (step target st s) fs (step-IsMatched target st s f h)
