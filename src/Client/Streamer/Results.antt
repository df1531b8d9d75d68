-- ===== src/Client/Streamer/Results.antt =====
-- What the receiver does with the callbacks that wait, with their channels, and with the counters.
use mathlib.Core.Path.{subst}
use actor_cluster.Prelude.{
  ℕ, ◌+◌, ◌≡◌, refl, sym, ap, ◌∙◌, inl, inr, String, Bool, true, false, List, [], ◌∷◌, ◌++◌, Option,
  none, some, arith,
}
use actor_cluster.Prelude.Tests.{nat_eq, string_eq, ◌==◌, Option-cases, if◌then◌else◌}
use actor_cluster.Prelude.Words.{sub64}
use actor_cluster.Prelude.Dict.{Dict, lookup, delete, Distinct, delete_absent}
use actor_cluster.Message.{RemoteResult, err_transport_closed, err_stream_interrupted}
use actor_cluster.Client.Callbacks.{
  CallbackEntry, CallbackMap, Counts, load_and_delete, delete_callback, delete_callback-Counts,
}
use actor_cluster.Client.Metrics.{
  Metrics, answer, failed_result, fail_entries, fail_all, count_error, fail_entries-pending,
}
use actor_cluster.Client.Streamer.{
  Receiver, Arrival, results, end_of_stream, recv_failed, count_result, add_answer, complete,
  receive_result, receive_results, after_fail_all, fail_stream, receiver_loop,
}

abbrev to_channel : ℕ → ℕ → ℕ
to_channel ch c = if c == ch then 1 else 0

-- Whether a callback waits on the channel.
abbrev pub asks : ℕ → Option ℕ → ℕ
asks ch none = 0
asks ch (some c) = to_channel ch c

-- The callbacks that wait on a channel.
abbrev pub waiting : ℕ → Dict ℕ CallbackEntry → ℕ
waiting ch [] = 0
waiting ch ((req_id, entry) ∷ entries) = asks ch entry.resp_ch + waiting ch entries

-- The answers that a channel was given.
abbrev pub answered : ℕ → List (ℕ × RemoteResult) → ℕ
answered ch [] = 0
answered ch ((c, res) ∷ answers) = to_channel ch c + answered ch answers

pub answered-append :
    (ch : ℕ) (answers more : List (ℕ × RemoteResult))
    → answered ch (answers ++ more) ≡ answered ch answers + answered ch more
answered-append ch [] more = omega arith
answered-append ch ((c, res) ∷ answers) more = omega (arith, answered-append ch answers more)

abbrev pub asks_of : ℕ → Option CallbackEntry → ℕ
asks_of ch none = 0
asks_of ch (some entry) = asks ch entry.resp_ch

pub waiting-delete :
    (ch k : ℕ) (entries : Dict ℕ CallbackEntry)
    → Distinct entries
    → waiting ch entries ≡ asks_of ch (lookup k entries) + waiting ch (delete k entries)
unfolding lookup delete
waiting-delete ch k [] d = omega arith
waiting-delete ch k ((j, entry) ∷ entries) (fresh, d) = ground (
  arith,
  nat_eq.same_iff j k,
  waiting-delete ch k entries d,
  delete_absent j entries fresh,
  fresh,
)

answered-answer :
    (ch req_id : ℕ) (err_code : String) (entry : CallbackEntry) (rest : List (ℕ × RemoteResult))
    → answered ch (answer req_id err_code entry rest) ≡ asks ch entry.resp_ch + answered ch rest
answered-answer ch req_id err_code entry rest = at entry.resp_ch
  where
    at :
        (o : Option ℕ)
        → answered ch (elim o [ none ↦ rest | some c ↦ (c, failed_result req_id err_code) ∷ rest ])
          ≡ asks ch o + answered ch rest
    at none = omega arith
    at (some c) = refl

pub answered-fail_entries :
    (ch : ℕ) (err_code : String) (entries : Dict ℕ CallbackEntry) (pending : ℕ) (m : Metrics)
    → answered ch (fail_entries err_code entries pending m).answers ≡ waiting ch entries
unfolding fail_entries
answered-fail_entries ch err_code [] pending m = refl
answered-fail_entries ch err_code ((req_id, entry) ∷ entries) pending m = omega (
  arith,
  answered-answer ch req_id err_code entry _,
  answered-fail_entries ch err_code entries (sub64 pending 1) (count_error err_code m),
)

-- The answers that a channel was given and the callbacks that still wait on it.
abbrev pub held : ℕ → Receiver → ℕ
held ch r = answered ch r.answers + waiting ch r.callbacks.entries

answered-add_answer :
    (ch : ℕ) (o : Option ℕ) (res : RemoteResult) (answers : List (ℕ × RemoteResult))
    → answered ch (add_answer o res answers) ≡ answered ch answers + asks ch o
answered-add_answer ch none res answers = omega arith
answered-add_answer ch (some c) res answers =
    omega (arith, answered-append ch answers ((c, res) ∷ []))

held-complete :
    (ch now : ℕ) (res : RemoteResult) (sm : CallbackMap) (o : Option CallbackEntry) (r : Receiver)
    → held ch (complete now res (sm, o) r)
      ≡ answered ch r.answers + (asks_of ch o + waiting ch sm.entries)
held-complete ch now res sm none r = omega arith
held-complete ch now res sm (some entry) r =
    omega (arith, answered-add_answer ch entry.resp_ch res r.answers)

entries-load_and_delete :
    (k : ℕ) (sm : CallbackMap) → (load_and_delete k sm).0.entries ≡ delete k sm.entries
unfolding load_and_delete
entries-load_and_delete k sm = elim (Option-cases (lookup k sm.entries)) [
  | inl e ↦ rw (e) (sym (delete_absent k sm.entries e))
  | inr (entry, e) ↦ rw (e) refl
]

pub held-receive_result :
    (ch now : ℕ) (res : RemoteResult) (r : Receiver)
    → Distinct r.callbacks.entries
    → held ch (receive_result now res r) ≡ held ch r
unfolding receive_result load_and_delete
held-receive_result ch now res r d =
    held-complete ch now res (load_and_delete k r.callbacks).0 (lookup k r.callbacks.entries)
      (record r { metrics = count_result res r.metrics })
    ∙ ap
        (λ (es : Dict ℕ CallbackEntry).
          answered ch r.answers + (asks_of ch (lookup k r.callbacks.entries) + waiting ch es))
        (entries-load_and_delete k r.callbacks)
    ∙ ap (λ (n : ℕ). answered ch r.answers + n) (sym (waiting-delete ch k r.callbacks.entries d))
  where
    k : ℕ
    k = res.request_id

pub callbacks-receive_result :
    (now : ℕ) (res : RemoteResult) (r : Receiver)
    → (receive_result now res r).callbacks ≡ delete_callback res.request_id r.callbacks
unfolding receive_result load_and_delete delete_callback
callbacks-receive_result now res r = at (lookup res.request_id r.callbacks.entries)
  where
    at :
        (o : Option CallbackEntry)
        → (complete now res
            (delete_callback res.request_id r.callbacks, o)
            (record r { metrics = count_result res r.metrics })).callbacks
          ≡ delete_callback res.request_id r.callbacks
    at none = refl
    at (some entry) = refl

dead-receive_result :
    (now : ℕ) (res : RemoteResult) (r : Receiver) → (receive_result now res r).dead ≡ r.dead
unfolding receive_result load_and_delete
dead-receive_result now res r = at (lookup res.request_id r.callbacks.entries)
  where
    at :
        (o : Option CallbackEntry)
        → (complete now res
            ((load_and_delete res.request_id r.callbacks).0, o)
            (record r { metrics = count_result res r.metrics })).dead
          ≡ r.dead
    at none = refl
    at (some entry) = refl

-- The results of one response.
record Kept (ch : ℕ) (r r' : Receiver) : Type 0 where
  same_held : held ch r' ≡ held ch r
  counts : Counts r'.callbacks
  same_dead : r'.dead ≡ r.dead

receive_results-Kept :
    (ch now : ℕ) (ress : List RemoteResult) (r : Receiver)
    → Counts r.callbacks
    → Kept ch r (receive_results now ress r)
unfolding receive_results
receive_results-Kept ch now [] r c = record { same_held = refl; counts = c; same_dead = refl }
receive_results-Kept ch now (res ∷ ress) r c =
    let i = receive_results-Kept ch now ress (receive_result now res r) (
      subst Counts (sym (callbacks-receive_result now res r))
        (delete_callback-Counts res.request_id r.callbacks c)) in
    record {
      same_held = i.same_held ∙ held-receive_result ch now res r c.distinct;
      counts = i.counts;
      same_dead = i.same_dead ∙ dead-receive_result now res r;
    }

abbrev AnsweredAll : ℕ → ℕ → Receiver → Type 0
AnsweredAll ch n r =
    (answered ch r.answers ≡ n) × (r.callbacks.entries ≡ []) × (r.callbacks.pending ≡ 0)

fail_stream-AnsweredAll :
    (ch : ℕ) (err_code : String) (r : Receiver)
    → r.dead ≡ false
    → Counts r.callbacks
    → AnsweredAll ch (held ch r) (fail_stream err_code r)
unfolding fail_stream fail_all
fail_stream-AnsweredAll ch err_code r alive c =
    subst
      (λ (b : Bool).
        AnsweredAll ch (held ch r)
          (if b then r else after_fail_all (fail_all err_code r.callbacks r.metrics) r))
      (sym alive)
      (
        answered-append ch r.answers _
            ∙ ap (λ (n : ℕ). answered ch r.answers + n)
                (answered-fail_entries ch err_code r.callbacks.entries r.callbacks.pending
                  r.metrics),
        refl,
        fail_entries-pending err_code r.callbacks.entries r.callbacks.pending r.metrics c.exact,
      )

-- The responses of Recv, each with the time at which its results are handled.
abbrev pub arrivals : List (ℕ × List RemoteResult) → List Arrival → List Arrival
arrivals [] more = more
arrivals ((now, ress) ∷ rs) more = results now ress ∷ arrivals rs more

-- The arrivals at which receiverLoop calls `fail`.
abbrev pub is_failure : Arrival → Bool
is_failure (results now ress) = false
is_failure (end_of_stream cancelled) = if cancelled then false else true
is_failure recv_failed = true

-- On a stream that is not dead and whose callbacks are counted, when the receiver meets an arrival
-- at which it fails, after any responses, it returns, and then no callback is left, the count of the
-- pending callbacks is zero, and each channel has been given as many answers as it had been given
-- before and callbacks waited on it.
pub receiver_answers_all :
    (ch : ℕ) (rs : List (ℕ × List RemoteResult)) (last : Arrival) (r : Receiver)
    → is_failure last ≡ true
    → r.dead ≡ false
    → Counts r.callbacks
    → let (r', returned) = receiver_loop (arrivals rs (last ∷ [])) r in
      (returned ≡ true)
      × (answered ch r'.answers ≡ answered ch r.answers + waiting ch r.callbacks.entries)
      × (r'.callbacks.entries ≡ [])
      × (r'.callbacks.pending ≡ 0)
unfolding receiver_loop
receiver_answers_all ch [] recv_failed r fails alive c =
    let (n, es, p) = fail_stream-AnsweredAll ch err_stream_interrupted r alive c in (refl, n, es, p)
receiver_answers_all ch [] (results now ress) r fails alive c = ground (arith, fails)
receiver_answers_all ch [] (end_of_stream true) r fails alive c = ground (arith, fails)
receiver_answers_all ch [] (end_of_stream false) r fails alive c =
    let (n, es, p) = fail_stream-AnsweredAll ch err_transport_closed r alive c in (refl, n, es, p)
receiver_answers_all ch ((now, ress) ∷ rs) last r fails alive c =
    let i = receive_results-Kept ch now ress r c in
    let (e, n, es, p) =
      receiver_answers_all ch rs last (receive_results now ress r) fails (i.same_dead ∙ alive)
        i.counts in
    (e, n ∙ i.same_held, es, p)
