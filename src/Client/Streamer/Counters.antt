-- ===== src/Client/Streamer/Counters.antt =====
-- How the receiver counts the results.
use actor_cluster.Prelude.{
  ℕ, ◌+◌, ◌%◌, ◌<◌, ◌≡◌, refl, inl, inr, ◌||◌, List, [], ◌∷◌, Option, none, some, arith,
}
use actor_cluster.Prelude.Tests.{nat_eq, nat_beq, string_eq, Bool-cases, if◌then◌else◌}
use actor_cluster.Prelude.Words.{u64_mod, is_neg}
use actor_cluster.Message.{RemoteResult}
use actor_cluster.Client.Callbacks.{CallbackEntry, CallbackMap, load_and_delete}
use actor_cluster.Client.Metrics.{Metrics, record_error, record_latency}
use actor_cluster.Client.Streamer.{
  Receiver, count_result, complete, receive_result, receive_results,
}

-- The results that report success, and the others.
abbrev pub successes : List RemoteResult → ℕ
successes [] = 0
successes (res ∷ ress) = (if res.success then 1 else 0) + successes ress

abbrev pub failures : List RemoteResult → ℕ
failures [] = 0
failures (res ∷ ress) = (if res.success then 0 else 1) + failures ress

abbrev Counted : ℕ → ℕ → Metrics → Metrics → Type 0
Counted good bad m m' =
    (m'.resp_recv ≡ (m.resp_recv + good) % u64_mod) × (m'.err_count ≡ (m.err_count + bad) % u64_mod)

count_result-Counted :
    (res : RemoteResult) (m : Metrics)
    → m.resp_recv < u64_mod
    → m.err_count < u64_mod
    → Counted (if res.success then 1 else 0) (if res.success then 0 else 1) m (count_result res m)
unfolding record_error
count_result-Counted res m small few = elim (Bool-cases res.success) [
  | inl e ↦ rw (e) (refl, omega (arith, few))
  | inr e ↦ rw (e) (omega (arith, small), refl)
]

record_latency-Counted :
    (d good bad : ℕ) (m m' : Metrics)
    → Counted good bad m m'
    → Counted good bad m (record_latency d m')
unfolding record_latency
record_latency-Counted d good bad m m' c = elim (Bool-cases (is_neg d || nat_beq d 0)) [
  | inl e ↦ rw (e) c
  | inr e ↦ rw (e) c
]

complete-Counted :
    (now good bad : ℕ) (res : RemoteResult) (m : Metrics)
    (taken : CallbackMap × Option CallbackEntry) (r : Receiver)
    → Counted good bad m r.metrics
    → Counted good bad m (complete now res taken r).metrics
complete-Counted now good bad res m (sm, none) r c = c
complete-Counted now good bad res m (sm, some entry) r c =
    record_latency-Counted _ good bad m r.metrics c

-- Over the results of a response, with counters that are uint64 words, the counter of the responses
-- grows by the results that report success and the counter of the errors by the others, modulo
-- 2 ^ 64, whether or not a callback waits for them.
pub receive_results_count :
    (now : ℕ) (ress : List RemoteResult) (r : Receiver)
    → r.metrics.resp_recv < u64_mod
    → r.metrics.err_count < u64_mod
    → let m' = (receive_results now ress r).metrics in
      (m'.resp_recv ≡ (r.metrics.resp_recv + successes ress) % u64_mod)
      × (m'.err_count ≡ (r.metrics.err_count + failures ress) % u64_mod)
unfolding receive_results receive_result
receive_results_count now [] r small few = (omega (arith, small), omega (arith, few))
receive_results_count now (res ∷ ress) r small few =
    let (a, b) =
      complete-Counted now (if res.success then 1 else 0) (if res.success then 0 else 1) res
        r.metrics (load_and_delete res.request_id r.callbacks)
        (record r { metrics = count_result res r.metrics })
        (count_result-Counted res r.metrics small few) in
    let (c, d) =
      receive_results_count now ress (receive_result now res r) (omega (arith, a))
        (omega (arith, b)) in
    (omega (arith, a, c), omega (arith, b, d))
