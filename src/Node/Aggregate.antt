-- ===== src/Node/Aggregate.antt =====
-- The aggregator over a whole run, to the close of `done`; the sizes of what it sends.
use mathlib.Core.List.{append_assoc, append-nil}
use actor_cluster.Prelude.{
  ℕ, zero, suc, ◌<◌, ◌≤◌, ◌≡◌, refl, sym, ap, ◌∙◌, inl, inr, Bool, true, false, List, [], ◌∷◌, ◌++◌,
  map, arith,
}
use actor_cluster.Prelude.Tests.{nat_eq, leb, Bool-cases, if◌then◌else◌}
use actor_cluster.Prelude.Lists.{length, drop, length-take}
use actor_cluster.Prelude.Dict.{Dict}
use actor_cluster.Message.{RemoteResult, BatchResponse}
use actor_cluster.Node.Flush.{
  QueuedResult, max_batch_size, group_results, chunks, send_groups, flush, Tick, result_arrives,
  ticker_fires, done_closed, Aggregator, flushed, collect, on_tick, aggregate,
}
use actor_cluster.Node.Delivery.{
  result_for, results_for, sent_to, sent_to-append, results_for-append, sent_to-flush,
}

-- The results that reach the aggregator before `done` is closed.
abbrev pub arrived : List Tick → List QueuedResult
arrived [] = []
arrived (result_arrives q ∷ ts) = q ∷ arrived ts
arrived (ticker_fires ∷ ts) = arrived ts
arrived (done_closed ∷ ts) = []

abbrev pub aggregate_all : Aggregator → List Tick → Aggregator
aggregate_all a [] = a
aggregate_all a (t ∷ ts) = aggregate_all (aggregate a t) ts

-- What stream k has got or will get by the next flush.
abbrev pub due : ℕ → Aggregator → List RemoteResult
due k a = sent_to k a.out ++ results_for k a.batch

pub due-flushed : (k : ℕ) (a : Aggregator) → due k (flushed a) ≡ due k a
due-flushed k a =
    append-nil (sent_to k (a.out ++ flush a.batch))
    ∙ sent_to-append k a.out (flush a.batch)
    ∙ ap (λ (ress : List RemoteResult). sent_to k a.out ++ ress) (sent_to-flush k a.batch)

pub due-collect :
    (k : ℕ) (q : QueuedResult) (a : Aggregator) → due k (collect q a) ≡ due k a ++ result_for k q
due-collect k q a = elim (Bool-cases (leb max_batch_size (length (a.batch ++ q ∷ [])))) [
  | inl e ↦ rw e (due-flushed k (record a { batch = a.batch ++ q ∷ [] }) ∙ added)
  | inr e ↦ rw e added
]
  where
    added : due k (record a { batch = a.batch ++ q ∷ [] }) ≡ due k a ++ result_for k q
    added =
        ap (λ (ress : List RemoteResult). sent_to k a.out ++ ress)
          (results_for-append k a.batch (q ∷ [])
            ∙ ap (λ (ress : List RemoteResult). results_for k a.batch ++ ress)
                (append-nil (result_for k q)))
        ∙ sym (append_assoc (sent_to k a.out) (results_for k a.batch) (result_for k q))

running-collect : (q : QueuedResult) (a : Aggregator) → (collect q a).running ≡ a.running
running-collect q a = elim (Bool-cases (leb max_batch_size (length (a.batch ++ q ∷ [])))) [
  | inl e ↦ rw e refl
  | inr e ↦ rw e refl
]

aggregate_running : (a : Aggregator) (t : Tick) → a.running ≡ true → aggregate a t ≡ on_tick t a
unfolding aggregate
aggregate_running a t h = ap (λ (b : Bool). if b then on_tick t a else a) h

aggregate_closed : (a : Aggregator) (t : Tick) → a.running ≡ false → aggregate a t ≡ a
unfolding aggregate
aggregate_closed a t h = ap (λ (b : Bool). if b then on_tick t a else a) h

-- Nothing happens once the loop has returned.
aggregate_all_closed :
    (a : Aggregator) (ts : List Tick) → a.running ≡ false → aggregate_all a ts ≡ a
aggregate_all_closed a [] h = refl
aggregate_all_closed a (t ∷ ts) h =
    ap (λ (b : Aggregator). aggregate_all b ts) (aggregate_closed a t h)
    ∙ aggregate_all_closed a ts h

-- All that stream k is sent when `done` is closed after the ticks.
abbrev outcome : ℕ → List Tick → Aggregator → List RemoteResult
outcome k ts a = sent_to k (aggregate_all a (ts ++ done_closed ∷ [])).out

due_at_end : (k : ℕ) (a : Aggregator) → sent_to k (flushed a).out ≡ due k a ++ []
due_at_end k a =
    sent_to-append k a.out (flush a.batch)
    ∙ ap (λ (ress : List RemoteResult). sent_to k a.out ++ ress) (sent_to-flush k a.batch)
    ∙ sym (append-nil (due k a))

aggregate_all-due :
    (k : ℕ) (a : Aggregator) (ts : List Tick)
    → a.running ≡ true
    → outcome k ts a ≡ due k a ++ results_for k (arrived ts)
aggregate_all-due k a [] h =
    ap (λ (b : Aggregator). sent_to k b.out) (aggregate_running a done_closed h) ∙ due_at_end k a
aggregate_all-due k a (result_arrives q ∷ ts) h =
    ap (outcome k ts) (aggregate_running a (result_arrives q) h)
    ∙ aggregate_all-due k (collect q a) ts (running-collect q a ∙ h)
    ∙ ap (λ (ress : List RemoteResult). ress ++ results_for k (arrived ts)) (due-collect k q a)
    ∙ append_assoc (due k a) (result_for k q) (results_for k (arrived ts))
aggregate_all-due k a (ticker_fires ∷ ts) h =
    ap (outcome k ts) (aggregate_running a ticker_fires h)
    ∙ aggregate_all-due k (flushed a) ts h
    ∙ ap (λ (ress : List RemoteResult). ress ++ results_for k (arrived ts)) (due-flushed k a)
aggregate_all-due k a (done_closed ∷ ts) h =
    ap (outcome k ts) (aggregate_running a done_closed h)
    ∙ ap (λ (b : Aggregator). sent_to k b.out)
        (aggregate_all_closed (record (flushed a) { running = false }) (ts ++ done_closed ∷ [])
          refl)
    ∙ due_at_end k a

abbrev pub started : Aggregator
started = record { batch = []; out = []; running = true }

-- Whatever the order of results and ticks, when the aggregator has returned each stream has got
-- exactly the results for it that reached the loop before the close of `done`, in their order.
pub aggregator_delivers :
    (k : ℕ) (ts : List Tick)
    → sent_to k (aggregate_all started (ts ++ done_closed ∷ [])).out ≡ results_for k (arrived ts)
aggregator_delivers k ts = aggregate_all-due k started ts refl

-- Every response holds at least one result, and at most a thousand.
abbrev pub Sized : List (ℕ × BatchResponse) → Type 0
Sized [] = Unit {0}
Sized ((j, b) ∷ out) = (0 < length b.results) × (length b.results ≤ max_batch_size) × Sized out

Sized-append : (xs ys : List (ℕ × BatchResponse)) → Sized xs → Sized ys → Sized (xs ++ ys)
Sized-append [] ys hx hy = hy
Sized-append ((j, b) ∷ xs) ys (some_one, few, hx) hy = (some_one, few, Sized-append xs ys hx hy)

chunks-Sized :
    (j fuel : ℕ) (ress : List RemoteResult)
    → Sized (map (λ (b : BatchResponse). (j, b)) (chunks fuel ress))
unfolding chunks
chunks-Sized j zero ress = tt
chunks-Sized j (suc fuel) [] = tt
chunks-Sized j (suc fuel) (r ∷ ress) = (
  omega (arith, length-take max_batch_size (r ∷ ress)),
  omega (arith, length-take max_batch_size (r ∷ ress)),
  chunks-Sized j fuel (drop max_batch_size (r ∷ ress)),
)

send_groups-Sized : (m : Dict ℕ (List RemoteResult)) → Sized (send_groups m)
unfolding send_groups
send_groups-Sized [] = tt
send_groups-Sized ((j, ress) ∷ m) =
    Sized-append _ (send_groups m) (chunks-Sized j (length ress) ress) (send_groups-Sized m)

-- Every response that a flush sends holds at least one result and at most a thousand.
pub flush-Sized : (batch : List QueuedResult) → Sized (flush batch)
unfolding flush
flush-Sized batch = send_groups-Sized (group_results [] batch)
