-- ===== src/Node/Served/Once.antt =====
-- No stream is given more answers to a request than it asked for.
use actor_cluster.Prelude.{ℕ, ◌+◌, ◌≤◌, ◌≡◌, refl, ap, ◌∙◌, String, List, [], ◌∷◌, Option, arith}
use actor_cluster.Prelude.Tests.{string_eq, both}
use actor_cluster.Prelude.Dict.{lookup}
use actor_cluster.Persistence.{Store}
use actor_cluster.Discovery.Table.{NodeIp}
use actor_cluster.Node.Keys.{ResultRouteKey, actor_key_eq, result_route_key_eq}
use actor_cluster.Node.Flush.{QueuedResult, result_arrives, Aggregator, flushed, collect, aggregate}
use actor_cluster.Node.Aggregate.{due, due-flushed, due-collect}
use actor_cluster.Node.Delivery.{result_for, results_for, sent_to}
use actor_cluster.Node.Served.{
  Served, new_served, Step, serves, takes, ticks, done_is_closed, take_result, step, run,
}
use actor_cluster.Node.Served.Owed.{
  of_request, of_request-append, routed, owed, asks_for, call-owed,
}

module _ (k : ℕ) (rk : ResultRouteKey) (st : Store) (resolver : Option (ℕ → ℕ → NodeIp))
    (my_ip : String) where
  abbrev one_asks : Step st resolver my_ip → ℕ
  one_asks (serves c) = asks_for k rk st resolver my_ip c
  one_asks _ = 0

  abbrev pub requests : List (Step st resolver my_ip) → ℕ
  requests [] = 0
  requests (x ∷ steps) = one_asks x + requests steps

  -- The answers that stream k has got, or that wait in the aggregator's slice.
  abbrev pub given : Aggregator → ℕ
  given a = of_request rk (due k a)

  total : Served → ℕ
  total s = given s.aggregator + owed k rk s.node

  flushed-given : (a : Aggregator) → given (flushed a) ≡ given a
  flushed-given a = ap (of_request rk) (due-flushed k a)

  collect-given :
      (q : QueuedResult) (a : Aggregator)
      → given (collect q a) ≡ given a + of_request rk (result_for k q)
  collect-given q a =
      ap (of_request rk) (due-collect k q a) ∙ of_request-append rk (due k a) (result_for k q)

  arrives-given :
      (q : QueuedResult) (a : Aggregator)
      → given (aggregate a (result_arrives q)) ≤ given a + of_request rk (result_for k q)
  unfolding aggregate
  arrives-given q a =
      both (λ (b : Aggregator). given b ≤ given a + of_request rk (result_for k q)) a.running
        (omega (arith, collect-given q a)) (omega arith)

  take_result-total :
      (ch : List QueuedResult) (s : Served)
      → s.node.result_ch ≡ ch
      → total (take_result ch s) ≤ total s
  unfolding total
  take_result-total [] s e = omega arith
  take_result-total (q ∷ rest) s e = omega (
    arith,
    arrives-given q s.aggregator,
    ap (λ (qs : List QueuedResult). of_request rk (results_for k qs)) e,
    of_request-append rk (result_for k q) (results_for k rest),
  )

  step-total :
      (x : Step st resolver my_ip) (s : Served)
      → total (step st resolver my_ip x s) ≤ total s + one_asks x
  unfolding total aggregate
  step-total (serves c) s = omega (arith, call-owed k rk st resolver my_ip c s.node)
  step-total takes s =
      both (λ (s' : Served). total s' ≤ total s + 0) s.aggregator.running
        (omega (arith, take_result-total s.node.result_ch s refl)) (omega arith)
  step-total ticks s =
      both (λ (a : Aggregator). given a + owed k rk s.node ≤ total s + 0) s.aggregator.running
        (omega (arith, flushed-given s.aggregator)) (omega arith)
  step-total done_is_closed s =
      both (λ (a : Aggregator). given a + owed k rk s.node ≤ total s + 0) s.aggregator.running
        (omega (arith, flushed-given s.aggregator)) (omega arith)

  run-total :
      (steps : List (Step st resolver my_ip)) (s : Served)
      → total (run st resolver my_ip steps s) ≤ total s + requests steps
  run-total [] s = omega arith
  run-total (x ∷ steps) s =
      omega (arith, step-total x s, run-total steps (step st resolver my_ip x s))

-- From a new node on, in whatever order it serves envelopes, emits results, drains, evicts and
-- passivates actors, and its aggregator receives, flushes and stops: the answers to a request that a
-- stream has got, those that wait for it in the aggregator's slice and in resultCh, and the one that
-- its reply route stands for, are together at most as many as the envelopes of the request that came
-- from that stream.
pub answered_at_most_once :
    (k : ℕ) (rk : ResultRouteKey) (st : Store) (resolver : Option (ℕ → ℕ → NodeIp)) (my_ip : String)
    (limit : ℕ) (steps : List (Step st resolver my_ip))
    → let s = run st resolver my_ip steps (new_served limit) in
      of_request rk (sent_to k s.aggregator.out)
        + of_request rk (results_for k s.aggregator.batch)
        + of_request rk (results_for k s.node.result_ch)
        + routed k rk (lookup rk s.node.reply_routes)
      ≤ requests k rk st resolver my_ip steps
unfolding total lookup
answered_at_most_once k rk st resolver my_ip limit steps =
    let s = run st resolver my_ip steps (new_served limit) in
    omega (
      arith,
      run-total k rk st resolver my_ip steps (new_served limit),
      of_request-append rk (sent_to k s.aggregator.out) (results_for k s.aggregator.batch),
    )
