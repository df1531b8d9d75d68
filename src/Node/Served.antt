-- ===== src/Node/Served.antt =====
-- internal/node/node.go: the node's calls and its aggregator together, as steps that come in any
-- order: a call that the node serves, the aggregator's receive from resultCh, its ticker, and the
-- close of `done`. What a wallet emits is any result.
pub mod Owed
pub mod Once
use actor_cluster.Prelude.{ℕ, String, Bool, true, false, List, [], ◌∷◌, Option, none, some}
use actor_cluster.Prelude.Tests.{if◌then◌else◌}
use actor_cluster.Persistence.{Store}
use actor_cluster.Discovery.Table.{NodeIp}
use actor_cluster.Node.Flush.{
  QueuedResult, Tick, result_arrives, ticker_fires, done_closed, Aggregator, aggregate,
}
use actor_cluster.Node.Runtime.{Node, new_node}
use actor_cluster.Node.Routes.{Call, call}
use actor_cluster.Node.Aggregate.{started}

pub record Served : Type 0 where
  pub node : Node
  pub aggregator : Aggregator

abbrev pub new_served : ℕ → Served
new_served limit = record { node = new_node limit; aggregator = started }

abbrev pub ticked : Tick → Served → Served
ticked t s = record s { aggregator = aggregate s.aggregator t }

-- `case pbRes := <-n.resultCh`, of a loop that runs.
abbrev pub take_result : List QueuedResult → Served → Served
take_result [] s = s
take_result (q ∷ rest) s = record {
  node = record s.node { result_ch = rest };
  aggregator = aggregate s.aggregator (result_arrives q);
}

module _ (st : Store) (resolver : Option (ℕ → ℕ → NodeIp)) (my_ip : String) where
  pub data Step : Type 0 where
    serves : Call st resolver my_ip → Step
    takes : Step
    ticks : Step
    done_is_closed : Step

  abbrev pub step : Step → Served → Served
  step (serves c) s = record s { node = call st resolver my_ip c s.node }
  step takes s = if s.aggregator.running then take_result s.node.result_ch s else s
  step ticks s = ticked ticker_fires s
  step done_is_closed s = ticked done_closed s

  abbrev pub run : List Step → Served → Served
  run [] s = s
  run (x ∷ steps) s = run steps (step x s)
