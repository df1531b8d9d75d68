-- ===== src/Node/Flush.antt =====
-- internal/node/node.go: aggregatorLoop. A BatchSender is a number: the identity of its stream.
use actor_cluster.Prelude.{ℕ, zero, suc, Bool, false, List, [], ◌∷◌, ◌++◌, map, Option, none, some}
use actor_cluster.Prelude.Tests.{nat_eq, leb, if◌then◌else◌}
use actor_cluster.Prelude.Lists.{length, take, drop}
use actor_cluster.Prelude.Dict.{Dict, lookup, insert}
use actor_cluster.Message.{RemoteResult, BatchResponse}

pub record QueuedResult : Type 0 where
  pub res : Option RemoteResult
  pub reply : Option ℕ

abbrev pub max_batch_size : ℕ
max_batch_size = 1000

abbrev pub or_nil : Option (List RemoteResult) → List RemoteResult
or_nil none = []
or_nil (some ress) = ress

-- groups[key] of a missing key is nil.
abbrev pub group_of : ℕ → Dict ℕ (List RemoteResult) → List RemoteResult
group_of k groups = or_nil (lookup k groups)

abbrev pub add_to_group : QueuedResult → Dict ℕ (List RemoteResult) → Dict ℕ (List RemoteResult)
add_to_group q groups = elim q.reply [
  | none ↦ groups
  | some k ↦ elim q.res [
    | none ↦ groups
    | some res ↦ insert k (group_of k groups ++ res ∷ []) groups
  ]
]

-- `for _, q := range batch`
unfoldable pub group_results :
    Dict ℕ (List RemoteResult) → List QueuedResult → Dict ℕ (List RemoteResult)
group_results groups [] = groups
group_results groups (q ∷ batch) = group_results (add_to_group q groups) batch

-- `for start := 0; …`: the chunks of what is left of a group, for at most as many rounds as the fuel.
unfoldable pub chunks : ℕ → List RemoteResult → List BatchResponse
chunks zero ress = []
chunks (suc fuel) [] = []
chunks (suc fuel) (r ∷ ress) =
    record { results = take max_batch_size (r ∷ ress) }
    ∷ chunks fuel (drop max_batch_size (r ∷ ress))

-- The responses in the order in which they are sent, each with its stream. A group's length is fuel
-- enough for its chunks.
unfoldable pub send_groups : Dict ℕ (List RemoteResult) → List (ℕ × BatchResponse)
unfolding chunks
send_groups [] = []
send_groups ((k, ress) ∷ groups) =
    map (λ (b : BatchResponse). (k, b)) (chunks (length ress) ress) ++ send_groups groups

unfoldable pub flush : List QueuedResult → List (ℕ × BatchResponse)
unfolding group_results send_groups
flush batch = send_groups (group_results [] batch)

-- What the aggregator's select meets.
pub data Tick : Type 0 where
  result_arrives : QueuedResult → Tick
  ticker_fires : Tick
  done_closed : Tick

-- `batch`, the responses sent so far, and whether the loop goes on.
pub record Aggregator : Type 0 where
  pub batch : List QueuedResult
  pub out : List (ℕ × BatchResponse)
  pub running : Bool

abbrev pub flushed : Aggregator → Aggregator
flushed a = record a { batch = []; out = a.out ++ flush a.batch }

abbrev pub collect : QueuedResult → Aggregator → Aggregator
collect q a =
    let a' = record a { batch = a.batch ++ q ∷ [] } in
    if leb max_batch_size (length a'.batch) then flushed a' else a'

abbrev pub on_tick : Tick → Aggregator → Aggregator
on_tick (result_arrives q) a = collect q a
on_tick ticker_fires a = flushed a
on_tick done_closed a = record (flushed a) { running = false }

unfoldable pub aggregate : Aggregator → Tick → Aggregator
aggregate a t = if a.running then on_tick t a else a
