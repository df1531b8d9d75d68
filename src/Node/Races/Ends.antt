-- ===== src/Node/Races/Ends.antt =====
-- The retry of HandleBatch ends once the other goroutines leave the wallet alone.
use actor_cluster.Prelude.{ℕ, zero, suc, ◌≡◌, ◌⊎◌, Bool, true, some}
use actor_cluster.Message.{RemoteEnvelope}
use actor_cluster.Persistence.{Store}
use actor_cluster.Node.Keys.{actor_key_eq, result_route_key_eq}
use actor_cluster.Node.Runtime.{Node}
use actor_cluster.Node.Fate.{Fate}
use actor_cluster.Node.Races.{Others, with_route}

module _ (st : Store) (others : Others st.Db) where
  abbrev from_round : ℕ → ℕ → ℕ
  from_round zero round = round
  from_round (suc d) round = from_round d (suc round)

  -- How the retry has ended, with the node as it was at the last Send or refusal: a refusal of this
  -- request is queued for its sender, or it is the last message in its wallet's mailbox and its route
  -- is the sender's; or an actor has taken it that an eviction has just removed, and the route is the
  -- sender's.
  abbrev pub Ended : ℕ → RemoteEnvelope → Node × Bool → Type 0
  Ended k env r =
      (r.1 ≡ true) × ((m : Node) × (Fate k env m r.0 ⊎ (r.0 ≡ with_route (some k) env m)))
