-- ===== src/Process.antt =====
-- What cmd/node and cmd/client do from start to end: which resources a command opens and closes, and
-- what it does with them, as a list of actions. What the network, etcd and Cassandra answer are
-- arguments; an error is its text. A call that is deferred stands where Go runs it: after the rest
-- of the function, also when that panics. Of the goroutines that main starts is shown that one
-- panics: the process dies there, and no deferred call runs.
pub mod NodeMain
pub mod ClientMain
pub mod Unwind
pub mod Serving
mod Tests
use actor_cluster.Prelude.{String, Bool, true, false, List, [], ◌∷◌, ◌++◌, Option, none, some}
use actor_cluster.Prelude.Tests.{if◌then◌else◌}

pub data Resource : Type 0 where
  signal_context etcd_client cassandra_store client_router metrics_reporter run_context : Resource

pub data Action : Type 0 where
  opens closes : Resource → Action
  -- cmd/node: the explicit call of stop() is `releases_signal`.
  -- `deregister_failed` is the call that returned an error.
  registers deregisters deregister_failed : String → Action
  listens serves waits_for_signal releases_signal shuts_metrics graceful_stop stops_node : Action
  -- both
  watches : Action
  -- cmd/client
  generates drains serves_http : Action
  -- A goroutine panics, and the process dies.
  dies : Action

-- What a function did, the error that it returned or panicked with, and whether the process died in
-- it.
pub record Ran : Type 0 where
  pub actions : List Action
  pub failure : Option String
  pub died : Bool

abbrev pub fails : String → Ran
fails e = record { actions = []; failure = some e; died = false }

-- More actions, and then the rest.
abbrev pub first_do : Action → Ran → Ran
first_do a r = record r { actions = a ∷ r.actions }

-- A resource that is opened for the rest and closed by a deferred call, which a dead process does not
-- run.
abbrev pub with_deferred : Resource → Ran → Ran
with_deferred resource r = record r {
  actions = opens resource ∷ (if r.died then r.actions else r.actions ++ closes resource ∷ []);
}
