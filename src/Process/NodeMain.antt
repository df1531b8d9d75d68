-- ===== src/Process/NodeMain.antt =====
-- cmd/node/main.go: resolveMyIP, main and handleMetrics. net.SplitHostPort and net.JoinHostPort are
-- parameters, of the first only whether it accepts.
use actor_cluster.Prelude.{
  ℕ, zero, suc, String, Bool, true, false, List, [], ◌∷◌, Option, none, some,
}
use actor_cluster.Prelude.Tests.{string_eq, ◌==◌, if◌then◌else◌}
use actor_cluster.Prelude.Text.{◌^^◌, show_u64}
use actor_cluster.Prelude.Affixes.{trim_prefix}
use actor_cluster.Process.{
  signal_context, etcd_client, cassandra_store, Action, registers, deregisters, deregister_failed,
  dies, watches, listens, serves, waits_for_signal, releases_signal, shuts_metrics, graceful_stop,
  stops_node, Ran, fails, first_do, with_deferred,
}

-- The local address of a UDP socket, or the error of the dial.
pub data Probe : Type 0 where
  local_ip : String → Probe
  dial_failed : String → Probe

pub data Resolved : Type 0 where
  resolved : String → Resolved
  unresolved : String → Resolved

module _ (splits : String → Bool) (join_host_port : String → String → String) where
  abbrev pub probed : String → Probe → Resolved
  probed clean_port (local_ip ip) = resolved (join_host_port ip clean_port)
  probed clean_port (dial_failed e) = unresolved ("UDP probe failed: " ^^ e)

  unfoldable pub resolve_my_ip : (flag_ip port pod_ip : String) → Probe → Resolved
  unfolding trim_prefix
  resolve_my_ip flag_ip port pod_ip probe =
      let clean_port = trim_prefix port ":" in
      if flag_ip == ""
      then if pod_ip == ""
        then probed clean_port probe
        else resolved (join_host_port pod_ip clean_port)
      else resolved (if splits flag_ip then flag_ip else join_host_port flag_ip clean_port)

-- What main meets; `none` is a call without an error. The errors of Deregister and of the metrics
-- server's Shutdown are only logged; that of Shutdown changes nothing. A goroutine that panics
-- (grpcServer.Serve and metricsServer.ListenAndServe, each when it fails, or a handler) ends the
-- process: `crash` is what it panicked with, and how many actions main has done since it started the
-- servers.
pub record NodeOutcome : Type 0 where
  pub ip : Resolved
  pub cassandra : Option String
  pub etcd : Option String
  pub register : Option String
  pub watch : Option String
  pub listen : Option String
  pub deregister : Option String
  pub crash : Option (ℕ × String)

-- registry.Deregister.
abbrev pub deregistration : Option String → String → Action
deregistration none ip = deregisters ip
deregistration (some e) ip = deregister_failed ip

-- After `<-ctx.Done()`.
abbrev pub shutdown : Option String → String → Ran
shutdown deregister ip = record {
  actions =
      releases_signal
      ∷ deregistration deregister ip
      ∷ shuts_metrics
      ∷ graceful_stop
      ∷ stops_node
      ∷ [];
  failure = none;
  died = false;
}

-- The first k actions, and then the process dies.
unfoldable pub cut : ℕ → List Action → List Action
cut zero actions = dies ∷ []
cut (suc k) [] = dies ∷ []
cut (suc k) (a ∷ actions) = let rest = cut k actions in a ∷ rest

abbrev pub or_crash : Option (ℕ × String) → Ran → Ran
or_crash none r = r
or_crash (some (k, e)) r = record { actions = cut k r.actions; failure = some e; died = true }

abbrev pub or_panic : Option String → Ran → Ran
or_panic none r = r
or_panic (some e) r = fails e

abbrev pub serve_until_signal : NodeOutcome → String → Ran
serve_until_signal o ip = or_panic o.listen (
    first_do listens
      (first_do serves (or_crash o.crash (first_do waits_for_signal (shutdown o.deregister ip)))))

abbrev pub with_topology : NodeOutcome → String → Ran
with_topology o ip =
    or_panic o.register
      (first_do (registers ip) (or_panic o.watch (first_do watches (serve_until_signal o ip))))

abbrev pub with_stores : NodeOutcome → String → Ran
with_stores o ip = or_panic o.cassandra (
    with_deferred cassandra_store
      (or_panic o.etcd (with_deferred etcd_client (with_topology o ip))))

abbrev pub with_address : NodeOutcome → Resolved → Ran
with_address o (unresolved e) = fails e
with_address o (resolved ip) = with_stores o ip

-- main
unfoldable pub node_main : NodeOutcome → Ran
node_main o = with_deferred signal_context (with_address o o.ip)

pub record NodeCounters : Type 0 where
  pub mailbox_pending : ℕ
  pub handle_ns_sum : ℕ
  pub handle_ns_count : ℕ
  pub write_ns_sum : ℕ
  pub write_ns_count : ℕ

-- The three lines of a metric.
abbrev pub metric : (name kind help : String) → ℕ → String
metric name kind help value =
    "# HELP "
    ^^ name
    ^^ " "
    ^^ help
    ^^ "\n# TYPE "
    ^^ name
    ^^ " "
    ^^ kind
    ^^ "\n"
    ^^ name
    ^^ " "
    ^^ show_u64 value
    ^^ "\n"

-- The status and the body of the reply; the Bool tells whether the method is GET.
unfoldable pub handle_metrics : Bool → NodeCounters → ℕ × String
handle_metrics false c = (405, "method not allowed\n")
handle_metrics true c = (
  200,
  metric "node_actor_mailbox_pending" "gauge"
        "Total number of envelopes currently waiting across all actor mailboxes within this node process."
        c.mailbox_pending
      ^^ metric "node_handle_duration_ns_sum" "counter"
          "Cumulative total nanoseconds spent inside handler.Handle(env) in this node process."
          c.handle_ns_sum
      ^^ metric "node_handle_duration_ns_count" "counter"
          "Total number of handler.Handle(env) calls in this node process." c.handle_ns_count
      ^^ metric "node_persistence_write_duration_ns_sum" "counter"
          "Cumulative total nanoseconds spent inside persistence ExecuteBatch() in this node process."
          c.write_ns_sum
      ^^ metric "node_persistence_write_duration_ns_count" "counter"
          "Total number of persistence ExecuteBatch() calls in this node process." c.write_ns_count,
)
