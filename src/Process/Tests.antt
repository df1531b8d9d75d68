-- ===== src/Process/Tests.antt =====
-- The commands at concrete inputs.
use Prim.Native.Char.{code}
use Prim.Native.String.{[], ◌∷◌}
use text.Mathlib.TextLemmas.{cons-append, nil-append}
use actor_cluster.Prelude.{◌≡◌, refl, ap, ◌∙◌, inr, String, Bool, true, false, [], ◌∷◌, none, some}
use actor_cluster.Prelude.Tests.{nat_beq, string_eq, if◌then◌else◌}
use actor_cluster.Prelude.Text.{◌^^◌}
use actor_cluster.Prelude.Affixes.{trim_prefix}
use actor_cluster.Client.Stress.{StressConfig}
use actor_cluster.Process.NodeMain.{
  dial_failed, resolved, resolve_my_ip, NodeOutcome, node_main, handle_metrics,
}
use actor_cluster.Process.ClientMain.{
  exits_2, fatal, client_main, options, server_closed, run_stress_command, run_serve_command,
}
use actor_cluster.Process.Unwind.{unwinds, NodeUnwinds, commands_unwind}
use actor_cluster.Process.Serving.{Located, is_host, is_port, resolve_my_ip-Located}

abbrev port_taken : NodeOutcome
port_taken = record {
  ip = resolved "10.0.0.1:50051";
  cassandra = none;
  etcd = none;
  register = none;
  watch = none;
  listen = some "address already in use";
  deregister = none;
  crash = none;
}

-- The port is free, and etcd does not answer when the node leaves.
abbrev key_kept : NodeOutcome
key_kept = record port_taken { listen = none; deregister = some "context deadline exceeded" }

-- The port of the metrics server is taken.
abbrev metrics_port_taken : NodeOutcome
metrics_port_taken = record port_taken { listen = none; crash = some (0, "address already in use") }

abbrev config : StressConfig
config = record {
  tps_target = 10;
  concurrency = 2;
  duration = 5;
  drain_window = 0;
  uid_min = 0;
  uid_max = 0;
}

commands_unwind_example :
    NodeUnwinds metrics_port_taken (node_main metrics_port_taken)
    × (unwinds
          (run_stress_command (options config) (record { etcd = none; watch = none })).actions
          (some [])
        ≡ some [])
    × (unwinds
          (run_serve_command none
            (record { etcd = none; watch = none })
            (some "down")
            server_closed).actions
          (some [])
        ≡ some [])
commands_unwind_example =
    commands_unwind metrics_port_taken (options config) (record { etcd = none; watch = none }) none
      (some "down") server_closed

unfoldable has_colon : String → Bool
has_colon [] = false
has_colon (c ∷ s) = let rest = has_colon s in if nat_beq (code c) 58 then true else rest

abbrev join : String → String → String
join host port = host ^^ (":" ^^ port)

has_colon-join : (host port : String) → has_colon (join host port) ≡ true
unfolding has_colon
has_colon-join [] port = ap has_colon (nil-append (":" ^^ port) ∙ cons-append ":" [] port)
has_colon-join (c ∷ s) port =
    ap has_colon (cons-append c s (":" ^^ port))
    ∙ ap (λ (b : Bool). if nat_beq (code c) 58 then true else b) (has_colon-join s port)
    ∙ always (nat_beq (code c) 58)
  where
    always : (b : Bool) → (if b then true else true) ≡ true
    always true = refl
    always false = refl

resolve_my_ip-Located_example :
    Located has_colon join "" ":50051" "10.1.2.3"
      (dial_failed "no route")
      (resolve_my_ip has_colon join "" ":50051" "10.1.2.3" (dial_failed "no route"))
unfolding is_host is_port trim_prefix
resolve_my_ip-Located_example =
    resolve_my_ip-Located has_colon join "" ":50051" "10.1.2.3" (dial_failed "no route")
      (λ host port h p. has_colon-join host port) (inr refl) refl refl refl

abbrev quoted : String → String
quoted s = "\"" ^^ s ^^ "\""

unknown_command :
    client_main quoted (λ args. none) (λ args. none) ("client" ∷ "sterss" ∷ [])
    ≡ fatal "unknown subcommand \"sterss\""
unfolding client_main
unknown_command = refl

no_command : client_main quoted (λ args. none) (λ args. none) ("client" ∷ []) ≡ exits_2
unfolding client_main
no_command = refl

only_get :
    (handle_metrics false (record {
      mailbox_pending = 1;
      handle_ns_sum = 2;
      handle_ns_count = 3;
      write_ns_sum = 4;
      write_ns_count = 5;
    })).0
    ≡ 405
unfolding handle_metrics
only_get = refl
