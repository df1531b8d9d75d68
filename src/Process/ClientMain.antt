-- ===== src/Process/ClientMain.antt =====
-- cmd/client: main and newRouterFromConfig of main.go, runStressCommand of stress.go and
-- runServeCommand of serve.go. What the flag package makes of the arguments is an argument.
use actor_cluster.Prelude.{String, false, List, [], ◌∷◌, ◌++◌, Option, none, some, ◌||◌}
use actor_cluster.Prelude.Tests.{string_eq, ◌==◌, if◌then◌else◌}
use actor_cluster.Prelude.Text.{◌^^◌}
use actor_cluster.Client.Stress.{StressConfig, normalize}
use actor_cluster.Process.{
  signal_context, etcd_client, cassandra_store, client_router, metrics_reporter, run_context, opens,
  closes, watches, generates, drains, serves_http, Ran, fails, with_deferred,
}

-- How main ends: os.Exit(2) after the usage, the usage alone, a return, or log.Fatal.
pub data Ending : Type 0 where
  exits_2 : Ending
  shows_usage : Ending
  returns : Ending
  fatal : String → Ending

abbrev pub fatal_if : Option String → Ending
fatal_if none = returns
fatal_if (some e) = fatal e

module _ (quote : String → String) (stress serve : List String → Option String) where
  -- The switch on the subcommand. `quote` is %q.
  abbrev pub subcommand : String → List String → Ending
  subcommand name rest =
      if name == "stress"
      then fatal_if (stress rest)
      else if name == "serve"
      then fatal_if (serve rest)
      else if name == "-h" || name == "--help" || name == "help"
      then shows_usage
      else fatal ("unknown subcommand " ^^ quote name)

  -- main, on os.Args.
  unfoldable pub client_main : List String → Ending
  client_main [] = exits_2
  client_main (program ∷ []) = exits_2
  client_main (program ∷ name ∷ rest) = subcommand name rest

-- What newRouterFromConfig meets: the errors of the etcd client and of the first snapshot.
pub record RouterOutcome : Type 0 where
  pub etcd : Option String
  pub watch : Option String

abbrev pub watched : Option String → Ran → Ran
watched (some e) rest = record {
  actions = opens etcd_client ∷ closes etcd_client ∷ [];
  failure = some ("resolver watch failed: " ^^ e);
  died = false;
}
watched none rest = record rest {
  actions =
      opens etcd_client ∷ watches ∷ opens client_router ∷ rest.actions
      ++ closes client_router ∷ closes etcd_client ∷ [];
}

-- newRouterFromConfig, the rest of the command, and the deferred cleanup.
abbrev pub with_router : RouterOutcome → Ran → Ran
with_router o rest = elim o.etcd [
  | some e ↦ fails ("etcd connection failed: " ^^ e)
  | none ↦ watched o.watch rest
]

-- The run of the generators and the drain.
abbrev pub load_test : Ran
load_test = record { actions = generates ∷ drains ∷ []; failure = none; died = false }

abbrev pub stress_normalized : RouterOutcome → StressConfig × Option String → Ran
stress_normalized o (cfg, some e) = fails e
stress_normalized o (cfg, none) =
    with_deferred signal_context
      (with_router o (with_deferred metrics_reporter (with_deferred run_context load_test)))

-- fs.Parse: the options, or its error.
pub data Parsed (C : Type 0) : Type 0 where
  options : C → Parsed C
  flag_error : String → Parsed C

unfoldable pub run_stress_command : Parsed StressConfig → RouterOutcome → Ran
unfolding normalize
run_stress_command (flag_error e) o = fails e
run_stress_command (options cfg) o = stress_normalized o (normalize cfg)

-- What ListenAndServe returns.
pub data ServeEnd : Type 0 where
  server_closed : ServeEnd
  serve_failed : String → ServeEnd

abbrev pub served : ServeEnd → Ran
served server_closed = record { actions = serves_http ∷ []; failure = none; died = false }
served (serve_failed e) = record { actions = serves_http ∷ []; failure = some e; died = false }

abbrev pub with_store : Option String → Ran → Ran
with_store (some e) rest = fails ("cassandra connection failed: " ^^ e)
with_store none rest = with_deferred cassandra_store rest

unfoldable pub run_serve_command : Option String → RouterOutcome → Option String → ServeEnd → Ran
run_serve_command (some flag_err) o cassandra end = fails flag_err
run_serve_command none o cassandra end =
    with_deferred signal_context (with_router o (with_store cassandra (served end)))
