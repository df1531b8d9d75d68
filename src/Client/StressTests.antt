-- ===== src/Client/StressTests.antt =====
-- A load test at concrete inputs.
use actor_cluster.Prelude.{◌*◌, [], ◌∷◌, some}
use actor_cluster.Prelude.Tests.{string_eq}
use actor_cluster.Client.Stress.{StressConfig, second, new_stress_engine, start_engine, stop_engine}
use actor_cluster.Client.Stress.Engine.{EngineLife}

abbrev usual : StressConfig
usual = record {
  tps_target = 100;
  concurrency = 2;
  duration = 10 * second;
  drain_window = 0;
  uid_min = 0;
  uid_max = 0;
}

-- A Stop waits for the run, and a second one has nothing to wait for.
abbrev draining : EngineLife
draining = record {
  engine = (stop_engine (stop_engine (start_engine usual new_stress_engine).0).0).0;
  going = some 0;
  stopping = 0 ∷ [];
}
