-- ===== src/Client/Gateway/Control.antt =====
-- cmd/client/serve.go: the handlers that control the stress engine, and what they do to it.
use actor_cluster.Prelude.{ℕ, ◌*◌, ◌%◌, String, Bool, true, false, ◌||◌, Option, none, some}
use actor_cluster.Prelude.Tests.{string_eq, ◌==◌, if◌then◌else◌}
use actor_cluster.Prelude.Words.{u64_mod, not_positive}
use actor_cluster.Client.Metrics.{Metrics}
use actor_cluster.Client.Stress.{
  StressConfig, second, StressEngine, err_already_running, start_engine, stop_engine, engine_status,
  reset_metrics,
}
use actor_cluster.Prelude.{◌≡◌, ◌≢◌, ◌⊎◌, inl, inr, refl, arith}
use actor_cluster.Prelude.Tests.{both}
use actor_cluster.Client.Stress.{normalize, started_with}
use actor_cluster.Client.Gateway.{
  Method, get_method, post_method, other_method, Body, plain, started, stopped, stress_status,
  reset_done, Response, reply, on_get, on_post,
}

pub record StressRequest : Type 0 where
  pub tps_target : ℕ
  pub concurrency : ℕ
  pub duration_sec : ℕ
  pub drain_window_sec : ℕ
  pub uid_min : ℕ
  pub uid_max : ℕ

-- time.Duration(sec) * time.Second
abbrev pub seconds : ℕ → ℕ
seconds sec = sec * second % u64_mod

abbrev pub stress_config : StressRequest → StressConfig
stress_config req = record {
  tps_target = req.tps_target;
  concurrency = req.concurrency;
  duration = seconds req.duration_sec;
  drain_window = seconds req.drain_window_sec;
  uid_min = req.uid_min;
  uid_max = req.uid_max;
}

abbrev pub started_reply : Metrics → StressEngine × Option String → StressEngine × Response
started_reply m (engine, some e) =
    (engine, reply (if e == err_already_running then 409 else 500) (plain e))
started_reply m (engine, none) = (engine, reply 200 (started (engine_status engine m)))

abbrev pub start_decoded : Option StressRequest → Metrics → StressEngine → StressEngine × Response
start_decoded none m engine = (engine, reply 400 (plain "invalid json body"))
start_decoded (some req) m engine =
    if not_positive req.tps_target || not_positive req.concurrency || not_positive req.duration_sec
    then (engine, reply 400 (plain "tps_target, concurrency, duration_sec must be > 0"))
    else started_reply m (start_engine (stress_config req) engine)

unfoldable pub handle_stress_start :
    Method → Option StressRequest → Metrics → StressEngine → StressEngine × Response
handle_stress_start method decoded m engine = on_post method engine (start_decoded decoded m engine)

-- `meanwhile` is what happens to the engine after Stop has left its lock and until it returns: the end
-- of the run that it waits for, if it does, and other calls.
unfoldable pub handle_stress_stop :
    Method
    → Metrics
    → (Option ℕ → StressEngine → StressEngine)
    → StressEngine
    → StressEngine × Response
unfolding stop_engine engine_status
handle_stress_stop method m meanwhile engine =
    let (left, awaited) = stop_engine engine in
    let after = meanwhile awaited left in
    on_post method engine (after, reply 200 (stopped (engine_status after m)))

unfoldable pub handle_stress_status : Method → Metrics → StressEngine → Response
unfolding engine_status
handle_stress_status method m engine =
    on_get method (reply 200 (stress_status (engine_status engine m)))

unfoldable pub handle_stress_reset : Method → Metrics → StressEngine → StressEngine × Response
unfolding reset_metrics engine_status
handle_stress_reset method m engine =
    on_post method engine
      (reset_metrics m engine, reply 200 (reset_done (engine_status (reset_metrics m engine) m)))

-- A start by the API answers 200 and the engine runs, where it did not run before; or it answers
-- another status and leaves the engine as it was.
abbrev Started : StressEngine → StressEngine × Response → Type 0
Started engine t =
    ((t.1.status ≡ 200) × (engine.running ≡ false) × (t.0.running ≡ true))
    ⊎ ((t.1.status ≢ 200) × (t.0 ≡ engine))

refused-Started :
    (engine : StressEngine) (status : ℕ) (body : Body)
    → status ≢ 200
    → Started engine (engine, reply status body)
refused-Started engine status body other = inr (other, refl)

started_with-Started :
    (t : StressConfig × Option String) (m : Metrics) (engine : StressEngine)
    → engine.running ≡ false
    → Started engine (started_reply m (started_with t engine))
started_with-Started (cfg, none) m engine idle = inl (refl, idle, refl)
started_with-Started (cfg, some e) m engine idle =
    refused-Started engine (if e == err_already_running then 409 else 500) (plain e) (ground arith)

start_engine-Started :
    (cfg : StressConfig) (m : Metrics) (engine : StressEngine)
    → Started engine (started_reply m (start_engine cfg engine))
unfolding start_engine
start_engine-Started cfg m engine = at engine.running refl
  where
    at :
        (b : Bool)
        → engine.running ≡ b
        → Started engine (
            started_reply m (
              if b
              then (engine, some err_already_running)
              else started_with (normalize cfg) engine))
    at true busy = refused-Started engine 409 (plain err_already_running) (omega arith)
    at false idle = started_with-Started (normalize cfg) m engine idle

start_decoded-Started :
    (decoded : Option StressRequest) (m : Metrics) (engine : StressEngine)
    → Started engine (start_decoded decoded m engine)
start_decoded-Started none m engine = inr (omega arith, refl)
start_decoded-Started (some req) m engine =
    both (Started engine)
      (not_positive req.tps_target || not_positive req.concurrency || not_positive req.duration_sec)
      (inr (omega arith, refl)) (start_engine-Started (stress_config req) m engine)

handle_stress_start-Started :
    (method : Method) (decoded : Option StressRequest) (m : Metrics) (engine : StressEngine)
    → Started engine (handle_stress_start method decoded m engine)
unfolding handle_stress_start
handle_stress_start-Started get_method decoded m engine = inr (omega arith, refl)
handle_stress_start-Started post_method decoded m engine = start_decoded-Started decoded m engine
handle_stress_start-Started other_method decoded m engine = inr (omega arith, refl)
