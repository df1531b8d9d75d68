-- ===== src/Client/Stress.antt =====
-- cmd/client/stress.go: the options, the counters and the drain of a load test, and the engine that
-- runs one. An int, an int64 and a time.Duration are int64 bit patterns.
pub mod Load
pub mod Breakdown
pub mod Engine
use actor_cluster.Prelude.{
  ℕ, suc, ◌+◌, ◌-◌, ◌*◌, ◌/◌, ◌%◌, ◌^◌, String, Bool, true, false, ◌&&◌, List, [], ◌∷◌, Option,
  none, some,
}
use actor_cluster.Prelude.Tests.{nat_beq, ltb, leb, string_eq, if◌then◌else◌}
use actor_cluster.Prelude.Words.{u64_mod, add64, sub64, is_neg, lt_i64, not_positive}
use actor_cluster.Prelude.Dict.{Dict, lookup, insert}
use actor_cluster.Prelude.Text.{show_u64}
use actor_cluster.Message.{RemoteEnvelope}
use actor_cluster.Wallet.State.{encode_int64}
use actor_cluster.Client.Metrics.{Metrics}

pub record StressConfig : Type 0 where
  pub tps_target : ℕ
  pub concurrency : ℕ
  pub duration : ℕ
  pub drain_window : ℕ
  pub uid_min : ℕ
  pub uid_max : ℕ

-- time.Second
abbrev pub second : ℕ
second = 10 ^ 9

abbrev pub with_drain_window : StressConfig → StressConfig
with_drain_window cfg =
    if not_positive cfg.drain_window then record cfg { drain_window = 60 * second } else cfg

abbrev pub with_uid_range : StressConfig → StressConfig
with_uid_range cfg =
    if nat_beq cfg.uid_min 0 && nat_beq cfg.uid_max 0
    then record cfg { uid_min = 1; uid_max = 100 }
    else cfg

abbrev pub check_uid_range : StressConfig → Option String
check_uid_range cfg =
    if not_positive cfg.uid_min
    then some "uid-min must be > 0"
    else if lt_i64 cfg.uid_max cfg.uid_min
    then some "uid-max must be >= uid-min"
    else none

-- The configuration as normalize leaves it, and its error.
unfoldable pub normalize : StressConfig → StressConfig × Option String
normalize cfg = let cfg' = with_uid_range (with_drain_window cfg) in (cfg', check_uid_range cfg')

-- The argument of rand.Int63n.
abbrev pub uid_span : StressConfig → ℕ
uid_span cfg = add64 (sub64 cfg.uid_max cfg.uid_min) 1

-- The uid that the generator draws, `rand` being rand.Int63n.
unfoldable pub draw_uid : (ℕ → ℕ) → StressConfig → ℕ
draw_uid rand cfg = add64 cfg.uid_min (rand (uid_span cfg))

-- time.Second * concurrency / tps, for a positive tps: a product that has wrapped to a negative one
-- gives at most 0, and is replaced as 0 is.
unfoldable pub pacing : StressConfig → ℕ
pacing cfg =
    let product = second * cfg.concurrency % u64_mod in
    let quotient = product / cfg.tps_target in
    if is_neg product then 1 else if nat_beq quotient 0 then 1 else quotient

-- Whether runStressGenerators starts any generator.
abbrev pub generates : StressConfig → Bool
generates cfg =
    if not_positive cfg.concurrency
    then false
    else if not_positive cfg.tps_target
    then false
    else true

-- The envelope of one tick of a generator.
abbrev pub stress_envelope : (req_id uid : ℕ) → RemoteEnvelope
stress_envelope req_id uid = record {
  tenant_id = 1;
  uid = uid;
  tx_id = show_u64 req_id;
  request_id = req_id;
  op_code = 1;
  payload = encode_int64 1;
  deadline_unix_ms = 0;
}

unfoldable pub subtract_with_floor : ℕ → ℕ → ℕ
subtract_with_floor curr base = if ltb curr base then 0 else curr - base

abbrev pub value_or_zero : Option ℕ → ℕ
value_or_zero none = 0
value_or_zero (some n) = n

-- `for key, value := range curr`
unfoldable pub diff_error_breakdown : Dict String ℕ → Dict String ℕ → Dict String ℕ
diff_error_breakdown [] base = []
diff_error_breakdown ((key, value) ∷ curr) base =
    let out = diff_error_breakdown curr base in
    let base_value = value_or_zero (lookup key base) in
    if leb value base_value then out else insert key (value - base_value) out

pub record MetricsBaseline : Type 0 where
  pub sent : ℕ
  pub success : ℕ
  pub errors : ℕ
  pub latency_nanos : ℕ
  pub latency_samples : ℕ
  pub error_breakdown : Dict String ℕ

abbrev pub no_baseline : MetricsBaseline
no_baseline = record {
  sent = 0;
  success = 0;
  errors = 0;
  latency_nanos = 0;
  latency_samples = 0;
  error_breakdown = [];
}

-- The quotient that diffAvgLatency turns into a floating-point number of milliseconds.
unfoldable pub diff_avg_latency : ℕ → ℕ → MetricsBaseline → ℕ
unfolding subtract_with_floor
diff_avg_latency curr_nanos curr_samples baseline =
    let nanos = subtract_with_floor curr_nanos baseline.latency_nanos in
    let samples = subtract_with_floor curr_samples baseline.latency_samples in
    if nat_beq samples 0 then 0 else nanos / samples

-- What drainInFlight reads in one round: the three counters, and whether the deadline is past.
pub record Reading : Type 0 where
  pub sent : ℕ
  pub received : ℕ
  pub errors : ℕ
  pub past_deadline : Bool

-- `none`: still waiting after the readings.
unfoldable pub drain_in_flight : List Reading → Option (Bool × ℕ)
drain_in_flight [] = none
drain_in_flight (r ∷ rs) =
    let handled = add64 r.received r.errors in
    let again = drain_in_flight rs in
    if leb r.sent handled
    then some (true, 0)
    else if r.past_deadline
    then some (false, sub64 r.sent handled)
    else again

-- One tick of startMetricsReporter, from the counters of the tick before.
pub record Tps : Type 0 where
  pub sent : ℕ
  pub success : ℕ
  pub errors : ℕ
  pub in_flight : ℕ

unfoldable pub report : Metrics → Metrics → Tps
report last m =
    let handled = add64 m.resp_recv m.err_count in
    record {
      sent = sub64 m.req_sent last.req_sent;
      success = sub64 m.resp_recv last.resp_recv;
      errors = sub64 m.err_count last.err_count;
      in_flight = if ltb handled m.req_sent then m.req_sent - handled else 0;
    }

-- The runs are numbered by their starts: the n-th one has the n-th done channel that Start makes.
-- `current` is the run whose cancel function and done channel the engine holds.
pub record StressEngine : Type 0 where
  pub running : Bool
  pub current_tps : ℕ
  pub baseline : MetricsBaseline
  pub current : Option ℕ
  pub runs : ℕ

abbrev pub new_stress_engine : StressEngine
new_stress_engine = record {
  running = false;
  current_tps = 0;
  baseline = no_baseline;
  current = none;
  runs = 0;
}

abbrev pub err_already_running : String
err_already_running = "stress test is already running"

abbrev pub started_with : StressConfig × Option String → StressEngine → StressEngine × Option String
started_with (cfg, some e) engine = (engine, some e)
started_with (cfg, none) engine = (
  record {
    running = true;
    current_tps = 0;
    baseline = no_baseline;
    current = some engine.runs;
    runs = suc engine.runs;
  },
  none,
)

unfoldable pub start_engine : StressConfig → StressEngine → StressEngine × Option String
unfolding normalize
start_engine cfg engine =
    if engine.running
    then (engine, some err_already_running)
    else started_with (normalize cfg) engine

-- The goroutine of a run, at a tick of its reporter and when it ends.
unfoldable pub tick_engine : Tps → StressEngine → StressEngine
tick_engine t engine = record engine { current_tps = t.sent }

unfoldable pub end_run : StressEngine → StressEngine
end_run engine = record engine { running = false; current_tps = 0 }

-- Stop under its lock, and the run that it then cancels and waits for, if the engine holds one.
unfoldable pub stop_engine : StressEngine → StressEngine × Option ℕ
stop_engine engine = (record engine { current = none }, engine.current)

pub record StressStatus : Type 0 where
  pub is_running : Bool
  pub total_sent : ℕ
  pub total_success : ℕ
  pub total_errors : ℕ
  pub current_tps : ℕ
  pub avg_latency : ℕ
  pub error_breakdown : Dict String ℕ

unfoldable pub engine_status : StressEngine → Metrics → StressStatus
unfolding subtract_with_floor diff_avg_latency diff_error_breakdown
engine_status engine m = record {
  is_running = engine.running;
  total_sent = subtract_with_floor m.req_sent engine.baseline.sent;
  total_success = subtract_with_floor m.resp_recv engine.baseline.success;
  total_errors = subtract_with_floor m.err_count engine.baseline.errors;
  current_tps = engine.current_tps;
  avg_latency = diff_avg_latency m.latency_nanos m.latency_samples engine.baseline;
  error_breakdown = diff_error_breakdown m.err_breakdown engine.baseline.error_breakdown;
}

unfoldable pub reset_metrics : Metrics → StressEngine → StressEngine
reset_metrics m engine = record engine {
  current_tps = 0;
  baseline = record {
    sent = m.req_sent;
    success = m.resp_recv;
    errors = m.err_count;
    latency_nanos = m.latency_nanos;
    latency_samples = m.latency_samples;
    error_breakdown = m.err_breakdown;
  };
}
