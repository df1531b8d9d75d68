-- ===== src/Client/Stress/Engine.antt =====
-- The engine of a load test over its life: its runs, and the calls of Start and Stop.
use actor_cluster.Prelude.{
  ℕ, ◌≡◌, ◌≢◌, ◌⊎◌, String, true, false, List, [], ◌∷◌, ◌++◌, Option, none, some,
}
use actor_cluster.Prelude.Tests.{string_eq}
use actor_cluster.Client.Metrics.{Metrics}
use actor_cluster.Client.Stress.{
  StressConfig, StressEngine, new_stress_engine, err_already_running, start_engine, tick_engine,
  end_run, stop_engine, reset_metrics, Tps,
}

-- The engine, the run whose goroutine has not ended, and the runs that the calls of Stop wait for
-- that have not returned.
pub record EngineLife : Type 0 where
  pub engine : StressEngine
  pub going : Option ℕ
  pub stopping : List ℕ

abbrev pub new_life : EngineLife
new_life = record { engine = new_stress_engine; going = none; stopping = [] }

-- Start, which makes a goroutine unless it returns an error.
abbrev pub after_start : EngineLife → StressEngine × Option String → EngineLife
after_start l (e, none) = record l { engine = e; going = some l.engine.runs }
after_start l (e, some _) = record l { engine = e }

-- Stop until it waits, or returns because the engine holds no run.
abbrev pub after_stop : EngineLife → StressEngine × Option ℕ → EngineLife
after_stop l (e, none) = record l { engine = e }
after_stop l (e, some n) = record l { engine = e; stopping = n ∷ l.stopping }

-- The calls and the goroutines in any order. A call of Stop that waits returns once its run has
-- ended and closed its channel.
pub data EngineStep (l : EngineLife) : EngineLife → Type 0 where
  starts : (cfg : StressConfig) → EngineStep l (after_start l (start_engine cfg l.engine))
  stops : EngineStep l (after_stop l (stop_engine l.engine))
  ticks : (t : Tps) → EngineStep l (record l { engine = tick_engine t l.engine })
  ends :
      (n : ℕ)
      → l.going ≡ some n
      → EngineStep l (record l { engine = end_run l.engine; going = none })
  returns :
      (before : List ℕ) (n : ℕ) (after : List ℕ)
      → l.stopping ≡ before ++ n ∷ after
      → l.going ≢ some n
      → EngineStep l (record l { stopping = before ++ after })
  resets : (m : Metrics) → EngineStep l (record l { engine = reset_metrics m l.engine })

pub data EngineReach : EngineLife → Type 0 where
  at_new : EngineReach new_life
  and_then : {l l' : EngineLife} → EngineReach l → EngineStep l l' → EngineReach l'

-- A call of Stop waits for the run.
abbrev pub AwaitedIn : ℕ → List ℕ → Type 0
AwaitedIn n [] = ⊥
AwaitedIn n (m ∷ stopping) = (n ≡ m) ⊎ AwaitedIn n stopping

-- A run that goes on is the only one, and is held by the engine or awaited by a Stop.
abbrev pub Watched : StressEngine → List ℕ → Option ℕ → Type 0
Watched e stopping none = e.running ≡ false
Watched e stopping (some n) = (e.running ≡ true) × ((e.current ≡ some n) ⊎ AwaitedIn n stopping)

-- What Start and Stop do beside the run that goes on, or beside none.
abbrev pub StartStop : EngineLife → StressConfig → Option ℕ → Type 0
StartStop l cfg none =
    (l.engine.running ≡ false)
    × ((start_engine cfg l.engine).1 ≡ none)
    × ((start_engine cfg l.engine).0.running ≡ true)
StartStop l cfg (some n) =
    (l.engine.running ≡ true)
    × (start_engine cfg l.engine ≡ (l.engine, some err_already_running))
    × (((stop_engine l.engine).1 ≡ some n) ⊎ AwaitedIn n l.stopping)
