-- ===== src/Process/Unwind.antt =====
-- What the commands open, they close, the last first, unless the process dies.
use actor_cluster.Prelude.{
  ℕ, zero, suc, ◌≡◌, refl, ◌⊎◌, inl, inr, Bool, true, false, sym, ap, ◌∙◌, String, List, [], ◌∷◌,
  ◌++◌, Option, none, some, arith,
}
use actor_cluster.Prelude.Tests.{nat_beq, if◌then◌else◌}
use actor_cluster.Prelude.Text.{◌^^◌}
use actor_cluster.Client.Stress.{StressConfig, normalize}
use actor_cluster.Process.{
  Resource, signal_context, etcd_client, cassandra_store, client_router, metrics_reporter,
  run_context, Action, opens, closes, waits_for_signal, Ran, fails, with_deferred,
}
use actor_cluster.Process.NodeMain.{
  Resolved, resolved, unresolved, NodeOutcome, shutdown, cut, node_main,
}
use actor_cluster.Process.ClientMain.{
  RouterOutcome, watched, with_router, load_test, stress_normalized, Parsed, options, flag_error,
  run_stress_command, ServeEnd, server_closed, serve_failed, served, with_store, run_serve_command,
}

abbrev tag : Resource → ℕ
tag signal_context = 0
tag etcd_client = 1
tag cassandra_store = 2
tag client_router = 3
tag metrics_reporter = 4
tag run_context = 5

-- The open resources after an action, the last one first; `none`: it closes one that is not the last.
abbrev close_last : Resource → List Resource → Option (List Resource)
close_last resource [] = none
close_last resource (last ∷ open_ones) =
    if nat_beq (tag last) (tag resource) then some open_ones else none

abbrev after_action : Action → List Resource → Option (List Resource)
after_action (opens resource) open_ones = some (resource ∷ open_ones)
after_action (closes resource) open_ones = close_last resource open_ones
after_action _ open_ones = some open_ones

abbrev pub unwinds : List Action → Option (List Resource) → Option (List Resource)
unwinds actions none = none
unwinds [] (some open_ones) = some open_ones
unwinds (a ∷ actions) (some open_ones) = unwinds actions (after_action a open_ones)

unwinds-none : (actions : List Action) → unwinds actions none ≡ none
unwinds-none [] = refl
unwinds-none (a ∷ actions) = refl

unwinds-append :
    (actions more : List Action) (o : Option (List Resource))
    → unwinds (actions ++ more) o ≡ unwinds more (unwinds actions o)
unwinds-append [] more none = refl
unwinds-append [] more (some open_ones) = refl
unwinds-append (a ∷ actions) more none = sym (unwinds-none more)
unwinds-append (a ∷ actions) more (some open_ones) =
    unwinds-append actions more (after_action a open_ones)

-- A function that leaves open what it found open, and does not die.
record Tidy (r : Ran) : Type 0 where
  lives : r.died ≡ false
  closes_all : (open_ones : List Resource) → unwinds r.actions (some open_ones) ≡ some open_ones

nothing_opened : (e : String) → Tidy (fails e)
nothing_opened e = record { lives = refl; closes_all = λ open_ones. refl }

-- A resource that is closed at once.
closed_again :
    (resource : Resource) (open_ones : List Resource)
    → close_last resource (resource ∷ open_ones) ≡ some open_ones
closed_again resource open_ones = ground arith

with_deferred-Tidy : (resource : Resource) (r : Ran) → Tidy r → Tidy (with_deferred resource r)
with_deferred-Tidy resource r tidy = record {
  lives = tidy.lives;
  closes_all = λ open_ones.
      ap
        (λ (b : Bool).
          unwinds (if b then r.actions else r.actions ++ closes resource ∷ [])
            (some (resource ∷ open_ones)))
        tidy.lives
      ∙ unwinds-append r.actions (closes resource ∷ []) (some (resource ∷ open_ones))
      ∙ ap (unwinds (closes resource ∷ [])) (tidy.closes_all (resource ∷ open_ones))
      ∙ ap (unwinds []) (closed_again resource open_ones);
}

-- Actions that open and close nothing.
abbrev AllQuiet : List Action → Type 0
AllQuiet [] = Unit
AllQuiet (a ∷ actions) =
    ((open_ones : List Resource) → after_action a open_ones ≡ some open_ones) × AllQuiet actions

unwinds-cut :
    (k : ℕ) (actions : List Action) (open_ones : List Resource)
    → AllQuiet actions
    → unwinds (cut k actions) (some open_ones) ≡ some open_ones
unfolding cut
unwinds-cut zero actions open_ones quiet = refl
unwinds-cut (suc k) [] open_ones quiet = refl
unwinds-cut (suc k) (a ∷ actions) open_ones quiet =
    ap (unwinds (cut k actions)) (quiet.0 open_ones) ∙ unwinds-cut k actions open_ones quiet.1

-- What a node leaves open: nothing while it lives; all three resources when a goroutine panics.
abbrev pub NodeUnwinds : NodeOutcome → Ran → Type 0
NodeUnwinds o r =
    ((r.died ≡ false) × (unwinds r.actions (some []) ≡ some []))
    ⊎ ((k : ℕ) × (e : String) × (o.crash ≡ some (k, e))
        × (r.died ≡ true)
        × (r.failure ≡ some e)
        × (unwinds r.actions (some [])
            ≡ some (etcd_client ∷ cassandra_store ∷ signal_context ∷ [])))

node_main-NodeUnwinds : (o : NodeOutcome) → NodeUnwinds o (node_main o)
unfolding node_main
node_main-NodeUnwinds o =
    at o.ip o.cassandra o.etcd o.register o.watch o.listen o.deregister o.crash
  where
    quiet :
        (deregister : Option String) (ip : String)
        → AllQuiet (waits_for_signal ∷ (shutdown deregister ip).actions)
    quiet none ip = (λ _. refl, (λ _. refl, (λ _. refl, (λ _. refl, (λ _. refl, (λ _. refl, tt))))))
    quiet (some e) ip =
        (λ _. refl, (λ _. refl, (λ _. refl, (λ _. refl, (λ _. refl, (λ _. refl, tt))))))

    at :
        (ip : Resolved) (cassandra etcd register watch listen deregister : Option String)
        (crash : Option (ℕ × String))
        → let o' : NodeOutcome = record {
          ip = ip;
          cassandra = cassandra;
          etcd = etcd;
          register = register;
          watch = watch;
          listen = listen;
          deregister = deregister;
          crash = crash;
        } in
          NodeUnwinds o' (node_main o')
    at (unresolved e) cassandra etcd register watch listen deregister crash = inl (refl, refl)
    at (resolved ip) (some e) etcd register watch listen deregister crash = inl (refl, refl)
    at (resolved ip) none (some e) register watch listen deregister crash = inl (refl, refl)
    at (resolved ip) none none (some e) watch listen deregister crash = inl (refl, refl)
    at (resolved ip) none none none (some e) listen deregister crash = inl (refl, refl)
    at (resolved ip) none none none none (some e) deregister crash = inl (refl, refl)
    at (resolved ip) none none none none none none none = inl (refl, refl)
    at (resolved ip) none none none none none (some e) none = inl (refl, refl)
    at (resolved ip) none none none none none deregister (some (k, e)) = inr (
      k,
      e,
      refl,
      refl,
      refl,
      unwinds-cut k (waits_for_signal ∷ (shutdown deregister ip).actions)
          (etcd_client ∷ cassandra_store ∷ signal_context ∷ []) (quiet deregister ip),
    )

watched-Tidy : (watch : Option String) (rest : Ran) → Tidy rest → Tidy (watched watch rest)
watched-Tidy (some e) rest tidy = record { lives = refl; closes_all = λ open_ones. refl }
watched-Tidy none rest tidy = record {
  lives = tidy.lives;
  closes_all = λ open_ones.
      unwinds-append rest.actions (closes client_router ∷ closes etcd_client ∷ [])
        (some (client_router ∷ etcd_client ∷ open_ones))
      ∙ ap (unwinds (closes client_router ∷ closes etcd_client ∷ []))
          (tidy.closes_all (client_router ∷ etcd_client ∷ open_ones));
}

with_router-Tidy : (o : RouterOutcome) (rest : Ran) → Tidy rest → Tidy (with_router o rest)
with_router-Tidy o rest tidy = at o.etcd
  where
    at :
        (e : Option String)
        → Tidy (elim e [
          | some m ↦ fails ("etcd connection failed: " ^^ m)
          | none ↦ watched o.watch rest
        ])
    at (some m) = nothing_opened _
    at none = watched-Tidy o.watch rest tidy

stress_normalized-Tidy :
    (o : RouterOutcome) (t : StressConfig × Option String) → Tidy (stress_normalized o t)
stress_normalized-Tidy o (cfg, some e) = nothing_opened e
stress_normalized-Tidy o (cfg, none) = with_deferred-Tidy signal_context _ (
    with_router-Tidy o _ (
      with_deferred-Tidy metrics_reporter _ (
        with_deferred-Tidy run_context load_test
          (record { lives = refl; closes_all = λ open_ones. refl }))))

run_stress_command-Tidy :
    (parsed : Parsed StressConfig) (o : RouterOutcome) → Tidy (run_stress_command parsed o)
unfolding run_stress_command
run_stress_command-Tidy (flag_error e) o = nothing_opened e
run_stress_command-Tidy (options cfg) o = stress_normalized-Tidy o (normalize cfg)

served-Tidy : (end : ServeEnd) → Tidy (served end)
served-Tidy server_closed = record { lives = refl; closes_all = λ open_ones. refl }
served-Tidy (serve_failed e) = record { lives = refl; closes_all = λ open_ones. refl }

with_store-Tidy :
    (cassandra : Option String) (rest : Ran) → Tidy rest → Tidy (with_store cassandra rest)
with_store-Tidy (some e) rest tidy = nothing_opened _
with_store-Tidy none rest tidy = with_deferred-Tidy cassandra_store rest tidy

run_serve_command-Tidy :
    (flags : Option String) (o : RouterOutcome) (cassandra : Option String) (end : ServeEnd)
    → Tidy (run_serve_command flags o cassandra end)
unfolding run_serve_command
run_serve_command-Tidy (some e) o cassandra end = nothing_opened e
run_serve_command-Tidy none o cassandra end =
    with_deferred-Tidy signal_context _
      (with_router-Tidy o _ (with_store-Tidy cassandra _ (served-Tidy end)))

-- Whatever the network, etcd and Cassandra answer, a stress run and a gateway each close, the last
-- first, all that they have opened, on every way out of their main function. So does a node, unless
-- one of its goroutines panics once the servers are started: then the process dies with this panic,
-- and the etcd client, the store and the signal context are left unclosed.
pub commands_unwind :
    (node : NodeOutcome) (parsed : Parsed StressConfig) (o : RouterOutcome)
    (flags cassandra : Option String) (end : ServeEnd)
    → NodeUnwinds node (node_main node)
      × (unwinds (run_stress_command parsed o).actions (some []) ≡ some [])
      × (unwinds (run_serve_command flags o cassandra end).actions (some []) ≡ some [])
commands_unwind node parsed o flags cassandra end = (
  node_main-NodeUnwinds node,
  (run_stress_command-Tidy parsed o).closes_all [],
  (run_serve_command-Tidy flags o cassandra end).closes_all [],
)
