-- ===== src/Client/Life/Swept.antt =====
-- What is left of the callbacks when `fail` is through.
use mathlib.Core.Path.{subst}
use actor_cluster.Prelude.{ℕ, ◌+◌, ◌≤◌, ◌≡◌, refl, sym, ap, inl, String, List, [], ◌∷◌, none, arith}
use actor_cluster.Prelude.Tests.{nat_eq}
use actor_cluster.Prelude.Lists.{length}
use actor_cluster.Prelude.Dict.{Dict, lookup}
use actor_cluster.Client.Callbacks.{CallbackEntry, Counts}
use actor_cluster.Client.Streamer.Results.{answered, waiting, held}
use actor_cluster.Client.Life.{
  Phase, failing, failed, Life, Step, stores, closes_transport, step, run, shards,
}
use actor_cluster.Client.Life.Conserved.{asked, asked_by, dropped, step-Moved, run-Counts, held-run}
use actor_cluster.Client.Life.Clear.{
  one_store, stores_of, Clear, IsClear, step-IsClear, run-IsClear,
}
use actor_cluster.Client.Life.Reached.{sweeps, Reached, run-Reached, closed-failed}

-- How often a run stores a callback at all.
abbrev any_store : Step → ℕ
any_store (stores req_id entry) = 1
any_store _ = 0

abbrev pub all_stores : List Step → ℕ
all_stores [] = 0
all_stores (st ∷ steps) = any_store st + all_stores steps

-- On a streamer for which `fail` has just been called, once FailAll has taken its 256 shards,
-- whatever the other goroutines do in between, closeTransport ends `fail`; and then no callback is
-- left of a request for which no callback was stored since.
pub fail_sweeps :
    (target k : ℕ) (err_code : String) (steps : List Step) (s : Life)
    → s.phase ≡ failing err_code 0
    → stores_of k steps ≡ 0
    → shards ≤ sweeps 0 steps
    → let s' = step target closes_transport (run target steps s) in
      (s'.phase ≡ failed) × (lookup k s'.receiver.callbacks.entries ≡ none)
unfolding step
fail_sweeps target k err_code steps s begun other all =
    (over, subst (λ (p : Phase). Clear k p s'.receiver.callbacks.entries) over clear)
  where
    s' : Life
    s' = step target closes_transport (run target steps s)

    reached : Reached (sweeps 0 steps) (run target steps s).phase
    reached = run-Reached 0 target steps s (subst (Reached 0) (sym begun) (inl (omega arith)))

    over : s'.phase ≡ failed
    over =
        closed-failed (run target steps s).phase (run target steps s) refl
          (ground (arith, reached, all))

    clear : IsClear k s'
    clear = step-IsClear k target closes_transport (run target steps s) refl (
        run-IsClear k target steps s other (
          subst (λ (p : Phase). Clear k p s.receiver.callbacks.entries) (sym begun)
            (inl (omega arith))))

not_stored : (ch k : ℕ) (st : Step) → any_store st ≡ 0 → (one_store k st ≡ 0) × (asked_by ch st ≡ 0)
not_stored ch k (stores j entry) h = ground (arith, h)
not_stored ch k _ h = (refl, refl)

none_stored :
    (ch k : ℕ) (steps : List Step)
    → all_stores steps ≡ 0
    → (stores_of k steps ≡ 0) × (asked ch steps ≡ 0)
none_stored ch k [] h = (refl, refl)
none_stored ch k (st ∷ steps) h =
    let (a, b) = not_stored ch k st (omega (arith, h)) in
    let (c, d) = none_stored ch k steps (omega (arith, h)) in
    (omega (arith, a, c), omega (arith, b, d))

all_absent : (entries : Dict ℕ CallbackEntry) → ((k : ℕ) → lookup k entries ≡ none) → entries ≡ []
unfolding lookup
all_absent [] h = refl
all_absent ((j, entry) ∷ entries) h = ground (arith, h j, nat_eq.same_iff j j)

-- On a streamer for which `fail` has just been called, with its callbacks counted, and while no
-- callback is stored: once FailAll has taken its 256 shards, whatever the other goroutines do in
-- between, no callback is left and none is counted, and each channel has been given an answer for
-- each callback that waited on it, but for those that a Delete took away meanwhile.
pub fail_answers_all :
    (target ch : ℕ) (err_code : String) (steps : List Step) (s : Life)
    → s.phase ≡ failing err_code 0
    → Counts s.receiver.callbacks
    → all_stores steps ≡ 0
    → shards ≤ sweeps 0 steps
    → let s' = step target closes_transport (run target steps s) in
      (s'.receiver.callbacks.entries ≡ [])
      × (s'.receiver.callbacks.pending ≡ 0)
      × (answered ch s'.receiver.answers + dropped target ch steps s
          ≡ answered ch s.receiver.answers + waiting ch s.receiver.callbacks.entries)
fail_answers_all target ch err_code steps s begun c quiet all = (empty, none_left, conserved)
  where
    s' : Life
    s' = step target closes_transport (run target steps s)

    closing :
        (held ch s'.receiver + 0 ≡ held ch (run target steps s).receiver + 0)
        × Counts s'.receiver.callbacks
    closing =
        step-Moved target ch closes_transport (run target steps s) (run-Counts target steps s c)

    empty : s'.receiver.callbacks.entries ≡ []
    empty = all_absent s'.receiver.callbacks.entries (λ (k : ℕ).
        (fail_sweeps target k err_code steps s begun (none_stored ch k steps quiet).0 all).1)

    none_left : s'.receiver.callbacks.pending ≡ 0
    none_left = omega (arith, closing.1.exact, ap length empty)

    conserved :
        answered ch s'.receiver.answers + dropped target ch steps s
        ≡ answered ch s.receiver.answers + waiting ch s.receiver.callbacks.entries
    conserved = omega (
      arith,
      ap (waiting ch) empty,
      closing.0,
      held-run target ch steps s c,
      (none_stored ch 0 steps quiet).1,
    )
