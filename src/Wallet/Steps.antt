-- ===== src/Wallet/Steps.antt =====
-- Every step of a wallet keeps its actor and its tables in step: Handle on each of its branches,
-- and each snapshot goroutine, in any order.
use actor_cluster.Prelude.{
  ℕ, ◌+◌, ◌<◌, ◌≡◌, refl, sym, ◌∙◌, inl, inr, String, List, [], ◌∷◌, ◌++◌, Option, none, some,
}
use mathlib.Core.List.{append-nil}
use actor_cluster.Prelude.Tests.{leb, string_eq, Bool-cases}
use actor_cluster.Prelude.Words.{i64_bound}
use actor_cluster.Message.{RemoteEnvelope}
use actor_cluster.Persistence.{Store, BatchMode}
use actor_cluster.Wallet.State.{be_uint64}
use actor_cluster.Wallet.Ops.{
  SnapshotJob, Handled, applied, committed, settle, write_event, run_snapshot, event_statement,
}
use actor_cluster.Wallet.Log.{WalletTables}
use actor_cluster.Wallet.Sync.{
  World, Step, handled, snapshotted, Reach, here, next, handled_world, JobCut, All-pick, add_job,
  InSync, InSync-actor, failed-InSync, written-InSync,
}
use actor_cluster.Wallet.Cases.{handle_cases}

module _ (st : Store) (tables : WalletTables st) where
  open tables use {events, snapshot, insert_snapshot}

  abbrev pub after_handled : World st.Db → Handled st.Db → World st.Db
  after_handled w h = record { db = h.db; actor = h.actor; jobs = add_job h.job w.jobs }

  committed-InSync :
      (w : World st.Db) (env : RemoteEnvelope)
      → InSync st tables w
      → InSync st tables (after_handled w (committed st w.db w.actor env))
  unfolding committed
  committed-InSync w env s = elim (Bool-cases (leb 1000 w.actor.event_count)) [
    | inl due ↦
        rw (due, committed)
          (record {
            written = s.written;
            left_over = s.left_over;
            stored = s.stored;
            ordered = s.ordered;
            one_left = s.one_left;
            counted = s.counted;
            summed = s.summed;
            cut = s.cut;
            job_cuts = (
              (refl, refl, (s.written, [], sym (append-nil s.written), s.counted, s.summed)),
              s.job_cuts,
            );
          })
    | inr early ↦ rw (early, committed) s
  ]

  pub settle-InSync :
      (w : World st.Db) (now : ℕ) (env : RemoteEnvelope) (amount : ℕ) (r : st.Db × Option String)
      → st.execute_batch w.db BatchMode.unlogged_batch (event_statement w.actor now env amount ∷ [])
        ≡ r
      → InSync st tables w
      → w.actor.version + 1 < i64_bound
      → InSync st tables (after_handled w (settle st w.actor env amount r))
  unfolding settle
  settle-InSync w now env amount (db', none) e s small =
      committed-InSync (record w { db = db'; actor = applied w.actor env amount }) env
        (written-InSync st tables w now env amount db' s small e)
  settle-InSync w now env amount (db', some m) e s small =
      failed-InSync st tables w now env amount db' m s small e

  pub handled-InSync :
      (w : World st.Db) (now : ℕ) (env : RemoteEnvelope)
      → InSync st tables w
      → w.actor.version + 1 < i64_bound
      → InSync st tables (handled_world st w now env)
  handled-InSync w now env s small =
      let b = record w.actor { last_active = now } in
      let s' = InSync-actor st tables w b refl refl refl refl s in
      handle_cases st (λ h. InSync st tables (after_handled w h)) w.db now w.actor env (λ res _. s')
        (λ _ _ _.
          unfold write_event in
          settle-InSync (record w { actor = b }) now env (be_uint64 env.payload) _ refl s' small)

  snapshotted-InSync :
      (w : World st.Db) (before : List SnapshotJob) (j : SnapshotJob) (later : List SnapshotJob)
      → w.jobs ≡ before ++ j ∷ later
      → InSync st tables w
      → InSync st tables
          (record { db = run_snapshot st w.db j; actor = w.actor; jobs = before ++ later })
  unfolding run_snapshot
  snapshotted-InSync w before j later split s =
      let (job, rest) =
        All-pick (JobCut w.actor s.written) before j later (rw split at s.job_cuts) in
      let (rows, snap) = insert_snapshot w.db j.tenant_id j.uid j.balance j.version in
      record {
        written = s.written;
        left_over = s.left_over;
        stored = rw (← job.0, ← job.1) (rows ∙ rw (job.0, job.1) s.stored);
        ordered = s.ordered;
        one_left = s.one_left;
        counted = s.counted;
        summed = s.summed;
        cut = elim snap [
          | inl same ↦ rw (← job.0, ← job.1, same) (rw (job.0, job.1) s.cut)
          | inr taken ↦ rw (← job.0, ← job.1, taken) job.2
        ];
        job_cuts = rest;
      }

  -- Each step, a message on any branch of Handle or a snapshot goroutine in any order, keeps the
  -- actor in step with the tables, while the version stays an int64.
  pub Step-InSync :
      {w x : World st.Db}
      → Step st w x
      → w.actor.version + 1 < i64_bound
      → InSync st tables w
      → InSync st tables x
  Step-InSync {w} (handled now env) small s = handled-InSync w now env s small
  Step-InSync {w} (snapshotted before j later split) small s =
      snapshotted-InSync w before j later split s

  pub Reach-InSync : {w x : World st.Db} → Reach st w x → InSync st tables w → InSync st tables x
  Reach-InSync here s = s
  Reach-InSync (next r small step) s = Step-InSync step small (Reach-InSync r s)
