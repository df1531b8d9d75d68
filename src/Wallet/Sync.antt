-- ===== src/Wallet/Sync.antt =====
-- A wallet's actor, its rows in the store, and the snapshot goroutines that have not run yet.
use actor_cluster.Prelude.{
  ℕ, ◌+◌, ◌<◌, ◌≡◌, refl, sym, ap, ◌∙◌, ◌⊎◌, inl, inr, String, List, [], ◌∷◌, ◌++◌, Option, none,
  some, arith,
}
use mathlib.Core.List.{append-nil, append_assoc}
use actor_cluster.Prelude.Tests.{string_eq}
use actor_cluster.Prelude.Lists.{length, length-append}
use actor_cluster.Prelude.Words.{add64, i64_bound}
use actor_cluster.Message.{RemoteEnvelope}
use actor_cluster.Persistence.{Store, BatchMode}
use actor_cluster.Wallet.State.{BusinessActor, add_tx_id}
use actor_cluster.Wallet.Ops.{SnapshotJob, applied, handle, run_snapshot, event_statement}
use actor_cluster.Wallet.Log.{
  Event, WalletTables, event_of, replay, replay-append, Contiguous, Contiguous-append, upsert,
  upsert_next, upsert_last,
}

pub record World (D : Type 0) : Type 0 where
  pub db : D
  pub actor : BusinessActor
  pub jobs : List SnapshotJob

abbrev pub add_job : Option SnapshotJob → List SnapshotJob → List SnapshotJob
add_job none js = js
add_job (some j) js = j ∷ js

abbrev pub handled_world : (st : Store) → World st.Db → ℕ → RemoteEnvelope → World st.Db
handled_world st w now env =
    let h = handle st w.db now w.actor env in
    record { db = h.db; actor = h.actor; jobs = add_job h.job w.jobs }

-- The actor handles one message at a time; a snapshot goroutine runs at any later time, and they
-- overtake one another freely.
pub data Step (st : Store) (w : World st.Db) : World st.Db → Type 0 where
  handled : (now : ℕ) (env : RemoteEnvelope) → Step st w (handled_world st w now env)
  snapshotted :
      (before : List SnapshotJob) (j : SnapshotJob) (later : List SnapshotJob)
      → w.jobs ≡ before ++ j ∷ later
      → Step st w (record { db = run_snapshot st w.db j; actor = w.actor; jobs = before ++ later })

-- The version is an int64: there are fewer than 2 ^ 63 events.
pub data Reach (st : Store) (w : World st.Db) : World st.Db → Type 0 where
  here : Reach st w w
  next :
      {x y : World st.Db}
      → Reach st w x
      → x.actor.version + 1 < i64_bound
      → Step st x y
      → Reach st w y

-- The pair is the balance and the version after some first part of the events.
abbrev pub IsCut : List Event → ℕ → ℕ → Type 0
IsCut es balance version =
    (front : List Event) × (back : List Event) × (es ≡ front ++ back)
    × (length front ≡ version)
    × (replay 0 front ≡ balance)

abbrev pub SnapshotCut : List Event → Option (ℕ × ℕ) → Type 0
SnapshotCut es none = Unit {0}
SnapshotCut es (some (balance, version)) = IsCut es balance version

abbrev pub JobCut : BusinessActor → List Event → SnapshotJob → Type 0
JobCut b es j = (j.tenant_id ≡ b.tenant_id) × (j.uid ≡ b.uid) × IsCut es j.balance j.version

abbrev pub All {ℓ κ} : {A : Type ℓ} → (A → Type κ) → List A → Type κ
All P [] = Unit
All P (x ∷ xs) = P x × All P xs

All-map {ℓ κ μ} :
    {A : Type ℓ} {P : A → Type κ} {Q : A → Type μ} (xs : List A)
    → ((a : A) → P a → Q a)
    → All P xs
    → All Q xs
All-map [] f h = tt
All-map (x ∷ xs) f h = (f x h.0, All-map xs f h.1)

pub All-pick {ℓ κ} :
    {A : Type ℓ} (P : A → Type κ) (xs : List A) (a : A) (ys : List A)
    → All P (xs ++ a ∷ ys)
    → P a × All P (xs ++ ys)
All-pick P [] a ys h = h
All-pick P (x ∷ xs) a ys h = let (here', rest) = All-pick P xs a ys h.1 in (here', (h.0, rest))

IsCut-append :
    (es : List Event) (e : Event) (balance version : ℕ)
    → IsCut es balance version
    → IsCut (es ++ e ∷ []) balance version
IsCut-append es e balance version (front, back, split, len, sum) =
    (front, back ++ e ∷ [], rw split (append_assoc front back (e ∷ [])), len, sum)

pub SnapshotCut-append :
    (es : List Event) (e : Event) (s : Option (ℕ × ℕ))
    → SnapshotCut es s
    → SnapshotCut (es ++ e ∷ []) s
SnapshotCut-append es e none h = tt
SnapshotCut-append es e (some (balance, version)) h = IsCut-append es e balance version h

pub IsCut-whole : (es : List Event) → IsCut es (replay 0 es) (length es)
IsCut-whole es = (es, [], sym (append-nil es), refl, refl)

module _ (st : Store) (tables : WalletTables st) where
  open tables use {events, snapshot, insert_event, insert_event_failed, insert_snapshot}

  -- The first events are those that the actor has counted; behind them stands at most one more,
  -- which a failed write has left. The snapshot, and each snapshot still to be written, is the
  -- balance at some earlier version.
  pub record InSync (w : World st.Db) : Type 0 where
    pub written : List Event
    pub left_over : List Event
    pub stored : events w.db w.actor.tenant_id w.actor.uid ≡ written ++ left_over
    pub ordered : Contiguous 0 written
    pub one_left :
        (left_over ≡ []) ⊎ ((e : Event) × (left_over ≡ e ∷ []) × (e.version ≡ length written + 1))
    pub counted : length written ≡ w.actor.version
    pub summed : replay 0 written ≡ w.actor.balance
    pub cut : SnapshotCut written (snapshot w.db w.actor.tenant_id w.actor.uid)
    pub job_cuts : All (JobCut w.actor written) w.jobs

  -- Changes of the actor that the tables do not show.
  pub InSync-actor :
      (w : World st.Db) (b : BusinessActor)
      → b.tenant_id ≡ w.actor.tenant_id
      → b.uid ≡ w.actor.uid
      → b.version ≡ w.actor.version
      → b.balance ≡ w.actor.balance
      → InSync w
      → InSync (record w { actor = b })
  InSync-actor w b t u v c s = record {
    written = s.written;
    left_over = s.left_over;
    stored = rw (t, u) s.stored;
    ordered = s.ordered;
    one_left = s.one_left;
    counted = s.counted ∙ sym v;
    summed = s.summed ∙ sym c;
    cut = rw (t, u) s.cut;
    job_cuts = All-map w.jobs (λ j h. (h.0 ∙ sym t, h.1 ∙ sym u, h.2)) s.job_cuts;
  }

  -- Whatever the tables held behind the counted events, the next INSERT leaves just its own event.
  pub upsert_written :
      (w : World st.Db) (e : Event) (s : InSync w)
      → e.version ≡ length s.written + 1
      → upsert e (events w.db w.actor.tenant_id w.actor.uid) ≡ s.written ++ e ∷ []
  upsert_written w e s q = elim s.one_left [
    | inl none_left ↦
        rw (s.stored, none_left, append-nil s.written)
          (upsert_next 0 e s.written s.ordered (omega arith))
    | inr (y, left, at) ↦
        rw (s.stored, left) (upsert_last 0 e y s.written s.ordered (omega arith) (omega arith))
  ]

  -- A write that reports an error leaves the actor alone, and at most its own event in the tables.
  pub failed-InSync :
      (w : World st.Db) (now : ℕ) (env : RemoteEnvelope) (amount : ℕ) (db' : st.Db) (e : String)
      → InSync w
      → w.actor.version + 1 < i64_bound
      → st.execute_batch w.db BatchMode.unlogged_batch (event_statement w.actor now env amount ∷ [])
        ≡ (db', some e)
      → InSync (record w { db = db' })
  failed-InSync w now env amount db' e s small failed =
      let (rows, snap) =
        insert_event_failed w.db w.actor.tenant_id w.actor.uid (event_of w.actor env amount) now
          env.payload db' e failed in
      elim rows [
        | inl same ↦ record {
          written = s.written;
          left_over = s.left_over;
          stored = same ∙ s.stored;
          ordered = s.ordered;
          one_left = s.one_left;
          counted = s.counted;
          summed = s.summed;
          cut = rw snap s.cut;
          job_cuts = s.job_cuts;
        }
        | inr more ↦ record {
          written = s.written;
          left_over = event_of w.actor env amount ∷ [];
          stored =
              more ∙ upsert_written w (event_of w.actor env amount) s (omega (arith, s.counted));
          ordered = s.ordered;
          one_left = inr (event_of w.actor env amount, refl, omega (arith, s.counted));
          counted = s.counted;
          summed = s.summed;
          cut = rw snap s.cut;
          job_cuts = s.job_cuts;
        }
      ]

  -- A write that succeeds makes its event the next one that the actor counts.
  pub written-InSync :
      (w : World st.Db) (now : ℕ) (env : RemoteEnvelope) (amount : ℕ) (db' : st.Db)
      → InSync w
      → w.actor.version + 1 < i64_bound
      → st.execute_batch w.db BatchMode.unlogged_batch (event_statement w.actor now env amount ∷ [])
        ≡ (db', none)
      → InSync (record w { db = db'; actor = applied w.actor env amount })
  unfolding applied add_tx_id replay
  written-InSync w now env amount db' s small done =
      let (rows, snap) =
        insert_event w.db w.actor.tenant_id w.actor.uid (event_of w.actor env amount) now
          env.payload db' done in
      let e = event_of w.actor env amount in
      record {
        written = s.written ++ e ∷ [];
        left_over = [];
        stored =
            rows
            ∙ upsert_written w e s (omega (arith, s.counted))
            ∙ sym (append-nil (s.written ++ e ∷ []));
        ordered = Contiguous-append 0 s.written e s.ordered (omega (arith, s.counted));
        one_left = inl refl;
        counted = omega (arith, s.counted, length-append s.written (e ∷ []));
        summed = replay-append 0 s.written (e ∷ []) ∙ ap (λ (x : ℕ). add64 x amount) s.summed;
        cut = rw snap (SnapshotCut-append s.written e _ s.cut);
        job_cuts =
            All-map w.jobs (λ j h. (h.0, h.1, IsCut-append s.written e j.balance j.version h.2))
              s.job_cuts;
      }
