-- ===== src/Client/Metrics.antt =====
-- cmd/client/router.go: the router's counters, and FailAll, which counts the callbacks that it fails.
-- A duration is an int64 bit pattern. FailAll's answers are listed with their channels.
use actor_cluster.Prelude.{
  ℕ, suc, ◌+◌, ◌/◌, ◌%◌, ◌<◌, ◌≡◌, refl, ◌∙◌, String, false, ◌||◌, List, [], ◌∷◌, Option, none,
  some, arith,
}
use actor_cluster.Prelude.Tests.{nat_beq, nat_eq, string_eq, ◌==◌, if◌then◌else◌}
use actor_cluster.Prelude.Lists.{length}
use actor_cluster.Prelude.Words.{u64_mod, add64, sub64, is_neg}
use actor_cluster.Prelude.Dict.{Dict, lookup, insert}
use actor_cluster.Message.{RemoteEnvelope, RemoteResult}
use actor_cluster.Client.Callbacks.{CallbackEntry, CallbackMap, Counts}

pub record Metrics : Type 0 where
  pub req_sent : ℕ
  pub resp_recv : ℕ
  pub err_count : ℕ
  pub latency_nanos : ℕ
  pub latency_samples : ℕ
  pub err_breakdown : Dict String ℕ

abbrev pub count_of : Option ℕ → ℕ
count_of none = 0
count_of (some n) = n

unfoldable pub record_error : String → Metrics → Metrics
record_error err_code m =
    let key = if err_code == "" then "UNKNOWN" else err_code in
    record m {
      err_breakdown = insert key (add64 (count_of (lookup key m.err_breakdown)) 1) m.err_breakdown;
    }

unfoldable pub record_latency : ℕ → Metrics → Metrics
record_latency d m = if is_neg d || nat_beq d 0 then m else record m {
  latency_nanos = add64 m.latency_nanos d;
  latency_samples = add64 m.latency_samples 1;
}

unfoldable pub avg_latency : Metrics → ℕ
avg_latency m = if nat_beq m.latency_samples 0 then 0 else m.latency_nanos / m.latency_samples

abbrev pub synthetic_result : RemoteEnvelope → (err_code err_msg : String) → RemoteResult
synthetic_result env err_code err_msg = record {
  tenant_id = env.tenant_id;
  uid = env.uid;
  tx_id = env.tx_id;
  request_id = env.request_id;
  op_code = env.op_code;
  success = false;
  error_code = err_code;
  error_msg = err_msg;
  payload = [];
}

-- What FailAll sends to the channel of a request.
abbrev pub failed_result : ℕ → String → RemoteResult
failed_result req_id err_code = record {
  tenant_id = 0;
  uid = 0;
  tx_id = "";
  request_id = req_id;
  op_code = 0;
  success = false;
  error_code = err_code;
  error_msg = err_code;
  payload = [];
}

pub record Failed : Type 0 where
  pub pending : ℕ
  pub metrics : Metrics
  pub answers : List (ℕ × RemoteResult)

abbrev pub answer : ℕ → String → CallbackEntry → List (ℕ × RemoteResult) → List (ℕ × RemoteResult)
answer req_id err_code entry answers = elim entry.resp_ch [
  | none ↦ answers
  | some ch ↦ (ch, failed_result req_id err_code) ∷ answers
]

abbrev pub count_error : String → Metrics → Metrics
count_error err_code m = record_error err_code (record m { err_count = add64 m.err_count 1 })

-- `for reqID, entry := range s.m`
unfoldable pub fail_entries : String → Dict ℕ CallbackEntry → ℕ → Metrics → Failed
fail_entries err_code [] pending m = record { pending = pending; metrics = m; answers = [] }
fail_entries err_code ((req_id, entry) ∷ entries) pending m =
    let rest = fail_entries err_code entries (sub64 pending 1) (count_error err_code m) in
    record rest { answers = answer req_id err_code entry rest.answers }

-- The map that FailAll leaves, the counters, and the answers.
unfoldable pub fail_all :
    String → CallbackMap → Metrics → CallbackMap × Metrics × List (ℕ × RemoteResult)
unfolding fail_entries
fail_all err_code sm m =
    let f = fail_entries err_code sm.entries sm.pending m in
    (record { pending = f.pending; entries = [] }, f.metrics, f.answers)

pub fail_entries-pending :
    (err_code : String) (entries : Dict ℕ CallbackEntry) (pending : ℕ) (m : Metrics)
    → pending ≡ length entries % u64_mod
    → (fail_entries err_code entries pending m).pending ≡ 0
unfolding fail_entries
fail_entries-pending err_code [] pending m h = omega (arith, h)
fail_entries-pending err_code ((req_id, entry) ∷ entries) pending m h =
    fail_entries-pending err_code entries (sub64 pending 1) _ (omega (arith, h))

fail_entries-err_count :
    (err_code : String) (entries : Dict ℕ CallbackEntry) (pending : ℕ) (m : Metrics)
    → m.err_count < u64_mod
    → (fail_entries err_code entries pending m).metrics.err_count
      ≡ (m.err_count + length entries) % u64_mod
unfolding fail_entries record_error
fail_entries-err_count err_code [] pending m h = omega (arith, h)
fail_entries-err_count err_code ((req_id, entry) ∷ entries) pending m h =
    fail_entries-err_count err_code entries (sub64 pending 1) (count_error err_code m) (omega arith)
    ∙ one_more
  where
    one_more :
        (add64 m.err_count 1 + length entries) % u64_mod
        ≡ (m.err_count + suc (length entries)) % u64_mod
    one_more = omega arith

-- FailAll on a map whose counter is exact leaves no callback and a counter of zero, and adds the
-- number of the callbacks to the errors, modulo 2 ^ 64.
pub fail_all_empties :
    (err_code : String) (sm : CallbackMap) (m : Metrics)
    → Counts sm
    → m.err_count < u64_mod
    → let (sm', m', answers) = fail_all err_code sm m in
      (sm'.entries ≡ [])
      × (sm'.pending ≡ 0)
      × (m'.err_count ≡ (m.err_count + length sm.entries) % u64_mod)
unfolding fail_all
fail_all_empties err_code sm m c h = (
  refl,
  fail_entries-pending err_code sm.entries sm.pending m c.exact,
  fail_entries-err_count err_code sm.entries sm.pending m h,
)
