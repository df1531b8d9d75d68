-- ===== src/Client/Dispatch/Wait.antt =====
-- What ExecuteAndWait leaves behind when its request is not answered.
use actor_cluster.Prelude.{
  ℕ, ◌≡◌, refl, ◌⊎◌, inl, inr, String, false, [], ◌∷◌, Option, none, some, arith,
}
use actor_cluster.Prelude.Tests.{nat_eq, string_eq}
use actor_cluster.Prelude.Dict.{Dict}
use actor_cluster.Message.{RemoteEnvelope, RemoteResult, err_deadline_exceeded}
use actor_cluster.Discovery.Table.{NodeIp}
use actor_cluster.Client.Callbacks.{CallbackEntry}
use actor_cluster.Client.Dispatch.{
  NodeStreamer, Router, Attempt, dispatch_envelope, delete_everywhere, callback_timeout, awaited,
  execute_and_wait,
}
use actor_cluster.Client.Dispatch.Outcome.{
  AllFree, NotWaiting, without_callback-Free, dispatch_leaves,
}

AllFree-delete_everywhere :
    (req_id : ℕ) (streamers : Dict String NodeStreamer)
    → AllFree req_id (delete_everywhere req_id streamers)
AllFree-delete_everywhere req_id [] = tt
AllFree-delete_everywhere req_id ((ip, ns) ∷ streamers) =
    (without_callback-Free req_id ns, AllFree-delete_everywhere req_id streamers)

-- How a wait ends, by what the dispatch has returned: its failure is the answer; or the envelope was
-- taken, and the answer is the reply that came in time, or, if none came, that of the deadline.
abbrev pub Waited :
    RemoteEnvelope → (reply immediate : Option RemoteResult) → Router × RemoteResult → Type 0
Waited env reply immediate (r, res) =
    ((immediate ≡ some res) × (res.success ≡ false) × AllFree env.request_id r.streamers)
    ⊎ (((immediate ≡ none) × (reply ≡ some res))
        ⊎ ((immediate ≡ none)
            × (reply ≡ none)
            × (res.success ≡ false)
            × (res.error_code ≡ err_deadline_exceeded)
            × (res.request_id ≡ env.request_id)
            × AllFree env.request_id r.streamers))

awaited-Waited :
    (env : RemoteEnvelope) (reply : Option RemoteResult) (t : Router × Option RemoteResult)
    → ((res : RemoteResult) × (t.1 ≡ some res)
        × (res.success ≡ false)
        × NotWaiting env.request_id t.0)
      ⊎ (t.1 ≡ none)
    → Waited env reply t.1 (awaited env reply t)
unfolding callback_timeout
awaited-Waited env reply (r, some immediate) (inl (res, e, bad, free)) =
    inl (refl, ground (arith, e, bad), free.0)
awaited-Waited env reply (r, some immediate) (inr e) = ground (arith, e)
awaited-Waited env (some res) (r, none) h = inr (inl (refl, refl))
awaited-Waited env none (r, none) h =
    inr (inr (refl, refl, refl, refl, refl, AllFree-delete_everywhere env.request_id r.streamers))

-- For a request that nothing waited for, the answer is fixed by the dispatch and by the channel: if
-- the dispatch fails, its failure is the answer; if the envelope is taken and the channel brings a
-- reply in time, the answer is this reply; if none comes in time, it is the failure of the deadline
-- for this request. After either failure no streamer of the table holds a callback of the request.
pub execute_and_wait_leaves :
    (answer : NodeIp) (first second : Attempt) (reply : Option RemoteResult)
    (started_at resp_ch : ℕ) (env : RemoteEnvelope) (r : Router)
    → NotWaiting env.request_id r
    → let entry : CallbackEntry = record { started_at = started_at; resp_ch = some resp_ch } in
      Waited env reply
        (dispatch_envelope answer first second env env.request_id entry r).1
        (execute_and_wait answer first second reply started_at resp_ch env r)
unfolding execute_and_wait
execute_and_wait_leaves answer first second reply started_at resp_ch env r h =
    awaited-Waited env reply (dispatch_envelope answer first second env env.request_id entry r)
      (elim (dispatch_leaves answer first second env env.request_id entry r h) [
        | inl failed ↦ inl failed
        | inr (ip, e, _, _) ↦ inr e
      ])
  where
    entry : CallbackEntry
    entry = record { started_at = started_at; resp_ch = some resp_ch }
