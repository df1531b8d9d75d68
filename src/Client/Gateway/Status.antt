-- ===== src/Client/Gateway/Status.antt =====
-- The statuses of the gateway's replies, and the ids of its requests.
use actor_cluster.Prelude.{
  ℕ, zero, suc, ◌↔◌, ◌+◌, ◌-◌, ◌*◌, ◌%◌, ◌^◌, ◌<◌, ◌≡◌, refl, inl, inr, String, Bool, true, false,
  Option, none, some, arith,
}
use actor_cluster.Prelude.Tests.{nat_beq, string_eq, Bool-cases, if◌then◌else◌}
use actor_cluster.Prelude.Words.{u64_mod, not_positive}
use actor_cluster.Prelude.Decimal.{show_u64_injective}
use actor_cluster.Message.{RemoteResult}
use actor_cluster.Client.Dispatch.{Router, execute_and_wait}
use actor_cluster.Client.Gateway.{
  execute_envelope, on_post, Method, get_method, post_method, other_method, Body, plain, executed,
  Response, reply, ExecuteRequest, Exchange, Gateway, map_error_to_http_status, execute_response,
  executed_response, execute_decoded, handle_execute, first_request_id, next_request_id,
}

-- The id of a gateway's request after n others.
abbrev pub request_id : ℕ → ℕ → ℕ
request_id machine_id zero = next_request_id (first_request_id machine_id)
request_id machine_id (suc n) = next_request_id (request_id machine_id n)

-- Whether a body reports a request that was executed.
abbrev pub reports_success : Body → Bool
reports_success (executed r) = r.success
reports_success _ = false

-- No error has the status of a success.
map_error-big : (err_code : String) → nat_beq (map_error_to_http_status err_code) 200 ≡ false
unfolding map_error_to_http_status
map_error-big err_code = ground arith

abbrev Honest : Response → Type 0
Honest r = nat_beq r.status 200 ≡ reports_success r.body

execute_response-Honest :
    (req_id : ℕ) (req : ExecuteRequest) (res : RemoteResult)
    → Honest (execute_response req_id req res)
unfolding execute_response
execute_response-Honest req_id req res = elim (Bool-cases res.success) [
  | inl e ↦ rw (e) refl
  | inr e ↦ rw (e) (map_error-big res.error_code)
]

on_post-Honest :
    {S : Type 0} (m : Method) (s : S) (t : S × Response) → Honest t.1 → Honest (on_post m s t).1
on_post-Honest get_method s t h = refl
on_post-Honest post_method s t h = h
on_post-Honest other_method s t h = refl

execute_decoded-Honest :
    (decoded : Option ExecuteRequest) (x : Exchange) (g : Gateway)
    → Honest (execute_decoded decoded x g).1
execute_decoded-Honest none x g = refl
execute_decoded-Honest (some req) x g = at (not_positive req.uid) (
    execute_and_wait x.answer x.first x.second x.in_time x.started_at x.resp_ch
      (execute_envelope req_id req) g.router)
  where
    req_id : ℕ
    req_id = next_request_id g.generator

    at :
        (b : Bool) (t : Router × RemoteResult)
        → Honest
            (if b
              then (g, reply 400 (plain "uid must be > 0"))
              else executed_response req_id req t).1
    at true t = refl
    at false (router, res) = execute_response-Honest req_id req res

-- Whatever the request, the state of the router and what happens to it, the gateway answers an
-- execute request with status 200 exactly if the body reports a success.
pub handle_execute-status :
    (m : Method) (decoded : Option ExecuteRequest) (x : Exchange) (g : Gateway)
    → let (g', r) = handle_execute m decoded x g in
      (r.status ≡ 200) ↔ (reports_success r.body ≡ true)
unfolding handle_execute
handle_execute-status m decoded x g =
    ground
      (arith, on_post-Honest m g (execute_decoded decoded x g) (execute_decoded-Honest decoded x g))

request_id_sum : (a n : ℕ) → request_id a n ≡ (a * 2 ^ 48 + n + 1) % u64_mod
request_id_sum a zero = omega arith
request_id_sum a (suc n) = omega (arith, request_id_sum a n)

request_ids_differ :
    (a b m n : ℕ)
    → a < 65536
    → b < 65536
    → m < 2 ^ 48 - 1
    → n < 2 ^ 48 - 1
    → request_id a m ≡ request_id b n
    → (a ≡ b) × (m ≡ n)
request_ids_differ a b m n ha hb hm hn e = (omega (arith, same), omega (arith, same))
  where
    same : a * 2 ^ 48 + m ≡ b * 2 ^ 48 + n
    same = omega (arith, e, request_id_sum a m, request_id_sum b n)

request_id-lt : (a n : ℕ) → request_id a n < u64_mod
request_id-lt a n = omega (arith, request_id_sum a n)

-- With machine ids below 65536, and among the first 2 ^ 48 - 1 requests of each gateway, two requests
-- that carry the same transaction id are the same request of gateways that drew the same machine
-- id.
pub tx_ids_differ :
    (a b m n : ℕ) (req req' : ExecuteRequest)
    → a < 65536
    → b < 65536
    → m < 2 ^ 48 - 1
    → n < 2 ^ 48 - 1
    → (execute_envelope (request_id a m) req).tx_id ≡ (execute_envelope (request_id b n) req').tx_id
    → (a ≡ b) × (m ≡ n)
tx_ids_differ a b m n req req' ha hb hm hn e =
    request_ids_differ a b m n ha hb hm hn (
      show_u64_injective (request_id a m) (request_id b n) (request_id-lt a m) (request_id-lt b n)
        e)
