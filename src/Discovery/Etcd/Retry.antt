-- ===== src/Discovery/Etcd/Retry.antt =====
-- The loop of a node's registration comes to its end.
use actor_cluster.Prelude.{
  ℕ, ◌≡◌, refl, ap, ◌∙◌, ◌⊎◌, String, Bool, true, false, List, [], ◌∷◌, ◌++◌, Option, none, some,
  arith,
}
use actor_cluster.Prelude.Tests.{if◌then◌else◌}
use actor_cluster.Discovery.Etcd.{
  EtcdRegistry, EtcdCall, Attempt, Outcome, registered, ctx_err, attempt_calls, after_attempt,
  establish_registration, Pass, node_key, register,
}

-- An attempt that the loop repeats, and one that ends it with a lease.
abbrev pub Repeated : Attempt → Type 0
Repeated a =
    (a.ctx_done ≡ false)
    × ((a.lease ≡ none) ⊎ ((a.put_fine ≡ false) ⊎ (a.keep_alive_fine ≡ false)))
    × (a.slept ≡ true)

abbrev pub AllRepeated : List Attempt → Type 0
AllRepeated [] = Unit {0}
AllRepeated (a ∷ more) = Repeated a × AllRepeated more

abbrev pub Granted : ℕ → Attempt → Type 0
Granted lease a =
    (a.ctx_done ≡ false) × (a.lease ≡ some lease) × (a.put_fine ≡ true) × (a.keep_alive_fine ≡ true)

after_attempt-repeated :
    (t : List EtcdCall × Option ℕ) (slept : Bool) (rest : List EtcdCall × Outcome)
    → t.1 ≡ none
    → slept ≡ true
    → (after_attempt t slept rest).1 ≡ rest.1
after_attempt-repeated (calls, some lease) slept rest h e = ground (arith, h)
after_attempt-repeated (calls, none) true rest h e = refl
after_attempt-repeated (calls, none) false rest h e = ground (arith, e)

after_attempt-granted :
    (lease : ℕ) (t : List EtcdCall × Option ℕ) (slept : Bool) (rest : List EtcdCall × Outcome)
    → t.1 ≡ some lease
    → (after_attempt t slept rest).1 ≡ registered lease
after_attempt-granted lease (calls, some other) slept rest h = ground (arith, h)
after_attempt-granted lease (calls, none) slept rest h = ground (arith, h)

attempt_calls-repeated :
    (r : EtcdRegistry) (key : String) (lease : Option ℕ) (put_fine keep_alive_fine : Bool)
    → ((lease ≡ none) ⊎ ((put_fine ≡ false) ⊎ (keep_alive_fine ≡ false)))
    → (attempt_calls r key lease put_fine keep_alive_fine).1 ≡ none
attempt_calls-repeated r key none put_fine keep_alive_fine h = refl
attempt_calls-repeated r key (some lease) false keep_alive_fine h = refl
attempt_calls-repeated r key (some lease) true false h = refl
attempt_calls-repeated r key (some lease) true true h = ground (arith, h)

attempt_calls-granted :
    (r : EtcdRegistry) (key : String) (lease : ℕ) (o : Option ℕ) (put_fine keep_alive_fine : Bool)
    → o ≡ some lease
    → put_fine ≡ true
    → keep_alive_fine ≡ true
    → (attempt_calls r key o put_fine keep_alive_fine).1 ≡ some lease
attempt_calls-granted r key lease none put_fine keep_alive_fine h p k = h
attempt_calls-granted r key lease (some other) true true h p k = h
attempt_calls-granted r key lease (some other) true false h p k = ground (arith, k)
attempt_calls-granted r key lease (some other) false keep_alive_fine h p k = ground (arith, p)

establish_registration-unless_done :
    (r : EtcdRegistry) (key : String) (a : Attempt) (more : List Attempt)
    → a.ctx_done ≡ false
    → establish_registration r key (a ∷ more)
      ≡ after_attempt
          (attempt_calls r key a.lease a.put_fine a.keep_alive_fine)
          a.slept
          (establish_registration r key more)
unfolding establish_registration
establish_registration-unless_done r key a more e =
    ap
      (λ (b : Bool).
        if b
        then ([], ctx_err)
        else after_attempt (attempt_calls r key a.lease a.put_fine a.keep_alive_fine) a.slept
            (establish_registration r key more))
      e

establish_registration-returns :
    (r : EtcdRegistry) (key : String) (failing : List Attempt) (a : Attempt) (more : List Attempt)
    (lease : ℕ)
    → AllRepeated failing
    → Granted lease a
    → (establish_registration r key (failing ++ a ∷ more)).1 ≡ registered lease
establish_registration-returns r key [] a more lease h (going, leased, put_fine, kept) =
    ap (λ (t : List EtcdCall × Outcome). t.1)
      (establish_registration-unless_done r key a more going)
    ∙ after_attempt-granted lease _ a.slept _ (
        attempt_calls-granted r key lease a.lease a.put_fine a.keep_alive_fine leased put_fine kept)
establish_registration-returns r key (f ∷ failing) a more lease ((going, failed, slept), h) g =
    ap (λ (t : List EtcdCall × Outcome). t.1)
      (establish_registration-unless_done r key f (failing ++ a ∷ more) going)
    ∙ after_attempt-repeated _ f.slept _
        (attempt_calls-repeated r key f.lease f.put_fine f.keep_alive_fine failed) slept
    ∙ establish_registration-returns r key failing a more lease h g

-- The loop of the registration ends: after any attempts that fail without the context's end, the
-- first whose three calls succeed registers the node with its lease, whatever would have followed.
pub register_returns :
    (r : EtcdRegistry) (ip : String) (failing : List Attempt) (a : Attempt) (more : List Attempt)
    (passes : List Pass) (lease : ℕ)
    → AllRepeated failing
    → Granted lease a
    → (register r ip (failing ++ a ∷ more) passes).1 ≡ registered lease
unfolding register
register_returns r ip failing a more passes lease h g =
    establish_registration-returns r (node_key r ip) failing a more lease h g
