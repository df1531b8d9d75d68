-- ===== src/Node/Delivery.antt =====
-- What the aggregator sends to each stream, in terms of the results that reached it.
use mathlib.Core.List.{append_assoc, append-nil}
use actor_cluster.Prelude.{
  ℕ, zero, suc, ◌≤◌, ◌≡◌, refl, sym, ap, ◌∙◌, inl, inr, List, [], ◌∷◌, ◌++◌, map, Option, none,
  some, arith,
}
use actor_cluster.Prelude.Tests.{nat_beq, nat_beq_iff, nat_eq, Bool-cases, if◌then◌else◌}
use actor_cluster.Prelude.Lists.{length, drop, take-append-drop, length-drop}
use actor_cluster.Prelude.Dict.{Dict, lookup, insert, lookup-insert, insert-Distinct, Distinct}
use actor_cluster.Message.{RemoteResult, BatchResponse}
use actor_cluster.Node.Flush.{
  QueuedResult, max_batch_size, or_nil, group_of, add_to_group, group_results, chunks, send_groups,
  flush,
}

-- The result of q, if it is for stream k.
abbrev pub result_for : ℕ → QueuedResult → List RemoteResult
result_for k q = elim q.reply [
  | none ↦ []
  | some j ↦ elim q.res [ none ↦ [] | some res ↦ if nat_beq j k then res ∷ [] else [] ]
]

abbrev pub results_for : ℕ → List QueuedResult → List RemoteResult
results_for k [] = []
results_for k (q ∷ qs) = result_for k q ++ results_for k qs

-- All that was sent to stream k, put together.
abbrev pub sent_to : ℕ → List (ℕ × BatchResponse) → List RemoteResult
sent_to k [] = []
sent_to k ((j, b) ∷ out) =
    let rest = sent_to k out in if nat_beq j k then b.results ++ rest else rest

pub sent_to-append :
    (k : ℕ) (out more : List (ℕ × BatchResponse))
    → sent_to k (out ++ more) ≡ sent_to k out ++ sent_to k more
sent_to-append k [] more = refl
sent_to-append k ((j, b) ∷ out) more = elim (Bool-cases (nat_beq j k)) [
  | inl e ↦
      rw (e, sent_to-append k out more)
        (sym (append_assoc b.results (sent_to k out) (sent_to k more)))
  | inr e ↦ rw (e, sent_to-append k out more) refl
]

pub results_for-append :
    (k : ℕ) (qs rs : List QueuedResult)
    → results_for k (qs ++ rs) ≡ results_for k qs ++ results_for k rs
results_for-append k [] rs = refl
results_for-append k (q ∷ qs) rs =
    rw (results_for-append k qs rs)
      (sym (append_assoc (result_for k q) (results_for k qs) (results_for k rs)))

group_of-insert :
    (j k : ℕ) (res : RemoteResult) (m : Dict ℕ (List RemoteResult))
    → group_of k (insert j (group_of j m ++ res ∷ []) m)
      ≡ group_of k m ++ (if nat_beq j k then res ∷ [] else [])
group_of-insert j k res m =
    ap or_nil (lookup-insert j k (group_of j m ++ res ∷ []) m) ∙ elim (Bool-cases (nat_beq j k)) [
      | inl e ↦ rw e (ap (λ (i : ℕ). group_of i m ++ res ∷ []) (ground (arith, nat_beq_iff j k, e)))
      | inr e ↦ rw e (sym (append-nil (group_of k m)))
    ]

group_of-add_to_group :
    (k : ℕ) (q : QueuedResult) (m : Dict ℕ (List RemoteResult))
    → group_of k (add_to_group q m) ≡ group_of k m ++ result_for k q
group_of-add_to_group k q m =
    elim q.reply
      as (λ o.
        group_of k (add_to_group (record q { reply = o }) m)
        ≡ group_of k m ++ result_for k (record q { reply = o })) [
          | none ↦ sym (append-nil (group_of k m))
          | some j ↦
              elim q.res
                as (λ o.
                  group_of k (add_to_group (record { reply = some j; res = o }) m)
                  ≡ group_of k m ++ result_for k (record { reply = some j; res = o })) [
                    | none ↦ sym (append-nil (group_of k m))
                    | some res ↦ group_of-insert j k res m
                  ]
        ]

add_to_group-Distinct :
    (q : QueuedResult) (m : Dict ℕ (List RemoteResult)) → Distinct m → Distinct (add_to_group q m)
add_to_group-Distinct q m d =
    elim q.reply as (λ o. Distinct (add_to_group (record q { reply = o }) m)) [
      | none ↦ d
      | some j ↦
          elim q.res as (λ o. Distinct (add_to_group (record { reply = some j; res = o }) m)) [
            | none ↦ d
            | some res ↦ insert-Distinct j (group_of j m ++ res ∷ []) m d
          ]
    ]

group_of-group_results :
    (k : ℕ) (batch : List QueuedResult) (m : Dict ℕ (List RemoteResult))
    → Distinct m
    → (group_of k (group_results m batch) ≡ group_of k m ++ results_for k batch)
      × Distinct (group_results m batch)
unfolding group_results
group_of-group_results k [] m d = (sym (append-nil (group_of k m)), d)
group_of-group_results k (q ∷ batch) m d =
    let (same, d') =
      group_of-group_results k batch (add_to_group q m) (add_to_group-Distinct q m d) in
    (
      same
          ∙ ap (λ (ress : List RemoteResult). ress ++ results_for k batch)
              (group_of-add_to_group k q m)
          ∙ append_assoc (group_of k m) (result_for k q) (results_for k batch),
      d',
    )

-- The chunks of a group, put together, and their sizes.
sent_to-chunks :
    (j k : ℕ) (fuel : ℕ) (ress : List RemoteResult)
    → length ress ≤ fuel
    → sent_to k (map (λ (b : BatchResponse). (j, b)) (chunks fuel ress))
      ≡ (if nat_beq j k then ress else [])
unfolding chunks
sent_to-chunks j k zero [] h = ground arith
sent_to-chunks j k zero (r ∷ ress) h = elim h [ ]
sent_to-chunks j k (suc fuel) [] h = ground arith
sent_to-chunks j k (suc fuel) (r ∷ ress) h =
    let rest =
      sent_to-chunks j k fuel (drop max_batch_size (r ∷ ress))
        (omega (arith, length-drop max_batch_size (r ∷ ress))) in
    elim (Bool-cases (nat_beq j k)) [
      | inl e ↦ rw (rest, e) (take-append-drop max_batch_size (r ∷ ress))
      | inr e ↦ rw (rest, e) refl
    ]

sent_to-send_groups :
    (k : ℕ) (m : Dict ℕ (List RemoteResult)) → Distinct m → sent_to k (send_groups m) ≡ group_of k m
unfolding send_groups lookup
sent_to-send_groups k [] d = refl
sent_to-send_groups k ((j, ress) ∷ m) d =
    sent_to-append k (map (λ (b : BatchResponse). (j, b)) (chunks (length ress) ress))
      (send_groups m)
    ∙ elim (Bool-cases (nat_beq j k)) [
      | inl e ↦
          rw (sent_to-chunks j k (length ress) ress (omega arith), sent_to-send_groups k m d.1, e)
            (ap (λ (o : Option (List RemoteResult)). ress ++ or_nil o)
                (ap (λ (i : ℕ). lookup i m) (sym (ground (arith, nat_beq_iff j k, e))) ∙ d.0)
              ∙ append-nil ress)
      | inr e ↦
          rw (sent_to-chunks j k (length ress) ress (omega arith), sent_to-send_groups k m d.1, e)
            refl
    ]

-- A flush sends to each stream the results that are for it, all of them, in their order, and none
-- that is for another.
pub sent_to-flush :
    (k : ℕ) (batch : List QueuedResult) → sent_to k (flush batch) ≡ results_for k batch
unfolding flush lookup
sent_to-flush k batch =
    let (same, d) = group_of-group_results k batch [] tt in
    sent_to-send_groups k (group_results [] batch) d ∙ same
