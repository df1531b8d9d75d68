-- ===== src/Discovery/Etcd/Agree.antt =====
-- Resolvers that know the same keys route alike.
use Prim.Native.String.{compare}
use Prim.Native.Nat.{Ordering}
use mathlib.Core.Path.{subst}
use mathlib.Core.List.{Permᴰ}
use mathlib.Core.List.Permᴰ
use actor_cluster.Prelude.{
  ℕ, ◌≡◌, refl, sym, ap, ◌∙◌, inl, inr, String, Bool, true, false, List, [], ◌∷◌, some, arith,
}
use actor_cluster.Prelude.Tests.{string_eq, ◌==◌, Bool-cases, if◌then◌else◌}
use actor_cluster.Prelude.TextOrder.{comes_after, after_asymmetric, after_total, after_transitive}
use actor_cluster.Prelude.Affixes.{has_prefix, trim_prefix}
use actor_cluster.Discovery.Table.{modulo_slot_owner, get_node_ip, build_routing_table}
use actor_cluster.Discovery.Etcd.{
  new_etcd_resolver, insert_sorted, sort_strings, node_ips, sorted_node_ips, normalize_node_prefix,
  resolver_node_ip, WatchStep, watch,
}
use actor_cluster.Discovery.Etcd.Watch.{latest, resolver-latest}

insert_sorted-if :
    (x y : String) (ys : List String)
    → insert_sorted x (y ∷ ys) ≡ (if comes_after x y then y ∷ insert_sorted x ys else x ∷ y ∷ ys)
unfolding insert_sorted
insert_sorted-if x y ys = at (compare x y)
  where
    at :
        (o : Ordering)
        → ◌≡◌ {A = List String}
            (elim o [ Ordering.gt ↦ y ∷ insert_sorted x ys | _ ↦ x ∷ y ∷ ys ])
            (if (elim o [ Ordering.gt ↦ true | _ ↦ false ])
              then y ∷ insert_sorted x ys
              else x ∷ y ∷ ys)
    at Ordering.lt = refl
    at Ordering.eq = refl
    at Ordering.gt = refl

-- Two that stand before all the rest.
pair_sorted :
    (x y : String) (rest : List String)
    → (if comes_after x y then y ∷ x ∷ rest else x ∷ y ∷ rest)
      ≡ (if comes_after y x then x ∷ y ∷ rest else y ∷ x ∷ rest)
pair_sorted x y rest = elim (Bool-cases (comes_after x y)) [
  | inl e ↦ rw (e) (rw (after_asymmetric x y e) refl)
  | inr e ↦ rw (e) (elim (Bool-cases (comes_after y x)) [
    | inl f ↦ rw (f) refl
    | inr f ↦ rw (f) (
        ap (λ (z : String). z ∷ y ∷ rest) (after_total x y e f)
        ∙ ap (λ (z : String). y ∷ z ∷ rest) (sym (after_total x y e f)))
  ])
]

insert_past :
    (x y : String) (ys : List String)
    → comes_after x y ≡ true
    → insert_sorted x (y ∷ ys) ≡ y ∷ insert_sorted x ys
insert_past x y ys h =
    insert_sorted-if x y ys ∙ ap (λ (b : Bool). if b then y ∷ insert_sorted x ys else x ∷ y ∷ ys) h

insert_before :
    (x y : String) (ys : List String)
    → comes_after x y ≡ false
    → insert_sorted x (y ∷ ys) ≡ x ∷ y ∷ ys
insert_before x y ys h =
    insert_sorted-if x y ys ∙ ap (λ (b : Bool). if b then y ∷ insert_sorted x ys else x ∷ y ∷ ys) h

around :
    (x y z : String) (zs : List String)
    → comes_after x z ≡ true
    → comes_after y z ≡ false
    → insert_sorted x (insert_sorted y (z ∷ zs)) ≡ insert_sorted y (insert_sorted x (z ∷ zs))
around x y z zs past before =
    ap (insert_sorted x) (insert_before y z zs before)
    ∙ insert_past x y (z ∷ zs) x_past_y
    ∙ ap (λ (l : List String). y ∷ l) (insert_past x z zs past)
    ∙ sym (insert_before y z (insert_sorted x zs) before)
    ∙ ap (insert_sorted y) (sym (insert_past x z zs past))
  where
    x_past_y : comes_after x y ≡ true
    x_past_y = elim (Bool-cases (comes_after x y)) [
      | inl e ↦ e
      | inr e ↦ ground (arith, past, after_transitive x y z e before)
    ]

insert_sorted_comm :
    (x y : String) (zs : List String)
    → insert_sorted x (insert_sorted y zs) ≡ insert_sorted y (insert_sorted x zs)
unfolding insert_sorted
insert_sorted_comm x y [] =
    insert_sorted-if x y [] ∙ pair_sorted x y [] ∙ sym (insert_sorted-if y x [])
insert_sorted_comm x y (z ∷ zs) = elim (Bool-cases (comes_after x z)) [
  | inl x_past ↦ elim (Bool-cases (comes_after y z)) [
    | inl y_past ↦
        ap (insert_sorted x) (insert_past y z zs y_past)
        ∙ insert_past x z (insert_sorted y zs) x_past
        ∙ ap (λ (l : List String). z ∷ l) (insert_sorted_comm x y zs)
        ∙ sym (insert_past y z (insert_sorted x zs) y_past)
        ∙ ap (insert_sorted y) (sym (insert_past x z zs x_past))
    | inr y_before ↦ around x y z zs x_past y_before
  ]
  | inr x_before ↦ elim (Bool-cases (comes_after y z)) [
    | inl y_past ↦ sym (around y x z zs y_past x_before)
    | inr y_before ↦
        ap (insert_sorted x) (insert_before y z zs y_before)
        ∙ insert_sorted-if x y (z ∷ zs)
        ∙ ap (λ (l : List String). if comes_after x y then y ∷ l else x ∷ y ∷ z ∷ zs)
            (insert_before x z zs x_before)
        ∙ pair_sorted x y (z ∷ zs)
        ∙ ap (λ (l : List String). if comes_after y x then x ∷ l else y ∷ x ∷ z ∷ zs)
            (sym (insert_before y z zs y_before))
        ∙ sym (insert_sorted-if y x (z ∷ zs))
        ∙ ap (insert_sorted y) (sym (insert_before x z zs x_before))
  ]
]

sort_strings-Perm : {xs ys : List String} → Permᴰ xs ys → sort_strings xs ≡ sort_strings ys
unfolding sort_strings
sort_strings-Perm Permᴰ.nil = refl
sort_strings-Perm (Permᴰ.cons {b = b} {l₁ = l₁} e p) =
    ap (λ (x : String). insert_sorted x (sort_strings l₁)) e
    ∙ ap (insert_sorted b) (sort_strings-Perm p)
sort_strings-Perm (Permᴰ.swap {a = a} {b = b} {a' = c} {l = l} e f) =
    insert_sorted_comm a b (sort_strings l)
    ∙ ap (λ (x : String). insert_sorted x (insert_sorted a (sort_strings l))) f
    ∙ ap (λ (x : String). insert_sorted c (insert_sorted x (sort_strings l))) e
sort_strings-Perm (Permᴰ.trans p q) = sort_strings-Perm p ∙ sort_strings-Perm q

-- The address of one key, if it has one.
abbrev with_ip : Bool → Bool → String → List String → List String
with_ip under blank ip ips = if under then (if blank then ips else ip ∷ ips) else ips

with_ip-Perm :
    (under blank : Bool) (ip : String) {xs ys : List String}
    → Permᴰ xs ys
    → Permᴰ (with_ip under blank ip xs) (with_ip under blank ip ys)
with_ip-Perm true true ip p = p
with_ip-Perm true false ip p = Permᴰ.cons refl p
with_ip-Perm false blank ip p = p

with_ip-swap :
    (u b u' b' : Bool) (ip ip' : String) (xs : List String)
    → Permᴰ (with_ip u b ip (with_ip u' b' ip' xs)) (with_ip u' b' ip' (with_ip u b ip xs))
with_ip-swap true false true false ip ip' xs = Permᴰ.swap refl refl
with_ip-swap true true u' b' ip ip' xs = Permᴰ.refl _
with_ip-swap false b u' b' ip ip' xs = Permᴰ.refl _
with_ip-swap true false true true ip ip' xs = Permᴰ.refl _
with_ip-swap true false false b' ip ip' xs = Permᴰ.refl _

node_ips-cons :
    (prefix key : String) (keys : List String)
    → node_ips prefix (key ∷ keys)
      ≡ with_ip
          (has_prefix key prefix)
          (trim_prefix key prefix == "")
          (trim_prefix key prefix)
          (node_ips prefix keys)
unfolding node_ips
node_ips-cons prefix key keys = refl

cons-Perm :
    (prefix key : String) (keys keys' : List String)
    → Permᴰ (node_ips prefix keys) (node_ips prefix keys')
    → Permᴰ (node_ips prefix (key ∷ keys)) (node_ips prefix (key ∷ keys'))
unfolding node_ips
cons-Perm prefix key keys keys' p =
    with_ip-Perm (has_prefix key prefix) (trim_prefix key prefix == "") (trim_prefix key prefix) p

node_ips-Perm :
    (prefix : String) {keys keys' : List String}
    → Permᴰ keys keys'
    → Permᴰ (node_ips prefix keys) (node_ips prefix keys')
unfolding node_ips
node_ips-Perm prefix Permᴰ.nil = Permᴰ.nil
node_ips-Perm prefix (Permᴰ.cons {a = a} {l₁ = l₁} {l₂ = l₂} e p) =
    subst (λ (k : String). Permᴰ (node_ips prefix (a ∷ l₁)) (node_ips prefix (k ∷ l₂))) e
      (cons-Perm prefix a l₁ l₂ (node_ips-Perm prefix p))
node_ips-Perm prefix (Permᴰ.swap {a = a} {b = b} {a' = c} {l = l} e f) =
    subst (λ (k : String). Permᴰ (node_ips prefix (a ∷ b ∷ l)) (node_ips prefix (c ∷ k ∷ l))) e
      (subst (λ (k : String). Permᴰ (node_ips prefix (a ∷ b ∷ l)) (node_ips prefix (k ∷ a ∷ l))) f
        (with_ip-swap (has_prefix a prefix) (trim_prefix a prefix == "") (has_prefix b prefix)
          (trim_prefix b prefix == "") (trim_prefix a prefix) (trim_prefix b prefix)
          (node_ips prefix l)))
node_ips-Perm prefix (Permᴰ.trans p q) =
    Permᴰ.trans (node_ips-Perm prefix p) (node_ips-Perm prefix q)

sorted_node_ips-sort :
    (prefix : String) (keys : List String)
    → sorted_node_ips prefix keys ≡ sort_strings (node_ips prefix keys)
unfolding sorted_node_ips node_ips sort_strings
sorted_node_ips-sort prefix [] = refl
sorted_node_ips-sort prefix (key ∷ keys) = refl

-- Two resolvers under the same prefix, with a slash more or less, that got the same keys in their last
-- snapshots, in whatever order and after whatever else they met, answer alike for every wallet.
pub resolvers_agree :
    (prefix prefix' : String) (keys keys' : List String) (steps steps' : List WatchStep)
    (tenant_id uid : ℕ)
    → normalize_node_prefix prefix ≡ normalize_node_prefix prefix'
    → Permᴰ (latest keys steps) (latest keys' steps')
    → let r = (watch (some keys) steps (new_etcd_resolver prefix)).0 in
      let r' = (watch (some keys') steps' (new_etcd_resolver prefix')).0 in
      resolver_node_ip r tenant_id uid ≡ resolver_node_ip r' tenant_id uid
resolvers_agree prefix prefix' keys keys' steps steps' tenant_id uid same p =
    resolver-latest prefix keys steps tenant_id uid
    ∙ ap
        (λ (ips : List String).
          get_node_ip (some (build_routing_table ips (some modulo_slot_owner))) tenant_id uid)
        same_ips
    ∙ sym (resolver-latest prefix' keys' steps' tenant_id uid)
  where
    same_ips :
        sorted_node_ips (normalize_node_prefix prefix) (latest keys steps)
        ≡ sorted_node_ips (normalize_node_prefix prefix') (latest keys' steps')
    same_ips =
        sorted_node_ips-sort (normalize_node_prefix prefix) (latest keys steps)
        ∙ sort_strings-Perm (node_ips-Perm (normalize_node_prefix prefix) p)
        ∙ sym (sorted_node_ips-sort (normalize_node_prefix prefix) (latest keys' steps'))
        ∙ ap (λ (n : String). sorted_node_ips n (latest keys' steps')) same
