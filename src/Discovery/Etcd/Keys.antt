-- ===== src/Discovery/Etcd/Keys.antt =====
-- The keys of the nodes: what normalizeNodePrefix makes of a prefix, and which addresses the resolver
-- reads from the keys.
use actor_cluster.Prelude.{
  ◌≡◌, ◌≢◌, refl, sym, ap, ◌∙◌, inl, inr, String, Bool, true, false, ◌&&◌, ◌||◌, List, [], ◌∷◌,
  arith,
}
use text.Mathlib.TextEquality.{starts_with_iff}
use actor_cluster.Prelude.Tests.{string_eq, ◌==◌, eq_iff, Bool-cases}
use actor_cluster.Prelude.Text.{◌^^◌}
use actor_cluster.Prelude.Affixes.{has_prefix, trim_prefix, has_prefix-append, trim_prefix-append}
use actor_cluster.Discovery.Routing.{NonEmpty}
use actor_cluster.Discovery.Etcd.{insert_sorted, sort_strings, node_ips, sorted_node_ips}

-- Whether a text stands in a list.
unfoldable pub contains : String → List String → Bool
contains x [] = false
contains x (y ∷ ys) = (y == x) || contains x ys

contains-insert_sorted :
    (x y : String) (ys : List String)
    → contains x (insert_sorted y ys) ≡ ((y == x) || contains x ys)
unfolding insert_sorted contains
contains-insert_sorted x y [] = refl
contains-insert_sorted x y (z ∷ ys) = ground (arith, contains-insert_sorted x y ys)

contains-sort_strings :
    (x : String) (ys : List String) → contains x (sort_strings ys) ≡ contains x ys
unfolding sort_strings contains
contains-sort_strings x [] = refl
contains-sort_strings x (y ∷ ys) =
    contains-insert_sorted x y (sort_strings ys)
    ∙ ap (λ (b : Bool). (y == x) || b) (contains-sort_strings x ys)

-- A key with the prefix is the prefix and what follows it.
prefix_and_rest :
    (prefix key : String) → has_prefix key prefix ≡ true → key ≡ prefix ^^ trim_prefix key prefix
prefix_and_rest prefix key h =
    let (rest, e) = (starts_with_iff key prefix).0 h in
    sym e
    ∙ ap (λ (s : String). prefix ^^ s)
        (sym (trim_prefix-append prefix rest) ∙ ap (λ (k : String). trim_prefix k prefix) e)

-- Whether a key is the one of an address.
key_of :
    (prefix key ip : String)
    → (key == (prefix ^^ ip)) ≡ (has_prefix key prefix && (trim_prefix key prefix == ip))
key_of prefix key ip = elim (Bool-cases (has_prefix key prefix)) [
  | inl h ↦ rw (h) (
      ground (
        arith,
        eq_iff key (prefix ^^ ip),
        eq_iff (trim_prefix key prefix) ip,
        ap (λ (k : String). trim_prefix k prefix),
        trim_prefix-append prefix ip,
        prefix_and_rest prefix key h,
        ap (λ (s : String). prefix ^^ s),
      ))
  | inr h ↦ rw (h) (
      ground (
        arith,
        eq_iff key (prefix ^^ ip),
        ap (λ (k : String). has_prefix k prefix),
        has_prefix-append prefix ip,
        h,
      ))
]

contains-node_ips :
    (prefix ip : String) (keys : List String)
    → ip ≢ ""
    → contains ip (node_ips prefix keys) ≡ contains (prefix ^^ ip) keys
unfolding node_ips contains
contains-node_ips prefix ip [] h = refl
contains-node_ips prefix ip (key ∷ keys) h = ground (
  arith,
  key_of prefix key ip,
  contains-node_ips prefix ip keys h,
  eq_iff (trim_prefix key prefix) "",
  eq_iff (trim_prefix key prefix) ip,
)

-- Of the addresses that are not empty, the resolver reads from the keys those whose key, the prefix
-- and then the address, is among them, whatever the order of the keys.
pub contains-sorted_node_ips :
    (prefix ip : String) (keys : List String)
    → ip ≢ ""
    → contains ip (sorted_node_ips prefix keys) ≡ contains (prefix ^^ ip) keys
unfolding sorted_node_ips contains
contains-sorted_node_ips prefix ip [] h = refl
contains-sorted_node_ips prefix ip (key ∷ keys) h =
    contains-sort_strings ip (node_ips prefix (key ∷ keys))
    ∙ contains-node_ips prefix ip (key ∷ keys) h

insert_sorted-NonEmpty :
    (x : String) (ys : List String) → x ≢ "" → NonEmpty ys → NonEmpty (insert_sorted x ys)
unfolding insert_sorted
insert_sorted-NonEmpty x [] h n = (h, tt)
insert_sorted-NonEmpty x (y ∷ ys) h (hy, n) = ground (arith, insert_sorted-NonEmpty x ys h n)

sort_strings-NonEmpty : (ys : List String) → NonEmpty ys → NonEmpty (sort_strings ys)
unfolding sort_strings
sort_strings-NonEmpty [] n = tt
sort_strings-NonEmpty (y ∷ ys) (h, n) =
    insert_sorted-NonEmpty y (sort_strings ys) h (sort_strings-NonEmpty ys n)

node_ips-NonEmpty : (prefix : String) (keys : List String) → NonEmpty (node_ips prefix keys)
unfolding node_ips
node_ips-NonEmpty prefix [] = tt
node_ips-NonEmpty prefix (key ∷ keys) =
    ground (arith, node_ips-NonEmpty prefix keys, eq_iff (trim_prefix key prefix) "")

pub sorted_node_ips-NonEmpty :
    (prefix : String) (keys : List String) → NonEmpty (sorted_node_ips prefix keys)
unfolding sorted_node_ips
sorted_node_ips-NonEmpty prefix [] = tt
sorted_node_ips-NonEmpty prefix (key ∷ keys) =
    sort_strings-NonEmpty (node_ips prefix (key ∷ keys)) (node_ips-NonEmpty prefix (key ∷ keys))
