-- ===== src/Service/Planner/Reached.antt =====
-- The nodes that the heap, the distances and the links of the search of src/shiftzero/simulator.py
-- name, and what its steps do to them.
use text.Mathlib.Text.{◌==◌ as str_eq}
use mathlib.Core.List.{Memᴰ}
use shiftzero_hero.Common.{
  String, ◌≡◌, refl, ◌⊎◌, inl, inr, true, false, ◌&&◌, ◌||◌, List, [], ◌∷◌, ◌++◌, arith,
  if◌then◌else◌, Bool-cases, subst,
}
use shiftzero_hero.Numbers.{Numbers}
use shiftzero_hero.Service.Lookup.{has, same→eq, eq→same}
use shiftzero_hero.Service.Domain.{bidirectional, MapEdge}
use shiftzero_hero.Service.Planner.Search.{
  is_bidirectional, Item, less, pop_least, links, insert_link, sort_links, extensions, is_settled,
}

module _ (N : Numbers) where
  open N use {Number}

  -- The nodes of the heap, of the settled distances and of the links.
  abbrev pub nodes : List (Item Number) → List String
  nodes [] = []
  nodes (x ∷ xs) = x.node ∷ nodes xs

  abbrev pub keys : List (String × Number) → List String
  keys [] = []
  keys ((n, d) ∷ best) = n ∷ keys best

  abbrev pub targets : List (String × MapEdge Number) → List String
  targets [] = []
  targets ((n, e) ∷ ls) = n ∷ targets ls

  pub has-nodes_append :
      (n : String) (xs ys : List (Item Number))
      → has n (nodes (xs ++ ys)) ≡ (has n (nodes xs) || has n (nodes ys))
  has-nodes_append n [] ys = ground arith
  has-nodes_append n (x ∷ xs) ys = ground (arith, has-nodes_append n xs ys)

  has-targets_append :
      (n : String) (xs ys : List (String × MapEdge Number))
      → has n (targets (xs ++ ys)) ≡ (has n (targets xs) || has n (targets ys))
  has-targets_append n [] ys = ground arith
  has-targets_append n (x ∷ xs) ys = ground (arith, has-targets_append n xs ys)

  pub has-pop_least :
      (n : String) (x : Item Number) (xs : List (Item Number))
      → has n (nodes (x ∷ xs))
        ≡ (str_eq (pop_least N x xs).0.node n || has n (nodes (pop_least N x xs).1))
  unfolding pop_least
  has-pop_least n x [] = refl
  has-pop_least n x (y ∷ ys) = elim (Bool-cases (less N y x)) [
    | inl sooner ↦ rw sooner (ground (arith, has-pop_least n y ys))
    | inr later ↦ rw later (ground (arith, has-pop_least n x ys))
  ]

  has-insert_link :
      (n : String) (l : String × MapEdge Number) (ls : List (String × MapEdge Number))
      → has n (targets (insert_link N l ls)) ≡ (str_eq l.0 n || has n (targets ls))
  has-insert_link n l [] = refl
  has-insert_link n l (m ∷ ls) = ground (arith, has-insert_link n l ls)

  pub has-sort_links :
      (n : String) (ls : List (String × MapEdge Number))
      → has n (targets (sort_links N ls)) ≡ has n (targets ls)
  has-sort_links n [] = refl
  has-sort_links n (l ∷ ls) =
      ground (arith, has-insert_link n l (sort_links N ls), has-sort_links n ls)

  pub settled-has :
      (n : String) (d : Number) (best : List (String × Number))
      → is_settled N n d best ≡ true
      → has n (keys best) ≡ true
  unfolding is_settled
  settled-has n d [] h = h
  settled-has n d ((m, c) ∷ best) h = ground (arith, settled-has n d best)

  -- A neighbour that is not forbidden and not on the path is put on the heap.
  pub extended :
      (forbidden : List String) (x : Item Number) (n : String) (ls : List (String × MapEdge Number))
      → has n (targets ls) ≡ true
      → has n forbidden ≡ false
      → has n x.path ≡ false
      → has n (nodes (extensions N forbidden x ls)) ≡ true
  unfolding extensions
  extended forbidden x n [] h free fresh = h
  extended forbidden x n ((m, e) ∷ ls) h free fresh = elim (Bool-cases (str_eq m n)) [
    | inl same ↦
        let e : m ≡ n = same→eq m n same in
        let free' : has m forbidden ≡ false = rw e free in
        let fresh' : has m x.path ≡ false = rw e fresh in ground (arith, same, free', fresh')
    | inr other ↦ ground (arith, other, extended forbidden x n ls)
  ]

  -- An edge leads from one node to the other.
  abbrev pub Ends : String → String → MapEdge Number → Type 0
  Ends from next e =
      ((e.from_node ≡ from) × (e.to_node ≡ next))
      ⊎ ((e.direction ≡ bidirectional) × (e.to_node ≡ from) × (e.from_node ≡ next))

  two_ways :
      (e : MapEdge Number) → e.direction ≡ bidirectional → is_bidirectional e.direction ≡ true
  two_ways e h = rw h refl

  first_linked :
      (from next : String) (e : MapEdge Number) (es : List (MapEdge Number))
      → Ends from next e
      → has next (targets (links N from (e ∷ es))) ≡ true
  unfolding links
  first_linked from next e es ends = ground (
    arith,
    eq→same e.from_node from,
    eq→same e.to_node from,
    eq→same e.to_node next,
    eq→same e.from_node next,
    two_ways e,
    ends,
  )

  later_linked :
      (from next : String) (e : MapEdge Number) (es : List (MapEdge Number))
      → has next (targets (links N from es)) ≡ true
      → has next (targets (links N from (e ∷ es))) ≡ true
  unfolding links
  later_linked from next e es h = ground (
    arith,
    has-targets_append next (if str_eq e.from_node from then (e.to_node, e) ∷ [] else []) (
        (if is_bidirectional e.direction && str_eq e.to_node from
          then (e.from_node, e) ∷ []
          else [])
        ++ links N from es),
    has-targets_append next
        (if is_bidirectional e.direction && str_eq e.to_node from
          then (e.from_node, e) ∷ []
          else [])
        (links N from es),
  )

  pub linked :
      (from next : String) (e : MapEdge Number) (es : List (MapEdge Number))
      → Memᴰ e es
      → Ends from next e
      → has next (targets (links N from es)) ≡ true
  linked from next e [] on ends = elim on [ ]
  linked from next e (f ∷ es) (Memᴰ.head same) ends =
      first_linked from next f es (subst (Ends from next) same ends)
  linked from next e (f ∷ es) (Memᴰ.tail on) ends =
      later_linked from next f es (linked from next e es on ends)
