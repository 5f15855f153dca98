-- ===== src/Service/Planner/Distances.antt =====
-- How far the heap, the settled distances and the links of the search of src/shiftzero/simulator.py
-- reach.
use text.Mathlib.Text.{◌==◌ as str_eq}
use mathlib.Core.List.{Memᴰ}
use shiftzero_hero.Common.{
  String, ◌≡◌, refl, sym, ◌⊎◌, inl, inr, Bool, true, false, ◌&&◌, ◌||◌, List, [], ◌∷◌, ◌++◌, arith,
  if◌then◌else◌, Bool-cases, All, subst,
}
use shiftzero_hero.Numbers.{Numbers}
use shiftzero_hero.Service.Lookup.{has, same→eq, eq→same}
use shiftzero_hero.Service.Domain.{bidirectional, MapEdge}
use shiftzero_hero.Service.Planner.Search.{
  is_bidirectional, Item, less, pop_least, links, insert_link, sort_links, extensions, is_settled,
}
use shiftzero_hero.Service.Planner.Order.{Ordered, Grows}

module _ (N : Numbers) (O : Ordered N) where
  open N use {Number, add, le}

  -- Some item of the heap stands at the node, not farther than `far`.
  abbrev pub reaches : String → Number → List (Item Number) → Bool
  reaches n far [] = false
  reaches n far (x ∷ xs) = (str_eq x.node n && le x.distance far) || reaches n far xs

  -- Some link leads to the node, from a distance not farther than `far`.
  abbrev pub leads : String → Number → Number → List (String × MapEdge Number) → Bool
  leads n far from [] = false
  leads n far from ((m, e) ∷ ls) =
      (str_eq m n && le (add from e.length_m) far) || leads n far from ls

  -- Some item is not farther than `far`.
  abbrev pub any_within : Number → List (Item Number) → Bool
  any_within far [] = false
  any_within far (x ∷ xs) = le x.distance far || any_within far xs

  pub reaches-append :
      (n : String) (far : Number) (xs ys : List (Item Number))
      → reaches n far (xs ++ ys) ≡ (reaches n far xs || reaches n far ys)
  reaches-append n far [] ys = ground arith
  reaches-append n far (x ∷ xs) ys = ground (arith, reaches-append n far xs ys)

  pub reaches-within :
      (n : String) (far : Number) (xs : List (Item Number))
      → reaches n far xs ≡ true
      → any_within far xs ≡ true
  reaches-within n far [] h = h
  reaches-within n far (x ∷ xs) h = ground (arith, reaches-within n far xs)

  pub within-farther :
      (far farther : Number) (xs : List (Item Number))
      → le far farther ≡ true
      → any_within far xs ≡ true
      → any_within farther xs ≡ true
  within-farther far farther [] h k = k
  within-farther far farther (x ∷ xs) h k =
      ground (arith, O.trans x.distance far farther, within-farther far farther xs)

  pub reaches-pop_least :
      (n : String) (far : Number) (x : Item Number) (xs : List (Item Number))
      → reaches n far (x ∷ xs) ≡ (
          (str_eq (pop_least N x xs).0.node n && le (pop_least N x xs).0.distance far)
          || reaches n far (pop_least N x xs).1)
  unfolding pop_least
  reaches-pop_least n far x [] = refl
  reaches-pop_least n far x (y ∷ ys) = elim (Bool-cases (less N y x)) [
    | inl sooner ↦ rw sooner (ground (arith, reaches-pop_least n far y ys))
    | inr later ↦ rw later (ground (arith, reaches-pop_least n far x ys))
  ]

  less-le : (x y : Item Number) → less N y x ≡ true → le y.distance x.distance ≡ true
  unfolding less
  less-le x y h = ground (arith, O.eq_le y.distance x.distance)

  not_less-le : (x y : Item Number) → less N y x ≡ false → le x.distance y.distance ≡ true
  unfolding less
  not_less-le x y h = ground (arith, O.eq_le y.distance x.distance, O.total y.distance x.distance)

  -- The least item is not farther than any other.
  pub least-le :
      (far : Number) (x : Item Number) (xs : List (Item Number))
      → any_within far (x ∷ xs) ≡ true
      → le (pop_least N x xs).0.distance far ≡ true
  unfolding pop_least
  least-le far x [] h = ground (arith, h)
  least-le far x (y ∷ ys) h = elim (Bool-cases (less N y x)) [
    | inl sooner ↦ rw sooner (
        least-le far y ys
          (ground (arith, h, less-le x y sooner, O.trans y.distance x.distance far)))
    | inr later ↦ rw later (
        least-le far x ys
          (ground (arith, h, not_less-le x y later, O.trans x.distance y.distance far)))
  ]

  pub settled-farther :
      (n : String) (far farther : Number) (best : List (String × Number))
      → le far farther ≡ true
      → is_settled N n far best ≡ true
      → is_settled N n farther best ≡ true
  unfolding is_settled
  settled-farther n far farther [] h k = k
  settled-farther n far farther ((m, d) ∷ best) h k =
      ground (arith, O.trans d far farther, settled-farther n far farther best h)

  leads-insert_link :
      (n : String) (far from : Number) (l : String × MapEdge Number)
      (ls : List (String × MapEdge Number))
      → leads n far from (insert_link N l ls)
        ≡ ((str_eq l.0 n && le (add from l.1.length_m) far) || leads n far from ls)
  leads-insert_link n far from l [] = refl
  leads-insert_link n far from l (m ∷ ls) = ground (arith, leads-insert_link n far from l ls)

  pub leads-sort_links :
      (n : String) (far from : Number) (ls : List (String × MapEdge Number))
      → leads n far from (sort_links N ls) ≡ leads n far from ls
  leads-sort_links n far from [] = refl
  leads-sort_links n far from (l ∷ ls) =
      ground
        (arith, leads-insert_link n far from l (sort_links N ls), leads-sort_links n far from ls)

  -- From nearer by, the links lead as far.
  pub leads-nearer :
      (n : String) (far from nearer : Number) (ls : List (String × MapEdge Number))
      → le nearer from ≡ true
      → leads n far from ls ≡ true
      → leads n far nearer ls ≡ true
  leads-nearer n far from nearer [] h k = k
  leads-nearer n far from nearer ((m, e) ∷ ls) h k = ground (
    arith,
    O.add_le nearer from e.length_m h,
    O.trans (add nearer e.length_m) (add from e.length_m) far,
    leads-nearer n far from nearer ls h,
  )

  leads-append :
      (n : String) (far from : Number) (xs ys : List (String × MapEdge Number))
      → leads n far from (xs ++ ys) ≡ (leads n far from xs || leads n far from ys)
  leads-append n far from [] ys = ground arith
  leads-append n far from (x ∷ xs) ys = ground (arith, leads-append n far from xs ys)

  -- An edge leads from one node to the other.
  abbrev Ends : String → String → MapEdge Number → Type 0
  Ends from next e =
      ((e.from_node ≡ from) × (e.to_node ≡ next))
      ⊎ ((e.direction ≡ bidirectional) × (e.to_node ≡ from) × (e.from_node ≡ next))

  two_ways :
      (e : MapEdge Number) → e.direction ≡ bidirectional → is_bidirectional e.direction ≡ true
  two_ways e h = rw h refl

  leads-links :
      (n : String) (far from : Number) (u : String) (e : MapEdge Number)
      (es : List (MapEdge Number))
      → leads n far from (links N u (e ∷ es)) ≡ (
          (str_eq e.from_node u && (str_eq e.to_node n && le (add from e.length_m) far))
          || ((is_bidirectional e.direction && str_eq e.to_node u)
                && (str_eq e.from_node n && le (add from e.length_m) far)
              || leads n far from (links N u es)))
  unfolding links
  leads-links n far from u e es = ground (
    arith,
    leads-append n far from (if str_eq e.from_node u then (e.to_node, e) ∷ [] else []) (
        (if is_bidirectional e.direction && str_eq e.to_node u then (e.from_node, e) ∷ [] else [])
        ++ links N u es),
    leads-append n far from
        (if is_bidirectional e.direction && str_eq e.to_node u then (e.from_node, e) ∷ [] else [])
        (links N u es),
  )

  pub edge-leads :
      (u n : String) (from : Number) (e : MapEdge Number) (es : List (MapEdge Number))
      → Memᴰ e es
      → Ends u n e
      → leads n (add from e.length_m) from (links N u es) ≡ true
  edge-leads u n from e [] on ends = elim on [ ]
  edge-leads u n from e (f ∷ es) (Memᴰ.head same) ends =
      subst (λ g. leads n (add from g.length_m) from (links N u (f ∷ es)) ≡ true) (sym same)
        (ground (
          arith,
          leads-links n (add from f.length_m) from u f es,
          O.same (add from f.length_m),
          two_ways f,
          eq→same f.from_node u,
          eq→same f.to_node u,
          eq→same f.from_node n,
          eq→same f.to_node n,
          subst (Ends u n) same ends,
        ))
  edge-leads u n from e (f ∷ es) (Memᴰ.tail on) ends =
      ground
        (arith, leads-links n (add from e.length_m) from u f es, edge-leads u n from e es on ends)

  -- What a link leads to is not nearer than where it starts.
  pub leads-le :
      (u n : String) (far from : Number) (es : List (MapEdge Number))
      → All (Grows N) es
      → leads n far from (links N u es) ≡ true
      → le from far ≡ true
  unfolding links
  leads-le u n far from [] grows h = absurd (ground (arith, h))
  leads-le u n far from (e ∷ es) (grow, grows) h = ground (
    arith,
    h,
    leads-links n far from u e es,
    grow from,
    O.trans from (add from e.length_m) far,
    leads-le u n far from es grows,
  )

  -- A neighbour that is not forbidden and not on the path is put on the heap.
  pub extended :
      (forbidden : List String) (x : Item Number) (n : String) (far : Number)
      (ls : List (String × MapEdge Number))
      → leads n far x.distance ls ≡ true
      → has n forbidden ≡ false
      → has n x.path ≡ false
      → reaches n far (extensions N forbidden x ls) ≡ true
  unfolding extensions
  extended forbidden x n far [] h free fresh = h
  extended forbidden x n far ((m, e) ∷ ls) h free fresh = elim (Bool-cases (str_eq m n)) [
    | inl same ↦
        let e : m ≡ n = same→eq m n same in
        let free' : has m forbidden ≡ false = rw e free in
        let fresh' : has m x.path ≡ false = rw e fresh in
        ground (arith, h, same, free', fresh', extended forbidden x n far ls)
    | inr other ↦ ground (arith, h, other, extended forbidden x n far ls)
  ]
