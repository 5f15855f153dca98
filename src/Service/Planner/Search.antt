-- ===== src/Service/Planner/Search.antt =====
-- The search for a route: `_shortest_path` of src/shiftzero/simulator.py. The heap is the list of its
-- items, of which a round takes the least.
use Prim.Native.Nat.{Ordering}
use Prim.Native.String.{compare}
use text.Mathlib.Text.{◌==◌ as str_eq}
use shiftzero_hero.Common.{
  ℕ, zero, suc, String, Bool, true, false, not, ◌&&◌, ◌||◌, List, [], ◌∷◌, ◌++◌, if◌then◌else◌,
}
use shiftzero_hero.Numbers.{Numbers}
use shiftzero_hero.Service.Lookup.{has}
use shiftzero_hero.Service.Domain.{Direction, bidirectional, forward, MapEdge}

abbrev pub text_lt : String → String → Bool
text_lt s t = elim (compare s t) [ Ordering.lt ↦ true | _ ↦ false ]

abbrev path_lt : List String → List String → Bool
path_lt xs [] = false
path_lt [] (y ∷ ys) = true
path_lt (x ∷ xs) (y ∷ ys) = text_lt x y || (str_eq x y && path_lt xs ys)

abbrev pub is_bidirectional : Direction → Bool
is_bidirectional bidirectional = true
is_bidirectional forward = false

module _ (F : Type 0) where
  -- An entry of the heap.
  pub record Item : Type 0 where
    pub distance : F
    pub node : String
    pub path : List String
    pub edges : List (MapEdge F)

  pub data Found : Type 0 where
    out_of_fuel no_route type_error : Found
    route : List String → List (MapEdge F) → Found

  -- A round ends the search, or leaves a heap and the distances of the settled nodes.
  pub data Outcome : Type 0 where
    stop : Found → Outcome
    go : List Item → List (String × F) → Outcome

module _ (N : Numbers) where
  open N use {Number, of_ℕ, add, le, eq}

  abbrev same_direction : Direction → Direction → Bool
  same_direction d e =
      (is_bidirectional d && is_bidirectional e)
      || (not (is_bidirectional d) && not (is_bidirectional e))

  -- `==` of two edges, field by field.
  abbrev pub same_edge : MapEdge Number → MapEdge Number → Bool
  same_edge e f =
      str_eq e.from_node f.from_node
      && (str_eq e.to_node f.to_node
          && (eq e.length_m f.length_m
              && (eq e.speed_limit_mps f.speed_limit_mps
                  && (same_direction e.direction f.direction
                      && str_eq e.reservation_group f.reservation_group))))

  abbrev pub same_edges : List (MapEdge Number) → List (MapEdge Number) → Bool
  same_edges [] [] = true
  same_edges (e ∷ es) (f ∷ fs) = same_edge e f && same_edges es fs
  same_edges [] (f ∷ fs) = false
  same_edges (e ∷ es) [] = false

  abbrev pub same_path : List String → List String → Bool
  same_path [] [] = true
  same_path (x ∷ xs) (y ∷ ys) = str_eq x y && same_path xs ys
  same_path [] (y ∷ ys) = false
  same_path (x ∷ xs) [] = false

  -- Two entries that differ in their edges alone, which have no order: comparing the two is a TypeError.
  abbrev pub is_tie : Item Number → Item Number → Bool
  is_tie a b =
      eq a.distance b.distance
      && (str_eq a.node b.node && (same_path a.path b.path && not (same_edges a.edges b.edges)))

  abbrev pub ties_with : Item Number → List (Item Number) → Bool
  ties_with x [] = false
  ties_with x (y ∷ ys) = is_tie x y || ties_with x ys

  unfoldable pub has_tie : List (Item Number) → Bool
  has_tie [] = false
  has_tie (x ∷ xs) = ties_with x xs || has_tie xs

  -- The order of the tuples, by distance, node and path.
  unfoldable pub less : Item Number → Item Number → Bool
  less a b =
      (le a.distance b.distance && not (eq a.distance b.distance))
      || (eq a.distance b.distance
          && (text_lt a.node b.node || (str_eq a.node b.node && path_lt a.path b.path)))

  -- `heappop` of the heap `x ∷ xs`: the least item, and the others.
  unfoldable pub pop_least : Item Number → List (Item Number) → Item Number × List (Item Number)
  pop_least x [] = (x, [])
  pop_least x (y ∷ ys) =
      let (least, rest) = pop_least (if less y x then y else x) ys in
      (least, (if less y x then x else y) ∷ rest)

  -- `graph.get(node, [])`: the neighbours, each with its edge.
  unfoldable pub links : String → List (MapEdge Number) → List (String × MapEdge Number)
  links node [] = []
  links node (e ∷ es) =
      (if str_eq e.from_node node then (e.to_node, e) ∷ [] else [])
      ++ ((if is_bidirectional e.direction && str_eq e.to_node node
            then (e.from_node, e) ∷ []
            else [])
          ++ links node es)

  abbrev pub insert_link :
      String × MapEdge Number → List (String × MapEdge Number) → List (String × MapEdge Number)
  insert_link l [] = l ∷ []
  insert_link l (m ∷ ms) =
      let rest = insert_link l ms in if text_lt m.0 l.0 then m ∷ rest else l ∷ m ∷ ms

  -- `sorted(…, key=lambda item: item[0])`, which keeps the order of equal keys.
  abbrev pub sort_links : List (String × MapEdge Number) → List (String × MapEdge Number)
  sort_links [] = []
  sort_links (l ∷ ls) = insert_link l (sort_links ls)

  -- The items that the neighbours give: those that are not forbidden and not on the path yet.
  unfoldable pub extensions :
      List String → Item Number → List (String × MapEdge Number) → List (Item Number)
  extensions forbidden x [] = []
  extensions forbidden x ((next, e) ∷ ls) =
      let rest = extensions forbidden x ls in
      if has next forbidden || has next x.path
      then rest
      else record {
        distance = add x.distance e.length_m;
        node = next;
        path = x.path ++ next ∷ [];
        edges = x.edges ++ e ∷ [];
      }
        ∷ rest

  -- `node in best and best[node] <= distance`
  unfoldable pub is_settled : String → Number → List (String × Number) → Bool
  is_settled node distance [] = false
  is_settled node distance ((n, d) ∷ best) =
      let earlier = is_settled node distance best in
      if str_eq n node then le d distance else earlier

  -- Which of its entries `heapq` compares is its own affair: `compares` says of a heap whether the pushes
  -- that made it and the next `heappop` compare two entries of it that differ in their edges alone.
  module _ (compares : List (Item Number) → Bool) (destination : String)
      (map_edges : List (MapEdge Number)) (forbidden : List String) where
    -- One round of the `while`.
    unfoldable pub search_round : List (Item Number) → List (String × Number) → Outcome Number
    search_round [] best = stop no_route
    search_round (x ∷ xs) best =
        let (item, rest) = pop_least x xs in
        if compares (x ∷ xs) && has_tie (x ∷ xs)
        then stop type_error
        else if is_settled item.node item.distance best
        then go rest best
        else if str_eq item.node destination
        then stop (route item.path item.edges)
        else go (rest ++ extensions forbidden item (sort_links (links item.node map_edges)))
            ((item.node, item.distance) ∷ best)

    unfoldable pub search : ℕ → List (Item Number) → List (String × Number) → Found Number
    unfolding search_round
    search zero queue best = out_of_fuel
    search (suc fuel) queue best = elim (search_round queue best) [
      | stop found ↦ found
      | go queue' best' ↦ search fuel queue' best'
    ]
