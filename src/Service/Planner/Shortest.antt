-- ===== src/Service/Planner/Shortest.antt =====
-- The search of src/shiftzero/simulator.py finds a shortest route.
use text.Mathlib.Text.{◌==◌ as str_eq}
use shiftzero_hero.Common.{
  ℕ, zero, suc, String, Bool, ◌&&◌, ◌≡◌, inl, inr, true, List, [], ◌∷◌, arith, Bool-cases, All,
  subst,
}
use shiftzero_hero.Numbers.{Numbers}
use shiftzero_hero.Service.Domain.{MapEdge}
use shiftzero_hero.Service.Planner.Search.{
  Item, out_of_fuel, no_route, type_error, route, Outcome, stop, go, pop_least, has_tie, is_settled,
  search_round, search,
}
use shiftzero_hero.Service.Planner.Walks.{Walk, route_eq}
use shiftzero_hero.Service.Planner.Least.{pop_least-All}
use shiftzero_hero.Service.Planner.Order.{Ordered, Grows, route_length}
use shiftzero_hero.Service.Planner.Distances.{least-le}
use shiftzero_hero.Service.Planner.Ahead.{IsMeasured, Ahead, dropped, Walk-Ahead}
use shiftzero_hero.Service.Planner.Expand.{expanded}

module _ (N : Numbers) (O : Ordered N) (map_edges : List (MapEdge N.Number))
    (forbidden : List String) (start destination : String) where
  open N use {Number, of_ℕ, add, le}

  module _ (x : Item Number) (xs : List (Item Number)) (best : List (String × Number)) where
    abbrev least : Item Number
    least = (pop_least N x xs).0

    -- At the destination the least item is a shortest way.
    arrived-least :
        All (Grows N) map_edges
        → Ahead N O map_edges forbidden start destination (x ∷ xs) best
        → (path : List String) (edges : List (MapEdge Number))
        → Walk N map_edges forbidden start path edges destination
        → le (route_length N least.edges) (route_length N edges) ≡ true
    arrived-least grows f path edges way =
        let measured =
          (pop_least-All N (IsMeasured N O map_edges forbidden start destination) x xs f.measured.0
            f.measured.1).0 in
        subst (λ d. le d (route_length N edges) ≡ true) measured
          (least-le N O (route_length N edges) x xs (
            ground (
              arith,
              Walk-Ahead N O map_edges forbidden start destination (x ∷ xs) best grows f path edges
                  destination way,
              f.missing (route_length N edges),
            )))

  -- What a round can end with, or leave.
  abbrev EndsWell : Outcome Number → Type 0
  EndsWell (stop (route path edges)) =
      (path' : List String) (edges' : List (MapEdge Number))
      → Walk N map_edges forbidden start path' edges' destination
      → le (route_length N edges) (route_length N edges') ≡ true
  EndsWell (stop _) = Unit
  EndsWell (go queue best) = Ahead N O map_edges forbidden start destination queue best

  search_round-EndsWell :
      All (Grows N) map_edges
      → (compares : List (Item Number) → Bool) (queue : List (Item Number))
        (best : List (String × Number))
      → Ahead N O map_edges forbidden start destination queue best
      → EndsWell (search_round N compares destination map_edges forbidden queue best)
  unfolding search_round
  search_round-EndsWell grows compares [] best f = tt
  search_round-EndsWell grows compares (x ∷ xs) best f =
      elim (Bool-cases (compares (x ∷ xs) && has_tie N (x ∷ xs))) [
        | inl tied ↦ rw tied tt
        | inr tieless ↦
            elim (Bool-cases
              (is_settled N (least x xs best).node (least x xs best).distance best)) [
                | inl settled ↦
                    rw (tieless, settled)
                      (dropped N O map_edges forbidden start destination x xs best f settled)
                | inr fresh ↦ elim (Bool-cases (str_eq (least x xs best).node destination)) [
                  | inl arrived ↦ rw (tieless, fresh, arrived) (arrived-least x xs best grows f)
                  | inr onwards ↦
                      rw (tieless, fresh, onwards)
                        (expanded N O map_edges forbidden start destination x xs best grows f fresh
                          onwards)
                ]
              ]
      ]

  pub search-shortest :
      All (Grows N) map_edges
      → (compares : List (Item Number) → Bool) (fuel : ℕ) (queue : List (Item Number))
        (best : List (String × Number)) (path : List String) (edges : List (MapEdge Number))
      → Ahead N O map_edges forbidden start destination queue best
      → search N compares destination map_edges forbidden fuel queue best ≡ route path edges
      → (path' : List String) (edges' : List (MapEdge Number))
      → Walk N map_edges forbidden start path' edges' destination
      → le (route_length N edges) (route_length N edges') ≡ true
  unfolding search
  search-shortest grows compares zero queue best path edges f found = absurd (cc found)
  search-shortest grows compares (suc fuel) queue best path edges f found =
      end (λ q b g same. search-shortest grows compares fuel q b path edges g same)
        (search_round N compares destination map_edges forbidden queue best)
        (search_round-EndsWell grows compares queue best f) found
    where
      Shortest : Type 0
      Shortest =
          (path' : List String) (edges' : List (MapEdge Number))
          → Walk N map_edges forbidden start path' edges' destination
          → le (route_length N edges) (route_length N edges') ≡ true

      end :
          ((q : List (Item Number)) (b : List (String × Number))
            → Ahead N O map_edges forbidden start destination q b
            → search N compares destination map_edges forbidden fuel q b ≡ route path edges
            → Shortest)
          → (o : Outcome Number) → EndsWell o
          → elim o [
            | stop f ↦ f
            | go queue' best' ↦ search N compares destination map_edges forbidden fuel queue' best'
          ]
            ≡ route path edges
          → Shortest
      end ih (stop (route p es)) well same = λ path' edges' way.
          subst (λ fs. le (route_length N fs) (route_length N edges') ≡ true) (route_eq same).1
            (well path' edges' way)
      end ih (stop out_of_fuel) well same = absurd (cc same)
      end ih (stop no_route) well same = absurd (cc same)
      end ih (stop type_error) well same = absurd (cc same)
      end ih (go q b) well same = ih q b well same
