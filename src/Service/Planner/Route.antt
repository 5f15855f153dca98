-- ===== src/Service/Planner/Route.antt =====
-- `_shortest_path` of src/shiftzero/simulator.py: the search from a heap that holds the start alone.
use shiftzero_hero.Common.{
  ◌*◌, String, ◌≡◌, ◌≢◌, refl, ◌⊎◌, inl, inr, List, [], ◌∷◌, arith, length, All, Bool, true,
}
use shiftzero_hero.Numbers.{Numbers}
use shiftzero_hero.Service.Domain.{MapEdge}
use shiftzero_hero.Service.Planner.Search.{
  Item, Found, out_of_fuel, no_route, type_error, route, search,
}
use shiftzero_hero.Service.Planner.Fuel.{enough_rounds}
use shiftzero_hero.Service.Planner.Walks.{Walk, standing, search-Walk}
use shiftzero_hero.Service.Planner.Ties.{Parallel, search-Parallel}
use shiftzero_hero.Service.Planner.Weights.{weight-le, off, off-length, ends_of, ends_of-length}
use shiftzero_hero.Service.Planner.Rounds.{search-enough}
use shiftzero_hero.Service.Planner.Frontier.{Frontier, search-no_route}
use shiftzero_hero.Service.Lookup.{eq→same}
use shiftzero_hero.Service.Planner.Order.{Ordered, Grows, route_length}
use shiftzero_hero.Service.Planner.Ahead.{Ahead}
use shiftzero_hero.Service.Planner.Shortest.{search-shortest}
use shiftzero_hero.Service.Planner.Search.{is_settled}

module _ (N : Numbers) (compares : List (Item N.Number) → Bool) where
  open N use {Number, of_ℕ, le}

  abbrev start_item : String → Item Number
  start_item start = record { distance = of_ℕ 0; node = start; path = start ∷ []; edges = [] }

  unfoldable pub shortest_path :
      String → String → List (MapEdge Number) → List String → Found Number
  shortest_path start destination map_edges forbidden =
      search N compares destination map_edges forbidden (enough_rounds map_edges)
        (start_item start ∷ []) []

  pub shortest_path-Walk :
      (start destination : String) (map_edges : List (MapEdge Number))
      (forbidden path : List String) (edges : List (MapEdge Number))
      → shortest_path start destination map_edges forbidden ≡ route path edges
      → Walk N map_edges forbidden start path edges destination
  unfolding shortest_path
  shortest_path-Walk start destination map_edges forbidden path edges found =
      search-Walk N map_edges forbidden start compares destination (enough_rounds map_edges)
        (start_item start ∷ []) [] path edges (standing, tt) found

  shortest_path-ends :
      (start destination : String) (map_edges : List (MapEdge Number)) (forbidden : List String)
      → shortest_path start destination map_edges forbidden ≢ out_of_fuel
  unfolding shortest_path enough_rounds
  shortest_path-ends start destination map_edges forbidden =
      search-enough N map_edges forbidden compares destination (enough_rounds map_edges)
        (start_item start ∷ []) []
        (omega (
          arith,
          weight-le (2 * length map_edges) (off (start ∷ []) (ends_of map_edges))
              (2 * length map_edges)
              (omega
                (arith, off-length (start ∷ []) (ends_of map_edges), ends_of-length map_edges)),
        ))

  start-Frontier :
      (start destination : String) (map_edges : List (MapEdge Number)) (forbidden : List String)
      → Frontier N map_edges forbidden start destination (start_item start ∷ []) []
  start-Frontier start destination map_edges forbidden = record {
    paths = (λ m on_path. ground (arith, on_path), tt);
    closed = λ u v settled near free. absurd (ground (arith, settled));
    reached = ground (arith, eq→same start start refl);
    missing = refl;
  }

  -- The search for a route always ends: with a route, which is then a way over edges of the map
  -- from the start to the destination that enters no forbidden node and no node twice, with the
  -- error that there is none, and then there is no such way, or with a TypeError, and then two
  -- different edges of the map lead from one node to one other; whichever entries of its heap it
  -- compares.
  pub shortest_path-decides :
      (start destination : String) (map_edges : List (MapEdge Number)) (forbidden : List String)
      → ((path : List String) × (edges : List (MapEdge Number)) × (shortest_path start destination
              map_edges forbidden
            ≡ route path edges)
          × Walk N map_edges forbidden start path edges destination)
        ⊎ ((shortest_path start destination map_edges forbidden ≡ no_route)
            × ((path : List String) (edges : List (MapEdge Number))
                → ¬ Walk N map_edges forbidden start path edges destination))
        ⊎ ((shortest_path start destination map_edges forbidden ≡ type_error)
            × Parallel N map_edges)
  shortest_path-decides start destination map_edges forbidden =
      of (shortest_path start destination map_edges forbidden) refl
    where
      of :
          (f : Found Number)
          → shortest_path start destination map_edges forbidden ≡ f
          → ((path : List String) × (edges : List (MapEdge Number)) × (shortest_path start
                  destination map_edges forbidden
                ≡ route path edges)
              × Walk N map_edges forbidden start path edges destination)
            ⊎ ((shortest_path start destination map_edges forbidden ≡ no_route)
                × ((path : List String) (edges : List (MapEdge Number))
                    → ¬ Walk N map_edges forbidden start path edges destination))
            ⊎ ((shortest_path start destination map_edges forbidden ≡ type_error)
                × Parallel N map_edges)
      of out_of_fuel same = absurd (shortest_path-ends start destination map_edges forbidden same)
      of (route path edges) same = inl (
        path,
        edges,
        same,
        shortest_path-Walk start destination map_edges forbidden path edges same,
      )
      of no_route same = inr (
          inl (
            same,
            unfold shortest_path in
                search-no_route N map_edges forbidden start destination compares
                  (enough_rounds map_edges) (start_item start ∷ []) []
                  (start-Frontier start destination map_edges forbidden) same,
          ))
      of type_error same = inr (
          inr (
            same,
            unfold shortest_path in
                search-Parallel N map_edges forbidden start compares destination
                  (enough_rounds map_edges) (start_item start ∷ []) [] (standing, tt) same,
          ))

  start-Ahead :
      (O : Ordered N) (start destination : String) (map_edges : List (MapEdge Number))
      (forbidden : List String)
      → Ahead N O map_edges forbidden start destination (start_item start ∷ []) []
  unfolding is_settled
  start-Ahead O start destination map_edges forbidden = record {
    paths = (λ m on_path. ground (arith, on_path), tt);
    measured = (refl, tt);
    closed = λ u v from far there near free. absurd (ground (arith, there));
    reached = ground (arith, eq→same start start refl, O.same (of_ℕ 0));
    missing = λ far. refl;
  }

  -- A route that the search returns is a shortest one: no way over the map from the start to the
  -- destination that enters no forbidden node and no node twice is shorter, when distances are
  -- totally ordered, addition keeps the order, and no edge of the map makes a way shorter.
  pub shortest_path-shortest :
      Ordered N
      → (start destination : String) (map_edges : List (MapEdge Number)) (forbidden : List String)
      → All (Grows N) map_edges
      → (path : List String) (edges : List (MapEdge Number))
      → shortest_path start destination map_edges forbidden ≡ route path edges
      → (path' : List String) (edges' : List (MapEdge Number))
      → Walk N map_edges forbidden start path' edges' destination
      → le (route_length N edges) (route_length N edges') ≡ true
  unfolding shortest_path
  shortest_path-shortest O start destination map_edges forbidden grows path edges found =
      search-shortest N O map_edges forbidden start destination grows compares
        (enough_rounds map_edges) (start_item start ∷ []) [] path edges
        (start-Ahead O start destination map_edges forbidden) found
