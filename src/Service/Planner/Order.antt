-- ===== src/Service/Planner/Order.antt =====
-- What the search of src/shiftzero/simulator.py needs of distances to find a shortest route, and the
-- length of a route as the search adds it up.
use shiftzero_hero.Common.{◌≡◌, refl, true, false, List, [], ◌∷◌, ◌++◌}
use shiftzero_hero.Numbers.{Numbers}
use shiftzero_hero.Service.Domain.{MapEdge}

module _ (N : Numbers) where
  open N use {Number, of_ℕ, add, le, eq}

  -- A total order that addition keeps, as on the floating-point numbers without NaN.
  pub record Ordered : Type 0 where
    pub same : (a : Number) → le a a ≡ true
    pub trans : (a b c : Number) → le a b ≡ true → le b c ≡ true → le a c ≡ true
    pub total : (a b : Number) → le a b ≡ false → le b a ≡ true
    pub eq_le : (a b : Number) → eq a b ≡ true → (le a b ≡ true) × (le b a ≡ true)
    pub add_le : (a b c : Number) → le a b ≡ true → le (add a c) (add b c) ≡ true

  -- The way over the edge is not shorter than the way before it.
  abbrev pub Grows : MapEdge Number → Type 0
  Grows e = (a : Number) → le a (add a e.length_m) ≡ true

  abbrev pub length_from : Number → List (MapEdge Number) → Number
  length_from a [] = a
  length_from a (e ∷ es) = length_from (add a e.length_m) es

  abbrev pub route_length : List (MapEdge Number) → Number
  route_length es = length_from (of_ℕ 0) es

  length_from-append :
      (a : Number) (es : List (MapEdge Number)) (e : MapEdge Number)
      → length_from a (es ++ e ∷ []) ≡ add (length_from a es) e.length_m
  length_from-append a [] e = refl
  length_from-append a (f ∷ es) e = length_from-append (add a f.length_m) es e

  pub route_length-append :
      (es : List (MapEdge Number)) (e : MapEdge Number)
      → route_length (es ++ e ∷ []) ≡ add (route_length es) e.length_m
  route_length-append es e = length_from-append (of_ℕ 0) es e
