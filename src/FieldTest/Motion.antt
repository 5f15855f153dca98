-- ===== src/FieldTest/Motion.antt =====
-- The routes and the positions of the vehicles: `pointAlong`, `pathData`, the memo `heroPosition`
-- and the traffic of apps/web/components/field-test-simulator.tsx.
use shiftzero_hero.Common.{
  ℕ, ◌+◌, ◌-◌, String, ◌&◌, Option, none, some, List, [], ◌∷◌, ltb, leb, ◌==◌, if◌then◌else◌,
  get_elem?, take, join_with, map_from, max,
}
use shiftzero_hero.Numbers.{Numbers}
use shiftzero_hero.FieldTest.Schedule.{detect_at_ms}

pub record Point (F : Type 0) : Type 0 where
  pub x : F
  pub y : F

module _ (N : Numbers) where
  open N use {Number, of_ℕ, add, sub, mul, div, rem, hypot, min_num, max_num, le, eq, to_string}

  abbrev pub point : ℕ → ℕ → Point Number
  point x y = record { x = of_ℕ x; y = of_ℕ y }

  abbrev pub route_a : List (Point Number)
  route_a = point 72 420 ∷ point 330 420 ∷ point 620 420 ∷ point 735 280 ∷ point 842 135 ∷ []

  abbrev pub detour_route : List (Point Number)
  detour_route = point 620 420 ∷ point 620 245 ∷ point 760 245 ∷ point 842 135 ∷ []

  abbrev pub traffic_loop : List (Point Number)
  traffic_loop = point 115 135 ∷ point 400 135 ∷ point 500 245 ∷ point 390 360 ∷ point 135 360 ∷ []

  abbrev pub distance : Point Number → Point Number → Number
  distance p q = hypot (sub q.x p.x) (sub q.y p.y)

  abbrev pub distances : List (Point Number) → List Number
  distances [] = []
  distances (p ∷ []) = []
  distances (p ∷ q ∷ rest) = distance p q ∷ distances (q ∷ rest)

  -- `distances.reduce((sum, distance) => sum + distance, sum)`
  abbrev pub sum_from : Number → List Number → Number
  sum_from sum [] = sum
  sum_from sum (d ∷ ds) = sum_from (add sum d) ds

  abbrev pub between : Point Number → Point Number → Number → Point Number
  between p q ratio = record {
    x = add p.x (mul (sub q.x p.x) ratio);
    y = add p.y (mul (sub q.y p.y) ratio);
  }

  -- The loop: the points from `index` on, and their distances. Past the last distance the result is
  -- the last point; of no points at all it is `undefined`.
  unfoldable pub walk : List (Point Number) → List Number → Number → Option (Point Number)
  walk [] ds remaining = none
  walk (p ∷ []) ds remaining = some p
  walk (p ∷ q ∷ rest) [] remaining = walk (q ∷ rest) [] remaining
  walk (p ∷ q ∷ rest) (d ∷ ds) remaining =
      let further = walk (q ∷ rest) ds (sub remaining d) in
      let ratio = if eq d (of_ℕ 0) then of_ℕ 0 else div remaining d in
      if le remaining d then some (between p q ratio) else further

  unfoldable pub point_along : List (Point Number) → Number → Option (Point Number)
  unfolding walk
  point_along points progress =
      let bounded = max_num (of_ℕ 0) (min_num (of_ℕ 1) progress) in
      let ds = distances points in walk points ds (mul bounded (sum_from (of_ℕ 0) ds))

  unfoldable pub path_data : List (Point Number) → String
  path_data points = join_with " " (
      map_from
        (λ index p.
          (if index == 0 then "M" else "L") & (" " & (to_string p.x & (" " & to_string p.y))))
        0 points)

  -- `heroPosition`, by `elapsedMs`, `stopLatencyMs` and `completeAtMs`. Both differences are of
  -- integers, the second cut at 1 by the source; the first is taken only where it is not negative.
  unfoldable pub hero_position : ℕ → ℕ → ℕ → Option (Point Number)
  hero_position elapsed_ms stop_latency_ms complete_at_ms =
      let resume_at : ℕ = detect_at_ms + stop_latency_ms + 1750 in
      if leb elapsed_ms detect_at_ms
      then point_along (take 3 route_a) (div (of_ℕ elapsed_ms) (of_ℕ detect_at_ms))
      else if ltb elapsed_ms resume_at
      then get_elem? route_a 2
      else point_along detour_route
          (div (of_ℕ (elapsed_ms - resume_at)) (of_ℕ (max 1 (complete_at_ms - resume_at))))

  -- The vehicle `index` of the traffic.
  unfoldable pub traffic_position : ℕ → ℕ → Option (Point Number)
  traffic_position elapsed_ms index =
      let one = of_ℕ 1 in
      let lap = add (div (of_ℕ elapsed_ms) (of_ℕ 10000)) (div (of_ℕ index) (of_ℕ 8)) in
      point_along traffic_loop (rem (add (rem lap one) one) one)
