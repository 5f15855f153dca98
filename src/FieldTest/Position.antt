-- ===== src/FieldTest/Position.antt =====
-- Where the vehicles can be: `pointAlong` and `heroPosition` of
-- apps/web/components/field-test-simulator.tsx.
use shiftzero_hero.Common.{
  ℕ, ◌+◌, ◌-◌, ◌≤◌, ◌<◌, ◌≡◌, refl, inl, inr, true, false, some, List, [], ◌∷◌, arith, take, max,
  Option, lt→ltb, le_or_lt, ltb, leb, Bool-cases, if◌then◌else◌,
}
use shiftzero_hero.Numbers.{Numbers}
use shiftzero_hero.FieldTest.Schedule.{detect_at_ms}
use shiftzero_hero.FieldTest.Motion.{
  Point, point, route_a, distance, distances, sum_from, between, walk, point_along, hero_position,
  detour_route,
}

le→leb : (a b : ℕ) → a ≤ b → leb a b ≡ true
le→leb a b h = ground arith

lt→not-leb : (a b : ℕ) → a < b → leb b a ≡ false
lt→not-leb a b h = ground arith

le→not-ltb : (a b : ℕ) → a ≤ b → ltb b a ≡ false
le→not-ltb a b h = ground arith

module _ (N : Numbers) where
  open N use {Number, of_ℕ, add, sub, mul, div, hypot, max_num, min_num, le, eq}

  -- Signs, as on the floating-point numbers without NaN and infinite ones.
  pub record Measured : Type 0 where
    pub zero_zero : le (of_ℕ 0) (of_ℕ 0) ≡ true
    pub max_pos : (a : Number) → le (of_ℕ 0) (max_num (of_ℕ 0) a) ≡ true
    pub mul_pos :
        (a b : Number) → le (of_ℕ 0) a ≡ true → le (of_ℕ 0) b ≡ true → le (of_ℕ 0) (mul a b) ≡ true
    pub add_pos :
        (a b : Number) → le (of_ℕ 0) a ≡ true → le (of_ℕ 0) b ≡ true → le (of_ℕ 0) (add a b) ≡ true
    pub hypot_pos : (a b : Number) → le (of_ℕ 0) (hypot a b) ≡ true
    pub sub_pos : (a b : Number) → le a b ≡ false → le (of_ℕ 0) (sub a b) ≡ true

  -- A point of a path: the last one, or one between two neighbours, at a part of their distance that
  -- is not negative and at most all of it.
  pub data Along : List (Point Number) → Point Number → Type 0 where
    last : (p : Point Number) → Along (p ∷ []) p
    here :
        (p q : Point Number) (rest : List (Point Number)) (part : Number)
        → le (of_ℕ 0) part ≡ true
        → le part (distance N p q) ≡ true
        → Along (p ∷ q ∷ rest) (
            between N p q
              (if eq (distance N p q) (of_ℕ 0) then of_ℕ 0 else div part (distance N p q)))
    later :
        (p q : Point Number) {rest : List (Point Number)} {x : Point Number}
        → Along (q ∷ rest) x
        → Along (p ∷ q ∷ rest) x

  walk-Along :
      Measured
      → (p : Point Number) (rest : List (Point Number)) (remaining : Number)
      → le (of_ℕ 0) remaining ≡ true
      → (x : Point Number) × (walk N (p ∷ rest) (distances N (p ∷ rest)) remaining ≡ some x)
        × Along (p ∷ rest) x
  unfolding walk
  walk-Along M p [] remaining pos = (p, refl, last p)
  walk-Along M p (q ∷ rest) remaining pos = elim (Bool-cases (le remaining (distance N p q))) [
    | inl fits ↦ (_, rw fits refl, here p q rest remaining pos fits)
    | inr past ↦
        let (x, found, on) =
          walk-Along M q rest (sub remaining (distance N p q)) (M.sub_pos _ _ past) in
        (x, rw past found, later p q on)
  ]

  sum-pos :
      Measured
      → (sum : Number) (p : Point Number) (rest : List (Point Number)) → le (of_ℕ 0) sum ≡ true
      → le (of_ℕ 0) (sum_from N sum (distances N (p ∷ rest))) ≡ true
  sum-pos M sum p [] h = h
  sum-pos M sum p (q ∷ rest) h =
      sum-pos M (add sum (distance N p q)) q rest (M.add_pos _ _ h (M.hypot_pos _ _))

  -- When numbers keep their signs as those do that are neither NaN nor infinite, pointAlong of a
  -- path with points is never undefined, and its result lies on the path, neither before its start
  -- nor after its end.
  pub point_along-Along :
      Measured
      → (p : Point Number) (rest : List (Point Number)) (progress : Number)
      → (x : Point Number) × (point_along N (p ∷ rest) progress ≡ some x) × Along (p ∷ rest) x
  unfolding point_along
  point_along-Along M p rest progress =
      walk-Along M p rest _ (M.mul_pos _ _ (M.max_pos _) (sum-pos M (of_ℕ 0) p rest M.zero_zero))

  -- Where the vehicle may be at a time: up to the detection on the first part of route A, then at N09
  -- until the instant of resumption, and on the detour from that instant on.
  pub data Placed (elapsed_ms stop_latency_ms : ℕ) : Option (Point Number) → Type 0 where
    arriving :
        {x : Point Number}
        → elapsed_ms ≤ detect_at_ms
        → Along (take 3 (route_a N)) x
        → Placed elapsed_ms stop_latency_ms (some x)
    stopped :
        detect_at_ms < elapsed_ms
        → elapsed_ms < detect_at_ms + stop_latency_ms + 1750
        → Placed elapsed_ms stop_latency_ms (some (point N 620 420))
    leaving :
        {x : Point Number}
        → detect_at_ms + stop_latency_ms + 1750 ≤ elapsed_ms
        → Along (detour_route N) x
        → Placed elapsed_ms stop_latency_ms (some x)

  -- When numbers keep their signs as those do that are neither NaN nor infinite, the vehicle has a
  -- position at every time: up to the detection on the first part of route A, after it N09 up to
  -- the instant of resumption, and on the detour from that instant on.
  pub hero_position-Placed :
      Measured
      → (elapsed_ms stop_latency_ms complete_at_ms : ℕ)
      → Placed elapsed_ms stop_latency_ms
          (hero_position N elapsed_ms stop_latency_ms complete_at_ms)
  unfolding hero_position
  hero_position-Placed M e l c = elim (le_or_lt e detect_at_ms) [
    | inl early ↦
        let (x, found, on) =
          point_along-Along M (point N 72 420) (point N 330 420 ∷ point N 620 420 ∷ [])
            (div (of_ℕ e) (of_ℕ detect_at_ms)) in
        rw (le→leb e detect_at_ms early, found) (arriving early on)
    | inr after ↦ elim (le_or_lt (detect_at_ms + l + 1750) e) [
      | inl late ↦
          let (x, found, on) =
            point_along-Along M (point N 620 420)
              (point N 620 245 ∷ point N 760 245 ∷ point N 842 135 ∷ [])
              (div (of_ℕ (e - (detect_at_ms + l + 1750)))
                (of_ℕ (max 1 (c - (detect_at_ms + l + 1750))))) in
          rw (lt→not-leb detect_at_ms e after, le→not-ltb (detect_at_ms + l + 1750) e late, found)
            (leaving late on)
      | inr before ↦
          rw (lt→not-leb detect_at_ms e after, lt→ltb e (detect_at_ms + l + 1750) before)
            (stopped after before)
    ]
  ]
