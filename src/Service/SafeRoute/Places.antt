-- ===== src/Service/SafeRoute/Places.antt =====
-- The nodes and the groups of a route for the checks of src/shiftzero/safety.py: what their lists of hits
-- say of each.
use text.Mathlib.Text.{◌==◌ as str_eq}
use shiftzero_hero.Common.{
  sym, ◌↔◌, All-map, ℕ, suc, String, ◌≡◌, refl, ◌≢◌, ◌⊎◌, inl, inr, Bool, true, false, List, [],
  ◌∷◌, ◌++◌, arith, filter, Bool-cases, Option-cases, All,
}
use shiftzero_hero.Numbers.{Numbers}
use shiftzero_hero.Service.Lookup.{has, get, same→eq, eq→same}
use shiftzero_hero.Service.Domain.{Clock, MapNode, ObstacleState, RouteReservation, RoutePlan}
use shiftzero_hero.Service.Safety.{
  Snapshot, forbidden_zones, overlaps, is_taken, group_duration, is_forbidden, is_active, nodes_of,
  active_obstacles, conflict_texts, conflicts_from, admits,
}
use shiftzero_hero.Service.SafeRoute.{node_of, SafeNode, FreeFrom, Counts, Meets, IsOwn}
use shiftzero_hero.Service.SafeRoute.Parts.{none_kept, none_passes}

append_nil : {A : Type 0} (xs ys : List A) → xs ++ ys ≡ [] → (xs ≡ []) × (ys ≡ [])
append_nil [] ys h = (refl, h)
append_nil (x ∷ xs) ys h = absurd (cc h)

module _ (N : Numbers) (C : Clock N) where
  open N use {Number, of_ℕ, sub, mul}
  open C use {Time, shift}

  open_zone :
      (node : MapNode Number)
      → has node.zone forbidden_zones ≡ false
      → (node.zone ≢ "forbidden") × (node.zone ≢ "human-only")
  open_zone node h = (
    λ e. ground (arith, h, eq→same "forbidden" node.zone (sym e)),
    λ e. ground (arith, h, eq→same "human-only" node.zone (sym e)),
  )

  not_closed :
      (node : MapNode Number)
      → (node.zone ≢ "forbidden") × (node.zone ≢ "human-only")
      → has node.zone forbidden_zones ≡ false
  not_closed node (open_a, open_b) = elim (Bool-cases (has node.zone forbidden_zones)) [
    | inl closed ↦ elim (Bool-cases (str_eq "forbidden" node.zone)) [
      | inl a ↦ absurd (open_a (sym (same→eq "forbidden" node.zone a)))
      | inr not_a ↦
          absurd (open_b (sym (same→eq "human-only" node.zone (ground (arith, closed, not_a)))))
    ]
    | inr free ↦ free
  ]

  -- Of the obstacles that count none is on the node.
  unoccupied :
      (act : ObstacleState Number Time → Bool) (id : String) (os : List (ObstacleState Number Time))
      → has id (nodes_of N C (filter act os)) ≡ false
      → All (λ o. (act o ≡ false) ⊎ (o.node_id ≢ id)) os
  unoccupied act id [] h = tt
  unoccupied act id (o ∷ os) h = elim (Bool-cases (act o)) [
    | inl on ↦ (
      inr (λ e. ground (arith, on, eq→same o.node_id id e)),
      unoccupied act id os (ground (arith, on)),
    )
    | inr off ↦ (inl off, unoccupied act id os (ground (arith, off)))
  ]

  unoccupied_back :
      (act : ObstacleState Number Time → Bool) (id : String) (os : List (ObstacleState Number Time))
      → All (λ o. (act o ≡ false) ⊎ (o.node_id ≢ id)) os
      → has id (nodes_of N C (filter act os)) ≡ false
  unoccupied_back act id [] h = refl
  unoccupied_back act id (o ∷ os) (here, rest) =
      ground (arith, unoccupied_back act id os rest, same→eq o.node_id id)

  is_active_iff :
      (s : Snapshot N C) (o : ObstacleState Number Time)
      → (is_active N C s o ≡ true) ↔ Counts N C s o
  unfolding is_active
  is_active_iff s o = (λ h. ground (arith, h), λ c. ground (arith, c))

  -- An obstacle is inactive or elsewhere exactly if it does not count where it is here.
  to_clear :
      (s : Snapshot N C) (id : String) (o : ObstacleState Number Time)
      → (is_active N C s o ≡ false) ⊎ (o.node_id ≢ id)
      → o.node_id ≡ id
      → ¬ Counts N C s o
  to_clear s id o (inl off) same c = ground (arith, off, (is_active_iff s o).1 c)
  to_clear s id o (inr other) same c = other same

  of_clear :
      (s : Snapshot N C) (id : String) (o : ObstacleState Number Time)
      → (o.node_id ≡ id → ¬ Counts N C s o)
      → (is_active N C s o ≡ false) ⊎ (o.node_id ≢ id)
  of_clear s id o h = elim (Bool-cases (is_active N C s o)) [
    | inl on ↦ inr (λ same. h same ((is_active_iff s o).0 on))
    | inr off ↦ inl off
  ]

  pub safe_node :
      (s : Snapshot N C) (id : String)
      → (is_forbidden N C s id ≡ false)
        × (admits N C s id ≡ true)
        × (has id (active_obstacles N C s) ≡ false)
      → SafeNode N C s id
  unfolding is_forbidden admits active_obstacles
  safe_node s id (allowed, fits, free) = record {
    on_map = elim (Option-cases (node_of N C id s)) [
      | inl e ↦ absurd (ground (arith, e))
      | inr (node, e) ↦ (node, e, open_zone node (ground (arith, e)), ground (arith, e))
    ];
    clear =
        All-map _ _ (to_clear s id) s.obstacles (unoccupied (is_active N C s) id s.obstacles free);
  }

  pub safe_node_back :
      (s : Snapshot N C) (id : String)
      → SafeNode N C s id
      → (is_forbidden N C s id ≡ false)
        × (admits N C s id ≡ true)
        × (has id (active_obstacles N C s) ≡ false)
  unfolding is_forbidden admits active_obstacles
  safe_node_back s id h =
      let (node, e, allowed, fits) = h.on_map in
      (
        ground (arith, e, not_closed node allowed),
        ground (arith, e),
        unoccupied_back (is_active N C s) id s.obstacles
            (All-map _ _ (of_clear s id) s.obstacles h.clear),
      )

  overlaps_iff :
      (plan : RoutePlan Number) (group : String) (from to : Time) (r : RouteReservation Time)
      → (overlaps N C plan group from to r ≡ true) ↔ Meets N C plan group from to r
  unfolding overlaps
  overlaps_iff plan group from to r = (
    λ h. (
      same→eq r.reservation_group group (ground (arith, h)),
      λ e. ground (arith, h, eq→same r.held_by plan.selected_agv e),
      ground (arith, h),
      ground (arith, h),
    ),
    λ (same, other, begun, open_yet). elim (Bool-cases (str_eq r.held_by plan.selected_agv)) [
      | inl own ↦ absurd (other (same→eq r.held_by plan.selected_agv own))
      | inr foreign ↦
          ground (arith, foreign, eq→same r.reservation_group group same, begun, open_yet)
    ],
  )

  apart :
      (plan : RoutePlan Number) (group : String) (from to : Time) (r : RouteReservation Time)
      → overlaps N C plan group from to r ≡ false
      → ¬ Meets N C plan group from to r
  apart plan group from to r h m = ground (arith, h, (overlaps_iff plan group from to r).1 m)

  apart_back :
      (plan : RoutePlan Number) (group : String) (from to : Time) (r : RouteReservation Time)
      → ¬ Meets N C plan group from to r
      → overlaps N C plan group from to r ≡ false
  apart_back plan group from to r h = elim (Bool-cases (overlaps N C plan group from to r)) [
    | inl meets ↦ absurd (h ((overlaps_iff plan group from to r).0 meets))
    | inr free ↦ free
  ]

  pub own :
      (plan : RoutePlan Number) (s : Snapshot N C) (group : String)
      → is_taken N C plan s group ≡ false
      → IsOwn N C plan s group
  unfolding is_taken
  own plan s group h holder held = same→eq holder plan.selected_agv (ground (arith, h, held))

  pub own_back :
      (plan : RoutePlan Number) (s : Snapshot N C) (group : String)
      → IsOwn N C plan s group
      → is_taken N C plan s group ≡ false
  unfolding is_taken
  own_back plan s group h = elim (Option-cases (get group s.reserved_groups)) [
    | inl free ↦ ground (arith, free)
    | inr (holder, held) ↦ ground (arith, held, eq→same holder plan.selected_agv (h holder held))
  ]

  pub free_from :
      (plan : RoutePlan Number) (s : Snapshot N C) (index : ℕ) (groups : List String)
      → conflicts_from N C plan s index groups ≡ []
      → FreeFrom N C plan s index groups
  unfolding conflicts_from group_duration
  free_from plan s index [] h = tt
  free_from plan s index (group ∷ rest) h =
      let (here, later) = append_nil _ (conflicts_from N C plan s (suc index) rest) h in
      (
        All-map _ _ (apart plan group _ _) s.route_reservations
            (none_passes _ s.route_reservations (no_texts _ _ _ here)),
        free_from plan s (suc index) rest later,
      )
    where
      no_texts :
          (g : String) (t : Time) (rs : List (RouteReservation Time))
          → conflict_texts N C g t rs ≡ []
          → rs ≡ []
      no_texts g t [] h = refl
      no_texts g t (r ∷ rs) h = absurd (cc h)

  pub free_back :
      (plan : RoutePlan Number) (s : Snapshot N C) (index : ℕ) (groups : List String)
      → FreeFrom N C plan s index groups
      → conflicts_from N C plan s index groups ≡ []
  unfolding conflicts_from group_duration
  free_back plan s index [] h = refl
  free_back plan s index (group ∷ rest) (here, later) =
      rw
        (none_kept _ s.route_reservations
          (All-map _ _ (apart_back plan group _ _) s.route_reservations here))
        (free_back plan s (suc index) rest later)
