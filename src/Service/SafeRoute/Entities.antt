-- ===== src/Service/SafeRoute/Entities.antt =====
-- The pallet, the vehicle, the destination and the proposal for the checks of src/shiftzero/safety.py.
use shiftzero_hero.Common.{◌≡◌, refl, ◌⊎◌, inl, inr, true, none, some, arith, is_some, Option-cases}
use shiftzero_hero.Numbers.{Numbers}
use shiftzero_hero.Service.Lookup.{lookup, same→eq, eq→same}
use shiftzero_hero.Service.Domain.{
  Clock, MissionIntent, AgvState, LocationState, PalletState, RoutePlan, TransportProposal,
}
use shiftzero_hero.Service.Safety.{
  Snapshot, entities_valid, map_consistent, battery_ok, destination_ok, proposal_consistent,
}
use shiftzero_hero.Service.SafeRoute.{agv_of, place_of, SafeRoute}
use shiftzero_hero.Service.SafeRoute.Parts.{texts_same, intent_same}

module _ (N : Numbers) (C : Clock N) where
  open N use {Number, of_ℕ, sub, mul}
  open C use {Time, shift}

  -- The checks that look up one thing each.
  pub known :
      (i : MissionIntent) (plan : RoutePlan Number) (s : Snapshot N C)
      → entities_valid N C i plan s ≡ true
      → ((pallet : PalletState) × (lookup (λ (q : PalletState). q.id) i.pallet_id s.pallets
            ≡ some pallet)
          × (pallet.location_id ≡ i.source))
        × ((l : LocationState) × (place_of N C i.source s ≡ some l))
  unfolding entities_valid
  known i plan s h =
      elim (Option-cases (lookup (λ (q : PalletState). q.id) i.pallet_id s.pallets)) [
        | inl e ↦ absurd (ground (arith, e))
        | inr (pallet, e) ↦ elim (Option-cases (place_of N C i.source s)) [
          | inl f ↦ absurd (ground (arith, e, f))
          | inr (l, f) ↦
              ((pallet, e, ground (arith, e, f, same→eq pallet.location_id i.source)), (l, f))
        ]
      ]

  pub arrives :
      (i : MissionIntent) (s : Snapshot N C)
      → destination_ok N C i s ≡ true
      → (l : LocationState) × (place_of N C i.destination s ≡ some l)
        × (l.reachable ≡ true)
        × ((l.occupancy ≡ none) ⊎ (l.occupancy ≡ some i.pallet_id))
  unfolding destination_ok
  arrives i s h = elim (Option-cases (place_of N C i.destination s)) [
    | inl e ↦ absurd (ground (arith, e))
    | inr (l, e) ↦ (
      l,
      e,
      ground (arith, e),
      elim (Option-cases l.occupancy) [
        | inl f ↦ inl f
        | inr (load, f) ↦ inr (ground (arith, e, f, same→eq load i.pallet_id))
      ],
    )
  ]

  pub charged :
      (plan : RoutePlan Number) (s : Snapshot N C)
      → battery_ok N C (agv_of N C plan s) plan ≡ true
      → (agv : AgvState Number) × (agv_of N C plan s ≡ some agv)
        × (N.le (of_ℕ 20) (sub agv.battery_percent plan.estimated_energy_percent) ≡ true)
  unfolding battery_ok
  charged plan s h = elim (Option-cases (agv_of N C plan s)) [
    | inl e ↦ absurd (ground (arith, e))
    | inr (agv, e) ↦ (agv, e, ground (arith, e))
  ]

  pub known_back :
      (i : MissionIntent) (plan : RoutePlan Number) (s : Snapshot N C) (p : TransportProposal Time)
      → SafeRoute N C i plan s p
      → entities_valid N C i plan s ≡ true
  unfolding entities_valid
  known_back i plan s p h =
      let (pallet, e, at) = h.pallet in
      let (l, f) = h.source in
      let (d, g, _, _) = h.destination in
      let (agv, a, _) = h.vehicle in
      ground (arith, e, f, g, a, eq→same pallet.location_id i.source at)

  pub arrives_back :
      (i : MissionIntent) (plan : RoutePlan Number) (s : Snapshot N C) (p : TransportProposal Time)
      → SafeRoute N C i plan s p
      → destination_ok N C i s ≡ true
  unfolding destination_ok
  arrives_back i plan s p h =
      let (l, e, reach, room) = h.destination in
      ground (arith, e, reach, room, eq→same i.pallet_id i.pallet_id refl)

  pub charged_back :
      (i : MissionIntent) (plan : RoutePlan Number) (s : Snapshot N C) (p : TransportProposal Time)
      → SafeRoute N C i plan s p
      → (battery_ok N C (agv_of N C plan s) plan ≡ true) × (is_some (agv_of N C plan s) ≡ true)
  unfolding battery_ok
  charged_back i plan s p h =
      let (agv, a, enough) = h.vehicle in (ground (arith, a, enough), ground (arith, a))

  pub consistent_back :
      (i : MissionIntent) (plan : RoutePlan Number) (s : Snapshot N C) (p : TransportProposal Time)
      → SafeRoute N C i plan s p
      → (map_consistent N C plan s p ≡ true) × (proposal_consistent N C i plan p ≡ true)
  unfolding map_consistent proposal_consistent
  consistent_back i plan s p h = (
    ground (
      arith,
      eq→same plan.map_version s.map_version h.map_version.0,
      eq→same p.map_version s.map_version h.map_version.1,
      eq→same p.snapshot_id s.snapshot_id h.snapshot,
    ),
    rw (h.goal, h.same_route.1)
        (ground (
          arith,
          intent_same i,
          eq→same p.selected_agv plan.selected_agv h.same_route.0,
          texts_same plan.nodes,
          eq→same p.route_version plan.route_version h.same_route.2,
        )),
  )
