-- ===== src/Service/Planner/Ahead.antt =====
-- The search of src/shiftzero/simulator.py meets the nodes by their distance: what is on a way is
-- settled, or the heap holds an item that is not farther.
use text.Mathlib.Text.{◌==◌ as str_eq}
use shiftzero_hero.Common.{
  String, ◌≡◌, inl, inr, Bool, true, false, ◌&&◌, ◌||◌, List, ◌∷◌, arith, Bool-cases, All, All-at,
  subst,
}
use shiftzero_hero.Numbers.{Numbers}
use shiftzero_hero.Service.Lookup.{has, same→eq}
use shiftzero_hero.Service.Domain.{MapEdge}
use shiftzero_hero.Service.Planner.Search.{Item, pop_least, links, is_settled}
use shiftzero_hero.Service.Planner.Walks.{Walk, standing, onward}
use shiftzero_hero.Service.Planner.Least.{pop_least-All}
use shiftzero_hero.Service.Planner.Order.{Ordered, Grows, route_length, route_length-append}
use shiftzero_hero.Service.Planner.Distances.{
  reaches, leads, any_within, reaches-within, within-farther, reaches-pop_least, settled-farther,
  edge-leads,
}

module _ (N : Numbers) (O : Ordered N) (map_edges : List (MapEdge N.Number))
    (forbidden : List String) (start destination : String) where
  open N use {Number, of_ℕ, add, le}

  -- A path has before its last node only nodes that are settled, not farther than the item.
  abbrev pub Behind : List (String × Number) → Item Number → Type 0
  Behind best x =
      (m : String)
      → has m x.path ≡ true
      → (str_eq x.node m || is_settled N m x.distance best) ≡ true

  abbrev pub IsMeasured : Item Number → Type 0
  IsMeasured x = x.distance ≡ route_length N x.edges

  -- The node is settled, or on the heap, not farther than `far`.
  abbrev pub known : List (Item Number) → List (String × Number) → String → Number → Bool
  known queue best n far = is_settled N n far best || reaches N O n far queue

  pub record Ahead (queue : List (Item Number)) (best : List (String × Number)) : Type 0 where
    pub paths : All (Behind best) queue
    pub measured : All IsMeasured queue
    pub closed :
        (u v : String) (from far : Number)
        → is_settled N u from best ≡ true
        → leads N O v far from (links N u map_edges) ≡ true
        → has v forbidden ≡ false
        → known queue best v far ≡ true
    pub reached : known queue best start (of_ℕ 0) ≡ true
    pub missing : (far : Number) → is_settled N destination far best ≡ false

  -- The end of a way is settled within the way's length, or the heap holds an item within it.
  pub Walk-Ahead :
      (queue : List (Item Number)) (best : List (String × Number))
      → All (Grows N) map_edges
      → Ahead queue best
      → (path : List String) (edges : List (MapEdge Number)) (end : String)
      → Walk N map_edges forbidden start path edges end
      → (is_settled N end (route_length N edges) best
          || any_within N O (route_length N edges) queue)
        ≡ true
  Walk-Ahead queue best grows f _ _ _ standing =
      ground (arith, f.reached, reaches-within N O start (of_ℕ 0) queue)
  Walk-Ahead queue best grows f _ _ _ (onward {path} {edges} {node} {next} {e} way joins free new) =
      let so_far = route_length N edges in
      let far = add so_far e.length_m in
      rw (route_length-append N edges e) (elim (Bool-cases (is_settled N node so_far best)) [
        | inl settled ↦ ground (
          arith,
          f.closed node next so_far far settled
              (edge-leads N O node next so_far e map_edges joins.on_map joins.ends) free,
          reaches-within N O next far queue,
        )
        | inr open_yet ↦
            let within : any_within N O so_far queue ≡ true =
              ground (arith, open_yet, Walk-Ahead queue best grows f path edges node way) in
            ground (
              arith,
              within-farther N O so_far far queue (All-at (Grows N) joins.on_map grows so_far)
                  within,
            )
      ])

  module _ (x : Item Number) (xs : List (Item Number)) (best : List (String × Number)) where
    abbrev least : Item Number
    least = (pop_least N x xs).0

    abbrev others : List (Item Number)
    others = (pop_least N x xs).1

    still_known :
        (n : String) (far : Number)
        → is_settled N least.node least.distance best ≡ true
        → known (x ∷ xs) best n far ≡ true
        → known others best n far ≡ true
    still_known n far settled h = elim (Bool-cases (str_eq least.node n && le least.distance far)) [
      | inl it ↦
          let here : is_settled N n least.distance best ≡ true =
            subst (λ m. is_settled N m least.distance best ≡ true)
              (same→eq least.node n (ground (arith, it))) settled in
          ground (arith, settled-farther N O n least.distance far best (ground (arith, it)) here)
      | inr other ↦ ground (arith, h, other, reaches-pop_least N O n far x xs)
    ]

    pub dropped :
        Ahead (x ∷ xs) best → is_settled N least.node least.distance best ≡ true → Ahead others best
    dropped f settled = record {
      paths = (pop_least-All N (Behind best) x xs f.paths.0 f.paths.1).1;
      measured = (pop_least-All N IsMeasured x xs f.measured.0 f.measured.1).1;
      closed = λ u v from far there near free.
          still_known v far settled (f.closed u v from far there near free);
      reached = still_known start (of_ℕ 0) settled f.reached;
      missing = f.missing;
    }
