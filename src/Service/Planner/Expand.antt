-- ===== src/Service/Planner/Expand.antt =====
-- The step of the search of src/shiftzero/simulator.py that settles a node and puts its neighbours on
-- the heap keeps the order of distance.
use text.Mathlib.Text.{◌==◌ as str_eq}
use shiftzero_hero.Common.{
  String, ◌≡◌, sym, ◌∙◌, ap, inl, inr, true, false, ◌||◌, List, [], ◌∷◌, ◌++◌, arith, Bool-cases,
  All, All-append, All-map, All-at, subst,
}
use shiftzero_hero.Numbers.{Numbers}
use shiftzero_hero.Service.Lookup.{has, same→eq}
use shiftzero_hero.Service.Domain.{MapEdge}
use shiftzero_hero.Service.Planner.Search.{
  Item, pop_least, links, sort_links, extensions, is_settled,
}
use shiftzero_hero.Service.Planner.Walks.{neighbours-Joins}
use shiftzero_hero.Service.Planner.Weights.{has-append}
use shiftzero_hero.Service.Planner.Least.{pop_least-All}
use shiftzero_hero.Service.Planner.Order.{Ordered, Grows, route_length-append}
use shiftzero_hero.Service.Planner.Distances.{
  leads, reaches-append, reaches-pop_least, settled-farther, leads-sort_links, leads-nearer,
  leads-le, extended,
}
use shiftzero_hero.Service.Planner.Ahead.{Behind, IsMeasured, known, Ahead}

module _ (N : Numbers) (O : Ordered N) (map_edges : List (MapEdge N.Number))
    (forbidden : List String) (start destination : String) where
  open N use {Number, of_ℕ, add, le}

  module _ (x : Item Number) (xs : List (Item Number)) (best : List (String × Number)) where
    abbrev least : Item Number
    least = (pop_least N x xs).0

    abbrev others : List (Item Number)
    others = (pop_least N x xs).1

    abbrev best' : List (String × Number)
    best' = (least.node, least.distance) ∷ best

    abbrev queue' : List (Item Number)
    queue' = others ++ extensions N forbidden least (sort_links N (links N least.node map_edges))

    -- A node that is settled stays so: it is settled anew only where it is nearer.
    settled_on :
        is_settled N least.node least.distance best ≡ false
        → (n : String) (far : Number) → is_settled N n far best ≡ true
        → is_settled N n far best' ≡ true
    unfolding is_settled
    settled_on fresh n far h = elim (Bool-cases (str_eq least.node n)) [
      | inr other ↦ ground (arith, h, other)
      | inl same ↦ elim (Bool-cases (le least.distance far)) [
        | inl near ↦ ground (arith, same, near)
        | inr beyond ↦
            let there : is_settled N n least.distance best ≡ true =
              settled-farther N O n far least.distance best (O.total least.distance far beyond) h in
            let here : is_settled N least.node least.distance best ≡ true =
              subst (λ m. is_settled N m least.distance best ≡ true)
                (sym (same→eq least.node n same)) there in
            absurd (ground (arith, here, fresh))
      ]
    ]

    now_known :
        is_settled N least.node least.distance best ≡ false
        → (n : String) (far : Number)
        → known N O map_edges forbidden start destination (x ∷ xs) best n far ≡ true
        → known N O map_edges forbidden start destination queue' best' n far ≡ true
    unfolding is_settled
    now_known fresh n far h = ground (
      arith,
      h,
      settled_on fresh n far,
      reaches-pop_least N O n far x xs,
      reaches-append N O n far others
          (extensions N forbidden least (sort_links N (links N least.node map_edges))),
    )

    still_Behind :
        is_settled N least.node least.distance best ≡ false
        → (y : Item Number) → Behind N O map_edges forbidden start destination best y
        → Behind N O map_edges forbidden start destination best' y
    still_Behind fresh y h m on_path = ground (arith, h m on_path, settled_on fresh m y.distance)

    extensions-Behind :
        is_settled N least.node least.distance best ≡ false
        → Behind N O map_edges forbidden start destination best least
        → (ls : List (String × MapEdge Number))
        → All (λ (l : String × MapEdge Number). Grows N l.1) ls
        → All
            (Behind N O map_edges forbidden start destination best')
            (extensions N forbidden least ls)
    unfolding extensions
    extensions-Behind fresh behind [] grows = tt
    extensions-Behind fresh behind ((next, e) ∷ ls) (grow, grows) =
        elim (Bool-cases (has next forbidden || has next least.path)) [
          | inl barred ↦ rw barred (extensions-Behind fresh behind ls grows)
          | inr free ↦
              rw free
                (λ m on_path. on_way next e grow m on_path, extensions-Behind fresh behind ls grows)
        ]
      where
        on_way :
            (next : String) (e : MapEdge Number)
            → Grows N e
            → (m : String) → has m (least.path ++ next ∷ []) ≡ true
            → (str_eq next m || is_settled N m (add least.distance e.length_m) best') ≡ true
        on_way next e grow m on_path = elim (Bool-cases (has m least.path)) [
          | inr other ↦ ground (arith, on_path, other, has-append m next least.path)
          | inl earlier ↦
              let here : is_settled N m least.distance best' ≡ true =
                unfold is_settled in
                ground (
                  arith,
                  behind m earlier,
                  settled_on fresh m least.distance,
                  O.same least.distance,
                ) in
              let there =
                settled-farther N O m least.distance (add least.distance e.length_m) best'
                  (grow least.distance) here in
              ground (arith, there)
        ]

    extensions-IsMeasured :
        IsMeasured N O map_edges forbidden start destination least
        → (ls : List (String × MapEdge Number))
        → All
            (IsMeasured N O map_edges forbidden start destination)
            (extensions N forbidden least ls)
    unfolding extensions
    extensions-IsMeasured measured [] = tt
    extensions-IsMeasured measured ((next, e) ∷ ls) =
        elim (Bool-cases (has next forbidden || has next least.path)) [
          | inl barred ↦ rw barred (extensions-IsMeasured measured ls)
          | inr free ↦ rw free (
            ap (λ d. add d e.length_m) measured ∙ sym (route_length-append N least.edges e),
            extensions-IsMeasured measured ls,
          )
        ]

    neighbour_known :
        is_settled N least.node least.distance best ≡ false
        → All (Grows N) map_edges
        → Behind N O map_edges forbidden start destination best least
        → (v : String) (from far : Number) → le least.distance from ≡ true
        → leads N O v far from (links N least.node map_edges) ≡ true
        → has v forbidden ≡ false
        → known N O map_edges forbidden start destination queue' best' v far ≡ true
    neighbour_known fresh grows behind v from far near ahead free =
        let ahead' =
          leads-nearer N O v far from least.distance (links N least.node map_edges) near ahead in
        elim (Bool-cases (has v least.path)) [
          | inl on_path ↦
              let here : is_settled N v least.distance best' ≡ true =
                unfold is_settled in
                ground (
                  arith,
                  behind v on_path,
                  settled_on fresh v least.distance,
                  O.same least.distance,
                ) in
              let reach = leads-le N O least.node v far least.distance map_edges grows ahead' in
              ground (arith, settled-farther N O v least.distance far best' reach here)
          | inr off_path ↦
              let ls = sort_links N (links N least.node map_edges) in
              let there =
                extended N O forbidden least v far ls
                  (leads-sort_links N O v far least.distance (links N least.node map_edges)
                    ∙ ahead')
                  free off_path in
              ground
                (arith, there, reaches-append N O v far others (extensions N forbidden least ls))
        ]

    near_enough :
        (u : String) (from : Number)
        → str_eq least.node u ≡ true
        → is_settled N u from best' ≡ true
        → le least.distance from ≡ true
    unfolding is_settled
    near_enough u from same h = ground (arith, same, h)

    settled_before :
        (u : String) (from : Number)
        → str_eq least.node u ≡ false
        → is_settled N u from best' ≡ true
        → is_settled N u from best ≡ true
    unfolding is_settled
    settled_before u from other h = ground (arith, other, h)

    pub expanded :
        All (Grows N) map_edges
        → Ahead N O map_edges forbidden start destination (x ∷ xs) best
        → is_settled N least.node least.distance best ≡ false
        → str_eq least.node destination ≡ false
        → Ahead N O map_edges forbidden start destination queue' best'
    expanded grows f fresh onwards =
        let (behind, behinds) =
          pop_least-All N (Behind N O map_edges forbidden start destination best) x xs f.paths.0
            f.paths.1 in
        let (measured, measures) =
          pop_least-All N (IsMeasured N O map_edges forbidden start destination) x xs f.measured.0
            f.measured.1 in
        let ls = sort_links N (links N least.node map_edges) in
        let grown =
          All-map _ (λ (l : String × MapEdge Number). Grows N l.1)
            (λ l j. All-at (Grows N) j.on_map grows) ls
            (neighbours-Joins N map_edges forbidden start least.node) in
        record {
          paths =
              All-append (Behind N O map_edges forbidden start destination best') others
                (extensions N forbidden least ls)
                (All-map (Behind N O map_edges forbidden start destination best)
                  (Behind N O map_edges forbidden start destination best') (still_Behind fresh)
                  others behinds)
                (extensions-Behind fresh behind ls grown);
          measured =
              All-append (IsMeasured N O map_edges forbidden start destination) others
                (extensions N forbidden least ls) measures (extensions-IsMeasured measured ls);
          closed = λ u v from far there near free. elim (Bool-cases (str_eq least.node u)) [
            | inl same ↦
                neighbour_known fresh grows behind v from far (near_enough u from same there)
                  (subst (λ n. leads N O v far from (links N n map_edges) ≡ true)
                    (sym (same→eq least.node u same)) near)
                  free
            | inr other ↦
                now_known fresh v far
                  (f.closed u v from far (settled_before u from other there) near free)
          ];
          reached = now_known fresh start (of_ℕ 0) f.reached;
          missing = λ far. unfold is_settled in ground (arith, onwards, f.missing far);
        }
