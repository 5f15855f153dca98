-- ===== src/Service/Planner/Frontier.antt =====
-- What the heap of the search of src/shiftzero/simulator.py still has to reach: when it is empty, the
-- settled nodes are all that can be reached.
use text.Mathlib.Text.{◌==◌ as str_eq}
use shiftzero_hero.Common.{
  ℕ, zero, suc, String, Bool, ◌&&◌, ◌≡◌, sym, ◌∙◌, inl, inr, true, false, ◌||◌, List, [], ◌∷◌, ◌++◌,
  arith, Bool-cases, All, All-append, All-map, subst,
}
use shiftzero_hero.Numbers.{Numbers}
use shiftzero_hero.Service.Lookup.{has, same→eq}
use shiftzero_hero.Service.Domain.{MapEdge}
use shiftzero_hero.Service.Planner.Search.{
  Item, out_of_fuel, no_route, type_error, route, Outcome, stop, go, pop_least, links, sort_links,
  extensions, is_settled, has_tie, search_round, search,
}
use shiftzero_hero.Service.Planner.Walks.{Walk, standing, onward}
use shiftzero_hero.Service.Planner.Weights.{has-append}
use shiftzero_hero.Service.Planner.Least.{pop_least-All}
use shiftzero_hero.Service.Planner.Reached.{
  nodes, keys, targets, has-nodes_append, has-pop_least, has-sort_links, settled-has, extended,
  linked,
}

module _ (N : Numbers) where
  open N use {Number}

  module _ (map_edges : List (MapEdge Number)) (forbidden : List String)
      (start destination : String) where
    -- A path has only settled nodes before its last one.
    abbrev Behind : List (String × Number) → Item Number → Type 0
    Behind best x =
        (m : String) → has m x.path ≡ true → (str_eq x.node m || has m (keys N best)) ≡ true

    -- The allowed neighbours of the settled nodes are settled or on the heap, and so is the start; the
    -- destination is not settled.
    pub record Frontier (queue : List (Item Number)) (best : List (String × Number)) : Type 0 where
      pub paths : All (Behind best) queue
      pub closed :
          (u v : String)
          → has u (keys N best) ≡ true
          → has v (targets N (links N u map_edges)) ≡ true
          → has v forbidden ≡ false
          → (has v (keys N best) || has v (nodes N queue)) ≡ true
      pub reached : (has start (keys N best) || has start (nodes N queue)) ≡ true
      pub missing : has destination (keys N best) ≡ false

    Walk-settled :
        (best : List (String × Number))
        → Frontier [] best
        → (path : List String) (edges : List (MapEdge Number)) (end : String)
        → Walk N map_edges forbidden start path edges end
        → has end (keys N best) ≡ true
    Walk-settled best f _ _ _ standing = ground (arith, f.reached)
    Walk-settled best f _ _ _ (onward {path} {edges} {node} {next} {e} way joins free new) =
        ground (
          arith,
          f.closed node next (Walk-settled best f path edges node way)
              (linked N node next e map_edges joins.on_map joins.ends) free,
        )

    -- A node that was settled or on the heap is so after a settled item is dropped.
    still_known :
        (x : Item Number) (xs : List (Item Number)) (best : List (String × Number)) (n : String)
        → has (pop_least N x xs).0.node (keys N best) ≡ true
        → (has n (keys N best) || has n (nodes N (x ∷ xs))) ≡ true
        → (has n (keys N best) || has n (nodes N (pop_least N x xs).1)) ≡ true
    still_known x xs best n settled h = elim (Bool-cases (str_eq (pop_least N x xs).0.node n)) [
      | inl same ↦
          let it : has n (keys N best) ≡ true =
            subst (λ m. has m (keys N best) ≡ true) (same→eq (pop_least N x xs).0.node n same)
              settled in
          ground (arith, it)
      | inr other ↦ ground (arith, h, other, has-pop_least N n x xs)
    ]

    -- What stays when a settled item is dropped.
    dropped :
        (x : Item Number) (xs : List (Item Number)) (best : List (String × Number))
        → Frontier (x ∷ xs) best
        → is_settled N (pop_least N x xs).0.node (pop_least N x xs).0.distance best ≡ true
        → Frontier (pop_least N x xs).1 best
    dropped x xs best f settled =
        let known =
          settled-has N (pop_least N x xs).0.node (pop_least N x xs).0.distance best settled in
        record {
          paths = (pop_least-All N (Behind best) x xs f.paths.0 f.paths.1).1;
          closed = λ u v in_best near free.
              still_known x xs best v known (f.closed u v in_best near free);
          reached = still_known x xs best start known f.reached;
          missing = f.missing;
        }

    module _ (x : Item Number) (xs : List (Item Number)) (best : List (String × Number)) where
      abbrev least : Item Number
      least = (pop_least N x xs).0

      abbrev neighbours : List (String × MapEdge Number)
      neighbours = sort_links N (links N least.node map_edges)

      abbrev best' : List (String × Number)
      best' = (least.node, least.distance) ∷ best

      abbrev queue' : List (Item Number)
      queue' = (pop_least N x xs).1 ++ extensions N forbidden least neighbours

      extensions-Behind :
          Behind best least
          → (ls : List (String × MapEdge Number))
          → All (Behind best') (extensions N forbidden least ls)
      unfolding extensions
      extensions-Behind behind [] = tt
      extensions-Behind behind ((next, e) ∷ ls) =
          elim (Bool-cases (has next forbidden || has next least.path)) [
            | inl barred ↦ rw barred (extensions-Behind behind ls)
            | inr free ↦ rw free (
              λ m on_path. ground (arith, on_path, has-append m next least.path, behind m),
              extensions-Behind behind ls,
            )
          ]

      now_known :
          (n : String)
          → (has n (keys N best) || has n (nodes N (x ∷ xs))) ≡ true
          → (has n (keys N best') || has n (nodes N queue')) ≡ true
      now_known n h = ground (
        arith,
        h,
        has-pop_least N n x xs,
        has-nodes_append N n (pop_least N x xs).1 (extensions N forbidden least neighbours),
      )

      neighbour_known :
          (v : String)
          → Behind best least
          → has v (targets N (links N least.node map_edges)) ≡ true
          → has v forbidden ≡ false
          → (has v (keys N best') || has v (nodes N queue')) ≡ true
      neighbour_known v behind near free = elim (Bool-cases (has v least.path)) [
        | inl on_path ↦ ground (arith, behind v on_path)
        | inr fresh ↦
            let there =
              extended N forbidden least v neighbours
                (has-sort_links N v (links N least.node map_edges) ∙ near) free fresh in
            ground (
              arith,
              there,
              has-nodes_append N v (pop_least N x xs).1 (extensions N forbidden least neighbours),
            )
      ]

      expanded :
          Frontier (x ∷ xs) best → str_eq least.node destination ≡ false → Frontier queue' best'
      expanded f onwards =
          let (behind, others) = pop_least-All N (Behind best) x xs f.paths.0 f.paths.1 in
          record {
            paths =
                All-append (Behind best') (pop_least N x xs).1
                  (extensions N forbidden least neighbours)
                  (All-map (Behind best) (Behind best')
                    (λ y h m on_path. ground (arith, h m on_path)) (pop_least N x xs).1 others)
                  (extensions-Behind behind neighbours);
            closed = λ u v settled near free. elim (Bool-cases (has u (keys N best))) [
              | inl before ↦ now_known v (f.closed u v before near free)
              | inr fresh ↦
                  neighbour_known v behind
                    (subst (λ n. has v (targets N (links N n map_edges)) ≡ true)
                      (sym (same→eq least.node u (ground (arith, settled, fresh)))) near)
                    free
            ];
            reached = now_known start f.reached;
            missing = ground (arith, onwards, f.missing);
          }

    -- What a round can end with, or leave.
    abbrev EndsWell : Outcome Number → Type 0
    EndsWell (stop no_route) =
        (path : List String) (edges : List (MapEdge Number))
        → ¬ Walk N map_edges forbidden start path edges destination
    EndsWell (stop _) = Unit
    EndsWell (go queue best) = Frontier queue best

    search_round-EndsWell :
        (compares : List (Item Number) → Bool) (queue : List (Item Number))
        (best : List (String × Number))
        → Frontier queue best
        → EndsWell (search_round N compares destination map_edges forbidden queue best)
    unfolding search_round
    search_round-EndsWell compares [] best f =
        λ path edges way. ground (arith, f.missing, Walk-settled best f path edges destination way)
    search_round-EndsWell compares (x ∷ xs) best f =
        let least = (pop_least N x xs).0 in
        elim (Bool-cases (compares (x ∷ xs) && has_tie N (x ∷ xs))) [
          | inl tied ↦ rw tied tt
          | inr tieless ↦ elim (Bool-cases (is_settled N least.node least.distance best)) [
            | inl settled ↦ rw (tieless, settled) (dropped x xs best f settled)
            | inr fresh ↦ elim (Bool-cases (str_eq least.node destination)) [
              | inl arrived ↦ rw (tieless, fresh, arrived) tt
              | inr onwards ↦ rw (tieless, fresh, onwards) (expanded x xs best f onwards)
            ]
          ]
        ]

    pub search-no_route :
        (compares : List (Item Number) → Bool) (fuel : ℕ) (queue : List (Item Number))
        (best : List (String × Number))
        → Frontier queue best
        → search N compares destination map_edges forbidden fuel queue best ≡ no_route
        → (path : List String) (edges : List (MapEdge Number))
        → ¬ Walk N map_edges forbidden start path edges destination
    unfolding search
    search-no_route compares zero queue best f found = absurd (cc found)
    search-no_route compares (suc fuel) queue best f found =
        end (λ q b g same. search-no_route compares fuel q b g same)
          (search_round N compares destination map_edges forbidden queue best)
          (search_round-EndsWell compares queue best f) found
      where
        NoWay : Type 0
        NoWay =
            (path : List String) (edges : List (MapEdge Number))
            → ¬ Walk N map_edges forbidden start path edges destination

        end :
            ((q : List (Item Number)) (b : List (String × Number))
              → Frontier q b
              → search N compares destination map_edges forbidden fuel q b ≡ no_route
              → NoWay)
            → (o : Outcome Number) → EndsWell o
            → elim o [
              | stop f ↦ f
              | go queue' best' ↦
                  search N compares destination map_edges forbidden fuel queue' best'
            ]
              ≡ no_route
            → NoWay
        end ih (stop out_of_fuel) well same = absurd (cc same)
        end ih (stop type_error) well same = absurd (cc same)
        end ih (stop no_route) well same = well
        end ih (stop (route p es)) well same = absurd (cc same)
        end ih (go q b) well same = ih q b well same
