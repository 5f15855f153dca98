-- ===== src/Service/Planner/Walks.antt =====
-- The route that the search of src/shiftzero/simulator.py returns is a way through the map.
use text.Mathlib.Text.{◌==◌ as str_eq}
use shiftzero_hero.Common.{
  ℕ, zero, suc, String, Bool, ◌≡◌, refl, ◌⊎◌, inl, inr, true, false, ◌&&◌, ◌||◌, List, [], ◌∷◌,
  ◌++◌, arith, if◌then◌else◌, Bool-cases, All, All-append, members, subst,
}
use mathlib.Core.List.{Memᴰ}
use shiftzero_hero.Numbers.{Numbers}
use shiftzero_hero.Service.Lookup.{has, same→eq}
use shiftzero_hero.Service.Domain.{Direction, bidirectional, forward, MapEdge}
use shiftzero_hero.Service.Planner.Search.{
  is_bidirectional, Item, Found, out_of_fuel, no_route, type_error, route, Outcome, stop, go,
  pop_least, links, insert_link, sort_links, extensions, text_lt, is_settled, has_tie, search_round,
  search,
}
use shiftzero_hero.Service.Planner.Least.{pop_least-All}

pub route_eq :
    {F : Type 0} {p q : List String} {es fs : List (MapEdge F)}
    → ◌≡◌ {A = Found F} (route p es) (route q fs)
    → (p ≡ q) × (es ≡ fs)
route_eq h = (cc h, cc h)

module _ (N : Numbers) (map_edges : List (MapEdge N.Number)) where
  open N use {Number}

  -- The edge is on the map, and leads from one node to the other.
  pub record Joins (from to : String) (e : MapEdge Number) : Type 0 where
    pub on_map : Memᴰ e map_edges
    pub ends :
        ((e.from_node ≡ from) × (e.to_node ≡ to))
        ⊎ ((e.direction ≡ bidirectional) × (e.to_node ≡ from) × (e.from_node ≡ to))

  -- A way from `start` over edges of the map: its nodes, its edges and its end. It enters no forbidden
  -- node and no node twice.
  pub data Walk (forbidden : List String) (start : String)
      : List String → List (MapEdge Number) → String → Type 0 where
    standing : Walk forbidden start (start ∷ []) [] start
    onward :
        {path : List String} {edges : List (MapEdge Number)} {node next : String}
        {e : MapEdge Number}
        → Walk forbidden start path edges node
        → Joins node next e
        → has next forbidden ≡ false
        → has next path ≡ false
        → Walk forbidden start (path ++ next ∷ []) (edges ++ e ∷ []) next

  module _ (forbidden : List String) (start : String) where
    -- Each item of the heap holds a way to its node.
    abbrev pub IsWay : Item Number → Type 0
    IsWay x = Walk forbidden start x.path x.edges x.node

    -- A neighbour and its edge lead on from the node.
    abbrev Leads : String → String × MapEdge Number → Type 0
    Leads node l = Joins node l.0 l.1

    extensions-All :
        (x : Item Number) (ls : List (String × MapEdge Number))
        → IsWay x
        → All (Leads x.node) ls
        → All IsWay (extensions N forbidden x ls)
    unfolding extensions
    extensions-All x [] h k = tt
    extensions-All x ((next, e) ∷ ls) h (joins, k) =
        elim (Bool-cases (has next forbidden || has next x.path)) [
          | inl barred ↦ rw barred (extensions-All x ls h k)
          | inr free ↦ rw free (
            onward h joins (ground (arith, free)) (ground (arith, free)),
            extensions-All x ls h k,
          )
        ]

    insert_link-All :
        (node : String) (l : String × MapEdge Number) (ls : List (String × MapEdge Number))
        → Leads node l
        → All (Leads node) ls
        → All (Leads node) (insert_link N l ls)
    insert_link-All node l [] h k = (h, tt)
    insert_link-All node l (m ∷ ls) h (k, ks) = elim (Bool-cases (text_lt m.0 l.0)) [
      | inl before ↦ rw before (k, insert_link-All node l ls h ks)
      | inr not_before ↦ rw not_before (h, (k, ks))
    ]

    sort_links-All :
        (node : String) (ls : List (String × MapEdge Number))
        → All (Leads node) ls
        → All (Leads node) (sort_links N ls)
    sort_links-All node [] h = tt
    sort_links-All node (l ∷ ls) (h, hs) =
        insert_link-All node l (sort_links N ls) h (sort_links-All node ls hs)

    forth :
        (node : String) (e : MapEdge Number)
        → Memᴰ e map_edges
        → All (Leads node) (if str_eq e.from_node node then (e.to_node, e) ∷ [] else [])
    forth node e on = elim (Bool-cases (str_eq e.from_node node)) [
      | inl same ↦
          rw same (record { on_map = on; ends = inl (same→eq e.from_node node same, refl) }, tt)
      | inr other ↦ rw other tt
    ]

    two_way : (d : Direction) → is_bidirectional d ≡ true → d ≡ bidirectional
    two_way bidirectional h = refl
    two_way forward h = absurd (ground arith)

    back :
        (node : String) (e : MapEdge Number)
        → Memᴰ e map_edges
        → All (Leads node) (
            if is_bidirectional e.direction && str_eq e.to_node node
            then (e.from_node, e) ∷ []
            else [])
    back node e on = elim (Bool-cases (is_bidirectional e.direction && str_eq e.to_node node)) [
      | inl both ↦ rw both (
        record {
          on_map = on;
          ends = inr (
            two_way e.direction (ground (arith, both)),
            same→eq e.to_node node (ground (arith, both)),
            refl,
          );
        },
        tt,
      )
      | inr other ↦ rw other tt
    ]

    links-All :
        (node : String) (es : List (MapEdge Number))
        → All (λ e. Memᴰ e map_edges) es
        → All (Leads node) (links N node es)
    unfolding links
    links-All node [] h = tt
    links-All node (e ∷ es) (on, rest) =
        All-append (Leads node) _ _ (forth node e on)
          (All-append (Leads node) _ (links N node es) (back node e on) (links-All node es rest))

    pub neighbours-Joins :
        (node : String)
        → All
            (λ (l : String × MapEdge Number). Joins node l.0 l.1)
            (sort_links N (links N node map_edges))
    neighbours-Joins node =
        sort_links-All node (links N node map_edges) (links-All node map_edges (members map_edges))

    module _ (compares : List (Item Number) → Bool) (destination : String) where
      -- What a round can end with, or leave.
      abbrev pub Good : Outcome Number → Type 0
      Good (stop (route path edges)) = Walk forbidden start path edges destination
      Good (stop _) = Unit
      Good (go queue best) = All IsWay queue

      pub search_round-Good :
          (queue : List (Item Number)) (best : List (String × Number))
          → All IsWay queue
          → Good (search_round N compares destination map_edges forbidden queue best)
      unfolding search_round
      search_round-Good [] best h = tt
      search_round-Good (x ∷ xs) best (h, hs) =
          let least = (pop_least N x xs).0 in
          let (way, ways) = pop_least-All N IsWay x xs h hs in
          elim (Bool-cases (compares (x ∷ xs) && has_tie N (x ∷ xs))) [
            | inl tied ↦ rw tied tt
            | inr tieless ↦ elim (Bool-cases (is_settled N least.node least.distance best)) [
              | inl settled ↦ rw (tieless, settled) ways
              | inr fresh ↦ elim (Bool-cases (str_eq least.node destination)) [
                | inl arrived ↦
                    rw (tieless, fresh, arrived)
                      (subst (λ n. Walk forbidden start least.path least.edges n)
                        (same→eq least.node destination arrived) way)
                | inr onwards ↦
                    rw (tieless, fresh, onwards)
                      (All-append IsWay _ _ ways (
                        extensions-All least _ way (
                          sort_links-All least.node _
                            (links-All least.node map_edges (members map_edges)))))
              ]
            ]
          ]

      pub search-Walk :
          (fuel : ℕ) (queue : List (Item Number)) (best : List (String × Number))
          (path : List String) (edges : List (MapEdge Number))
          → All IsWay queue
          → search N compares destination map_edges forbidden fuel queue best ≡ route path edges
          → Walk forbidden start path edges destination
      unfolding search
      search-Walk zero queue best path edges h found = absurd (cc found)
      search-Walk (suc fuel) queue best path edges h found =
          go_on (λ q b ways same. search-Walk fuel q b path edges ways same)
            (search_round N compares destination map_edges forbidden queue best)
            (search_round-Good queue best h) found
        where
          go_on :
              ((q : List (Item Number)) (b : List (String × Number))
                → All IsWay q
                → search N compares destination map_edges forbidden fuel q b ≡ route path edges
                → Walk forbidden start path edges destination)
              → (o : Outcome Number) → Good o
              → elim o [
                | stop f ↦ f
                | go queue' best' ↦
                    search N compares destination map_edges forbidden fuel queue' best'
              ]
                ≡ route path edges
              → Walk forbidden start path edges destination
          go_on ih (stop (route p es)) good same =
              let (p_eq, es_eq) = route_eq same in
              subst (λ q. Walk forbidden start q edges destination) p_eq
                (subst (λ es. Walk forbidden start p es destination) es_eq good)
          go_on ih (stop out_of_fuel) good same = absurd (cc same)
          go_on ih (stop no_route) good same = absurd (cc same)
          go_on ih (stop type_error) good same = absurd (cc same)
          go_on ih (go queue' best') good same = ih queue' best' good same
