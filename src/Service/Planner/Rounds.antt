-- ===== src/Service/Planner/Rounds.antt =====
-- The search of src/shiftzero/simulator.py ends.
use text.Mathlib.Text.{◌==◌ as str_eq}
use shiftzero_hero.Common.{
  ℕ, zero, suc, ◌+◌, ◌*◌, ◌≤◌, ◌<◌, String, ◌≡◌, ◌≢◌, refl, inl, inr, Bool, true, false, ◌&&◌, ◌||◌,
  List, [], ◌∷◌, ◌++◌, arith, if◌then◌else◌, Bool-cases, All, All-append, length,
}
use shiftzero_hero.Numbers.{Numbers}
use shiftzero_hero.Service.Lookup.{has}
use shiftzero_hero.Service.Domain.{MapEdge}
use shiftzero_hero.Service.Planner.Search.{
  is_bidirectional, text_lt, Item, out_of_fuel, no_route, type_error, route, Outcome, stop, go,
  less, pop_least, links, insert_link, sort_links, extensions, is_settled, has_tie, search_round,
  search,
}
use shiftzero_hero.Service.Planner.Fuel.{times, weight}
use shiftzero_hero.Service.Planner.Weights.{
  times-le_left, weight-pos, weight-le, off, off-lt, ends_of, IsWithin, ends_of-IsWithin,
}

module _ (N : Numbers) (map_edges : List (MapEdge N.Number)) (forbidden : List String) where
  open N use {Number}

  abbrev d : ℕ
  d = 2 * length map_edges

  -- The weight of the heap.
  abbrev load : List (Item Number) → ℕ
  load [] = 0
  load (x ∷ xs) = weight d (off x.path (ends_of map_edges)) + load xs

  load-append : (xs ys : List (Item Number)) → load (xs ++ ys) ≡ load xs + load ys
  load-append [] ys = omega arith
  load-append (x ∷ xs) ys = omega (arith, load-append xs ys)

  load-pop_least :
      (x : Item Number) (xs : List (Item Number))
      → weight d (off (pop_least N x xs).0.path (ends_of map_edges)) + load (pop_least N x xs).1
        ≡ load (x ∷ xs)
  unfolding pop_least
  load-pop_least x [] = refl
  load-pop_least x (y ∷ ys) = elim (Bool-cases (less N y x)) [
    | inl before ↦ rw before (omega (arith, load-pop_least y ys))
    | inr not_before ↦ rw not_before (omega (arith, load-pop_least x ys))
  ]

  -- A link leads to a node that an edge names.
  abbrev IsNamed : String × MapEdge Number → Type 0
  IsNamed l = has l.0 (ends_of map_edges) ≡ true

  load-extensions :
      (x : Item Number) (u : ℕ) (ls : List (String × MapEdge Number))
      → off x.path (ends_of map_edges) ≤ suc u
      → All IsNamed ls
      → load (extensions N forbidden x ls) ≤ times (length ls) (weight d u)
  unfolding extensions
  load-extensions x u [] h k = omega arith
  load-extensions x u ((next, e) ∷ ls) h (named, k) =
      elim (Bool-cases (has next forbidden || has next x.path)) [
        | inl barred ↦ rw barred (omega (arith, load-extensions x u ls h k))
        | inr free ↦
            let lt = off-lt x.path next (ends_of map_edges) named (ground (arith, free)) in
            rw free (
              omega (
                arith,
                load-extensions x u ls h k,
                weight-le d (off (x.path ++ next ∷ []) (ends_of map_edges)) u (omega (arith, lt)),
              ))
      ]

  none_off :
      (x : Item Number) (ls : List (String × MapEdge Number))
      → off x.path (ends_of map_edges) ≡ 0
      → All IsNamed ls
      → extensions N forbidden x ls ≡ []
  unfolding extensions
  none_off x [] h k = refl
  none_off x ((next, e) ∷ ls) h (named, k) =
      elim (Bool-cases (has next forbidden || has next x.path)) [
        | inl barred ↦ rw barred (none_off x ls h k)
        | inr free ↦
            let lt = off-lt x.path next (ends_of map_edges) named (ground (arith, free)) in
            absurd (omega (arith, lt))
      ]

  links-length :
      (node : String) (es : List (MapEdge Number)) → length (links N node es) ≤ 2 * length es
  unfolding links
  links-length node [] = omega arith
  links-length node (e ∷ es) = elim (Bool-cases (str_eq e.from_node node)) [
    | inl a ↦ elim (Bool-cases (is_bidirectional e.direction && str_eq e.to_node node)) [
      | inl b ↦ rw (a, b) (omega (arith, links-length node es))
      | inr b ↦ rw (a, b) (omega (arith, links-length node es))
    ]
    | inr a ↦ elim (Bool-cases (is_bidirectional e.direction && str_eq e.to_node node)) [
      | inl b ↦ rw (a, b) (omega (arith, links-length node es))
      | inr b ↦ rw (a, b) (omega (arith, links-length node es))
    ]
  ]

  links-IsNamed :
      (node : String) (es : List (MapEdge Number))
      → All (IsWithin (ends_of map_edges)) es
      → All IsNamed (links N node es)
  unfolding links
  links-IsNamed node [] h = tt
  links-IsNamed node (e ∷ es) ((a, b), h) =
      All-append IsNamed _ _ (one (str_eq e.from_node node) e.to_node b) (
        All-append IsNamed _ _
          (one (is_bidirectional e.direction && str_eq e.to_node node) e.from_node a)
          (links-IsNamed node es h))
    where
      one :
          (t : Bool) (name : String)
          → has name (ends_of map_edges) ≡ true
          → All IsNamed (if t then (name, e) ∷ [] else [])
      one true name h = (h, tt)
      one false name h = tt

  insert_link-length :
      (l : String × MapEdge Number) (ls : List (String × MapEdge Number))
      → length (insert_link N l ls) ≡ suc (length ls)
  insert_link-length l [] = refl
  insert_link-length l (m ∷ ls) = elim (Bool-cases (text_lt m.0 l.0)) [
    | inl t ↦ rw t (omega (arith, insert_link-length l ls))
    | inr t ↦ rw t refl
  ]

  sort_links-length : (ls : List (String × MapEdge Number)) → length (sort_links N ls) ≡ length ls
  sort_links-length [] = refl
  sort_links-length (l ∷ ls) =
      omega (arith, insert_link-length l (sort_links N ls), sort_links-length ls)

  insert_link-IsNamed :
      (l : String × MapEdge Number) (ls : List (String × MapEdge Number))
      → IsNamed l
      → All IsNamed ls
      → All IsNamed (insert_link N l ls)
  insert_link-IsNamed l [] h k = (h, tt)
  insert_link-IsNamed l (m ∷ ls) h (k, ks) = elim (Bool-cases (text_lt m.0 l.0)) [
    | inl t ↦ rw t (k, insert_link-IsNamed l ls h ks)
    | inr t ↦ rw t (h, (k, ks))
  ]

  sort_links-IsNamed :
      (ls : List (String × MapEdge Number)) → All IsNamed ls → All IsNamed (sort_links N ls)
  sort_links-IsNamed [] h = tt
  sort_links-IsNamed (l ∷ ls) (h, hs) =
      insert_link-IsNamed l (sort_links N ls) h (sort_links-IsNamed ls hs)

  -- What an item adds weighs less than the item.
  load-step :
      (x : Item Number)
      → load (extensions N forbidden x (sort_links N (links N x.node map_edges)))
        < weight d (off x.path (ends_of map_edges))
  unfolding weight
  load-step x = step (off x.path (ends_of map_edges)) refl
    where
      ls : List (String × MapEdge Number)
      ls = sort_links N (links N x.node map_edges)

      named : All IsNamed ls
      named =
          sort_links-IsNamed (links N x.node map_edges)
            (links-IsNamed x.node map_edges (ends_of-IsWithin map_edges))

      short : length ls ≤ d
      short =
          omega (arith, sort_links-length (links N x.node map_edges), links-length x.node map_edges)

      step :
          (u : ℕ)
          → off x.path (ends_of map_edges) ≡ u
          → load (extensions N forbidden x ls) < weight d u
      step zero e = rw (none_off x ls e named) (omega arith)
      step (suc u) e = omega (
        arith,
        load-extensions x u ls (omega (arith, e)) named,
        times-le_left (length ls) d (weight d u) short,
      )

  module _ (compares : List (Item Number) → Bool) (destination : String) where
    -- A round that does not end the search makes the heap lighter, and no round lacks fuel.
    abbrev Lighter : ℕ → Outcome Number → Type 0
    Lighter w (stop out_of_fuel) = ⊥
    Lighter w (stop _) = Unit
    Lighter w (go queue best) = load queue < w

    search_round-Lighter :
        (queue : List (Item Number)) (best : List (String × Number))
        → Lighter (load queue) (search_round N compares destination map_edges forbidden queue best)
    unfolding search_round
    search_round-Lighter [] best = tt
    search_round-Lighter (x ∷ xs) best =
        let least = (pop_least N x xs).0 in
        let rest = (pop_least N x xs).1 in
        let whole = load-pop_least x xs in
        elim (Bool-cases (compares (x ∷ xs) && has_tie N (x ∷ xs))) [
          | inl tied ↦ rw tied tt
          | inr tieless ↦ elim (Bool-cases (is_settled N least.node least.distance best)) [
            | inl settled ↦
                rw (tieless, settled)
                  (omega (arith, whole, weight-pos d (off least.path (ends_of map_edges))))
            | inr fresh ↦ elim (Bool-cases (str_eq least.node destination)) [
              | inl arrived ↦ rw (tieless, fresh, arrived) tt
              | inr onwards ↦
                  rw (tieless, fresh, onwards)
                    (omega (
                      arith,
                      whole,
                      load-append rest (
                          extensions N forbidden least
                            (sort_links N (links N least.node map_edges))),
                      load-step least,
                    ))
            ]
          ]
        ]

    pub search-enough :
        (fuel : ℕ) (queue : List (Item Number)) (best : List (String × Number))
        → load queue < fuel
        → search N compares destination map_edges forbidden fuel queue best ≢ out_of_fuel
    unfolding search
    search-enough zero queue best h found = omega arith
    search-enough (suc fuel) queue best h found =
        end (λ q b l. search-enough fuel q b (omega (arith, l)))
          (search_round N compares destination map_edges forbidden queue best)
          (search_round-Lighter queue best) found
      where
        end :
            ((q : List (Item Number)) (b : List (String × Number))
              → load q < load queue
              → search N compares destination map_edges forbidden fuel q b ≢ out_of_fuel)
            → (o : Outcome Number) → Lighter (load queue) o
            → elim o [
              | stop f ↦ f
              | go queue' best' ↦
                  search N compares destination map_edges forbidden fuel queue' best'
            ]
              ≢ out_of_fuel
        end ih (stop out_of_fuel) l e = l
        end ih (stop no_route) l e = cc e
        end ih (stop type_error) l e = cc e
        end ih (stop (route p es)) l e = cc e
        end ih (go q b) l e = ih q b l e
