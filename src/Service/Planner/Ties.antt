-- ===== src/Service/Planner/Ties.antt =====
-- Where the search of src/shiftzero/simulator.py cannot compare two entries of its heap.
use text.Mathlib.Text.{◌==◌ as str_eq}
use shiftzero_hero.Common.{
  ℕ, zero, suc, String, ◌≡◌, refl, sym, inl, inr, Bool, true, false, ◌&&◌, List, [], ◌∷◌, ◌++◌,
  arith, Bool-cases, All, subst,
}
use shiftzero_hero.Numbers.{Numbers}
use shiftzero_hero.Service.Lookup.{same→eq}
use shiftzero_hero.Service.Domain.{MapEdge}
use shiftzero_hero.Service.Planner.Search.{
  Item, out_of_fuel, no_route, type_error, route, Outcome, stop, go, pop_least, same_edge,
  same_edges, same_path, is_tie, ties_with, has_tie, is_settled, search_round, search,
}
use shiftzero_hero.Service.Planner.Walks.{
  Walk, standing, onward, Joins, IsWay, Good, search_round-Good,
}

module _ (N : Numbers) (map_edges : List (MapEdge N.Number)) where
  open N use {Number}

  -- Two different edges of the map lead from one node to one other.
  abbrev pub Parallel : Type 0
  Parallel =
      (u : String) × (v : String) × (e : MapEdge Number) × (f : MapEdge Number) × Joins N map_edges
        u v e
      × Joins N map_edges u v f
      × (same_edge N e f ≡ false)

  -- The edges lead along the path to its end.
  abbrev Chain : List String → List (MapEdge Number) → String → Type 0
  Chain [] es end = ⊥
  Chain (u ∷ []) [] end = u ≡ end
  Chain (u ∷ []) (e ∷ es) end = ⊥
  Chain (u ∷ v ∷ path) [] end = ⊥
  Chain (u ∷ v ∷ path) (e ∷ es) end = Joins N map_edges u v e × Chain (v ∷ path) es end

  Chain-snoc :
      (path : List String) (es : List (MapEdge Number)) (end next : String) (e : MapEdge Number)
      → Chain path es end
      → Joins N map_edges end next e
      → Chain (path ++ next ∷ []) (es ++ e ∷ []) next
  Chain-snoc [] es end next e h j = absurd h
  Chain-snoc (u ∷ []) [] end next e h j = (subst (λ n. Joins N map_edges n next e) (sym h) j, refl)
  Chain-snoc (u ∷ []) (f ∷ es) end next e h j = absurd h
  Chain-snoc (u ∷ v ∷ path) [] end next e h j = absurd h
  Chain-snoc (u ∷ v ∷ path) (f ∷ es) end next e (k, h) j =
      (k, Chain-snoc (v ∷ path) es end next e h j)

  Walk-Chain :
      (forbidden : List String) (start : String) (path : List String) (es : List (MapEdge Number))
      (end : String)
      → Walk N map_edges forbidden start path es end
      → Chain path es end
  Walk-Chain forbidden start _ _ _ standing = refl
  Walk-Chain forbidden start _ _ _ (onward {path} {edges} {node} {next} {e} way joins free new) =
      Chain-snoc path edges node next e (Walk-Chain forbidden start path edges node way) joins

  -- Two lists of edges along one path that are not the same hold two parallel edges.
  Chain-Parallel :
      (path : List String) (es fs : List (MapEdge Number)) (end end' : String)
      → Chain path es end
      → Chain path fs end'
      → same_edges N es fs ≡ false
      → Parallel
  Chain-Parallel [] es fs end end' h k t = absurd h
  Chain-Parallel (u ∷ []) [] [] end end' h k t = absurd (ground (arith, t))
  Chain-Parallel (u ∷ []) [] (f ∷ fs) end end' h k t = absurd k
  Chain-Parallel (u ∷ []) (e ∷ es) fs end end' h k t = absurd h
  Chain-Parallel (u ∷ v ∷ path) [] fs end end' h k t = absurd h
  Chain-Parallel (u ∷ v ∷ path) (e ∷ es) [] end end' h k t = absurd k
  Chain-Parallel (u ∷ v ∷ path) (e ∷ es) (f ∷ fs) end end' (j, h) (i, k) t =
      elim (Bool-cases (same_edge N e f)) [
        | inl same ↦ Chain-Parallel (v ∷ path) es fs end end' h k (ground (arith, t, same))
        | inr other ↦ (u, v, e, f, j, i, other)
      ]

  path_eq : (xs ys : List String) → same_path N xs ys ≡ true → xs ≡ ys
  path_eq [] [] h = refl
  path_eq [] (y ∷ ys) h = absurd (ground (arith, h))
  path_eq (x ∷ xs) [] h = absurd (ground (arith, h))
  path_eq (x ∷ xs) (y ∷ ys) h =
      let first = same→eq x y (ground (arith, h)) in
      let rest = path_eq xs ys (ground (arith, h)) in cc (first, rest)

  module _ (forbidden : List String) (start : String) where
    abbrev Way : Item Number → Type 0
    Way x = IsWay N map_edges forbidden start x

    is_tie-Parallel : (x y : Item Number) → Way x → Way y → is_tie N x y ≡ true → Parallel
    is_tie-Parallel x y h k t =
        Chain-Parallel y.path x.edges y.edges x.node y.node
          (subst (λ p. Chain p x.edges x.node) (path_eq x.path y.path (ground (arith, t)))
            (Walk-Chain forbidden start x.path x.edges x.node h))
          (Walk-Chain forbidden start y.path y.edges y.node k) (ground (arith, t))

    ties_with-Parallel :
        (x : Item Number) (ys : List (Item Number))
        → Way x
        → All Way ys
        → ties_with N x ys ≡ true
        → Parallel
    ties_with-Parallel x [] h ks t = absurd (ground (arith, t))
    ties_with-Parallel x (y ∷ ys) h (k, ks) t = elim (Bool-cases (is_tie N x y)) [
      | inl tie ↦ is_tie-Parallel x y h k tie
      | inr other ↦ ties_with-Parallel x ys h ks (ground (arith, t, other))
    ]

    has_tie-Parallel : (xs : List (Item Number)) → All Way xs → has_tie N xs ≡ true → Parallel
    unfolding has_tie
    has_tie-Parallel [] h t = absurd (ground (arith, t))
    has_tie-Parallel (x ∷ xs) (h, hs) t = elim (Bool-cases (ties_with N x xs)) [
      | inl tie ↦ ties_with-Parallel x xs h hs tie
      | inr other ↦ has_tie-Parallel xs hs (ground (arith, t, other))
    ]

    module _ (compares : List (Item Number) → Bool) (destination : String) where
      -- A round fails only on a tie.
      abbrev Tied : List (Item Number) → Outcome Number → Type 0
      Tied queue (stop type_error) = has_tie N queue ≡ true
      Tied queue _ = Unit

      search_round-Tied :
          (queue : List (Item Number)) (best : List (String × Number))
          → Tied queue (search_round N compares destination map_edges forbidden queue best)
      unfolding search_round
      search_round-Tied [] best = tt
      search_round-Tied (x ∷ xs) best =
          let least = (pop_least N x xs).0 in
          elim (Bool-cases (compares (x ∷ xs) && has_tie N (x ∷ xs))) [
            | inl tied ↦ rw tied (ground (arith, tied))
            | inr tieless ↦ elim (Bool-cases (is_settled N least.node least.distance best)) [
              | inl settled ↦ rw (tieless, settled) tt
              | inr fresh ↦ elim (Bool-cases (str_eq least.node destination)) [
                | inl arrived ↦ rw (tieless, fresh, arrived) tt
                | inr onwards ↦ rw (tieless, fresh, onwards) tt
              ]
            ]
          ]

      pub search-Parallel :
          (fuel : ℕ) (queue : List (Item Number)) (best : List (String × Number))
          → All Way queue
          → search N compares destination map_edges forbidden fuel queue best ≡ type_error
          → Parallel
      unfolding search
      search-Parallel zero queue best h found = absurd (cc found)
      search-Parallel (suc fuel) queue best h found =
          go_on (λ q b ways same. search-Parallel fuel q b ways same)
            (search_round N compares destination map_edges forbidden queue best)
            (search_round-Good N map_edges forbidden start compares destination queue best h)
            (search_round-Tied queue best) found
        where
          go_on :
              ((q : List (Item Number)) (b : List (String × Number))
                → All Way q
                → search N compares destination map_edges forbidden fuel q b ≡ type_error
                → Parallel)
              → (o : Outcome Number) → Good N map_edges forbidden start compares destination o
              → Tied queue o
              → elim o [
                | stop f ↦ f
                | go q b ↦ search N compares destination map_edges forbidden fuel q b
              ]
                ≡ type_error
              → Parallel
          go_on ih (stop type_error) good tied same = has_tie-Parallel queue h tied
          go_on ih (stop (route p es)) good tied same = absurd (cc same)
          go_on ih (stop out_of_fuel) good tied same = absurd (cc same)
          go_on ih (stop no_route) good tied same = absurd (cc same)
          go_on ih (go q b) good tied same = ih q b good same
