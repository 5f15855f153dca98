-- ===== src/Service/Planner/Chosen.antt =====
-- What a plan of src/shiftzero/simulator.py is made of.
use mathlib.Core.List.{Memᴰ}
use shiftzero_hero.Common.{
  ℕ, String, ◌≡◌, refl, sym, ap, inl, inr, Bool, true, false, not, ◌||◌, Option, none, some, List,
  [], ◌∷◌, if◌then◌else◌, filter, length, Bool-cases, All, members, subst,
}
use shiftzero_hero.Numbers.{Numbers}
use shiftzero_hero.Service.Lookup.{lookup}
use shiftzero_hero.Service.Domain.{
  Clock, Digest, MissionIntent, MapEdge, AgvState, LocationState, OperationalSnapshot, RoutePlan,
}
use shiftzero_hero.Service.Planner.Search.{Found, out_of_fuel, no_route, type_error, route}
use shiftzero_hero.Service.Planner.Walks.{Walk}
use shiftzero_hero.Service.Planner.Route.{shortest_path, shortest_path-Walk}
use shiftzero_hero.Service.Planner.Plan.{
  Arithmetic, Planned, absent_location, invalid_plan, planned, or_else, given_or, before, first_of,
  is_candidate, select_agv, groups, is_valid, barred, plan_of, finish, from_agv, from_places, plan,
}

planned_eq : {F : Type 0} {r q : RoutePlan F} → ◌≡◌ {A = Planned F} (planned r) (planned q) → r ≡ q
planned_eq h = cc h

filter-All :
    {A : Type 0} (P : A → Type 0) (p : A → Bool) (xs : List A)
    → All P xs
    → All (λ x. P x × (p x ≡ true)) (filter p xs)
filter-All P p [] h = tt
filter-All P p (x ∷ xs) (first, rest) = elim (Bool-cases (p x)) [
  | inl kept ↦ rw kept ((first, kept), filter-All P p xs rest)
  | inr left ↦ rw left (filter-All P p xs rest)
]

either : {A : Type 0} (P : A → Type 0) (c : Bool) {a b : A} → P a → P b → P (if c then b else a)
either P true h k = k
either P false h k = h

-- A plan comes out only where the test let it through.
if_planned :
    {F : Type 0} (b : Bool) (q r : RoutePlan F)
    → ◌≡◌ {A = Planned F} (if b then planned q else invalid_plan) (planned r)
    → (b ≡ true) × (q ≡ r)
if_planned true q r h = (refl, planned_eq h)
if_planned false q r h = absurd (cc h)

unless_absent :
    {F : Type 0} (b c : Bool) (o : Planned F) (r : RoutePlan F)
    → ◌≡◌ {A = Planned F} (if not b || not c then absent_location else o) (planned r)
    → ((b ≡ true) × (c ≡ true)) × (o ≡ planned r)
unless_absent true true o r h = ((refl, refl), h)
unless_absent true false o r h = absurd (cc h)
unless_absent false c o r h = absurd (cc h)

some_agv :
    {A : Type 0} {a b : A} {m n : ℕ} → ◌≡◌ {A = Option (A × ℕ)} (some (a, m)) (some (b, n)) → a ≡ b
some_agv h = cc h

module _ (N : Numbers) where
  open N use {Number}

  first_of-All :
      (P : AgvState Number → Type 0) (a : AgvState Number) (rest : List (AgvState Number))
      → P a
      → All P rest
      → P (first_of N a rest)
  first_of-All P a [] h k = h
  first_of-All P a (b ∷ rest) h (k, ks) =
      first_of-All P (if before N b a then b else a) rest (either P _ h k) ks

  -- The vehicle is one of the snapshot's that may take the mission.
  abbrev pub IsChosen :
      Option String → Option String → List (AgvState Number) → AgvState Number → Type 0
  IsChosen requested_agv force_agv agvs agv =
      Memᴰ agv agvs × (is_candidate N force_agv (or_else force_agv requested_agv) agv ≡ true)

  select_agv-IsChosen :
      (requested_agv force_agv : Option String) (agvs : List (AgvState Number))
      (agv : AgvState Number) (n : ℕ)
      → select_agv N requested_agv force_agv agvs ≡ some (agv, n)
      → IsChosen requested_agv force_agv agvs agv
  unfolding select_agv
  select_agv-IsChosen requested_agv force_agv agvs agv n h =
      of (filter p agvs) (filter-All (λ a. Memᴰ a agvs) p agvs (members agvs)) h
    where
      p : AgvState Number → Bool
      p = is_candidate N force_agv (or_else force_agv requested_agv)

      of :
          (cs : List (AgvState Number))
          → All (IsChosen requested_agv force_agv agvs) cs
          → ◌≡◌ {A = Option (AgvState Number × ℕ)}
              (elim cs [ [] ↦ none | a ∷ rest ↦ some (first_of N a rest, length (a ∷ rest)) ])
              (some (agv, n))
          → IsChosen requested_agv force_agv agvs agv
      of [] all e = absurd (cc e)
      of (a ∷ rest) (first, others) e =
          subst (IsChosen requested_agv force_agv agvs) (some_agv e)
            (first_of-All (IsChosen requested_agv force_agv agvs) a rest first others)

module _ (N : Numbers) (C : Clock N) (A : Arithmetic N C) (D : Digest) where
  open N use {Number}
  open C use {Time}

  -- The parts that a plan is put together from.
  pub record Parts (i : MissionIntent) (s : OperationalSnapshot Number Time)
      (start_node force_agv : Option String) (r : RoutePlan Number) : Type 0 where
    pub source : LocationState
    pub source_on : lookup (λ (l : LocationState). l.id) i.source s.locations ≡ some source
    pub destination : LocationState
    pub destination_on :
        lookup (λ (l : LocationState). l.id) i.destination s.locations ≡ some destination
    pub reachable : (source.reachable ≡ true) × (destination.reachable ≡ true)
    pub agv : AgvState Number
    pub chosen : IsChosen N i.requested_agv force_agv s.agvs agv
    pub edges : List (MapEdge Number)
    -- A way over the map that enters no barred node.
    pub walk :
        Walk N s.edges
          (barred N C A s)
          (given_or start_node source.node_id)
          r.nodes
          edges
          destination.node_id
    pub same_agv : r.selected_agv ≡ agv.id
    pub same_map : r.map_version ≡ s.map_version
    pub same_groups : r.reservation_groups ≡ groups N edges
    pub valid : is_valid N r ≡ true

  finish-route :
      (s : OperationalSnapshot Number Time) (agv : AgvState Number) (n : ℕ) (f : Found Number)
      (r : RoutePlan Number)
      → finish N C A D s agv n f ≡ planned r
      → (path : List String) × (edges : List (MapEdge Number)) × (f ≡ route path edges)
        × (plan_of N C A D s agv n path edges ≡ r)
        × (is_valid N r ≡ true)
  finish-route s agv n out_of_fuel r h = absurd (cc h)
  finish-route s agv n no_route r h = absurd (cc h)
  finish-route s agv n type_error r h = absurd (cc h)
  finish-route s agv n (route path edges) r h =
      let (valid, same) =
        if_planned (is_valid N (plan_of N C A D s agv n path edges))
          (plan_of N C A D s agv n path edges) r h in
      (path, edges, refl, same, subst (λ q. is_valid N q ≡ true) same valid)

  module _ (i : MissionIntent) (s : OperationalSnapshot Number Time)
      (start_node force_agv : Option String) (r : RoutePlan Number) where
    from_finish :
        (source destination : LocationState)
        → lookup (λ (l : LocationState). l.id) i.source s.locations ≡ some source
        → lookup (λ (l : LocationState). l.id) i.destination s.locations ≡ some destination
        → (source.reachable ≡ true) × (destination.reachable ≡ true)
        → (agv : AgvState Number) (n : ℕ) → IsChosen N i.requested_agv force_agv s.agvs agv
        → finish N C A D s agv n (
            shortest_path N A.compares
              (given_or start_node source.node_id)
              destination.node_id
              s.edges
              (barred N C A s))
          ≡ planned r
        → Parts i s start_node force_agv r
    unfolding plan_of
    from_finish source destination source_on destination_on reachable agv n chosen h =
        let (path, edges, found, same, valid) = finish-route s agv n _ r h in
        record {
          source = source;
          source_on = source_on;
          destination = destination;
          destination_on = destination_on;
          reachable = reachable;
          agv = agv;
          chosen = chosen;
          edges = edges;
          walk =
              subst
                (λ nodes.
                  Walk N s.edges (barred N C A s) (given_or start_node source.node_id) nodes edges
                    destination.node_id)
                (ap (λ (q : RoutePlan Number). q.nodes) same)
                (shortest_path-Walk N A.compares _ _ _ _ path edges found);
          same_agv = sym (ap (λ (q : RoutePlan Number). q.selected_agv) same);
          same_map = sym (ap (λ (q : RoutePlan Number). q.map_version) same);
          same_groups = sym (ap (λ (q : RoutePlan Number). q.reservation_groups) same);
          valid = valid;
        }

    from_agv-Parts :
        (source destination : LocationState)
        → lookup (λ (l : LocationState). l.id) i.source s.locations ≡ some source
        → lookup (λ (l : LocationState). l.id) i.destination s.locations ≡ some destination
        → (source.reachable ≡ true) × (destination.reachable ≡ true)
        → (o : Option (AgvState Number × ℕ)) → select_agv N i.requested_agv force_agv s.agvs ≡ o
        → from_agv N C A D s (given_or start_node source.node_id) destination.node_id o ≡ planned r
        → Parts i s start_node force_agv r
    from_agv-Parts source destination l1 l2 reachable none selected h = absurd (cc h)
    from_agv-Parts source destination l1 l2 reachable (some (agv, n)) selected h =
        from_finish source destination l1 l2 reachable agv n
          (select_agv-IsChosen N i.requested_agv force_agv s.agvs agv n selected) h

    from_places-Parts :
        (source destination : Option LocationState)
        → lookup (λ (l : LocationState). l.id) i.source s.locations ≡ source
        → lookup (λ (l : LocationState). l.id) i.destination s.locations ≡ destination
        → from_places N C A D i s start_node force_agv source destination ≡ planned r
        → Parts i s start_node force_agv r
    from_places-Parts none destination l1 l2 h = absurd (cc h)
    from_places-Parts (some source) none l1 l2 h = absurd (cc h)
    from_places-Parts (some source) (some destination) l1 l2 h =
        let (reachable, h') = unless_absent _ _ _ r h in
        from_agv-Parts source destination l1 l2 reachable _ refl h'

  pub plan-Parts :
      (i : MissionIntent) (s : OperationalSnapshot Number Time)
      (start_node force_agv : Option String) (r : RoutePlan Number)
      → plan N C A D i s start_node force_agv ≡ planned r
      → Parts i s start_node force_agv r
  unfolding plan
  plan-Parts i s start_node force_agv r h =
      from_places-Parts i s start_node force_agv r _ _ refl refl h
