-- ===== src/Service/Planner/Weights.antt =====
-- Sizes for the search of src/shiftzero/simulator.py: the names that are not on a path, and the weight
-- that they give an item.
use text.Mathlib.Text.{◌==◌ as str_eq}
use shiftzero_hero.Common.{
  ℕ, zero, suc, ◌+◌, ◌*◌, ◌≤◌, ◌<◌, String, ◌≡◌, refl, sym, inl, inr, true, false, ◌||◌, List, [],
  ◌∷◌, ◌++◌, arith, if◌then◌else◌, Bool-cases, All, All-map, length,
}
use shiftzero_hero.Service.Lookup.{has, same→eq, eq→same}
use shiftzero_hero.Service.Domain.{MapEdge}
use shiftzero_hero.Service.Planner.Fuel.{times, weight}

times-le : (k x y : ℕ) → x ≤ y → times k x ≤ times k y
times-le zero x y h = omega arith
times-le (suc k) x y h = omega (arith, times-le k x y h)

pub times-le_left : (j k x : ℕ) → j ≤ k → times j x ≤ times k x
times-le_left zero k x h = omega arith
times-le_left (suc j) zero x h = absurd (omega arith)
times-le_left (suc j) (suc k) x h = omega (arith, times-le_left j k x (omega arith))

pub weight-pos : (d u : ℕ) → 1 ≤ weight d u
unfolding weight
weight-pos d zero = omega arith
weight-pos d (suc u) = omega arith

pub weight-le : (d u v : ℕ) → u ≤ v → weight d u ≤ weight d v
unfolding weight
weight-le d zero v h = weight-pos d v
weight-le d (suc u) zero h = absurd (omega arith)
weight-le d (suc u) (suc v) h =
    omega (arith, times-le d (weight d u) (weight d v) (weight-le d u v (omega arith)))

-- The names that are not on the path.
abbrev pub off : List String → List String → ℕ
off path [] = 0
off path (n ∷ names) = let rest = off path names in if has n path then rest else suc rest

pub has-append :
    (n next : String) (path : List String)
    → has n (path ++ next ∷ []) ≡ (has n path || str_eq next n)
has-append n next [] = ground arith
has-append n next (p ∷ path) = ground (arith, has-append n next path)

off-le :
    (path : List String) (next : String) (names : List String)
    → off (path ++ next ∷ []) names ≤ off path names
off-le path next [] = omega arith
off-le path next (n ∷ names) = ground (arith, off-le path next names, has-append n next path)

pub off-lt :
    (path : List String) (next : String) (names : List String)
    → has next names ≡ true
    → has next path ≡ false
    → off (path ++ next ∷ []) names < off path names
off-lt path next [] h fresh = absurd (ground arith)
off-lt path next (n ∷ names) h fresh = elim (Bool-cases (str_eq n next)) [
  | inl same ↦
      let e : n ≡ next = same→eq n next same in
      let unseen : has n path ≡ false = rw e fresh in
      let back : str_eq next n ≡ true = eq→same next n (sym e) in
      ground (arith, off-le path next names, has-append n next path)
  | inr other ↦
      ground (arith, off-lt path next names, off-le path next names, has-append n next path)
]

pub off-length : (path names : List String) → off path names ≤ length names
off-length path [] = omega arith
off-length path (n ∷ names) = ground (arith, off-length path names)

-- The nodes that the edges name.
abbrev pub ends_of : {F : Type 0} → List (MapEdge F) → List String
ends_of [] = []
ends_of (e ∷ es) = e.from_node ∷ e.to_node ∷ ends_of es

pub ends_of-length : {F : Type 0} (es : List (MapEdge F)) → length (ends_of es) ≤ 2 * length es
ends_of-length [] = omega arith
ends_of-length (e ∷ es) = omega (arith, ends_of-length es)

length-append : {A : Type 0} (xs ys : List A) → length (xs ++ ys) ≡ length xs + length ys
length-append [] ys = omega arith
length-append (x ∷ xs) ys = omega (arith, length-append xs ys)

-- Both ends of the edge are among the names.
abbrev pub IsWithin : {F : Type 0} → List String → MapEdge F → Type 0
IsWithin names e = (has e.from_node names ≡ true) × (has e.to_node names ≡ true)

pub ends_of-IsWithin : {F : Type 0} (es : List (MapEdge F)) → All (IsWithin (ends_of es)) es
ends_of-IsWithin [] = tt
ends_of-IsWithin (e ∷ es) = (
  (
    ground (arith, eq→same e.from_node e.from_node refl),
    ground (arith, eq→same e.to_node e.to_node refl),
  ),
  All-map (IsWithin (ends_of es)) (IsWithin (ends_of (e ∷ es)))
      (λ f (a, b). (ground (arith, a), ground (arith, b))) es (ends_of-IsWithin es),
)
