-- ===== src/Service/Planner/Least.antt =====
-- `heappop` of the search of src/shiftzero/simulator.py: what holds of all items holds of the least and
-- of the others.
use shiftzero_hero.Common.{inl, inr, List, [], ◌∷◌, Bool-cases, All}
use shiftzero_hero.Numbers.{Numbers}
use shiftzero_hero.Service.Planner.Search.{Item, less, pop_least}

module _ (N : Numbers) (P : Item N.Number → Type 0) where
  pub pop_least-All :
      (x : Item N.Number) (xs : List (Item N.Number))
      → P x
      → All P xs
      → P (pop_least N x xs).0 × All P (pop_least N x xs).1
  unfolding pop_least
  pop_least-All x [] h hs = (h, tt)
  pop_least-All x (y ∷ ys) h (k, ks) = elim (Bool-cases (less N y x)) [
    | inl sooner ↦ rw sooner (let (least, rest) = pop_least-All y ys k ks in (least, (h, rest)))
    | inr later ↦ rw later (let (least, rest) = pop_least-All x ys h ks in (least, (k, rest)))
  ]
