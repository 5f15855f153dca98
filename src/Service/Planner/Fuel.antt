-- ===== src/Service/Planner/Fuel.antt =====
-- How many rounds the search of src/shiftzero/simulator.py can take: each takes an item of weight
-- `weight d u` away, `u` nodes being off its path, and adds at most `d` items of smaller weight.
use shiftzero_hero.Common.{ℕ, zero, suc, ◌+◌, ◌*◌, List, length}
use shiftzero_hero.Service.Domain.{MapEdge}

abbrev pub times : ℕ → ℕ → ℕ
times zero x = 0
times (suc k) x = x + times k x

unfoldable pub weight : ℕ → ℕ → ℕ
weight d zero = 1
weight d (suc u) = suc (times d (weight d u))

-- Two links and two nodes for each edge.
unfoldable pub enough_rounds : {F : Type 0} → List (MapEdge F) → ℕ
enough_rounds edges = suc (weight (2 * length edges) (2 * length edges))
