-- ===== src/Service/Lookup.antt =====
-- Dictionaries and sets of texts, as the service builds and reads them.
use text.Mathlib.Text.{◌==◌ as str_eq}
use text.Mathlib.TextEquality.{eq_iff}
use shiftzero_hero.Common.{
  ◌≡◌, String, Bool, true, false, ◌||◌, Option, none, some, List, [], ◌∷◌, if◌then◌else◌,
}

-- `key in items`
abbrev pub has : String → List String → Bool
has key [] = false
has key (x ∷ xs) = str_eq x key || has key xs

-- `{id_of(x): x for x in items}.get(key)`: of two items with one key the last stays.
abbrev pub lookup {ℓ} : {A : Type ℓ} → (A → String) → String → List A → Option A
lookup id_of key [] = none
lookup id_of key (x ∷ xs) = elim (lookup id_of key xs) [
  | none ↦ if str_eq (id_of x) key then some x else none
  | some y ↦ some y
]

-- `dictionary.get(key)`
abbrev pub get : String → List (String × String) → Option String
get key [] = none
get key ((k, v) ∷ rest) = let later = get key rest in if str_eq k key then some v else later

pub same→eq : (s t : String) → str_eq s t ≡ true → s ≡ t
same→eq s t h = (eq_iff s t).0 h

pub eq→same : (s t : String) → s ≡ t → str_eq s t ≡ true
eq→same s t h = (eq_iff s t).1 h
