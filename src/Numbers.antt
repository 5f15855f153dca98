-- ===== src/Numbers.antt =====
-- The floating-point numbers of the language, which the program computes positions and shows
-- measurements with: a type and its operations, taken as a parameter.
use shiftzero_hero.Common.{ℕ, String, Bool}

pub record Numbers : Type 1 where
  pub Number : Type 0
  pub of_ℕ : ℕ → Number
  pub add : Number → Number → Number
  pub sub : Number → Number → Number
  pub mul : Number → Number → Number
  pub div : Number → Number → Number
  pub rem : Number → Number → Number
  pub hypot : Number → Number → Number  -- Math.hypot
  -- Math.min, Math.max
  pub min_num : Number → Number → Number
  pub max_num : Number → Number → Number
  pub round : Number → Number  -- Math.round
  -- <=, ===
  pub le : Number → Number → Bool
  pub eq : Number → Number → Bool
  pub to_fixed : Number → ℕ → String  -- x.toFixed(digits)
  pub to_string : Number → String  -- `${x}`
