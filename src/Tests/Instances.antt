-- ===== src/Tests/Instances.antt =====
-- Concrete stand-ins for the two parameters of the model: numbers that are natural numbers, and dates
-- that are written in unary.
use Prim.Native.String.{count}
use text.Mathlib.TextLemmas.{length-append}
use shiftzero_hero.Common.{
  ℕ, zero, suc, ◌+◌, ◌-◌, ◌*◌, ◌/◌, ◌%◌, String, ◌&◌, ◌≡◌, refl, arith, leb, ◌==◌, min, max, show,
}
use shiftzero_hero.Numbers.{Numbers}
use shiftzero_hero.FieldTest.Export.{Dates}

abbrev pub numbers : Numbers
numbers = record {
  Number = ℕ;
  of_ℕ = λ n. n;
  add = λ a b. a + b;
  sub = λ a b. a - b;
  mul = λ a b. a * b;
  div = λ a b. a / b;
  rem = λ a b. a % b;
  hypot = λ a b. a + b;
  min_num = λ a b. min a b;
  max_num = λ a b. max a b;
  round = λ a. a;
  le = λ a b. leb a b;
  eq = λ a b. a == b;
  to_fixed = λ a digits. show a;
  to_string = λ a. show a;
}

abbrev pub unary : ℕ → String
unary zero = ""
unary (suc n) = "1" & unary n

abbrev pub dates : Dates
dates = record { to_iso = unary; get_time = count }

pub count-unary : (n : ℕ) → count (unary n) ≡ n
count-unary zero = refl
count-unary (suc n) = omega (arith, length-append "1" (unary n), count-unary n)
