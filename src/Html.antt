-- ===== src/Html.antt =====
-- What a component returns: a tree of elements, with the handlers that its buttons run. Elements of
-- the UI kit (apps/web/components/ui) and icons stand by their names, as in the source.
use text.Mathlib.Text.{◌==◌ as str_eq}
use shiftzero_hero.Common.{
  ℕ, suc, String, Bool, false, Option, none, some, List, [], ◌∷◌, ◌≡◌, ◌⊎◌, inl, inr, ◌||◌, ◌&&◌,
  if◌then◌else◌,
}

-- An attribute: its class, another text, a Boolean one such as `disabled`, or the click handler.
pub data Attr (A : Type 0) : Type 0 where
  class_name : String → Attr A
  attr : String → String → Attr A
  flag : String → Bool → Attr A
  style : Option String → Attr A
  on_click : A → Attr A

infixr 60 ◌⊕◌
pub data Html (A : Type 0) : Type 0 where
  nothing : Html A
  text_node : String → Html A
  el : String → List (Attr A) → Html A → Html A
  ◌⊕◌ : Html A → Html A → Html A

-- `cond && <X />` and `value?.f(…) ?? other`.
abbrev pub when : {A : Type 0} → Bool → Html A → Html A
when b x = if b then x else nothing

abbrev pub from_option {ℓ κ} : {A : Type ℓ} {B : Type κ} → B → (A → B) → Option A → B
from_option d f none = d
from_option d f (some a) = f a

-- `xs.map((x) => …)` and `xs.map((x, index) => …)`, counted from a start.
abbrev pub each {κ} : {X : Type κ} {A : Type 0} → (X → Html A) → List X → Html A
each f [] = nothing
each f (x ∷ xs) = f x ⊕ each f xs

abbrev pub each_from {κ} : {X : Type κ} {A : Type 0} → (ℕ → X → Html A) → ℕ → List X → Html A
each_from f n [] = nothing
each_from f n (x ∷ xs) = f n x ⊕ each_from f (suc n) xs

module _ {A : Type 0} where
  -- The attribute `disabled` is set.
  abbrev pub is_disabled : List (Attr A) → Bool
  is_disabled [] = false
  is_disabled (flag name b ∷ rest) = (str_eq name "disabled" && b) || is_disabled rest
  is_disabled (_ ∷ rest) = is_disabled rest

  abbrev pub Handles : A → List (Attr A) → Type 0
  Handles a [] = ⊥
  Handles a (on_click b ∷ rest) = (a ≡ b) ⊎ Handles a rest
  Handles a (_ ∷ rest) = Handles a rest

  -- The page has an enabled element whose handler is `a`.
  abbrev pub Offers : A → Html A → Type 0
  Offers a nothing = ⊥
  Offers a (text_node s) = ⊥
  Offers a (el tag attrs body) = ((is_disabled attrs ≡ false) × Handles a attrs) ⊎ Offers a body
  Offers a (x ⊕ y) = Offers a x ⊎ Offers a y

  -- The page shows this text.
  abbrev pub shows : String → Html A → Bool
  shows s nothing = false
  shows s (text_node t) = str_eq t s
  shows s (el tag attrs body) = shows s body
  shows s (x ⊕ y) = shows s x || shows s y

-- Rows that take no click make a list that takes none.
pub each_inert {κ} :
    {X : Type κ} {A : Type 0} (a : A) (f : X → Html A)
    → ((x : X) → Offers a (f x) → ⊥)
    → (xs : List X) → Offers a (each f xs)
    → ⊥
each_inert a f row [] h = h
each_inert a f row (x ∷ xs) (inl h) = row x h
each_inert a f row (x ∷ xs) (inr h) = each_inert a f row xs h

pub each_from_inert {κ} :
    {X : Type κ} {A : Type 0} (a : A) (f : ℕ → X → Html A)
    → ((n : ℕ) (x : X) → Offers a (f n x) → ⊥)
    → (n : ℕ) (xs : List X) → Offers a (each_from f n xs)
    → ⊥
each_from_inert a f row n [] h = h
each_from_inert a f row n (x ∷ xs) (inl h) = row n x h
each_from_inert a f row n (x ∷ xs) (inr h) = each_from_inert a f row (suc n) xs h
