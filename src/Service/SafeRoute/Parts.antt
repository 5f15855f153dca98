-- ===== src/Service/SafeRoute/Parts.antt =====
-- Each check of src/shiftzero/safety.py against what it is to establish.
use text.Mathlib.Text.{◌==◌ as str_eq}
use shiftzero_hero.Common.{
  String, ◌≡◌, refl, ap, inl, inr, Bool, true, false, Option, none, some, List, [], ◌∷◌, arith,
  filter, all, Bool-cases, All,
}
use shiftzero_hero.Service.Lookup.{same→eq, eq→same}
use shiftzero_hero.Service.Domain.{MissionIntent}
use shiftzero_hero.Service.Safety.{same_texts, same_option, same_intent}
use shiftzero_hero.Service.Proof.{is_empty}

-- Nothing is kept exactly if nothing passes the test.
pub none_kept :
    {A : Type 0} (p : A → Bool) (xs : List A) → All (λ x. p x ≡ false) xs → filter p xs ≡ []
none_kept p [] h = refl
none_kept p (x ∷ xs) (here, rest) = rw (here) (none_kept p xs rest)

pub none_passes :
    {A : Type 0} (p : A → Bool) (xs : List A) → filter p xs ≡ [] → All (λ x. p x ≡ false) xs
none_passes p [] h = tt
none_passes p (x ∷ xs) h = elim (Bool-cases (p x)) [
  | inl yes_x ↦ absurd (ground (arith, yes_x))
  | inr no_x ↦ (no_x, none_passes p xs (ground (arith, no_x)))
]

pub nil_of : (xs : List String) → is_empty xs ≡ true → xs ≡ []
nil_of [] h = refl
nil_of (x ∷ xs) h = absurd (ground arith)

pub all-All : {A : Type 0} (p : A → Bool) (xs : List A) → All (λ x. p x ≡ true) xs → all p xs ≡ true
all-All p [] h = refl
all-All p (x ∷ xs) (here, rest) = rw here (all-All p xs rest)

pub All-all : {A : Type 0} (p : A → Bool) (xs : List A) → all p xs ≡ true → All (λ x. p x ≡ true) xs
All-all p [] h = tt
All-all p (x ∷ xs) h = elim (Bool-cases (p x)) [
  | inl yes_x ↦ (yes_x, All-all p xs (ground (arith, yes_x)))
  | inr no_x ↦ absurd (ground (arith, no_x))
]

pub zip_All :
    {A : Type 0} (P Q : A → Type 0) (xs : List A) → All P xs → All Q xs → All (λ x. P x × Q x) xs
zip_All P Q [] h k = tt
zip_All P Q (x ∷ xs) (h, hs) (k, ks) = ((h, k), zip_All P Q xs hs ks)

pub texts_eq : (ss ts : List String) → same_texts ss ts ≡ true → ss ≡ ts
texts_eq [] [] h = refl
texts_eq [] (t ∷ ts) h = absurd (ground arith)
texts_eq (s ∷ ss) [] h = absurd (ground arith)
texts_eq (s ∷ ss) (t ∷ ts) h = elim (Bool-cases (str_eq s t)) [
  | inl e ↦ rw (same→eq s t e, texts_eq ss ts (ground (arith, e))) refl
  | inr e ↦ absurd (ground (arith, e))
]

pub texts_same : (ss : List String) → same_texts ss ss ≡ true
texts_same [] = refl
texts_same (s ∷ ss) = rw (eq→same s s refl) (texts_same ss)

option_eq : (o p : Option String) → same_option o p ≡ true → o ≡ p
option_eq none none h = refl
option_eq none (some t) h = absurd (ground arith)
option_eq (some s) none h = absurd (ground arith)
option_eq (some s) (some t) h = ap some (same→eq s t h)

option_same : (o : Option String) → same_option o o ≡ true
option_same none = refl
option_same (some s) = eq→same s s refl

pub intent_eq : (i j : MissionIntent) → same_intent i j ≡ true → i ≡ j
unfolding same_intent
intent_eq i j h = ground (
  arith,
  same→eq i.pallet_id j.pallet_id,
  same→eq i.source j.source,
  same→eq i.destination j.destination,
  option_eq i.requested_agv j.requested_agv,
  texts_eq i.constraints j.constraints,
)

pub intent_same : (i : MissionIntent) → same_intent i i ≡ true
unfolding same_intent
intent_same i = ground (
  arith,
  eq→same i.pallet_id i.pallet_id refl,
  eq→same i.source i.source refl,
  eq→same i.destination i.destination refl,
  option_same i.requested_agv,
  texts_same i.constraints,
)
