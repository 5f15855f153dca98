-- ===== src/Service/Deadlock.antt =====
-- Whether a vehicle waits in a circle: `_has_circular_wait` of src/shiftzero/safety.py.
use text.Mathlib.Text.{◌==◌ as str_eq}
use shiftzero_hero.Common.{
  ℕ, zero, suc, ◌≤◌, ◌<◌, String, ◌≡◌, refl, sym, ap, subst, ◌∙◌, ◌≢◌, ◌↔◌, inl, inr, Bool, true,
  false, Option, none, some, List, [], ◌∷◌, arith, length, if◌then◌else◌, Bool-cases, Option-cases,
  All,
}
use shiftzero_hero.Service.Lookup.{has, get, same→eq, eq→same}
use shiftzero_hero.Service.Safety.{wait_loop, has_circular_wait}

-- The vehicle that one waits for after `n` steps along the chain.
abbrev pub waits : ℕ → List (String × String) → String → Option String
waits zero wait_for current = some current
waits (suc n) wait_for current = elim (get current wait_for) [
  | none ↦ none
  | some next ↦ waits n wait_for next
]

-- The entries whose key is not visited.
abbrev left : List String → List (String × String) → ℕ
left visited [] = 0
left visited ((k, v) ∷ rest) = let n = left visited rest in if has k visited then n else suc n

left-le :
    (c : String) (visited : List String) (w : List (String × String))
    → left (c ∷ visited) w ≤ left visited w
left-le c visited [] = omega arith
left-le c visited ((k, v) ∷ w) = ground (arith, left-le c visited w)

left-lt :
    (c next : String) (visited : List String) (w : List (String × String))
    → get c w ≡ some next
    → has c visited ≡ false
    → left (c ∷ visited) w < left visited w
left-lt c next visited [] h fresh = absurd (ground arith)
left-lt c next visited ((k, v) ∷ w) h fresh = elim (Bool-cases (str_eq k c)) [
  | inl same ↦
      let e : k ≡ c = same→eq k c same in
      let unseen : has k visited ≡ false = rw e fresh in
      let back : str_eq c k ≡ true = eq→same c k (sym e) in ground (arith, left-le c visited w)
  | inr other ↦ ground (arith, left-lt c next visited w, left-le c visited w)
]

left-nil : (w : List (String × String)) → left [] w ≤ length w
left-nil [] = omega arith
left-nil ((k, v) ∷ w) = omega (arith, left-nil w)

in_head : (x : String) (xs : List String) → has x (x ∷ xs) ≡ true
in_head x xs = ground (arith, eq→same x x refl)

in_more : (x y : String) (xs : List String) → has x xs ≡ true → has x (y ∷ xs) ≡ true
in_more x y xs h = ground arith

in_tail :
    (x c : String) (xs : List String) → has c xs ≡ true → has x (c ∷ xs) ≡ true → has x xs ≡ true
in_tail x c xs seen h = elim (Bool-cases (str_eq c x)) [
  | inl same ↦ rw (← same→eq c x same) seen
  | inr other ↦ ground arith
]

-- One round of the loop, in each of its three ways.
loop_done :
    (fuel : ℕ) (w : List (String × String)) (c : String) (visited : List String)
    → get c w ≡ none
    → wait_loop (suc fuel) w c visited ≡ some (has c visited)
unfolding wait_loop
loop_done fuel w c visited e = ground (arith, e)

loop_back :
    (fuel : ℕ) (w : List (String × String)) (c next : String) (visited : List String)
    → get c w ≡ some next
    → has c visited ≡ true
    → wait_loop (suc fuel) w c visited ≡ some true
unfolding wait_loop
loop_back fuel w c next visited e seen = ground (arith, e)

loop_on :
    (fuel : ℕ) (w : List (String × String)) (c next : String) (visited : List String)
    → get c w ≡ some next
    → has c visited ≡ false
    → wait_loop (suc fuel) w c visited ≡ wait_loop fuel w next (c ∷ visited)
unfolding wait_loop
loop_on fuel w c next visited e fresh = ground (arith, e)

wait_loop-total :
    (fuel : ℕ) (w : List (String × String)) (c : String) (visited : List String)
    → left visited w < fuel
    → (b : Bool) × (wait_loop fuel w c visited ≡ some b)
wait_loop-total zero w c visited h = absurd (omega arith)
wait_loop-total (suc fuel) w c visited h = elim (Option-cases (get c w)) [
  | inl e ↦ (has c visited, loop_done fuel w c visited e)
  | inr (next, e) ↦ elim (Bool-cases (has c visited)) [
    | inl seen ↦ (true, loop_back fuel w c next visited e seen)
    | inr fresh ↦
        let less = left-lt c next visited w e fresh in
        let (b, found) = wait_loop-total fuel w next (c ∷ visited) (omega arith) in
        (b, loop_on fuel w c next visited e fresh ∙ found)
  ]
]

waits_on :
    (n : ℕ) (w : List (String × String)) (c next : String)
    → get c w ≡ some next
    → waits (suc n) w c ≡ waits n w next
waits_on n w c next e = ground (arith, e)

loop_false :
    (fuel : ℕ) (w : List (String × String)) (c : String) (visited : List String)
    → wait_loop fuel w c visited ≡ some false
    → (n : ℕ) × (waits n w c ≡ none)
loop_false zero w c visited h = absurd (unfold wait_loop in ground arith)
loop_false (suc fuel) w c visited h = elim (Option-cases (get c w)) [
  | inl e ↦ (1, ground (arith, e))
  | inr (next, e) ↦ elim (Bool-cases (has c visited)) [
    | inl seen ↦ absurd (ground (arith, loop_back fuel w c next visited e seen))
    | inr fresh ↦
        let (n, ends) =
          loop_false fuel w next (c ∷ visited) (sym (loop_on fuel w c next visited e fresh) ∙ h) in
        (suc n, waits_on n w c next e ∙ ends)
  ]
]

All-has : (P : String → Type 0) (x : String) (xs : List String) → All P xs → has x xs ≡ true → P x
All-has P x [] h k = absurd (ground arith)
All-has P x (y ∷ xs) (here, rest) k = elim (Bool-cases (str_eq y x)) [
  | inl same ↦ subst P (same→eq y x same) here
  | inr other ↦ All-has P x xs rest (ground arith)
]

-- A vehicle of the list waits for one of the list `vs`.
abbrev Waits : List (String × String) → List String → String → Type 0
Waits w vs v = (s : String) × (get v w ≡ some s) × (has s vs ≡ true)

never_ends :
    (w : List (String × String)) (vs : List String)
    → All (Waits w vs) vs
    → (n : ℕ) (x : String) → has x vs ≡ true
    → waits n w x ≢ none
never_ends w vs h zero x k e = ground arith
never_ends w vs h (suc n) x k e =
    let (s, next, in_vs) = All-has (Waits w vs) x vs h k in
    never_ends w vs h n s in_vs (sym (waits_on n w x s next) ∙ e)

All-weaken :
    (P Q : String → Type 0) → ((x : String) → P x → Q x) → (xs : List String) → All P xs → All Q xs
All-weaken P Q f [] h = tt
All-weaken P Q f (x ∷ xs) (here, rest) = (f x here, All-weaken P Q f xs rest)

loop_true :
    (fuel : ℕ) (w : List (String × String)) (start c : String) (visited : List String)
    → All (Waits w (c ∷ visited)) visited
    → has start (c ∷ visited) ≡ true
    → wait_loop fuel w c visited ≡ some true
    → (n : ℕ) → waits n w start ≢ none
loop_true zero w start c visited closed on h n = absurd (unfold wait_loop in ground arith)
loop_true (suc fuel) w start c visited closed on h n = elim (Option-cases (get c w)) [
  | inl e ↦
      let seen : has c visited ≡ true = ground (arith, loop_done fuel w c visited e) in
      let (s, next, in_vs) = All-has (Waits w (c ∷ visited)) c visited closed seen in
      absurd (ground (arith, e, next))
  | inr (next, e) ↦ elim (Bool-cases (has c visited)) [
    | inl seen ↦
        let inside : (x : String) → has x (c ∷ visited) ≡ true → has x visited ≡ true =
          λ x k. in_tail x c visited seen k in
        never_ends w visited
          (All-weaken (Waits w (c ∷ visited)) (Waits w visited)
            (λ x (s, found, k). (s, found, inside s k)) visited closed)
          n start (inside start on)
    | inr fresh ↦
        loop_true fuel w start next (c ∷ visited)
          (
            (next, e, in_head next (c ∷ visited)),
            All-weaken (Waits w (c ∷ visited)) (Waits w (next ∷ c ∷ visited))
                (λ x (s, found, k). (s, found, in_more s next (c ∷ visited) k)) visited closed,
          )
          (in_more start next (c ∷ visited) on) (sym (loop_on fuel w c next visited e fresh) ∙ h) n
  ]
]

-- The search for a circular wait always ends, and it finds none exactly if the chain of vehicles
-- that wait, from the vehicle of the route on, ends.
pub has_circular_wait-decides :
    (w : List (String × String)) (selected_agv : String)
    → (b : Bool) × (has_circular_wait w selected_agv ≡ some b)
      × ((b ≡ false) ↔ ((n : ℕ) × (waits n w selected_agv ≡ none)))
unfolding has_circular_wait
has_circular_wait-decides w c =
    let (b, found) = wait_loop-total (suc (length w)) w c [] (omega (arith, left-nil w)) in
    (
      b,
      found,
      (
        λ free. loop_false (suc (length w)) w c [] (found ∙ ap some free),
        λ (n, ends). elim (Bool-cases b) [
          | inl circle ↦ absurd (
              loop_true (suc (length w)) w c c [] tt (in_head c []) (found ∙ ap some circle) n ends)
          | inr free ↦ free
        ],
      ),
    )
