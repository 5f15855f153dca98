-- ===== src/Console/Arrival.antt =====
-- The fetched documents arrive in any order: the effect of `MissionConsole` in
-- apps/web/components/mission-console.tsx.
use shiftzero_hero.Common.{
  ◌≡◌, refl, ◌≢◌, Bool, true, false, Option, none, some, ◌||◌, List, [], ◌∷◌, arith, is_some, not,
  All, subst, ◌∙◌, sym, ap,
}
use mathlib.Core.List.{Permᴰ}
use shiftzero_hero.Console.Loading.{
  Evidence, Response, document, Reply, on_hero_summary, on_scenario_metrics, on_judge_load,
  on_impact_load, on_screenshot_evidence, on_live_gate, on_live_runtime, on_serverless,
  on_release_acceptance, receive,
}

-- Which document a reply is about.
pub data Document : Type 0 where
  hero_summary scenario_metrics judge_load impact_load screenshot_evidence : Document
  live_gate live_runtime serverless release_acceptance : Document

-- A fetch that was rejected, a response that is not ok, or a body that is no document.
abbrev pub unusable : {A : Type 0} → Option (Response A) → Bool
unusable none = true
unusable (some response) = not response.ok || not (is_some response.json)

module _ {F : Type 0} where
  abbrev pub about : Reply F → Document
  about (on_hero_summary r) = hero_summary
  about (on_scenario_metrics r) = scenario_metrics
  about (on_judge_load r) = judge_load
  about (on_impact_load r) = impact_load
  about (on_screenshot_evidence r) = screenshot_evidence
  about (on_live_gate r) = live_gate
  about (on_live_runtime r) = live_runtime
  about (on_serverless r) = serverless
  about (on_release_acceptance r) = release_acceptance

  -- The reply brings no document.
  abbrev pub fails : Reply F → Bool
  fails (on_hero_summary r) = unusable r
  fails (on_scenario_metrics r) = unusable r
  fails (on_judge_load r) = unusable r
  fails (on_impact_load r) = unusable r
  fails (on_screenshot_evidence r) = unusable r
  fails (on_live_gate r) = unusable r
  fails (on_live_runtime r) = unusable r
  fails (on_serverless r) = unusable r
  fails (on_release_acceptance r) = unusable r

  receive-error :
      (r : Reply F) (e : Evidence F) → (receive r e).evidence_error ≡ (fails r || e.evidence_error)
  unfolding receive document
  receive-error (on_hero_summary r) e = ground arith
  receive-error _ e = ground arith

  -- Replies about two documents can come in either order.
  pub receive_comm :
      (r q : Reply F) (e : Evidence F)
      → about r ≢ about q
      → receive r (receive q e) ≡ receive q (receive r e)
  unfolding receive
  receive_comm (on_hero_summary r) (on_scenario_metrics q) e ne = ground arith
  receive_comm _ _ e ne = ground arith

  -- The replies in the order in which they settle.
  unfoldable pub arrive : List (Reply F) → Evidence F → Evidence F
  arrive [] e = e
  arrive (r ∷ rs) e = arrive rs (receive r e)

  abbrev pub any_fails : List (Reply F) → Bool
  any_fails [] = false
  any_fails (r ∷ rs) = fails r || any_fails rs

  -- After any sequence of replies the error flag is up exactly if it was before, or one of the
  -- replies brought no document: the fetch failed, its status was not ok, or its body could not be
  -- read.
  pub arrive-error :
      (rs : List (Reply F)) (e : Evidence F)
      → (arrive rs e).evidence_error ≡ (any_fails rs || e.evidence_error)
  unfolding arrive
  arrive-error [] e = refl
  arrive-error (r ∷ rs) e = ground (arith, receive-error r e, arrive-error rs (receive r e))

  -- No two of the replies are about one document.
  abbrev pub OnceEach : List (Reply F) → Type 0
  OnceEach [] = Unit
  OnceEach (r ∷ rs) = All (λ q. about r ≢ about q) rs × OnceEach rs

  All-perm : (P : Reply F → Type 0) {rs qs : List (Reply F)} → Permᴰ rs qs → All P rs → All P qs
  All-perm P Permᴰ.nil h = h
  All-perm P (Permᴰ.cons p t) (h, hs) = (subst P p h, All-perm P t hs)
  All-perm P (Permᴰ.swap p q) (h, (k, hs)) = (subst P q k, (subst P p h, hs))
  All-perm P (Permᴰ.trans t u) h = All-perm P u (All-perm P t h)

  OnceEach-perm : {rs qs : List (Reply F)} → Permᴰ rs qs → OnceEach rs → OnceEach qs
  OnceEach-perm Permᴰ.nil h = h
  OnceEach-perm (Permᴰ.cons {a} {b} {l₁} {l₂} p t) (h, hs) =
      rw (← p) (All-perm (λ q. about a ≢ about q) t h, OnceEach-perm t hs)
  OnceEach-perm (Permᴰ.swap {l} p q) ((ne, hs), (ks, once)) = (
    (rw (← p, ← q) (λ same. ne (sym same)), subst (λ z. All (λ x. about z ≢ about x) l) q ks),
    (subst (λ z. All (λ x. about z ≢ about x) l) p hs, once),
  )
  OnceEach-perm (Permᴰ.trans t u) h = OnceEach-perm u (OnceEach-perm t h)

  -- In whatever order replies about different documents settle, the console ends with the same
  -- evidence.
  pub arrive-perm :
      {rs qs : List (Reply F)}
      → Permᴰ rs qs
      → OnceEach rs
      → (e : Evidence F) → arrive rs e ≡ arrive qs e
  unfolding arrive
  arrive-perm Permᴰ.nil once e = refl
  arrive-perm (Permᴰ.cons {a} {b} {l₁} {l₂} p t) once e = rw p (arrive-perm t once.1 (receive b e))
  arrive-perm (Permᴰ.swap {a} {b} {a'} {b'} {l} p q) ((ne, _), _) e =
      rw (← p, ← q) (ap (arrive l) (receive_comm b a e (λ same. ne (sym same))))
  arrive-perm (Permᴰ.trans t u) once e =
      arrive-perm t once e ∙ arrive-perm u (OnceEach-perm t once) e
