-- ===== src/McRouter/Client/Retried.antt =====
-- About the retries behind `ListRoutes` of backend/internal/router/mcrouter/client.go: the world that they
-- leave, and the response that they end with.
use pelican_mc_router.Prelude.{
  ℕ, zero, suc, ◌+◌, ◌/◌, ◌≡◌, refl, sym, ap, ◌∙◌, inl, inr, not, ◌||◌, Option, none, some, arith,
  leb, ok, Result-cases, Bool-cases,
}
use pelican_mc_router.Text.{Text, text_eq}
use pelican_mc_router.Retry.{
  Config, Response, Attempt, Transport, should_retry, backoff, attempt_from, discard_response,
  failed, full_delay,
}
use pelican_mc_router.McRouter.Client.{response_of}

some_pair-eq :
    {A B : Type 0} (a a' : A) (b b' : B)
    → ◌≡◌ {A = Option (A × B)} (some (a, b)) (some (a', b'))
    → (a ≡ a') × (b ≡ b')
some_pair-eq a a' b b' h = (cc, cc)

-- A view of the world that a request's retries leave alone.
pub record Quiet {W V : Type 0} (t : Transport W) (view : W → V) : Type 0 where
  pub context_keeps : (w : W) → view (t.context_err w).1 ≡ view w
  pub request_keeps : (w : W) → view (t.request w).1 ≡ view w
  pub discard_keeps : (r : Response) (w : W) → view (t.discard r w) ≡ view w
  pub random_keeps : (n : ℕ) (w : W) → view (t.random n w).1 ≡ view w
  pub wait_keeps : (d : ℕ) (w : W) → view (t.wait d w).1 ≡ view w

module _ {W V : Type 0} (t : Transport W) (view : W → V) (quiet : Quiet t view) where
  -- The outcome of the retries is an error without a response, or that of a request.
  abbrev pub Outcome : W → Attempt → Type 0
  Outcome w a =
      (r : Response) → response_of a ≡ ok r → (v : W) × (view v ≡ view w) × ((t.request v).0 ≡ a)

  discard_response-keeps : (r : Option Response) (w : W) → view (discard_response t r w) ≡ view w
  discard_response-keeps none w = refl
  discard_response-keeps (some r) w = quiet.discard_keeps r w

  -- What an attempt that ends the retries says, from the equation of the step.
  ended-failed :
      (e : Text) (w v : W) (a : Attempt) (w' : W)
      → view v ≡ view w
      → ◌≡◌ {A = Option (Attempt × W)} (some (failed t e, v)) (some (a, w'))
      → (view w' ≡ view w) × Outcome w a
  unfolding response_of
  ended-failed e w v a w' same h =
      let (is_failed, is_world) = some_pair-eq (failed t e) a v w' h in
      (ap view (sym is_world) ∙ same, λ r answered. absurd (ground (arith, is_failed)))

  pub attempt_from-outcome :
      (fuel : ℕ) (cfg : Config) (attempt : ℕ) (w : W) (a : Attempt) (w' : W)
      → attempt_from t fuel cfg attempt w ≡ some (a, w')
      → (view w' ≡ view w) × Outcome w a
  unfolding attempt_from backoff
  attempt_from-outcome zero cfg attempt w a w' h = absurd (ground arith)
  attempt_from-outcome (suc fuel) cfg attempt w a w' h =
      let w1 : W = (t.context_err w).1 in
      let made : Attempt = (t.request w1).0 in
      let w2 : W = (t.request w1).1 in
      let w3 : W = discard_response t made.response w2 in
      let half : ℕ = full_delay cfg attempt / 2 in
      let w4 : W = (t.random (half + 1) w3).1 in
      let delay : ℕ = half + (t.random (half + 1) w3).0 in
      let w5 : W = (t.wait delay w4).1 in
      let to1 : view w1 ≡ view w = quiet.context_keeps w in
      let to2 : view w2 ≡ view w = quiet.request_keeps w1 ∙ to1 in
      let to5 : view w5 ≡ view w =
        quiet.wait_keeps delay w4
        ∙ quiet.random_keeps (half + 1) w3
        ∙ discard_response-keeps made.response w2
        ∙ to2 in
      elim (Result-cases (t.context_err w).0) [
        | inr (e, dead) ↦
            let step : attempt_from t (suc fuel) cfg attempt w ≡ some (failed t e, w1) =
              ground arith in
            ended-failed e w w1 a w' to1 (sym step ∙ h)
        | inl (_, live) ↦ elim (Bool-cases (not (should_retry made) || leb cfg.attempts attempt)) [
          | inl stops ↦
              let step : attempt_from t (suc fuel) cfg attempt w ≡ some (made, w2) = ground arith in
              let (is_made, is_world) = some_pair-eq made a w2 w' (sym step ∙ h) in
              (ap view (sym is_world) ∙ to2, λ r answered. (w1, to1, is_made))
          | inr retries ↦ elim (Result-cases (t.wait delay w4).0) [
            | inr (e, cut) ↦
                let step : attempt_from t (suc fuel) cfg attempt w ≡ some (failed t e, w5) =
                  ground arith in
                ended-failed e w w5 a w' to5 (sym step ∙ h)
            | inl (_, waited) ↦
                let step : attempt_from t (suc fuel) cfg attempt w
                    ≡ attempt_from t fuel cfg (suc attempt) w5 =
                  ground arith in
                let (kept, answers) =
                  attempt_from-outcome fuel cfg (suc attempt) w5 a w' (sym step ∙ h) in
                (
                  kept ∙ to5,
                  λ r answered. let (v, same, made_) = answers r answered in (v, same ∙ to5, made_),
                )
          ]
        ]
      ]
