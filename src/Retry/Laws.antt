-- ===== src/Retry/Laws.antt =====
-- About `Do` and `backoff` of backend/internal/retry/http.go: the number of requests and the delays.
use pelican_mc_router.Prelude.{
  ℕ, zero, suc, ◌+◌, ◌*◌, ◌/◌, ◌≤◌, ◌<◌, ◌≡◌, inl, inr, true, not, ◌||◌, Option, some, arith, leb,
  Bool-cases, Option-cases, ok, Result-cases,
}
use pelican_mc_router.Retry.{
  Config, normalize, Attempt, Response, should_retry, doubled, previous, full_delay, Transport,
  backoff, discard_response, attempt_from, do_request, failed,
}

-- Of the world, `calls` counts the requests, and nothing else changes it.
pub record Counts {W : Type 0} (transport : Transport W) (calls : W → ℕ) : Type 0 where
  pub context_keeps : (w : W) → calls (transport.context_err w).1 ≡ calls w
  pub request_counts : (w : W) → calls (transport.request w).1 ≡ suc (calls w)
  pub discard_keeps : (r : Response) (w : W) → calls (transport.discard r w) ≡ calls w
  pub random_keeps : (n : ℕ) (w : W) → calls (transport.random n w).1 ≡ calls w
  pub wait_keeps : (d : ℕ) (w : W) → calls (transport.wait d w).1 ≡ calls w

normalize-attempts : (cfg : Config) → 0 < (normalize cfg).attempts
unfolding normalize
normalize-attempts cfg = ground arith

normalize-backoffs : (cfg : Config) → (normalize cfg).initial_backoff ≤ (normalize cfg).max_backoff
unfolding normalize
normalize-backoffs cfg = ground arith

full_delay-bounded : (cfg : Config) (attempt : ℕ) → full_delay cfg attempt ≤ cfg.max_backoff
unfolding full_delay
full_delay-bounded cfg attempt = ground arith

doubled-grows : (n max delay : ℕ) → delay ≤ doubled n max delay
unfolding doubled
doubled-grows zero max delay = omega arith
doubled-grows (suc n) max delay = ground (arith, doubled-grows n max (delay * 2))

module _ {W : Type 0} (transport : Transport W) where
  -- If the random number is below its bound, a backoff is at most the configured maximum, and at
  -- least half the initial one.
  pub backoff-bounded :
      (config : Config) (attempt : ℕ) (w : W)
      → ((n : ℕ) (v : W) → 0 < n → (transport.random n v).0 < n)
      → ((backoff transport (normalize config) attempt w).0 ≤ (normalize config).max_backoff)
        × ((normalize config).initial_backoff / 2
            ≤ (backoff transport (normalize config) attempt w).0)
  unfolding backoff full_delay
  backoff-bounded config attempt w below =
      let cfg : Config = normalize config in
      let half : ℕ = full_delay cfg attempt / 2 in
      let jitter : (transport.random (half + 1) w).0 < half + 1 =
        below (half + 1) w (omega arith) in
      let grown = doubled-grows (previous attempt) cfg.max_backoff cfg.initial_backoff in
      (
        ground (arith, full_delay-bounded cfg attempt, jitter),
        ground (arith, normalize-backoffs config, grown, jitter),
      )

module _ {W : Type 0} (transport : Transport W) (calls : W → ℕ)
    (counts : Counts transport calls) where
  -- The world once the response of an attempt is discarded and the delay taken.
  abbrev delayed : Config → ℕ → Attempt → W → W
  delayed cfg attempt made w =
      (backoff transport cfg attempt (discard_response transport made.response w)).1

  delayed-keeps :
      (cfg : Config) (attempt : ℕ) (made : Attempt) (w : W)
      → calls (delayed cfg attempt made w) ≡ calls w
  unfolding backoff
  delayed-keeps cfg attempt made w = elim (Option-cases made.response) [
    | inl absent ↦ ground (arith, counts.random_keeps (full_delay cfg attempt / 2 + 1) w)
    | inr (r, given) ↦ ground (
      arith,
      counts.random_keeps (full_delay cfg attempt / 2 + 1) (transport.discard r w),
      counts.discard_keeps r w,
    )
  ]

  -- What the loop leaves from an attempt on.
  abbrev Ended : Config → ℕ → W → Option (Attempt × W) → Type 0
  Ended cfg attempt w out =
      (a : Attempt) × (w' : W) × (out ≡ some (a, w'))
      × (calls w' + attempt ≤ calls w + cfg.attempts + 1)

  attempt_from-ends :
      (fuel : ℕ) (cfg : Config) (attempt : ℕ) (w : W)
      → attempt ≤ cfg.attempts
      → cfg.attempts < attempt + fuel
      → Ended cfg attempt w (attempt_from transport fuel cfg attempt w)
  unfolding attempt_from
  attempt_from-ends zero cfg attempt w low high = absurd (omega arith)
  attempt_from-ends (suc fuel) cfg attempt w low high =
      let w1 : W = (transport.context_err w).1 in
      let made : Attempt = (transport.request w1).0 in
      let w2 : W = (transport.request w1).1 in
      let w4 : W = delayed cfg attempt made w2 in
      let delay : ℕ =
        (backoff transport cfg attempt (discard_response transport made.response w2)).0 in
      let w5 : W = (transport.wait delay w4).1 in
      elim (Result-cases (transport.context_err w).0) [
        | inr (e, dead) ↦
            (failed transport e, w1, ground arith, ground (arith, counts.context_keeps w))
        | inl (_, live) ↦ elim (Bool-cases (not (should_retry made) || leb cfg.attempts attempt)) [
          | inl last ↦ (
            made,
            w2,
            ground arith,
            ground (arith, counts.context_keeps w, counts.request_counts w1),
          )
          | inr again ↦ elim (Result-cases (transport.wait delay w4).0) [
            | inr (e, ended) ↦ (
              failed transport e,
              w5,
              ground arith,
              ground (
                arith,
                counts.context_keeps w,
                counts.request_counts w1,
                delayed-keeps cfg attempt made w2,
                counts.wait_keeps delay w4,
              ),
            )
            | inl (_, waited) ↦
                let (a, w', same, few) =
                  attempt_from-ends fuel cfg (suc attempt) w5 (ground arith) (omega arith) in
                (
                  a,
                  w',
                  ground (arith, same),
                  ground (
                    arith,
                    few,
                    counts.context_keeps w,
                    counts.request_counts w1,
                    delayed-keeps cfg attempt made w2,
                    counts.wait_keeps delay w4,
                  ),
                )
          ]
        ]
      ]

  -- The retry loop ends, and makes at most as many requests as there are attempts.
  pub do_request-ends :
      (config : Config) (w : W)
      → (a : Attempt) × (w' : W) × (do_request transport config w ≡ some (a, w'))
        × (calls w' ≤ calls w + (normalize config).attempts)
  unfolding do_request
  do_request-ends config w =
      let cfg : Config = normalize config in
      let (a, w', same, few) =
        attempt_from-ends cfg.attempts cfg 1 w (normalize-attempts config) (omega arith) in
      (a, w', same, omega (arith, few))

-- The context stays live and every wait ends.
pub record IsPatient {W : Type 0} (transport : Transport W) : Type 0 where
  pub live : (w : W) → (transport.context_err w).0 ≡ ok tt
  pub waits : (d : ℕ) (w : W) → (transport.wait d w).0 ≡ ok tt

module _ {W : Type 0} (transport : Transport W) (calls : W → ℕ) (counts : Counts transport calls)
    (patient : IsPatient transport) where
  -- An attempt that wants a retry is returned only when no attempt is left.
  abbrev Persisted : Config → ℕ → W → Option (Attempt × W) → Type 0
  Persisted cfg attempt w out =
      (a : Attempt) (w' : W)
      → out ≡ some (a, w')
      → should_retry a ≡ true
      → calls w' + attempt ≡ calls w + cfg.attempts + 1

  attempt_from-persists :
      (fuel : ℕ) (cfg : Config) (attempt : ℕ) (w : W)
      → attempt ≤ cfg.attempts
      → Persisted cfg attempt w (attempt_from transport fuel cfg attempt w)
  unfolding attempt_from
  attempt_from-persists zero cfg attempt w low a w' done again = absurd (ground arith)
  attempt_from-persists (suc fuel) cfg attempt w low a w' done again =
      let w1 : W = (transport.context_err w).1 in
      let made : Attempt = (transport.request w1).0 in
      let w2 : W = (transport.request w1).1 in
      let w4 : W = delayed transport calls counts cfg attempt made w2 in
      let delay : ℕ =
        (backoff transport cfg attempt (discard_response transport made.response w2)).0 in
      let w5 : W = (transport.wait delay w4).1 in
      let counted : calls w2 ≡ suc (calls w) =
        ground (arith, counts.context_keeps w, counts.request_counts w1) in
      elim (Bool-cases (not (should_retry made) || leb cfg.attempts attempt)) [
        | inl last ↦ ground (arith, patient.live w, counted)
        | inr next ↦
            let rest : attempt_from transport fuel cfg (suc attempt) w5 ≡ some (a, w') =
              ground (arith, patient.live w, patient.waits delay w4) in
            let later =
              attempt_from-persists fuel cfg (suc attempt) w5 (ground arith) a w' rest again in
            ground (
              arith,
              later,
              counted,
              delayed-keeps transport calls counts cfg attempt made w2,
              counts.wait_keeps delay w4,
            )
      ]

  -- While the context is live, a result that wants a retry is returned only after all attempts.
  pub do_request-persists :
      (config : Config) (w : W) (a : Attempt) (w' : W)
      → do_request transport config w ≡ some (a, w')
      → should_retry a ≡ true
      → calls w' ≡ calls w + (normalize config).attempts
  unfolding do_request
  do_request-persists config w a w' done again =
      let cfg : Config = normalize config in
      omega (
        arith,
        attempt_from-persists cfg.attempts cfg 1 w (normalize-attempts config) a w' done again,
      )
