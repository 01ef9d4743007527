-- ===== src/Access/Limiter/Spaced.antt =====
-- About the limiter of backend/internal/actioncontrol/limiter.go: the actions that it allows over time.
use pelican_mc_router.Prelude.{
  ℕ, zero, suc, ◌+◌, ◌≤◌, ◌≡◌, refl, true, false, ◌&&◌, List, [], ◌∷◌, arith, ltb, eqb, All,
  if◌then◌else◌, Bool-cases, ◌⊎◌, inl, inr, ◌∙◌,
}
use pelican_mc_router.Prelude.Int.{ℤ, pos, negsuc}
use pelican_mc_router.Access.Limiter.{ActionLimiter, new_limiter, allow_at, allow}

-- The times at which requests of the class `a` are allowed, of a sequence of actions with their times.
unfoldable pub allowed_times : ℕ → ActionLimiter → List (ℕ × ℕ) → List ℕ
allowed_times a l [] = []
allowed_times a l ((action, now) ∷ requests) =
    let rest = allowed_times a (allow action now l).1 requests in
    if eqb a action && (allow action now l).0 then now ∷ rest else rest

-- Each time is at least the interval before all later ones.
abbrev pub IsSpaced : ℕ → List ℕ → Type 0
IsSpaced interval [] = Unit
IsSpaced interval (t ∷ times) = All (λ later. t + interval ≤ later) times × IsSpaced interval times

abbrev Spaced : ℕ → ℕ → List ℕ → Type 0
Spaced first interval times = All (λ t. first ≤ t) times × IsSpaced interval times

All-weaken : (m n : ℕ) (times : List ℕ) → m ≤ n → All (λ t. n ≤ t) times → All (λ t. m ≤ t) times
All-weaken m n [] h k = tt
All-weaken m n (t ∷ times) h (here, later) = (omega arith, All-weaken m n times h later)

ℤ-cases : (i : ℤ) → ((i ≡ pos 0) ⊎ ((n : ℕ) × (i ≡ pos (suc n)))) ⊎ ((n : ℕ) × (i ≡ negsuc n))
ℤ-cases (pos zero) = inl (inl refl)
ℤ-cases (pos (suc n)) = inl (inr (n, refl))
ℤ-cases (negsuc n) = inr (n, refl)

allow-interval : (action now : ℕ) (l : ActionLimiter) → (allow action now l).1.interval ≡ l.interval
unfolding allow allow_at
allow-interval action now l = elim (ℤ-cases l.interval) [
  | inl (inl h) ↦ ground arith
  | inl (inr (n, h)) ↦ ground arith
  | inr (n, h) ↦ ground arith
]

module _ (a n : ℕ) (class : ltb 2 a ≡ false) where
  -- A request counts for the class, or leaves its next time alone.
  allow-counts :
      (action now : ℕ) (l : ActionLimiter)
      → l.interval ≡ pos (suc n)
      → ((eqb a action && (allow action now l).0) ≡ true)
          × (l.next a ≤ now)
          × ((allow action now l).1.next a ≡ now + suc n)
        ⊎ (((eqb a action && (allow action now l).0) ≡ false)
            × ((allow action now l).1.next a ≡ l.next a))
  unfolding allow allow_at
  allow-counts action now l h = elim (Bool-cases (eqb a action)) [
    | inr other_ ↦ inr (ground arith, ground arith)
    | inl same ↦ elim (Bool-cases (ltb now (l.next action))) [
      | inl early ↦ inr (ground arith, ground arith)
      | inr late ↦ inl (ground arith, ground arith, ground arith)
    ]
  ]

  allowed_times-Spaced :
      (l : ActionLimiter) (requests : List (ℕ × ℕ))
      → l.interval ≡ pos (suc n)
      → Spaced (l.next a) (suc n) (allowed_times a l requests)
  unfolding allowed_times
  allowed_times-Spaced l [] h = (tt, tt)
  allowed_times-Spaced l ((action, now) ∷ requests) h =
      let l1 : ActionLimiter = (allow action now l).1 in
      let rest : List ℕ = allowed_times a l1 requests in
      let after : Spaced (l1.next a) (suc n) rest =
        allowed_times-Spaced l1 requests (allow-interval action now l ∙ h) in
      elim (allow-counts action now l h) [
        | inl (counted, in_time, moved) ↦
            let times : allowed_times a l ((action, now) ∷ requests) ≡ now ∷ rest = ground arith in
            rw times (
              (in_time, All-weaken (l.next a) (l1.next a) rest (omega arith) after.0),
              (All-weaken (now + suc n) (l1.next a) rest (omega arith) after.0, after.1),
            )
        | inr (passed, kept) ↦
            let times : allowed_times a l ((action, now) ∷ requests) ≡ rest = ground arith in
            rw times (All-weaken (l.next a) (l1.next a) rest (omega arith) after.0, after.1)
      ]

-- Of any sequence of requests with their times, the allowed ones of one action class are at least the
-- limiter's interval apart: each is the interval before every later one. The interval is positive.
pub allowed_times-IsSpaced :
    (a n : ℕ)
    → ltb 2 a ≡ false
    → (requests : List (ℕ × ℕ))
    → IsSpaced (suc n) (allowed_times a (new_limiter (pos (suc n))) requests)
unfolding new_limiter
allowed_times-IsSpaced a n class requests =
    (allowed_times-Spaced a n class (new_limiter (pos (suc n))) requests refl).1
