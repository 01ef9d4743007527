-- ===== src/Access/Limiter.antt =====
-- backend/internal/actioncontrol/limiter.go. A time is a number of nanoseconds from Go's zero time; the
-- mutex makes a call one step. An action is its number, and the array `next` a function.
pub mod Spaced
use pelican_mc_router.Prelude.{ℕ, zero, suc, ◌+◌, Bool, true, false, ◌||◌, ltb, eqb, if◌then◌else◌}
use pelican_mc_router.Prelude.Int.{ℤ, pos, negsuc}

pub record ActionLimiter : Type 0 where
  pub interval : ℤ
  pub next : ℕ → ℕ

unfoldable pub new_limiter : ℤ → ActionLimiter
new_limiter interval = record { interval = interval; next = λ action. 0 }

abbrev pub set_at : ℕ → ℕ → (ℕ → ℕ) → ℕ → ℕ
set_at action time next a = if eqb a action then time else next a

-- An interval that is not positive, or an action that is none of the three, is not limited.
unfoldable pub allow_at : ℤ → ℕ → ℕ → ActionLimiter → Bool × ActionLimiter
allow_at (pos (suc n)) action now l =
    if ltb 2 action
    then (true, l)
    else if ltb now (l.next action)
    then (false, l)
    else (true, record l { next = set_at action (now + suc n) l.next })
allow_at (pos zero) action now l = (true, l)
allow_at (negsuc n) action now l = (true, l)

unfoldable pub allow : ℕ → ℕ → ActionLimiter → Bool × ActionLimiter
unfolding allow_at
allow action now l = allow_at l.interval action now l
