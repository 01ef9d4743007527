-- ===== src/Retry.antt =====
-- `Do` of backend/internal/retry/http.go: retries of an HTTP request, with a backoff. A duration is
-- a number of nanoseconds, below 2^62 so that doubling one does not wrap; a configured value below
-- 0 stands as 0, which the only test on it takes the same way.
pub mod Laws
use pelican_mc_router.Prelude.{
  ℕ, zero, suc, ◌+◌, ◌*◌, ◌/◌, Bool, true, false, not, ◌&&◌, ◌||◌, Option, none, some, List, leb,
  ltb, eqb, if◌then◌else◌, Result, ok, err,
}
use pelican_mc_router.Text.{Text}

pub record Config : Type 0 where
  pub attempts : ℕ
  pub initial_backoff : ℕ
  pub max_backoff : ℕ

abbrev pub default_config : Config
default_config = record { attempts = 3; initial_backoff = 200000000; max_backoff = 2000000000 }

unfoldable pub normalize : Config → Config
normalize cfg =
    if eqb cfg.attempts 0 || (eqb cfg.initial_backoff 0 || ltb cfg.max_backoff cfg.initial_backoff)
    then default_config
    else cfg

pub record Response : Type 0 where
  pub status_code : ℕ
  pub body : Text

-- What the request function returns: a response, an error, or neither.
pub record Attempt : Type 0 where
  pub response : Option Response
  pub error : Option Text

-- 429, 502, 503 and 504.
unfoldable pub is_transient : ℕ → Bool
is_transient code = eqb code 429 || (eqb code 502 || (eqb code 503 || eqb code 504))

unfoldable pub should_retry : Attempt → Bool
should_retry a = elim a.error [
  | some e ↦ true
  | none ↦ elim a.response [ none ↦ false | some r ↦ is_transient r.status_code ]
]

-- The loop of `backoff`, for a number of rounds.
unfoldable pub doubled : ℕ → ℕ → ℕ → ℕ
doubled zero max delay = delay
doubled (suc n) max delay = elim (ltb delay max) [
  | true ↦ doubled n max (delay * 2)
  | false ↦ delay
]

abbrev pub previous : ℕ → ℕ
previous zero = 0
previous (suc n) = n

-- The delay before the random part is taken.
unfoldable pub full_delay : Config → ℕ → ℕ
full_delay cfg attempt =
    let delay = doubled (previous attempt) cfg.max_backoff cfg.initial_backoff in
    if ltb cfg.max_backoff delay then cfg.max_backoff else delay

-- What the loop calls. `random n` is `rand.Int64N(n)`; `discard` drains and closes a body.
pub record Transport (W : Type 0) : Type 0 where
  pub context_err : W → Result Text (Unit {0}) × W
  pub request : W → Attempt × W
  pub discard : Response → W → W
  pub random : ℕ → W → ℕ × W
  pub wait : ℕ → W → Result Text (Unit {0}) × W

module _ {W : Type 0} (transport : Transport W) where
  unfoldable pub backoff : Config → ℕ → W → ℕ × W
  backoff cfg attempt w =
      let half = full_delay cfg attempt / 2 in
      let (jitter, w1) = transport.random (half + 1) w in (half + jitter, w1)

  abbrev pub discard_response : Option Response → W → W
  discard_response none w = w
  discard_response (some r) w = transport.discard r w

  abbrev pub failed : Text → Attempt
  failed e = record { response = none; error = some e }

  -- The loop from an attempt on; `none` is out of fuel.
  unfoldable pub attempt_from : ℕ → Config → ℕ → W → Option (Attempt × W)
  attempt_from zero cfg attempt w = none
  attempt_from (suc fuel) cfg attempt w =
      let (live, w1) = transport.context_err w in
      elim live [
        | err e ↦ some (failed e, w1)
        | ok _ ↦
            let (made, w2) = transport.request w1 in
            elim (not (should_retry made) || leb cfg.attempts attempt) [
              | true ↦ some (made, w2)
              | false ↦
                  let w3 = discard_response made.response w2 in
                  let (delay, w4) = backoff cfg attempt w3 in
                  let (waited, w5) = transport.wait delay w4 in
                  elim waited [
                    | err e ↦ some (failed e, w5)
                    | ok _ ↦ attempt_from fuel cfg (suc attempt) w5
                  ]
            ]
      ]

  -- The fuel is the number of attempts.
  unfoldable pub do_request : Config → W → Option (Attempt × W)
  do_request config w = let cfg = normalize config in attempt_from cfg.attempts cfg 1 w
