-- ===== src/Tests/RetryTests.antt =====
-- Tests and examples for retries: a server that answers 503, and counts the requests.
use pelican_mc_router.Prelude.{ℕ, suc, ◌+◌, ◌≤◌, ◌≡◌, refl, true, none, some, [], ok}
use pelican_mc_router.Retry.{
  Config, normalize, Attempt, is_transient, should_retry, doubled, full_delay, Transport, backoff,
  attempt_from, do_request,
}
use pelican_mc_router.Retry.Laws.{Counts, IsPatient, do_request-ends}

abbrev unavailable : Attempt
unavailable = record { response = some (record { status_code = 503; body = [] }); error = none }

abbrev busy : Transport ℕ
busy = record {
  context_err = λ w. (ok tt, w);
  request = λ w. (unavailable, suc w);
  discard = λ r w. w;
  random = λ n w. (0, w);
  wait = λ d w. (ok tt, w);
}

busy-Counts : Counts busy (λ w. w)
busy-Counts = record {
  context_keeps = λ w. refl;
  request_counts = λ w. refl;
  discard_keeps = λ r w. refl;
  random_keeps = λ n w. refl;
  wait_keeps = λ d w. refl;
}

busy-IsPatient : IsPatient busy
busy-IsPatient = record { live = λ w. refl; waits = λ d w. refl }

abbrev four_attempts : Config
four_attempts = record { attempts = 4; initial_backoff = 10; max_backoff = 30 }

-- Opens what a request runs.
requesting : Unit {0}
unfolding do_request attempt_from normalize should_retry is_transient backoff full_delay doubled
requesting = tt

third_delay : full_delay four_attempts 3 ≡ 30
unfolding requesting
third_delay = refl

busy_test : do_request busy four_attempts 0 ≡ some (unavailable, 4)
unfolding requesting
busy_test = refl

busy_again : should_retry unavailable ≡ true
unfolding requesting
busy_again = refl

do_request-ends_example :
    (a : Attempt) × (w' : ℕ) × (do_request busy four_attempts 0 ≡ some (a, w'))
    × (w' ≤ 0 + (normalize four_attempts).attempts)
do_request-ends_example = do_request-ends busy (λ w. w) busy-Counts four_attempts 0
