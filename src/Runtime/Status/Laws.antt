-- ===== src/Runtime/Status/Laws.antt =====
-- About the tracker of backend/internal/runtime/reconciliation_status.go: how its fields relate.
use pelican_mc_router.Prelude.{ℕ, ◌+◌, ◌<◌, ◌≡◌, ◌≢◌, refl, none, some, List, [], ◌∷◌, arith}
use pelican_mc_router.Runtime.Status.{
  not_configured, success, failure, Status, new_status, start, complete, Event, started, ended,
  track, track_all,
}

-- An error is shown, and failures are counted, exactly after a failure; a success is dated by its
-- completion.
pub record IsCoherent (s : Status) : Type 0 where
  pub failed_counts : s.last_outcome ≡ some failure → 0 < s.consecutive_failures
  pub failed_shows : s.last_outcome ≡ some failure → s.last_error ≢ none
  pub fine_counts : s.last_outcome ≢ some failure → s.consecutive_failures ≡ 0
  pub fine_shows : s.last_outcome ≢ some failure → s.last_error ≡ none
  pub dated : s.last_outcome ≡ some success → s.last_success_at ≡ s.last_completed_at

IsCoherent-new_status : IsCoherent new_status
IsCoherent-new_status = ground arith

track-IsCoherent : (s : Status) (e : Event) → IsCoherent s → IsCoherent (track s e)
unfolding start complete
track-IsCoherent s (started now) h = ground arith
track-IsCoherent s (ended not_configured summary result now) h = ground arith
track-IsCoherent s (ended success summary result now) h = ground arith
track-IsCoherent s (ended failure summary result now) h = ground arith

track_all-IsCoherent_from :
    (s : Status) (events : List Event) → IsCoherent s → IsCoherent (track_all s events)
unfolding track_all
track_all-IsCoherent_from s [] h = h
track_all-IsCoherent_from s (e ∷ events) h =
    track_all-IsCoherent_from (track s e) events (track-IsCoherent s e h)

-- After any starts and completions of a new tracker, an error is shown and failures are counted
-- exactly if the latest outcome is a failure, and after a success its time is the completion's.
pub track_all-IsCoherent : (events : List Event) → IsCoherent (track_all new_status events)
track_all-IsCoherent events = track_all-IsCoherent_from new_status events IsCoherent-new_status

-- The failures since the latest completion that was none, by a count of its own.
abbrev pub failures_after : ℕ → List Event → ℕ
failures_after n [] = n
failures_after n (started now ∷ events) = failures_after n events
failures_after n (ended failure summary result now ∷ events) = failures_after (n + 1) events
failures_after n (ended not_configured summary result now ∷ events) = failures_after 0 events
failures_after n (ended success summary result now ∷ events) = failures_after 0 events

-- After any starts and completions, the consecutive failures are those since the latest completion
-- that was none, added to the ones before if there is no such completion.
pub track_all-failures :
    (s : Status) (events : List Event)
    → (track_all s events).consecutive_failures ≡ failures_after s.consecutive_failures events
unfolding track_all start complete
track_all-failures s [] = refl
track_all-failures s (started now ∷ events) = track_all-failures (start now s) events
track_all-failures s (ended failure summary result now ∷ events) =
    ground (arith, track_all-failures (complete failure summary result now s) events)
track_all-failures s (ended success summary result now ∷ events) =
    track_all-failures (complete success summary result now s) events
track_all-failures s (ended not_configured summary result now ∷ events) =
    track_all-failures (complete not_configured summary result now s) events
