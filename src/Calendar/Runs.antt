-- ===== src/Calendar/Runs.antt =====
-- The runs of the two workers for one calendar event, against the moves of its stage.
use mathlib.Core.Path.{subst}
use appointment_voice_saas.Common.{ℕ, ◌<◌, some, List, [], ◌∷◌, ◌≡◌, refl, sym, find_by}
use appointment_voice_saas.Tables.{Db, CalendarEvent, CalendarSyncStatus}
use appointment_voice_saas.Session.{Session}
use appointment_voice_saas.Session.Raises.{after_query}
use appointment_voice_saas.Env.{Env}
use appointment_voice_saas.Calendar.Workers.{
  CalendarProvider, is_event, sync_calendar_event_in_worker, cancel_calendar_event_in_worker,
}
use appointment_voice_saas.Calendar.Stages.{
  Stage, stage, Step, Reach, here, next, stage_of, IsSound, IsSound-Reach,
}
use appointment_voice_saas.Calendar.Moves.{Follows, Q, Q-sync_found, Q-cancel_found}

-- A run of one of the two workers, with the provider that it meets.
pub data Run : Type 0 where
  sync cancel : CalendarProvider → Run

abbrev pub run : Env → ℕ → Run → Session → Session
run env i (sync provider) s = (sync_calendar_event_in_worker env provider i s).1
run env i (cancel provider) s = (cancel_calendar_event_in_worker env provider i s).1

-- The runs for one event, in any order, each in a session of its own.
abbrev pub runs : Env → ℕ → List Run → Session → Session
runs env i [] s = s
runs env i (r ∷ rest) s =
    let after = run env i r s in runs env i rest (record after { db = after.committed })

Follows-run :
    (env : Env) (i : ℕ) (r : Run) (s : Session) (row : CalendarEvent)
    → find_by (is_event i) s.db.calendar_events ≡ some row
    → s.db ≡ s.committed
    → Follows (Step env.worker_max_retries) i (stage_of row) (run env i r s).committed
unfolding sync_calendar_event_in_worker cancel_calendar_event_in_worker
Follows-run env i (sync provider) s row found clean =
    after_query (Q env provider i s row found clean) _ _ s
      (rw found (Q-sync_found env provider i s row found clean))
Follows-run env i (cancel provider) s row found clean =
    after_query (Q env provider i s row found clean) _ _ s
      (rw found (Q-cancel_found env provider i s row found clean))

Follows-Reach :
    (env : Env) (i : ℕ) (origin : Stage) (rs : List Run) (s : Session) (row : CalendarEvent)
    → find_by (is_event i) s.db.calendar_events ≡ some row
    → s.db ≡ s.committed
    → Reach env.worker_max_retries origin (stage_of row)
    → Follows (Reach env.worker_max_retries) i origin (runs env i rs s).committed
Follows-Reach env i origin [] s row found clean path =
    subst (λ (db : Db). Follows (Reach env.worker_max_retries) i origin db) clean
      (record { row = row; found = found; follows = path })
Follows-Reach env i origin (r ∷ rs) s row found clean path =
    let step = Follows-run env i r s row found clean in
    let after : Session = run env i r s in
    Follows-Reach env i origin rs (record after { db = after.committed }) step.row step.found refl
      (next path step.follows)

-- Whatever the runs of the two workers for an event, in whatever order and with whatever answers,
-- the event takes only the moves of `Step`, from its stage before the runs on.
pub runs-Reach :
    (env : Env) (event_id : ℕ) (rs : List Run) (s : Session) (row : CalendarEvent)
    → s.db ≡ s.committed
    → find_by (is_event event_id) s.db.calendar_events ≡ some row
    → Follows
        (Reach env.worker_max_retries)
        event_id
        (stage_of row)
        (runs env event_id rs s).committed
runs-Reach env event_id rs s row clean found =
    Follows-Reach env event_id (stage_of row) rs s row found clean here

-- The row of the event in a table is one that `IsSound` allows.
pub record Sound (env : Env) (i : ℕ) (db : Db) : Type 0 where
  pub row : CalendarEvent
  pub found : find_by (is_event i) db.calendar_events ≡ some row
  pub sound : IsSound env.worker_max_retries (stage_of row)

-- Whatever the runs of the two workers for an event that stands as it was queued, pending and never
-- tried, and where at least one try is allowed: the event stays in the table; it counts as written
-- only after the provider was asked to write it, and fails only after `worker_max_retries` times;
-- the provider is asked to withdraw it `worker_max_retries` times at most, gives up on that exactly
-- then, and is never asked to withdraw what it was not asked to write.
pub runs-IsSound :
    (env : Env) (event_id : ℕ) (rs : List Run) (s : Session) (row : CalendarEvent)
    → 0 < env.worker_max_retries
    → s.db ≡ s.committed
    → find_by (is_event event_id) s.db.calendar_events ≡ some row
    → stage_of row ≡ stage CalendarSyncStatus.pending 0 0
    → Sound env event_id (runs env event_id rs s).committed
runs-IsSound env event_id rs s row some_tries clean found fresh =
    let reached = runs-Reach env event_id rs s row clean found in
    let start : IsSound env.worker_max_retries (stage_of row) =
      subst (IsSound env.worker_max_retries) (sym fresh) (refl, some_tries) in
    record {
      row = reached.row;
      found = reached.found;
      sound =
          IsSound-Reach env.worker_max_retries some_tries (stage_of row) (stage_of reached.row)
            reached.follows start;
    }
