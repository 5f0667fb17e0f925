-- ===== src/Calendar/Moves.antt =====
-- One run of a worker for a calendar event, against the moves of its stage.
use mathlib.Core.Path.{subst}
use appointment_voice_saas.Common.{
  ℕ, ◌+◌, ◌≤◌, ◌<◌, some, Bool, true, false, ◌≡◌, refl, sym, ◌==◌, ==_iff, leb, find_by,
  find_by-update_where, find_by_holds, update_where, if◌then◌else◌, Bool-cases, inl, inr, arith,
}
use appointment_voice_saas.Tables.{Db, Booking, CalendarEvent, CalendarSyncStatus}
use appointment_voice_saas.Errors.{Result}
use appointment_voice_saas.Session.{Session, pure, ◌>>=◌}
use appointment_voice_saas.Session.Raises.{after_read, after_query}
use appointment_voice_saas.Env.{Env}
use appointment_voice_saas.Calendar.Workers.{
  CalendarProvider, CalendarResult, is_event, update_event, is_unsynced, is_closed_event,
  synced_row, unsynced_row, cancelled_row, withdrawn_row, not_withdrawn_row, record_sync,
  sync_booking, sync_event, sync_found, record_cancel, cancel_at_provider, cancel_event,
  cancel_found,
}
use appointment_voice_saas.Calendar.Stages.{
  Stage, stage, Step, stays, created, not_created, failed_for_now, dropped, withdrawn,
  not_withdrawn, stuck, stage_of,
}

-- The row of the event in a table, and that it came from the earlier stage.
pub record Follows (R : Stage → Stage → Type 0) (i : ℕ) (before : Stage) (db : Db) : Type 0 where
  pub row : CalendarEvent
  pub found : find_by (is_event i) db.calendar_events ≡ some row
  pub follows : R before (stage_of row)

leb-false : (a b : ℕ) → leb a b ≡ false → b < a
leb-false a b h = ground arith

leb-true : (a b : ℕ) → leb a b ≡ true → a ≤ b
leb-true a b h = ground arith

module _ (env : Env) (provider : CalendarProvider) (i : ℕ) (s : Session) (row : CalendarEvent)
    (found : find_by (is_event i) s.db.calendar_events ≡ some row)
    (clean : s.db ≡ s.committed) where
  abbrev pub Q : Result (Unit {0}) × Session → Type 0
  Q p = Follows (Step env.worker_max_retries) i (stage_of row) p.1.committed

  unchanged : Follows (Step env.worker_max_retries) i (stage_of row) s.committed
  unchanged =
      subst (λ (db : Db). Follows (Step env.worker_max_retries) i (stage_of row) db) clean
        (record { row = row; found = found; follows = stays })

  changed :
      (f : CalendarEvent → CalendarEvent)
      → ((e : CalendarEvent) → (f e).id ≡ e.id)
      → Step env.worker_max_retries (stage_of row) (stage_of (f row))
      → Follows (Step env.worker_max_retries) i (stage_of row) (update_event row.id f s.db)
  changed f keeps step =
      let same : row.id ≡ i =
        (==_iff row.id i).0 (find_by_holds (is_event i) s.db.calendar_events row found) in
      record {
        row = f row;
        found =
            subst
              (λ (k : ℕ).
                find_by (is_event i) (update_where (is_event k) f s.db.calendar_events)
                ≡ some (f row))
              (sym same)
              (find_by-update_where (is_event i) f s.db.calendar_events row (λ e. rw (keeps e))
                found);
        follows = step;
      }

  Q-record_sync :
      (result : CalendarResult) → is_unsynced row.status ≡ true → Q (record_sync env row result s)
  unfolding record_sync ◌>>=◌
  Q-record_sync result open_yet = elim (Bool-cases result.success) [
    | inl sent ↦ rw sent (changed (synced_row env result) (λ e. refl) (created open_yet refl))
    | inr unsent ↦ rw unsent (elim (Bool-cases (leb env.worker_max_retries (row.attempts + 1))) [
      | inl last ↦
          let step : Step env.worker_max_retries (stage_of row)
              (stage_of (unsynced_row env result row)) =
            rw last (
              failed_for_now open_yet refl
                (leb-true env.worker_max_retries (row.attempts + 1) last)) in
          rw last (changed (unsynced_row env result) (λ e. refl) step)
      | inr more ↦
          let step : Step env.worker_max_retries (stage_of row)
              (stage_of (unsynced_row env result row)) =
            rw more (
              not_created open_yet refl
                (leb-false env.worker_max_retries (row.attempts + 1) more)) in
          rw more (changed (unsynced_row env result) (λ e. refl) step)
    ])
  ]

  Q-sync_booking :
      (booking : Booking)
      → is_unsynced row.status ≡ true
      → Q (sync_booking env provider row booking s)
  unfolding sync_booking
  Q-sync_booking booking open_yet =
      after_read Q _ _ s
        (λ service _.
          after_read Q _ _ s (λ staff _. after_query Q _ _ s (Q-record_sync _ open_yet))
            (λ e. unchanged))
        (λ e. unchanged)

  Q-sync_event : is_unsynced row.status ≡ true → Q (sync_event env provider row s)
  unfolding sync_event
  Q-sync_event open_yet =
      after_read Q _ _ s (λ booking _. same_tenant booking (booking.tenant_id == row.tenant_id))
        (λ e. unchanged)
    where
      same_tenant :
          (booking : Booking) (t : Bool)
          → Q ((if t then sync_booking env provider row booking else pure tt) s)
      same_tenant booking true = Q-sync_booking booking open_yet
      same_tenant booking false = unfold ◌>>=◌ in unchanged

  pub Q-sync_found : Q (sync_found env provider (some row) s)
  unfolding ◌>>=◌
  Q-sync_found = elim (Bool-cases (is_unsynced row.status)) [
    | inl open_yet ↦ rw open_yet (Q-sync_event open_yet)
    | inr shut ↦ rw shut unchanged
  ]

  Q-record_cancel :
      (result : CalendarResult)
      → row.status ≡ CalendarSyncStatus.synced
      → Q (record_cancel env row result s)
  unfolding record_cancel ◌>>=◌
  Q-record_cancel result synced = elim (Bool-cases result.success) [
    | inl sent ↦ rw sent (changed withdrawn_row (λ e. refl) (from_synced _ (withdrawn refl)))
    | inr unsent ↦
        rw unsent (elim (Bool-cases (leb env.worker_max_retries (row.cancel_attempts + 1))) [
          | inl last ↦
              let step : Step env.worker_max_retries (stage_of row)
                  (stage_of (not_withdrawn_row env result row)) =
                rw last (
                  from_synced _ (
                    stuck refl (leb-true env.worker_max_retries (row.cancel_attempts + 1) last))) in
              rw last (changed (not_withdrawn_row env result) (λ e. refl) step)
          | inr more ↦
              let step : Step env.worker_max_retries (stage_of row)
                  (stage_of (not_withdrawn_row env result row)) =
                rw more (
                  from_synced _ (
                    subst
                      (λ (t : CalendarSyncStatus).
                        Step env.worker_max_retries
                          (stage CalendarSyncStatus.synced row.attempts row.cancel_attempts)
                          (stage t row.attempts (row.cancel_attempts + 1)))
                      (sym synced)
                      (not_withdrawn refl
                        (leb-false env.worker_max_retries (row.cancel_attempts + 1) more)))) in
              rw more (changed (not_withdrawn_row env result) (λ e. refl) step)
        ])
  ]
    where
      from_synced :
          (t : Stage)
          → Step env.worker_max_retries
              (stage CalendarSyncStatus.synced row.attempts row.cancel_attempts)
              t
          → Step env.worker_max_retries (stage_of row) t
      from_synced t step =
          subst
            (λ (st : CalendarSyncStatus).
              Step env.worker_max_retries (stage st row.attempts row.cancel_attempts) t)
            (sym synced) step

  Q-cancel_at_provider :
      (status : CalendarSyncStatus)
      → row.status ≡ status
      → is_closed_event status ≡ false
      → Q (cancel_at_provider env provider row s)
  unfolding cancel_at_provider ◌>>=◌
  Q-cancel_at_provider CalendarSyncStatus.pending standing h =
      let open_yet : is_unsynced row.status ≡ true = rw standing in
      rw open_yet (changed cancelled_row (λ e. refl) (dropped open_yet))
  Q-cancel_at_provider CalendarSyncStatus.failed standing h =
      let open_yet : is_unsynced row.status ≡ true = rw standing in
      rw open_yet (changed cancelled_row (λ e. refl) (dropped open_yet))
  Q-cancel_at_provider CalendarSyncStatus.synced standing h =
      let shut : is_unsynced row.status ≡ false = rw standing in
      rw shut (Q-record_cancel _ standing)
  Q-cancel_at_provider CalendarSyncStatus.cancelled standing h = cc
  Q-cancel_at_provider CalendarSyncStatus.cancel_failed standing h = cc

  Q-cancel_event : is_closed_event row.status ≡ false → Q (cancel_event env provider row s)
  unfolding cancel_event
  Q-cancel_event open_yet =
      after_read Q _ _ s (λ booking _. same_tenant (booking.tenant_id == row.tenant_id))
        (λ e. unchanged)
    where
      same_tenant : (t : Bool) → Q ((if t then cancel_at_provider env provider row else pure tt) s)
      same_tenant true = Q-cancel_at_provider row.status refl open_yet
      same_tenant false = unfold ◌>>=◌ in unchanged

  pub Q-cancel_found : Q (cancel_found env provider (some row) s)
  unfolding ◌>>=◌
  Q-cancel_found = elim (Bool-cases (is_closed_event row.status)) [
    | inl closed ↦ rw closed unchanged
    | inr open_yet ↦ rw open_yet (Q-cancel_event open_yet)
  ]
