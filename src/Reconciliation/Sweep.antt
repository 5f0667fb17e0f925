-- ===== src/Reconciliation/Sweep.antt =====
-- A sweep of app/services/reconciliation_service.py without its loop: what it queues, and the rows
-- that it leaves.
use mathlib.Core.Path.{subst}
use mathlib.Core.List.{append_assoc, append-nil}
use appointment_voice_saas.Common.{
  some, Bool, true, false, ℕ, Option, List, [], ◌∷◌, ◌++◌, map, ◌≡◌, refl, ◌∙◌, ap, ◌==◌, any_of,
  filter_by, length, update_where, if◌then◌else◌, Bool-cases, inl, inr,
}
use appointment_voice_saas.Tables.{Db, NotificationOutbox, CalendarEvent}
use appointment_voice_saas.Errors.{Result, ok, err, redis_error}
use appointment_voice_saas.Session.{Session, send_notification, sync_calendar_event, pure, ◌>>=◌}
use appointment_voice_saas.Session.Answers.{takes, beyond}
use appointment_voice_saas.Env.{Env}
use appointment_voice_saas.Outbox.{enqueue_send_notification_job}
use appointment_voice_saas.Outbox.Delivery.{update_notification}
use appointment_voice_saas.Calendar.{enqueue_sync_calendar_event_job}
use appointment_voice_saas.Calendar.Workers.{update_event}
use appointment_voice_saas.Reconciliation.{
  current_time, is_stale_notification, is_stale_event, reconciled_notification, reconciled_event,
  requeue_notifications, requeue_events, commit_if_any, reconcile_stale_notifications,
  reconcile_stale_calendar_events,
}

module _ {A : Type 0} (id_of : A → ℕ) (mark : A → A) where
  -- Every row whose id is one of these is marked.
  abbrev pub mark_those : List ℕ → List A → List A
  mark_those ids rows = map (λ (a : A). if any_of (λ i. id_of a == i) ids then mark a else a) rows

  module _ (keeps : (a : A) → id_of (mark a) ≡ id_of a)
      (settles : (a : A) → mark (mark a) ≡ mark a) where
    mark_row :
        (i : ℕ) (ids : List ℕ) (a : A)
        → mark_those ids ((if id_of a == i then mark a else a) ∷ []) ≡ mark_those (i ∷ ids) (a ∷ [])
    mark_row i ids a = elim (Bool-cases (id_of a == i)) [
      | inl same ↦
          rw (same, keeps a)
            (elim (Bool-cases (any_of (λ j. id_of a == j) ids)) [
              | inl more ↦ rw (more, settles a)
              | inr only ↦ rw only
            ])
      | inr other ↦ rw (other)
    ]

    -- One row after another, and all at once.
    pub mark_those_cons :
        (i : ℕ) (ids : List ℕ) (rows : List A)
        → mark_those ids (update_where (λ a. id_of a == i) mark rows) ≡ mark_those (i ∷ ids) rows
    mark_those_cons i ids [] = refl
    mark_those_cons i ids (a ∷ rows) =
        ap (λ (row : List A). row ++ mark_those ids (update_where (λ a. id_of a == i) mark rows))
          (mark_row i ids a)
        ∙ ap (λ (rest : List A). mark_those (i ∷ ids) (a ∷ []) ++ rest) (mark_those_cons i ids rows)

  pub mark_those_none : (rows : List A) → mark_those [] rows ≡ rows
  mark_those_none [] = refl
  mark_those_none (a ∷ rows) = ap (λ (rest : List A). a ∷ rest) (mark_those_none rows)

abbrev pub mark_notifications : ℕ → List ℕ → Db → Db
mark_notifications now ids db = record db {
  outbox =
      mark_those (λ (n : NotificationOutbox). n.id)
        (λ (n : NotificationOutbox). record n { reconciled_at = some now }) ids db.outbox;
}

abbrev pub mark_events : ℕ → List ℕ → Db → Db
mark_events now ids db = record db {
  calendar_events =
      mark_those (λ (e : CalendarEvent). e.id)
        (λ (e : CalendarEvent). record e { reconciled_at = some now }) ids db.calendar_events;
}

-- After one of the rows.
abbrev notification_requeued : ℕ → NotificationOutbox → Session → Session
notification_requeued now intent s = record s {
  db = update_notification intent.id (reconciled_notification now) s.db;
  queued = s.queued ++ send_notification intent.id ∷ [];
}

requeue_notifications_one_more :
    (now : ℕ) (intent : NotificationOutbox) (ids : List ℕ) (answers : List Bool) (s : Session)
    → ◌≡◌ {A = Result (Unit {0}) × Session}
        (
          ok tt,
          record s {
            db =
                mark_notifications now ids
                  (update_notification intent.id (reconciled_notification now) s.db);
            queued = (s.queued ++ send_notification intent.id ∷ []) ++ map send_notification ids;
            answers = answers;
          },
        )
        (
          ok tt,
          record s {
            db = mark_notifications now (intent.id ∷ ids) s.db;
            queued = s.queued ++ map send_notification (intent.id ∷ ids);
            answers = answers;
          },
        )
requeue_notifications_one_more now intent ids answers s = rw (
  append_assoc s.queued (send_notification intent.id ∷ []) (map send_notification ids),
  mark_those_cons (λ (n : NotificationOutbox). n.id) (reconciled_notification now) (λ n. refl)
      (λ n. refl) intent.id ids s.db.outbox,
)

requeue_notifications_lem :
    (now : ℕ) (stale : List NotificationOutbox) (answers : List Bool) (s : Session)
    → takes stale answers ≡ true
    → let ids = map (λ (n : NotificationOutbox). n.id) stale in
      requeue_notifications now stale (record s { answers = answers }) ≡ (
        ok tt,
        record s {
          db = mark_notifications now ids s.db;
          queued = s.queued ++ map send_notification ids;
          answers = beyond stale answers;
        },
      )
unfolding requeue_notifications enqueue_send_notification_job ◌>>=◌
requeue_notifications_lem now [] [] s taken = rw (
  append-nil s.queued,
  mark_those_none (λ (n : NotificationOutbox). n.id) (reconciled_notification now) s.db.outbox,
)
requeue_notifications_lem now [] (answer ∷ later) s taken = rw (
  append-nil s.queued,
  mark_those_none (λ (n : NotificationOutbox). n.id) (reconciled_notification now) s.db.outbox,
)
requeue_notifications_lem now (intent ∷ rest) [] s taken =
    requeue_notifications_lem now rest [] (notification_requeued now intent s) refl
    ∙ requeue_notifications_one_more now intent _ _ s
requeue_notifications_lem now (intent ∷ rest) (true ∷ later) s taken =
    requeue_notifications_lem now rest later (notification_requeued now intent s) taken
    ∙ requeue_notifications_one_more now intent _ _ s
requeue_notifications_lem now (intent ∷ rest) (false ∷ later) s taken = cc

requeue_notifications_refused :
    (now : ℕ) (stale : List NotificationOutbox) (answers : List Bool) (s : Session)
    → takes stale answers ≡ false
    → let p = requeue_notifications now stale (record s { answers = answers }) in
      (p.0 ≡ err redis_error) × (p.1.committed ≡ s.committed)
unfolding requeue_notifications enqueue_send_notification_job ◌>>=◌
requeue_notifications_refused now [] [] s refused = cc
requeue_notifications_refused now [] (answer ∷ later) s refused = cc
requeue_notifications_refused now (intent ∷ rest) [] s refused = cc
requeue_notifications_refused now (intent ∷ rest) (true ∷ later) s refused =
    requeue_notifications_refused now rest later (notification_requeued now intent s) refused
requeue_notifications_refused now (intent ∷ rest) (false ∷ later) s refused = (refl, refl)

-- After one of the rows.
abbrev event_requeued : ℕ → CalendarEvent → Session → Session
event_requeued now event s = record s {
  db = update_event event.id (reconciled_event now) s.db;
  queued = s.queued ++ sync_calendar_event event.id ∷ [];
}

requeue_events_one_more :
    (now : ℕ) (event : CalendarEvent) (ids : List ℕ) (answers : List Bool) (s : Session)
    → ◌≡◌ {A = Result (Unit {0}) × Session}
        (
          ok tt,
          record s {
            db = mark_events now ids (update_event event.id (reconciled_event now) s.db);
            queued = (s.queued ++ sync_calendar_event event.id ∷ []) ++ map sync_calendar_event ids;
            answers = answers;
          },
        )
        (
          ok tt,
          record s {
            db = mark_events now (event.id ∷ ids) s.db;
            queued = s.queued ++ map sync_calendar_event (event.id ∷ ids);
            answers = answers;
          },
        )
requeue_events_one_more now event ids answers s = rw (
  append_assoc s.queued (sync_calendar_event event.id ∷ []) (map sync_calendar_event ids),
  mark_those_cons (λ (e : CalendarEvent). e.id) (reconciled_event now) (λ e. refl) (λ e. refl)
      event.id ids s.db.calendar_events,
)

requeue_events_lem :
    (now : ℕ) (stale : List CalendarEvent) (answers : List Bool) (s : Session)
    → takes stale answers ≡ true
    → let ids = map (λ (e : CalendarEvent). e.id) stale in
      requeue_events now stale (record s { answers = answers }) ≡ (
        ok tt,
        record s {
          db = mark_events now ids s.db;
          queued = s.queued ++ map sync_calendar_event ids;
          answers = beyond stale answers;
        },
      )
unfolding requeue_events enqueue_sync_calendar_event_job ◌>>=◌
requeue_events_lem now [] [] s taken = rw (
  append-nil s.queued,
  mark_those_none (λ (e : CalendarEvent). e.id) (reconciled_event now) s.db.calendar_events,
)
requeue_events_lem now [] (answer ∷ later) s taken = rw (
  append-nil s.queued,
  mark_those_none (λ (e : CalendarEvent). e.id) (reconciled_event now) s.db.calendar_events,
)
requeue_events_lem now (event ∷ rest) [] s taken =
    requeue_events_lem now rest [] (event_requeued now event s) refl
    ∙ requeue_events_one_more now event _ _ s
requeue_events_lem now (event ∷ rest) (true ∷ later) s taken =
    requeue_events_lem now rest later (event_requeued now event s) taken
    ∙ requeue_events_one_more now event _ _ s
requeue_events_lem now (event ∷ rest) (false ∷ later) s taken = cc

requeue_events_refused :
    (now : ℕ) (stale : List CalendarEvent) (answers : List Bool) (s : Session)
    → takes stale answers ≡ false
    → let p = requeue_events now stale (record s { answers = answers }) in
      (p.0 ≡ err redis_error) × (p.1.committed ≡ s.committed)
unfolding requeue_events enqueue_sync_calendar_event_job ◌>>=◌
requeue_events_refused now [] [] s refused = cc
requeue_events_refused now [] (answer ∷ later) s refused = cc
requeue_events_refused now (event ∷ rest) [] s refused = cc
requeue_events_refused now (event ∷ rest) (true ∷ later) s refused =
    requeue_events_refused now rest later (event_requeued now event s) refused
requeue_events_refused now (event ∷ rest) (false ∷ later) s refused = (refl, refl)

-- What a sweep leaves, by whether Redis takes all of its pushes.
abbrev pub Swept : Bool → Result ℕ × Session → Session → Result ℕ × Session → Type 0
Swept true done s p = p ≡ done
Swept false done s p = (p.0 ≡ err redis_error) × (p.1.committed ≡ s.committed)

-- The state that a sweep leaves, written without a loop.
abbrev pub notifications_swept : Env → ℕ → Session → Session
notifications_swept env now s =
    let stale = filter_by (is_stale_notification env now) s.db.outbox in
    let ids = map (λ (n : NotificationOutbox). n.id) stale in
    record s {
      db = mark_notifications now ids s.db;
      committed = mark_notifications now ids s.db;
      queued = s.queued ++ map send_notification ids;
      answers = beyond stale s.answers;
    }

abbrev pub events_swept : Env → ℕ → Session → Session
events_swept env now s =
    let stale = filter_by (is_stale_event env now) s.db.calendar_events in
    let ids = map (λ (e : CalendarEvent). e.id) stale in
    record s {
      db = mark_events now ids s.db;
      committed = mark_events now ids s.db;
      queued = s.queued ++ map sync_calendar_event ids;
      answers = beyond stale s.answers;
    }

notifications_ended :
    (now n : ℕ) (stale : List NotificationOutbox) (s : Session)
    → s.db ≡ s.committed
    → let ids = map (λ (x : NotificationOutbox). x.id) stale in
      Swept
        (takes stale s.answers)
        (
          ok n,
          record s {
            db = mark_notifications now ids s.db;
            committed = mark_notifications now ids s.db;
            queued = s.queued ++ map send_notification ids;
            answers = beyond stale s.answers;
          },
        )
        s
        ((requeue_notifications now stale >>= λ _. commit_if_any stale >>= λ _. pure n) s)
unfolding ◌>>=◌
notifications_ended now n stale s clean = by_answers stale (takes stale s.answers) refl
  where
    by_answers :
        (rows : List NotificationOutbox) (taken : Bool)
        → takes rows s.answers ≡ taken
        → let ids = map (λ (x : NotificationOutbox). x.id) rows in
          Swept taken
            (
              ok n,
              record s {
                db = mark_notifications now ids s.db;
                committed = mark_notifications now ids s.db;
                queued = s.queued ++ map send_notification ids;
                answers = beyond rows s.answers;
              },
            )
            s
            ((requeue_notifications now rows >>= λ _. commit_if_any rows >>= λ _. pure n) s)
    by_answers [] true e = rw (
      requeue_notifications_lem now [] s.answers s e,
      mark_those_none (λ (n : NotificationOutbox). n.id) (reconciled_notification now) s.db.outbox,
      clean,
    )
    by_answers (intent ∷ rest) true e =
        rw (requeue_notifications_lem now (intent ∷ rest) s.answers s e)
    by_answers rows false e =
        let (raised, kept) = requeue_notifications_refused now rows s.answers s e in
        rw raised (refl, kept)

events_ended :
    (now n : ℕ) (stale : List CalendarEvent) (s : Session)
    → s.db ≡ s.committed
    → let ids = map (λ (x : CalendarEvent). x.id) stale in
      Swept
        (takes stale s.answers)
        (
          ok n,
          record s {
            db = mark_events now ids s.db;
            committed = mark_events now ids s.db;
            queued = s.queued ++ map sync_calendar_event ids;
            answers = beyond stale s.answers;
          },
        )
        s
        ((requeue_events now stale >>= λ _. commit_if_any stale >>= λ _. pure n) s)
unfolding ◌>>=◌
events_ended now n stale s clean = by_answers stale (takes stale s.answers) refl
  where
    by_answers :
        (rows : List CalendarEvent) (taken : Bool)
        → takes rows s.answers ≡ taken
        → let ids = map (λ (x : CalendarEvent). x.id) rows in
          Swept taken
            (
              ok n,
              record s {
                db = mark_events now ids s.db;
                committed = mark_events now ids s.db;
                queued = s.queued ++ map sync_calendar_event ids;
                answers = beyond rows s.answers;
              },
            )
            s
            ((requeue_events now rows >>= λ _. commit_if_any rows >>= λ _. pure n) s)
    by_answers [] true e = rw (
      requeue_events_lem now [] s.answers s e,
      mark_those_none (λ (e : CalendarEvent). e.id) (reconciled_event now) s.db.calendar_events,
      clean,
    )
    by_answers (event ∷ rest) true e = rw (requeue_events_lem now (event ∷ rest) s.answers s e)
    by_answers rows false e =
        let (raised, kept) = requeue_events_refused now rows s.answers s e in rw raised (refl, kept)

-- In a session without open changes. Where Redis takes every push, both sweeps queue one job for each
-- stale row, in table order, return how many there are, and commit the table in which the stale rows,
-- and no others but those with the same id, carry the time of the sweep. Where it refuses one, they
-- raise its error and commit nothing.
pub sweeps_lem :
    (env : Env) (now : Option ℕ) (s : Session)
    → s.db ≡ s.committed
    → (let stale = filter_by (is_stale_notification env (current_time env now)) s.db.outbox in
        Swept
          (takes stale s.answers)
          (ok (length stale), notifications_swept env (current_time env now) s)
          s
          (reconcile_stale_notifications env now s))
      × (let stale = filter_by (is_stale_event env (current_time env now)) s.db.calendar_events in
          Swept
            (takes stale s.answers)
            (ok (length stale), events_swept env (current_time env now) s)
            s
            (reconcile_stale_calendar_events env now s))
unfolding reconcile_stale_notifications reconcile_stale_calendar_events ◌>>=◌
sweeps_lem env now s clean = (
  notifications_ended (current_time env now) _
      (filter_by (is_stale_notification env (current_time env now)) s.db.outbox) s clean,
  events_ended (current_time env now) _
      (filter_by (is_stale_event env (current_time env now)) s.db.calendar_events) s clean,
)

-- Redis takes them all.
pub Swept-up :
    {A : Type 0} (stale : List A) (done p : Result ℕ × Session) (s : Session)
    → s.answers ≡ []
    → Swept (takes stale s.answers) done s p
    → p ≡ done
Swept-up stale done p s up h =
    subst (λ (answers : List Bool). Swept (takes stale answers) done s p) up h
