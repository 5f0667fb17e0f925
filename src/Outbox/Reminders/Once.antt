-- ===== src/Outbox/Reminders/Once.antt =====
-- The number of reminders of a booking in the outbox.
use mathlib.Core.Path.{subst}
use appointment_voice_saas.Common.{
  ℕ, ◌+◌, ◌≤◌, String, some, List, [], ◌∷◌, Bool, true, false, ◌≡◌, refl, any_of, if◌then◌else◌,
  ◌==◌, Bool-cases, inl, inr, ◌⊎◌, ==_iff, arith, ltb,
}
use appointment_voice_saas.Tables.{Db, Booking, NotificationOutbox, NotificationPurpose, minutes}
use appointment_voice_saas.Errors.{Result}
use appointment_voice_saas.Session.{Session, pure, query, commit, ◌>>=◌}
use appointment_voice_saas.Session.Keeps.{Keeps, keeps_rules, Keeps-bind, Keeps-query, Keeps-pure}
use appointment_voice_saas.Session.Raises.{after_read}
use appointment_voice_saas.Env.{Env}
use appointment_voice_saas.Outbox.{insert_intent, enqueue_send_notification_job}
use appointment_voice_saas.Outbox.Reminders.{
  is_reminder_of, write_reminder, remind, remind_each, enqueue_due_reminders,
}

abbrev pub reminders : ℕ → List NotificationOutbox → ℕ
reminders booking_id [] = 0
reminders booking_id (n ∷ rest) =
    (if is_reminder_of booking_id n then 1 else 0) + reminders booking_id rest

reminders_none :
    (i : ℕ) (ns : List NotificationOutbox)
    → any_of (is_reminder_of i) ns ≡ false
    → reminders i ns ≡ 0
reminders_none i [] h = refl
reminders_none i (n ∷ ns) h = ground (arith, reminders_none i ns)

-- No booking of this id has two reminders.
abbrev pub AtMostOne : ℕ → Db → Type 0
AtMostOne i db = reminders i db.outbox ≤ 1

module _ (env : Env) (i : ℕ) where
  abbrev Kept : {A : Type 0} → Result A × Session → Type 0
  Kept p = AtMostOne i p.1.db × AtMostOne i p.1.committed

  another :
      (b : Booking) (ns : List NotificationOutbox)
      → reminders i ns ≤ 1
      → any_of (is_reminder_of b.id) ns ≡ false
      → (if b.id == i then 1 else 0) + reminders i ns ≤ 1
  another b ns few fresh = elim (Bool-cases (b.id == i)) [
    | inl same ↦
        let absent : any_of (is_reminder_of i) ns ≡ false =
          subst (λ (k : ℕ). any_of (is_reminder_of k) ns ≡ false) ((==_iff b.id i).0 same) fresh in
        rw same (omega (arith, reminders_none i ns absent))
    | inr other ↦ rw other (omega (arith, few))
  ]

  Kept-insert :
      (b : Booking) (s : Session) (tenant business : ℕ) (phone body : String)
      → any_of (is_reminder_of b.id) s.db.outbox ≡ false
      → AtMostOne i s.db
      → AtMostOne i s.committed
      → Kept (
          (insert_intent env tenant business
                (some b.id)
                NotificationPurpose.booking_reminder
                phone
                body
              >>= λ intent. enqueue_send_notification_job intent.id >>= λ _. pure true)
            s)
  unfolding insert_intent enqueue_send_notification_job ◌>>=◌
  Kept-insert b s tenant business phone body fresh here there = by_answer s.answers
    where
      by_answer :
          (answers : List Bool)
          → Kept (
              (insert_intent env tenant business
                    (some b.id)
                    NotificationPurpose.booking_reminder
                    phone
                    body
                  >>= λ intent. enqueue_send_notification_job intent.id >>= λ _. pure true)
                (record s { answers = answers }))
      by_answer [] = (another b s.db.outbox here fresh, there)
      by_answer (true ∷ later) = (another b s.db.outbox here fresh, there)
      by_answer (false ∷ later) = (another b s.db.outbox here fresh, there)

  Kept-write_reminder :
      (b : Booking) (s : Session)
      → any_of (is_reminder_of b.id) s.db.outbox ≡ false
      → AtMostOne i s.db
      → AtMostOne i s.committed
      → Kept (write_reminder env b s)
  unfolding write_reminder
  Kept-write_reminder b s fresh here there =
      after_read Kept _ _ s
        (λ business _.
          after_read Kept _ _ s
            (λ customer _.
              after_read Kept _ _ s (λ service _. Kept-insert b s _ _ _ _ fresh here there)
                (λ e. (here, there)))
            (λ e. (here, there)))
        (λ e. (here, there))

  Keeps-remind : (b : Booking) → Keeps (AtMostOne i) (remind env b)
  unfolding remind ◌>>=◌
  Keeps-remind b = record {
    at = λ s h.
        pick s (ltb b.starts_at (b.created_at + minutes env.reminder_min_advance_minutes))
          (Bool-cases (any_of (is_reminder_of b.id) s.db.outbox)) h;
  }
    where
      pick :
          (s : Session) (late : Bool)
          → (any_of (is_reminder_of b.id) s.db.outbox ≡ true)
            ⊎ (any_of (is_reminder_of b.id) s.db.outbox ≡ false)
          → AtMostOne i s.db × AtMostOne i s.committed
          → Kept (
              (if late
                  then pure false
                  else (query (λ db. any_of (is_reminder_of b.id) db.outbox) >>= λ already_queued.
                      if already_queued then pure false else write_reminder env b))
                s)
      pick s true queued h = h
      pick s false (inl queued) h = rw queued h
      pick s false (inr fresh) h = rw fresh (Kept-write_reminder b s fresh h.0 h.1)

  Keeps-remind_each : (bs : List Booking) (n : ℕ) → Keeps (AtMostOne i) (remind_each env bs n)
  unfolding remind_each
  Keeps-remind_each [] n = search keeps_rules
  Keeps-remind_each (b ∷ bs) n =
      Keeps-bind _ _ (Keeps-remind b)
        λ reminded. Keeps-remind_each bs (if reminded then n + 1 else n)

  commit_some : (t : Bool) → Keeps (AtMostOne i) (if t then commit else pure tt)
  commit_some true = search keeps_rules
  commit_some false = search keeps_rules

-- A sweep for reminders never gives a booking a second one, in the open transaction or in what is
-- committed, whether it returns or raises, and however often it is run.
pub enqueue_due_reminders-AtMostOne :
    (env : Env) (booking_id : ℕ) (s : Session)
    → AtMostOne booking_id s.db
    → AtMostOne booking_id s.committed
    → AtMostOne booking_id (enqueue_due_reminders env s).1.db
      × AtMostOne booking_id (enqueue_due_reminders env s).1.committed
unfolding enqueue_due_reminders
enqueue_due_reminders-AtMostOne env booking_id s h k = keeps.at s (h, k)
  where
    keeps : Keeps (AtMostOne booking_id) (enqueue_due_reminders env)
    keeps = Keeps-bind _ _ (Keeps-query _) λ due.
        Keeps-bind _ _ (Keeps-remind_each env booking_id due 0)
          λ n. Keeps-bind _ _ (commit_some env booking_id (ltb 0 n)) λ _. Keeps-pure n
