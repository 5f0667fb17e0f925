-- ===== src/Calendar/Stages.antt =====
-- How a calendar event stands, without the table that it is kept in, and what a run of either
-- worker may make of it.
use appointment_voice_saas.Common.{ℕ, ◌+◌, ◌≤◌, ◌<◌, true, ◌≡◌, arith}
use appointment_voice_saas.Tables.{CalendarEvent, CalendarSyncStatus}
use appointment_voice_saas.Calendar.Workers.{is_unsynced}

-- The status, how often the provider was asked to create the event, and how often to cancel it.
pub data Stage : Type 0 where
  stage : CalendarSyncStatus → ℕ → ℕ → Stage

-- The moves of an event, where the provider is asked `max` times at most before a failure stands.
pub data Step (max : ℕ) : Stage → Stage → Type 0 where
  stays : {s : Stage} → Step max s s
  created :
      {status : CalendarSyncStatus} {a b c : ℕ}
      → is_unsynced status ≡ true
      → b ≡ a + 1
      → Step max (stage status a c) (stage CalendarSyncStatus.synced b c)
  not_created :
      {status : CalendarSyncStatus} {a b c : ℕ}
      → is_unsynced status ≡ true
      → b ≡ a + 1
      → b < max
      → Step max (stage status a c) (stage status b c)
  failed_for_now :
      {status : CalendarSyncStatus} {a b c : ℕ}
      → is_unsynced status ≡ true
      → b ≡ a + 1
      → max ≤ b
      → Step max (stage status a c) (stage CalendarSyncStatus.failed b c)
  dropped :
      {status : CalendarSyncStatus} {a c : ℕ}
      → is_unsynced status ≡ true
      → Step max (stage status a c) (stage CalendarSyncStatus.cancelled a c)
  withdrawn :
      {a c d : ℕ}
      → d ≡ c + 1
      → Step max (stage CalendarSyncStatus.synced a c) (stage CalendarSyncStatus.cancelled a d)
  not_withdrawn :
      {a c d : ℕ}
      → d ≡ c + 1
      → d < max
      → Step max (stage CalendarSyncStatus.synced a c) (stage CalendarSyncStatus.synced a d)
  stuck :
      {a c d : ℕ}
      → d ≡ c + 1
      → max ≤ d
      → Step max (stage CalendarSyncStatus.synced a c) (stage CalendarSyncStatus.cancel_failed a d)

pub data Reach (max : ℕ) (s : Stage) : Stage → Type 0 where
  here : Reach max s s
  next : {t u : Stage} → Reach max s t → Step max t u → Reach max s u

abbrev pub stage_of : CalendarEvent → Stage
stage_of e = stage e.status e.attempts e.cancel_attempts

-- What an event that was queued once can be. It was asked for before it counts as written, the
-- provider is asked to withdraw it `max` times at most, and only one that was asked for.
abbrev pub IsSound : ℕ → Stage → Type 0
IsSound max (stage CalendarSyncStatus.pending a c) = (c ≡ 0) × (a < max)
IsSound max (stage CalendarSyncStatus.failed a c) = (c ≡ 0) × (0 < a) × (max ≤ a)
IsSound max (stage CalendarSyncStatus.synced a c) = (0 < a) × (c < max)
IsSound max (stage CalendarSyncStatus.cancelled a c) = (c ≤ max) × (0 < c → 0 < a)
IsSound max (stage CalendarSyncStatus.cancel_failed a c) = (c ≡ max) × (0 < a)

module _ (max : ℕ) (some_tries : 0 < max) where
  IsSound-created :
      (status : CalendarSyncStatus) (a b c : ℕ)
      → is_unsynced status ≡ true
      → b ≡ a + 1
      → IsSound max (stage status a c)
      → IsSound max (stage CalendarSyncStatus.synced b c)
  IsSound-created CalendarSyncStatus.pending a b c h e sound = omega arith
  IsSound-created CalendarSyncStatus.failed a b c h e sound = omega arith
  IsSound-created CalendarSyncStatus.synced a b c h e sound = cc
  IsSound-created CalendarSyncStatus.cancelled a b c h e sound = cc
  IsSound-created CalendarSyncStatus.cancel_failed a b c h e sound = cc

  IsSound-not_created :
      (status : CalendarSyncStatus) (a b c : ℕ)
      → is_unsynced status ≡ true
      → b ≡ a + 1
      → b < max
      → IsSound max (stage status a c)
      → IsSound max (stage status b c)
  IsSound-not_created CalendarSyncStatus.pending a b c h e more sound = omega arith
  IsSound-not_created CalendarSyncStatus.failed a b c h e more sound = omega arith
  IsSound-not_created CalendarSyncStatus.synced a b c h e more sound = cc
  IsSound-not_created CalendarSyncStatus.cancelled a b c h e more sound = cc
  IsSound-not_created CalendarSyncStatus.cancel_failed a b c h e more sound = cc

  IsSound-failed_for_now :
      (status : CalendarSyncStatus) (a b c : ℕ)
      → is_unsynced status ≡ true
      → b ≡ a + 1
      → max ≤ b
      → IsSound max (stage status a c)
      → IsSound max (stage CalendarSyncStatus.failed b c)
  IsSound-failed_for_now CalendarSyncStatus.pending a b c h e last sound = omega arith
  IsSound-failed_for_now CalendarSyncStatus.failed a b c h e last sound = omega arith
  IsSound-failed_for_now CalendarSyncStatus.synced a b c h e last sound = cc
  IsSound-failed_for_now CalendarSyncStatus.cancelled a b c h e last sound = cc
  IsSound-failed_for_now CalendarSyncStatus.cancel_failed a b c h e last sound = cc

  IsSound-dropped :
      (status : CalendarSyncStatus) (a c : ℕ)
      → is_unsynced status ≡ true
      → IsSound max (stage status a c)
      → IsSound max (stage CalendarSyncStatus.cancelled a c)
  IsSound-dropped CalendarSyncStatus.pending a c h sound = omega arith
  IsSound-dropped CalendarSyncStatus.failed a c h sound = omega arith
  IsSound-dropped CalendarSyncStatus.synced a c h sound = cc
  IsSound-dropped CalendarSyncStatus.cancelled a c h sound = cc
  IsSound-dropped CalendarSyncStatus.cancel_failed a c h sound = cc

  IsSound-Step : (s t : Stage) → Step max s t → IsSound max s → IsSound max t
  IsSound-Step s t stays sound = sound
  IsSound-Step s t (created h e) sound = IsSound-created _ _ _ _ h e sound
  IsSound-Step s t (not_created h e more) sound = IsSound-not_created _ _ _ _ h e more sound
  IsSound-Step s t (failed_for_now h e last) sound = IsSound-failed_for_now _ _ _ _ h e last sound
  IsSound-Step s t (dropped h) sound = IsSound-dropped _ _ _ h sound
  IsSound-Step s t (withdrawn e) sound = omega arith
  IsSound-Step s t (not_withdrawn e more) sound = omega arith
  IsSound-Step s t (stuck e last) sound = omega arith

  pub IsSound-Reach : (s t : Stage) → Reach max s t → IsSound max s → IsSound max t
  IsSound-Reach s t here sound = sound
  IsSound-Reach s t (next path step) sound = IsSound-Step _ t step (IsSound-Reach s _ path sound)
