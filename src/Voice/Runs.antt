-- ===== src/Voice/Runs.antt =====
-- Any number of calls, presses and sweeps, one after the other, each in a session of its own.
use appointment_voice_saas.Common.{
  ℕ, ◌<◌, ◌==◌, ◌≡◌, refl, ◌⊎◌, inl, inr, String, none, Bool, true, false, List, [], ◌∷◌, ltb,
  if◌then◌else◌, Bool-cases, Option-cases, find_by, update_where, length, All, All-find_by, arith,
  sym,
}
use mathlib.Core.Path.{subst}
use appointment_voice_saas.Tables.{Db, VoiceSession}
use appointment_voice_saas.Session.{Session, ◌>>=◌, pure, commit}
use appointment_voice_saas.Session.Keeps.{
  Keeps, keeps_rules, Keeps-bind, Keeps-modify, Keeps-commit, Keeps-pure, Keeps-read, Keeps-query,
}
use appointment_voice_saas.Env.{Env}
use appointment_voice_saas.Voice.Steps.{is_terminal}
use appointment_voice_saas.Voice.Calls.{
  start_session, handle_keypress, expire_stale_sessions, is_session, is_stale_call, expire_call,
}
use appointment_voice_saas.Voice.Moves.{
  Press, times_out, silent, silent_too_long, heard, invalid, invalid_too_often, walks, books_late,
  Pressed, put_row,
}
use appointment_voice_saas.Voice.Moves.Followed.{handle_keypress-Pressed}

pub data Event : Type 0 where
  rings : ℕ → ℕ → String → Event
  presses : ℕ → ℕ → String → Event
  sweeps : Event

abbrev pub happen : Env → Event → Session → Session
happen env (rings business_id tenant_id caller_phone) s =
    (start_session env business_id tenant_id caller_phone (record s { db = s.committed })).1
happen env (presses session_id tenant_id key) s =
    (handle_keypress env session_id tenant_id key (record s { db = s.committed })).1
happen env sweeps s = (expire_stale_sessions env (record s { db = s.committed })).1

-- Each event at its own time, under its own settings.
abbrev pub history : List (Env × Event) → Session → Session
history [] s = s
history ((env, event) ∷ later) s = history later (happen env event s)

-- A call that is not over has been silent fewer than three times in a row, and has had fewer than
-- five invalid keys.
abbrev pub WithinLimits : VoiceSession → Type 0
WithinLimits v = (is_terminal v.step ≡ true) ⊎ ((v.no_input_count < 3) × (v.invalid_key_count < 5))

Press-WithinLimits :
    (now : ℕ) (v w : VoiceSession)
    → is_terminal v.step ≡ false
    → Press now v w
    → WithinLimits v
    → WithinLimits w
Press-WithinLimits now v w live press (inl over) = absurd (both over)
  where
    both : is_terminal v.step ≡ true → ⊥
    both over = cc
Press-WithinLimits now v w live (times_out _ e _ _) (inr h) = inl (rw e refl)
Press-WithinLimits now v w live (silent _ _ e few f) (inr h) = inr (few, omega arith)
Press-WithinLimits now v w live (silent_too_long _ e _ _ _) (inr h) = inl (rw e refl)
Press-WithinLimits now v w live (heard _ _ e f) (inr h) = inr (omega arith, omega arith)
Press-WithinLimits now v w live (invalid _ _ e _ few) (inr h) = inr (omega arith, few)
Press-WithinLimits now v w live (invalid_too_often _ e _ _ _) (inr h) = inl (rw e refl)
Press-WithinLimits now v w live (books_late _ _ e _ _) (inr h) = inl (rw e refl)
Press-WithinLimits now v w live (walks _ _ e f) (inr h) = inr (omega arith, omega arith)

All-put_row :
    (w : VoiceSession) (rows : List VoiceSession)
    → WithinLimits w
    → All WithinLimits rows
    → All WithinLimits (put_row w rows)
All-put_row w [] h all = tt
All-put_row w (c ∷ rows) h all = elim (Bool-cases (c.id == w.id)) [
  | inl hit ↦ rw hit (h, All-put_row w rows h all.1)
  | inr miss ↦ rw miss (all.0, All-put_row w rows h all.1)
]

All-Pressed :
    (now : ℕ) (v : VoiceSession) (rows after : List VoiceSession)
    → WithinLimits v
    → All WithinLimits rows
    → Pressed now v rows after
    → All WithinLimits after
All-Pressed now v rows after h all (inl same) = subst (All WithinLimits) (sym same) all
All-Pressed now v rows after h all (inr (w, changed, c)) =
    subst (All WithinLimits) (sym changed)
      (All-put_row w rows (Press-WithinLimits now v w c.was_live c.by_press h) all)

All-expire_calls :
    (env : Env) (rows : List VoiceSession)
    → All WithinLimits rows
    → All WithinLimits (update_where (is_stale_call env) expire_call rows)
All-expire_calls env [] all = tt
All-expire_calls env (c ∷ rows) all = elim (Bool-cases (is_stale_call env c)) [
  | inl stale ↦ rw stale (inl refl, All-expire_calls env rows all.1)
  | inr other ↦ rw other (all.0, All-expire_calls env rows all.1)
]

abbrev CallsWithinLimits : Db → Type 0
CallsWithinLimits db = All WithinLimits db.voice_sessions

Keeps-start_session :
    (env : Env) (b t : ℕ) (phone : String) → Keeps CallsWithinLimits (start_session env b t phone)
unfolding start_session
Keeps-start_session env b t phone = Keeps-bind _ _ (Keeps-read _) λ business.
    Keeps-bind _ _ (search keeps_rules) λ id.
      Keeps-bind _ _ (Keeps-modify _ λ db h. (inr (omega arith, omega arith), h))
        λ _. search keeps_rules

Keeps-sweep : (env : Env) → Keeps CallsWithinLimits (expire_stale_sessions env)
unfolding expire_stale_sessions
Keeps-sweep env = Keeps-bind _ _ (Keeps-query _) λ rows.
    Keeps-bind _ _ (Keeps-modify _ λ db. All-expire_calls env db.voice_sessions)
      λ _. Keeps-bind _ _ (if_any (ltb 0 (length rows))) λ _. Keeps-pure _
  where
    if_any : (any : Bool) → Keeps CallsWithinLimits (if any then commit else pure tt)
    if_any true = Keeps-commit
    if_any false = Keeps-pure tt

unknown_call :
    (env : Env) (i t : ℕ) (key : String) (s : Session)
    → find_by (is_session i t) s.db.voice_sessions ≡ none
    → (handle_keypress env i t key s).1 ≡ s
unfolding handle_keypress ◌>>=◌
unknown_call env i t key s unknown = rw unknown

happen-WithinLimits :
    (env : Env) (event : Event) (s : Session)
    → CallsWithinLimits s.committed
    → CallsWithinLimits (happen env event s).committed
happen-WithinLimits env (rings b t phone) s h =
    ((Keeps-start_session env b t phone).at (record s { db = s.committed }) (h, h)).1
happen-WithinLimits env sweeps s h = ((Keeps-sweep env).at (record s { db = s.committed }) (h, h)).1
happen-WithinLimits env (presses i t key) s h =
    elim (Option-cases (find_by (is_session i t) s.committed.voice_sessions)) [
      | inl unknown ↦ rw (unknown_call env i t key (record s { db = s.committed }) unknown) h
      | inr (v, known) ↦
          All-Pressed env.now v s.committed.voice_sessions _
            (All-find_by WithinLimits (is_session i t) s.committed.voice_sessions v h known) h
            (handle_keypress-Pressed env i t key (record s { db = s.committed }) v refl known).1
    ]

-- Whatever calls come in, keys are pressed and sweeps are made, in whatever order and whether they
-- return or raise: from calls within the limits on, every call that is not over has been silent
-- fewer than three times in a row and has had fewer than five invalid keys.
pub history-WithinLimits :
    (events : List (Env × Event)) (s : Session)
    → All WithinLimits s.committed.voice_sessions
    → All WithinLimits (history events s).committed.voice_sessions
history-WithinLimits [] s h = h
history-WithinLimits ((env, event) ∷ later) s h =
    history-WithinLimits later (happen env event s) (happen-WithinLimits env event s h)
