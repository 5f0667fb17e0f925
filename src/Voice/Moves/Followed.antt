-- ===== src/Voice/Moves/Followed.antt =====
-- A press of a key, on any call: `handle_keypress`.
use appointment_voice_saas.Common.{
  ℕ, ◌+◌, ◌≤◌, ◌<◌, ◌==◌, ◌≡◌, refl, inl, inr, String, some, Bool, true, false, List, leb,
  if◌then◌else◌, Bool-cases, find_by, find_by_holds, sym, ◌∙◌, same_text, arith,
}
use appointment_voice_saas.Tables.{Db, VoiceSession, IvrStep}
use appointment_voice_saas.Session.{Session, pure, commit, ◌>>=◌, ◌>>◌}
use appointment_voice_saas.Session.Keeps.{
  Keeps, keeps_rules, Keeps-bind, Keeps-pure, Keeps-commit, Keeps-modify,
}
use appointment_voice_saas.Env.{Env}
use appointment_voice_saas.Voice.Steps.{
  save, is_terminal, no_input_max, one_more_silent, goes_to, ends_in, handle_no_input,
  reprompt_for_no_input,
}
use appointment_voice_saas.Voice.Calls.{
  handle_step, engaged, is_repeat, handle_key, handle_expired, handle_session, is_session,
  handle_keypress,
}
use appointment_voice_saas.Voice.Moves.{
  SameCall, Heard, times_out, silent, silent_too_long, Changed, Pressed, Pressed-put_row, Counted,
}
use appointment_voice_saas.Voice.Moves.Handlers.{P, Keeps-answer, Keeps-Heard, Keeps-reprompt_at}
use appointment_voice_saas.Voice.Moves.Menus.{
  Keeps-handle_incoming, Keeps-handle_transfer_unavailable,
}
use appointment_voice_saas.Voice.Moves.Selections.{
  Keeps-handle_service_selection, Keeps-handle_staff_selection,
}
use appointment_voice_saas.Voice.Moves.Choices.{
  Keeps-handle_slot_selection, Keeps-handle_reschedule_slot_selection, Keeps-handle_manage_booking,
}

module _ (env : Env) (v : VoiceSession) (rows : List VoiceSession) where
  Keeps-reprompt : {P : Db → Type 0} (u : VoiceSession) → Keeps P (reprompt_for_no_input env u)
  unfolding reprompt_for_no_input
  Keeps-reprompt u = Keeps-reprompt_at env u.step u

  -- Silence and the end of the time leave other counts than a key does.
  abbrev S : Db → Type 0
  S db = Pressed env.now v rows db.voice_sessions

  Keeps-Changed : (w : VoiceSession) → Changed env.now v w → Keeps S (save w)
  Keeps-Changed w c = Keeps-modify _ λ db. Pressed-put_row env.now v w rows db.voice_sessions c

  abbrev same_self : SameCall v v
  same_self = (refl, refl, refl, refl, refl, refl)

  Keeps-handle_expired : v.expires_at ≤ env.now → Keeps S (handle_expired v)
  unfolding handle_expired goes_to
  Keeps-handle_expired over = Keeps-bind _ _ (by_step (is_terminal v.step) refl) λ _. Keeps-answer _
    where
      by_step :
          (terminal : Bool)
          → is_terminal v.step ≡ terminal
          → Keeps S (if terminal then pure tt else goes_to IvrStep.expired v)
      by_step true h = Keeps-pure tt
      by_step false h =
          Keeps-bind _ _
            (Keeps-Changed _ (record {
              was_live = h;
              same_call = same_self;
              by_press = times_out over refl refl refl;
            }))
            (λ _. Keeps-commit)

  module _ (in_time : env.now < v.expires_at) (live : is_terminal v.step ≡ false) where
    silence : v.no_input_count + 1 < no_input_max → Changed env.now v (one_more_silent v)
    silence few = record {
      was_live = live;
      same_call = same_self;
      by_press = silent in_time refl refl few refl;
    }

    last_silence :
        no_input_max ≤ v.no_input_count + 1
        → Changed env.now v (record (one_more_silent v) { step = IvrStep.expired })
    last_silence many = record {
      was_live = live;
      same_call = same_self;
      by_press = silent_too_long in_time refl refl many refl;
    }

    Keeps-handle_no_input : Keeps S (handle_no_input env v)
    unfolding handle_no_input ends_in goes_to
    Keeps-handle_no_input = elim (Bool-cases (leb no_input_max (v.no_input_count + 1))) [
      | inl many ↦
          let last : no_input_max ≤ v.no_input_count + 1 = ground arith in
          rw many (
            Keeps-bind _ _
              (Keeps-bind _ _ (Keeps-Changed _ (last_silence last)) (λ _. Keeps-commit))
              (λ _. Keeps-answer _))
      | inr few ↦
          let more : v.no_input_count + 1 < no_input_max = ground arith in
          rw few (
            Keeps-bind _ _ (Keeps-Changed _ (silence more))
              λ _. search (keeps_rules, Keeps-reprompt))
    ]

    Heard-engaged : Heard v (engaged v)
    Heard-engaged = (same_self, refl, refl, refl)

    Keeps-reset : (zero : Bool) → Keeps (P env v rows) (if zero then pure tt else save (engaged v))
    Keeps-reset true = Keeps-pure tt
    Keeps-reset false = Keeps-Heard env v rows in_time live (engaged v) Heard-engaged

    Keeps-handle_step :
        (step : IvrStep) (key : String)
        → v.step ≡ step
        → Keeps (P env v rows) (handle_step step env (engaged v) key)
    Keeps-handle_step IvrStep.incoming key e =
        Keeps-handle_incoming env v rows in_time live _ key Heard-engaged e
    Keeps-handle_step IvrStep.service_selection key e =
        Keeps-handle_service_selection env v rows in_time live _ key Heard-engaged e
    Keeps-handle_step IvrStep.staff_selection key e =
        Keeps-handle_staff_selection env v rows in_time live _ key Heard-engaged e
    Keeps-handle_step IvrStep.slot_selection key e =
        Keeps-handle_slot_selection env v rows in_time live _ key Heard-engaged e
    Keeps-handle_step IvrStep.transfer_unavailable key e =
        Keeps-handle_transfer_unavailable env v rows in_time live _ key Heard-engaged e
    Keeps-handle_step IvrStep.manage_booking key e =
        Keeps-handle_manage_booking env v rows in_time live _ key Heard-engaged e
    Keeps-handle_step IvrStep.reschedule_slot_selection key e =
        Keeps-handle_reschedule_slot_selection env v rows in_time live _ key Heard-engaged e
    Keeps-handle_step IvrStep.booking_confirmed key e = Keeps-answer _
    Keeps-handle_step IvrStep.no_slots key e = Keeps-answer _
    Keeps-handle_step IvrStep.expired key e = Keeps-answer _
    Keeps-handle_step IvrStep.abandoned key e = Keeps-answer _
    Keeps-handle_step IvrStep.external_link_sent key e = Keeps-answer _
    Keeps-handle_step IvrStep.booking_cancelled key e = Keeps-answer _

    Keeps-handle_key : (key : String) → Keeps (P env v rows) (handle_key env v key)
    unfolding handle_key
    Keeps-handle_key key =
        Keeps-bind _ _ (Keeps-reset (v.no_input_count == 0)) λ _. by_key (is_repeat key)
      where
        by_key :
            (repeat : Bool)
            → Keeps (P env v rows) (
                if repeat
                then commit >> reprompt_for_no_input env (engaged v)
                else handle_step v.step env (engaged v) key)
        by_key true = Keeps-bind _ _ Keeps-commit λ _. Keeps-reprompt _
        by_key false = Keeps-handle_step v.step key refl

  -- A key finds the table with such a count, and any press leaves it after a move.
  Pressed-handle_session :
      (key : String) (s : Session)
      → P env v rows s.db × P env v rows s.committed
      → S (handle_session env v key s).1.db × S (handle_session env v key s).1.committed
  unfolding handle_session
  Pressed-handle_session key s h = elim (Bool-cases (leb v.expires_at env.now)) [
    | inl late ↦
        let over : v.expires_at ≤ env.now = ground arith in
        rw late ((Keeps-handle_expired over).at s (h.0.0, h.1.0))
    | inr early ↦
        let in_time : env.now < v.expires_at = ground arith in
        rw early (elim (Bool-cases (is_terminal v.step)) [
          | inl done ↦ rw done ((Keeps-answer {P = S} _).at s (h.0.0, h.1.0))
          | inr live ↦ rw live (by_key in_time live (same_text key ""))
        ])
  ]
    where
      by_key :
          env.now < v.expires_at
          → is_terminal v.step ≡ false
          → (quiet : Bool)
          → let after = (if quiet then handle_no_input env v else handle_key env v key) s in
            S after.1.db × S after.1.committed
      by_key in_time live true = (Keeps-handle_no_input in_time live).at s (h.0.0, h.1.0)
      by_key in_time live false =
          let kept = (Keeps-handle_key in_time live key).at s h in (kept.0.0, kept.1.0)

-- Before the press, the call is found with its own count.
Counted-found :
    (i t : ℕ) (v : VoiceSession) (rows : List VoiceSession)
    → find_by (is_session i t) rows ≡ some v
    → Counted v rows
Counted-found i t v rows known c found =
    let keys : is_session i t v ≡ true = find_by_holds (is_session i t) rows v known in
    let same_id : v.id ≡ i = ground arith in
    let same_tenant : v.tenant_id ≡ t = ground arith in
    let again : find_by (is_session i t) rows ≡ some c = rw (same_id, same_tenant) at found in
    inr (same_count (sym known ∙ again))
  where
    same_count : some v ≡ some c → c.no_input_count ≡ v.no_input_count
    same_count e = cc

-- A press of a key for the call `v`, in a session without open changes, leaves the table of calls as
-- it is, or makes exactly one of the moves of `Press` in the row of this call and touches no other
-- row; so in the open transaction and in what is committed, whether it returns or raises.
pub handle_keypress-Pressed :
    (env : Env) (session_id tenant_id : ℕ) (key : String) (s : Session) (v : VoiceSession)
    → s.db ≡ s.committed
    → find_by (is_session session_id tenant_id) s.committed.voice_sessions ≡ some v
    → let after = (handle_keypress env session_id tenant_id key s).1 in
      Pressed env.now v s.committed.voice_sessions after.db.voice_sessions
      × Pressed env.now v s.committed.voice_sessions after.committed.voice_sessions
unfolding handle_keypress ◌>>=◌
handle_keypress-Pressed env session_id tenant_id key s v clean known =
    rw (clean, known)
      (let counted = Counted-found session_id tenant_id v s.committed.voice_sessions known in
        Pressed-handle_session env v s.committed.voice_sessions key (record s { db = s.committed })
          ((inl refl, counted), (inl refl, counted)))
