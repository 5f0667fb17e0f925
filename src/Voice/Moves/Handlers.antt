-- ===== src/Voice/Moves/Handlers.antt =====
-- What the handlers of the menus share, against the moves of a call.
use appointment_voice_saas.Common.{
  ◌+◌, ◌≤◌, ◌<◌, ◌≡◌, refl, inl, inr, false, List, leb, Bool-cases, arith,
}
use appointment_voice_saas.Tables.{Db, Booking, VoiceSession, IvrStep}
use appointment_voice_saas.Errors.{Result}
use appointment_voice_saas.Session.Keeps.{
  Keeps, keeps_rules, Keeps-pure, Keeps-read, Keeps-bind, Keeps-modify, Keeps-commit,
}
use appointment_voice_saas.Env.{Env}
use appointment_voice_saas.Booking.Invariance.{StableBeside, OfBookings}
use appointment_voice_saas.Voice.Responses.{IvrResponse}
use appointment_voice_saas.Voice.Steps.{
  save, answer, is_terminal, invalid_key_max, goes_to, ends_in, one_more_invalid,
  handle_invalid_key, reprompt_at,
}
use appointment_voice_saas.Voice.Moves.{
  Edge, Heard, heard, invalid, invalid_too_often, walks, Changed, Pressed, Pressed-put_row, Count,
  Counted, Counted-put_row,
}

pub Keeps-answer : {P : Db → Type 0} {A : Type 0} (r : Result A) → Keeps P (answer r)
Keeps-answer r = Keeps-read _

module _ (env : Env) (v : VoiceSession) (rows : List VoiceSession) where
  abbrev pub Q : List VoiceSession → List Booking → Type 0
  Q calls bookings = Pressed env.now v rows calls × Counted v calls

  abbrev pub P : Db → Type 0
  P = OfBookings Q

  pub Q-StableBeside : StableBeside env Q
  Q-StableBeside = record {
    beside = λ calls. record {
      inserted = λ b bs apart fresh h. h;
      cancelled = λ i reason bs h. h;
      confirmed = λ i t b bs e waits h. h;
    };
  }

  pub Keeps-save :
      (w : VoiceSession) → Changed env.now v w → Count v w.no_input_count → Keeps P (save w)
  Keeps-save w c count = Keeps-modify _ λ db h. (
    Pressed-put_row env.now v w rows db.voice_sessions c h.0,
    Counted-put_row v w db.voice_sessions c.same_call count,
  )

  module _ (in_time : env.now < v.expires_at) (live : is_terminal v.step ≡ false) where
    -- The changes that a key which was heard can bring.
    pub Keeps-Heard : (u : VoiceSession) → Heard v u → Keeps P (save u)
    Keeps-Heard u h =
        Keeps-save u
          (record { was_live = live; same_call = h.0; by_press = heard in_time h.1 h.2 h.3 })
          (inl h.2)

    pub Keeps-goes_to :
        (step : IvrStep) (u : VoiceSession)
        → Heard v u
        → Edge v.step step
        → Keeps P (goes_to step u)
    unfolding goes_to
    Keeps-goes_to step u h e =
        Keeps-bind _ _
          (Keeps-save _
            (record { was_live = live; same_call = h.0; by_press = walks in_time e h.2 h.3 })
            (inl h.2))
          (λ _. Keeps-commit)

    pub Keeps-ends_in :
        (step : IvrStep) (u : VoiceSession) (made : Result IvrResponse)
        → Heard v u
        → Edge v.step step
        → Keeps P (ends_in step u made)
    unfolding ends_in
    Keeps-ends_in step u made h e = search (keeps_rules, Keeps-goes_to)

    wrong_key :
        (u : VoiceSession)
        → Heard v u
        → u.invalid_key_count + 1 < invalid_key_max
        → Changed env.now v (one_more_invalid u)
    wrong_key u h few = record {
      was_live = live;
      same_call = h.0;
      by_press = invalid in_time h.1 h.2 (omega (arith, h.3)) few;
    }

    last_wrong_key :
        (u : VoiceSession)
        → Heard v u
        → invalid_key_max ≤ u.invalid_key_count + 1
        → Changed env.now v (record (one_more_invalid u) { step = IvrStep.expired })
    last_wrong_key u h many = record {
      was_live = live;
      same_call = h.0;
      by_press = invalid_too_often in_time refl h.2 (omega (arith, h.3)) many;
    }

    pub Keeps-handle_invalid_key :
        (u : VoiceSession) (made : Result IvrResponse)
        → Heard v u
        → Keeps P (handle_invalid_key u made)
    unfolding handle_invalid_key ends_in goes_to
    Keeps-handle_invalid_key u made h = Keeps-bind _ _ (Keeps-answer made) λ reprompt.
        elim (Bool-cases (leb invalid_key_max (u.invalid_key_count + 1))) [
          | inl many ↦
              let last : invalid_key_max ≤ u.invalid_key_count + 1 = ground arith in
              rw many (
                Keeps-bind _ _
                  (Keeps-bind _ _ (Keeps-save _ (last_wrong_key u h last) (inl h.2))
                    (λ _. Keeps-commit))
                  (λ _. Keeps-answer _))
          | inr few ↦
              let more : u.invalid_key_count + 1 < invalid_key_max = ground arith in
              rw few (
                Keeps-bind _ _ (Keeps-save _ (wrong_key u h more) (inl h.2))
                  (λ _. Keeps-bind _ _ Keeps-commit (λ _. Keeps-pure _)))
        ]

-- Prompts that are repeated change nothing.
pub Keeps-reprompt_at :
    {P : Db → Type 0} (env : Env) (step : IvrStep) (u : VoiceSession)
    → Keeps P (reprompt_at step env u)
Keeps-reprompt_at env IvrStep.incoming u = search keeps_rules
Keeps-reprompt_at env IvrStep.service_selection u = search keeps_rules
Keeps-reprompt_at env IvrStep.staff_selection u = search keeps_rules
Keeps-reprompt_at env IvrStep.slot_selection u = search keeps_rules
Keeps-reprompt_at env IvrStep.booking_confirmed u = search keeps_rules
Keeps-reprompt_at env IvrStep.no_slots u = search keeps_rules
Keeps-reprompt_at env IvrStep.expired u = search keeps_rules
Keeps-reprompt_at env IvrStep.abandoned u = search keeps_rules
Keeps-reprompt_at env IvrStep.transfer_unavailable u = search keeps_rules
Keeps-reprompt_at env IvrStep.external_link_sent u = search keeps_rules
Keeps-reprompt_at env IvrStep.manage_booking u = search keeps_rules
Keeps-reprompt_at env IvrStep.reschedule_slot_selection u = search keeps_rules
Keeps-reprompt_at env IvrStep.booking_cancelled u = search keeps_rules
