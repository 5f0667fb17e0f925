-- ===== src/Voice/Endings.antt =====
-- The last words of a call, and a press after its end: app/services/ivr_service.py.
use appointment_voice_saas.Common.{
  if◌then◌else◌, ℕ, ◌≡◌, refl, ◌∙◌, inl, inr, String, Option, none, some, true, [], leb, Bool-cases,
  find_by,
}
use appointment_voice_saas.Tables.{Db, VoiceSession, IvrStep}
use appointment_voice_saas.Errors.{Result, ok, err}
use appointment_voice_saas.Session.{Session, Action, pure, read, query, ◌>>=◌, continue}
use appointment_voice_saas.Env.{Env}
use appointment_voice_saas.Voice.Prompts.{PromptKey, english, resolve_prompt}
use appointment_voice_saas.Voice.Prompts.Fields.{fields_of, resolve_prompt_returns}
use appointment_voice_saas.Voice.Responses.{session_locale, ending, goodbye, goodbye_with}
use appointment_voice_saas.Voice.Steps.{is_terminal, reprompt_at}
use appointment_voice_saas.Voice.Calls.{handle_session, handle_expired, handle_keypress, is_session}

-- An action that only reads.
pub record Quiet {A : Type 0} (m : Action A) : Type 0 where
  pub unmoved : (s : Session) → (m s).1 ≡ s

module _ {A : Type 0} where
  pub Quiet-pure : (a : A) → Quiet (pure a)
  unfolding ◌>>=◌
  Quiet-pure a = record { unmoved = λ s. refl }

  pub Quiet-read : (f : Db → Result A) → Quiet (read f)
  unfolding ◌>>=◌
  Quiet-read f = record { unmoved = λ s. refl }

  pub Quiet-query : (f : Db → A) → Quiet (query f)
  unfolding ◌>>=◌
  Quiet-query f = record { unmoved = λ s. refl }

module _ {A B : Type 0} where
  Quiet-continue :
      (r : Result A) (f : A → Action B) → ((a : A) → Quiet (f a)) → Quiet (continue r f)
  Quiet-continue (ok a) f rest = rest a
  Quiet-continue (err e) f rest = record { unmoved = λ s. refl }

  pub Quiet-bind :
      (m : Action A) (f : A → Action B) → Quiet m → ((a : A) → Quiet (f a)) → Quiet (m >>= f)
  unfolding ◌>>=◌
  Quiet-bind m f first rest = record {
    unmoved =
        λ s. let (r, after) = m s in (Quiet-continue r f rest).unmoved after ∙ first.unmoved s;
  }

ruleset quiet_rules = (Quiet-pure, Quiet-read, Quiet-query, Quiet-bind)

pub Quiet-reprompt_at :
    (step : IvrStep) (env : Env) (u : VoiceSession) → Quiet (reprompt_at step env u)
Quiet-reprompt_at IvrStep.incoming env u = search quiet_rules
Quiet-reprompt_at IvrStep.service_selection env u = search quiet_rules
Quiet-reprompt_at IvrStep.staff_selection env u = search quiet_rules
Quiet-reprompt_at IvrStep.slot_selection env u = search quiet_rules
Quiet-reprompt_at IvrStep.booking_confirmed env u = search quiet_rules
Quiet-reprompt_at IvrStep.no_slots env u = search quiet_rules
Quiet-reprompt_at IvrStep.expired env u = search quiet_rules
Quiet-reprompt_at IvrStep.abandoned env u = search quiet_rules
Quiet-reprompt_at IvrStep.transfer_unavailable env u = search quiet_rules
Quiet-reprompt_at IvrStep.external_link_sent env u = search quiet_rules
Quiet-reprompt_at IvrStep.manage_booking env u = search quiet_rules
Quiet-reprompt_at IvrStep.reschedule_slot_selection env u = search quiet_rules
Quiet-reprompt_at IvrStep.booking_cancelled env u = search quiet_rules

-- A prompt without fields.
goodbye_returns :
    (key : PromptKey) (locale : String) (session_id : Option ℕ)
    → fields_of none (english key) ≡ some []
    → (prompt : String) × (resolve_prompt key locale [] ≡ ok prompt)
      × (goodbye key locale session_id ≡ ok (ending prompt session_id))
unfolding goodbye_with
goodbye_returns key locale session_id plain =
    let (prompt, e) = resolve_prompt_returns key locale [] [] plain refl in (prompt, e, rw e)

-- A press in a call that is over: the answer ends the call, with the prompt of the call's locale
-- that its time has expired, if it has, and that it is complete, if not; and nothing changes, in the
-- open transaction or in what is committed.
pub handle_keypress_over :
    (env : Env) (i t : ℕ) (key : String) (s : Session) (v : VoiceSession)
    → find_by (is_session i t) s.db.voice_sessions ≡ some v
    → is_terminal v.step ≡ true
    → let says =
        if leb v.expires_at env.now
        then PromptKey.session_expired
        else PromptKey.session_already_complete in
      (prompt : String) × (resolve_prompt says (session_locale v) [] ≡ ok prompt)
      × (handle_keypress env i t key s ≡ (ok (ending prompt none), s))
unfolding handle_keypress handle_session handle_expired ◌>>=◌ fields_of english
handle_keypress_over env i t key s v known over = elim (Bool-cases (leb v.expires_at env.now)) [
  | inl late ↦
      let (prompt, e, said) =
        goodbye_returns PromptKey.session_expired (session_locale v) none refl in
      rw late (prompt, e, rw (known, late, over, said))
  | inr early ↦
      let (prompt, e, said) =
        goodbye_returns PromptKey.session_already_complete (session_locale v) none refl in
      rw early (prompt, e, rw (known, early, over, said))
]
