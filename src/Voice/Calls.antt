-- ===== src/Voice/Calls.antt =====
-- app/services/ivr_service.py: `start_session`, `handle_keypress` and `expire_stale_sessions`.
use appointment_voice_saas.Common.{
  ℕ, ◌+◌, ◌==◌, ltb, leb, String, none, ◌∷◌, Bool, not, ◌&&◌, same_text, length, filter_by, find_by,
  update_where, if◌then◌else◌,
}
use appointment_voice_saas.Tables.{Db, Business, IvrStep, VoiceSession, minutes}
use appointment_voice_saas.Errors.{Result, not_found, or_raise}
use appointment_voice_saas.Session.{
  Action, pure, read, query, modify, fresh_id, commit, ◌>>=◌, ◌>>◌,
}
use appointment_voice_saas.Lookups.{require_business}
use appointment_voice_saas.Env.{Env}
use appointment_voice_saas.Voice.Prompts.{PromptKey}
use appointment_voice_saas.Voice.Responses.{
  IvrResponse, session_locale, goodbye, main_menu_response,
}
use appointment_voice_saas.Voice.Queries.{lookup_returning_caller_name}
use appointment_voice_saas.Voice.Steps.{
  save, answer, goes_to, is_terminal, handle_no_input, reprompt_for_no_input,
}
use appointment_voice_saas.Voice.Menus.{
  handle_incoming, handle_transfer_unavailable, handle_service_selection, handle_staff_selection,
}
use appointment_voice_saas.Voice.Choices.{
  handle_slot_selection, handle_reschedule_slot_selection, handle_manage_booking,
}

abbrev pub add_session : VoiceSession → Db → Db
add_session row db = record db { voice_sessions = row ∷ db.voice_sessions }

abbrev pub new_session : Env → Business → ℕ → ℕ → String → ℕ → VoiceSession
new_session env business business_id tenant_id caller_phone id = record {
  id = id;
  tenant_id = tenant_id;
  business_id = business_id;
  caller_phone = caller_phone;
  step = IvrStep.incoming;
  locale = business.language;
  selected_service_id = none;
  selected_staff_id = none;
  selected_slot_start = none;
  selected_slot_end = none;
  booking_id = none;
  managed_booking_id = none;
  slot_candidates = none;
  no_input_count = 0;
  invalid_key_count = 0;
  transfer_destination = none;
  expires_at = env.now + minutes env.ivr_session_ttl_minutes;
}

unfoldable pub start_session : Env → ℕ → ℕ → String → Action (VoiceSession × IvrResponse)
start_session env business_id tenant_id caller_phone = do
  business ← read (λ db. require_business db business_id tenant_id)
  id ← fresh_id
  let session : VoiceSession = new_session env business business_id tenant_id caller_phone id
  modify (add_session session)
  commit
  greeting_name ←
      query (λ db. lookup_returning_caller_name env db business_id tenant_id caller_phone)
  response ←
      answer
        (main_menu_response session.id business.booking_mode greeting_name (session_locale session))
  pure (session, response)

abbrev pub is_session : ℕ → ℕ → VoiceSession → Bool
is_session session_id tenant_id c = c.id == session_id && c.tenant_id == tenant_id

abbrev pub is_repeat : String → Bool
is_repeat key = same_text key "*"

-- The last line stands for the final return: no step that is not terminal is left for it.
abbrev pub handle_step : IvrStep → Env → VoiceSession → String → Action IvrResponse
handle_step IvrStep.incoming env session key = handle_incoming env session key
handle_step IvrStep.service_selection env session key = handle_service_selection env session key
handle_step IvrStep.staff_selection env session key = handle_staff_selection env session key
handle_step IvrStep.slot_selection env session key = handle_slot_selection env session key
handle_step IvrStep.transfer_unavailable env session key = handle_transfer_unavailable session key
handle_step IvrStep.manage_booking env session key = handle_manage_booking env session key
handle_step IvrStep.reschedule_slot_selection env session key =
    handle_reschedule_slot_selection env session key
handle_step step env session key =
    answer (goodbye PromptKey.unexpected_state (session_locale session) none)

abbrev pub engaged : VoiceSession → VoiceSession
engaged session = record session { no_input_count = 0 }

-- if session.no_input_count: session.no_input_count = 0
abbrev pub reset_no_input : VoiceSession → Action (Unit {0})
reset_no_input session = if session.no_input_count == 0 then pure tt else save (engaged session)

unfoldable pub handle_key : Env → VoiceSession → String → Action IvrResponse
unfolding handle_incoming handle_service_selection handle_staff_selection handle_slot_selection
    handle_transfer_unavailable handle_manage_booking handle_reschedule_slot_selection
    reprompt_for_no_input
handle_key env session key = do
  reset_no_input session
  if is_repeat key
      then commit >> reprompt_for_no_input env (engaged session)
      else handle_step session.step env (engaged session) key

unfoldable pub handle_expired : VoiceSession → Action IvrResponse
unfolding goes_to
handle_expired session = do
  if is_terminal session.step then pure tt else goes_to IvrStep.expired session
  answer (goodbye PromptKey.session_expired (session_locale session) none)

unfoldable pub handle_session : Env → VoiceSession → String → Action IvrResponse
unfolding handle_expired handle_no_input handle_key
handle_session env session key =
    if leb session.expires_at env.now
    then handle_expired session
    else if is_terminal session.step
    then answer (goodbye PromptKey.session_already_complete (session_locale session) none)
    else if same_text key ""
    then handle_no_input env session
    else handle_key env session key

abbrev pub lookup_session : ℕ → ℕ → Db → Result VoiceSession
lookup_session session_id tenant_id db =
    or_raise (find_by (is_session session_id tenant_id) db.voice_sessions)
      (not_found "Voice session not found")

unfoldable pub handle_keypress : Env → ℕ → ℕ → String → Action IvrResponse
unfolding handle_session
handle_keypress env session_id tenant_id key = do
  session ← read (lookup_session session_id tenant_id)
  handle_session env session key

abbrev pub is_stale_call : Env → VoiceSession → Bool
is_stale_call env c = leb c.expires_at env.now && not (is_terminal c.step)

abbrev pub expire_call : VoiceSession → VoiceSession
expire_call c = record c { step = IvrStep.expired }

abbrev pub expire_calls : Env → Db → Db
expire_calls env db = record db {
  voice_sessions = update_where (is_stale_call env) expire_call db.voice_sessions;
}

unfoldable pub expire_stale_sessions : Env → Action ℕ
expire_stale_sessions env = do
  rows ← query (λ db. filter_by (is_stale_call env) db.voice_sessions)
  modify (expire_calls env)
  if ltb 0 (length rows) then commit else pure tt
  pure (length rows)
