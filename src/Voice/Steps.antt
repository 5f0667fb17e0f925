-- ===== src/Voice/Steps.antt =====
-- app/services/ivr_service.py: what the handlers of the menus share, and the prompts that are
-- repeated.
use Prim.Native.String.{◌++◌}
use appointment_voice_saas.Common.{
  ℕ, zero, suc, ◌+◌, ◌==◌, leb, String, Option, none, some, List, [], ◌∷◌, Bool, true, false,
  update_where, if◌then◌else◌,
}
use appointment_voice_saas.Tables.{Db, Business, Service, Staff, Booking, IvrStep, VoiceSession}
use appointment_voice_saas.Errors.{Result, ok, err, not_found}
use appointment_voice_saas.Errors as Errors
use appointment_voice_saas.Session.{Action, pure, read, query, modify, commit, ◌>>=◌, ◌>>◌}
use appointment_voice_saas.Lookups.{require_business, require_service_in_business, list_services}
use appointment_voice_saas.Env.{Env}
use appointment_voice_saas.PublicLinks.{ℤ, pos, negsuc, int_of}
use appointment_voice_saas.Booking.Reads.{require_booking_in_business}
use appointment_voice_saas.Voice.Prompts.{PromptKey, resolve_prompt}
use appointment_voice_saas.Voice.Responses.{
  IvrResponse, session_locale, goodbye, menu, menu_of, one_option, main_menu_response,
  service_options, slot_options, staff_selection_response, manage_menu,
}
use appointment_voice_saas.Voice.Queries.{schedulable_staff, reorder_preferred_staff, by_id}

abbrev pub put_session : VoiceSession → Db → Db
put_session session db = record db {
  voice_sessions =
      update_where (λ (c : VoiceSession). c.id == session.id) (λ _. session) db.voice_sessions;
}

-- The attributes of the row, as they now stand.
abbrev pub save : VoiceSession → Action (Unit {0})
save session = modify (put_session session)

-- A result that does not depend on the database.
abbrev pub answer : {A : Type 0} → Result A → Action A
answer r = read (λ _. r)

abbrev pub no_input_max : ℕ
no_input_max = 3

abbrev pub invalid_key_max : ℕ
invalid_key_max = 5

abbrev pub is_terminal : IvrStep → Bool
is_terminal IvrStep.booking_confirmed = true
is_terminal IvrStep.no_slots = true
is_terminal IvrStep.expired = true
is_terminal IvrStep.abandoned = true
is_terminal IvrStep.external_link_sent = true
is_terminal IvrStep.booking_cancelled = true
is_terminal step = false

-- session.step = ...; db.commit()
unfoldable pub goes_to : IvrStep → VoiceSession → Action (Unit {0})
goes_to step session = do save (record session { step = step }); commit

-- The step in which a call ends, and its last words.
unfoldable pub ends_in : IvrStep → VoiceSession → Result IvrResponse → Action IvrResponse
unfolding goes_to
ends_in step session response = do goes_to step session; answer response

abbrev pub one_more_invalid : VoiceSession → VoiceSession
one_more_invalid session = record session { invalid_key_count = session.invalid_key_count + 1 }

-- The prompt that is repeated has been made, or has raised, before the key is counted.
unfoldable pub handle_invalid_key : VoiceSession → Result IvrResponse → Action IvrResponse
unfolding ends_in
handle_invalid_key session made = do
  reprompt ← answer made
  if leb invalid_key_max (session.invalid_key_count + 1)
      then ends_in IvrStep.expired (one_more_invalid session)
          (goodbye PromptKey.too_many_invalid_keys (session_locale session) none)
      else do save (one_more_invalid session); commit; pure reprompt

abbrev pub element {ℓ} : {A : Type ℓ} → List A → ℕ → Option A
element [] i = none
element (x ∷ xs) zero = some x
element (x ∷ xs) (suc i) = element xs i

abbrev pub numbered_by {ℓ} : {A : Type ℓ} → Option ℤ → List A → Option A
numbered_by none xs = none
numbered_by (some (pos zero)) xs = none
numbered_by (some (pos (suc i))) xs = element xs i
numbered_by (some (negsuc n)) xs = none

-- idx = int(key) - 1, in the range of the list; `none` stands for the ValueError.
unfoldable pub chosen {ℓ} : {A : Type ℓ} → Env → String → List A → Option A
chosen env key xs = numbered_by (int_of env key) xs

abbrev pub candidates_of : Option (List (ℕ × ℕ)) → List (ℕ × ℕ)
candidates_of none = []
candidates_of (some candidates) = candidates

-- The slots that were found, once more.
abbrev pub reprompt_slots : PromptKey → Env → VoiceSession → List (ℕ × ℕ) → Result IvrResponse
reprompt_slots key env session [] =
    goodbye PromptKey.no_slots (session_locale session) (some session.id)
reprompt_slots key env session (c ∷ candidates) =
    menu_of key (session_locale session) (slot_options env (c ∷ candidates)) [] session.id

abbrev pub staff_menu : Env → VoiceSession → String → List Staff × Option ℕ → Result IvrResponse
staff_menu env session service_name (members, preferred_staff_id) =
    staff_selection_response session.id members service_name preferred_staff_id
      (session_locale session)

abbrev pub main_menu : VoiceSession → Business → Result IvrResponse
main_menu session business =
    main_menu_response session.id business.booking_mode none (session_locale session)

-- `_manage_booking_response`
unfoldable pub manage_booking_response : Env → Db → VoiceSession → Booking → Result IvrResponse
manage_booking_response env db session booking =
    Errors.◌>>=◌
      (require_service_in_business db booking.service_id session.business_id session.tenant_id)
      λ service. manage_menu env session booking service

abbrev pub selected_service : Db → VoiceSession → Result Service
selected_service db session =
    by_id session.selected_service_id "Service not found" (λ service_id.
      require_service_in_business db service_id session.business_id session.tenant_id)

abbrev pub managed_booking : Db → VoiceSession → Result Booking
managed_booking db session =
    by_id session.managed_booking_id "Booking not found" (λ booking_id.
      require_booking_in_business db booking_id session.business_id session.tenant_id)

abbrev pub press_1_menu : VoiceSession → Result IvrResponse
press_1_menu session =
    one_option PromptKey.press_1_main_menu PromptKey.label_main_menu (session_locale session)
      session.id

abbrev pub please_select : VoiceSession → Result IvrResponse
please_select session =
    Errors.◌>>=◌ (resolve_prompt PromptKey.please_make_a_selection (session_locale session) [])
      λ prompt. ok (menu prompt [] session.id)

abbrev pub reprompt_at : IvrStep → Env → VoiceSession → Action IvrResponse
reprompt_at IvrStep.incoming env session = do
  business ← read (λ db. require_business db session.business_id session.tenant_id)
  answer (main_menu session business)
reprompt_at IvrStep.service_selection env session = do
  services ← query (λ db. list_services db session.business_id session.tenant_id false 0 100)
  answer (
      menu_of PromptKey.select_service (session_locale session) (service_options services) []
        session.id)
reprompt_at IvrStep.staff_selection env session = do
  service ← read (λ db. selected_service db session)
  staff_members ← query (λ db.
      reorder_preferred_staff env db session
        (schedulable_staff db session.business_id session.tenant_id))
  answer (staff_menu env session service.name staff_members)
reprompt_at IvrStep.slot_selection env session =
    answer
      (reprompt_slots PromptKey.select_slot env session (candidates_of session.slot_candidates))
reprompt_at IvrStep.transfer_unavailable env session = answer (press_1_menu session)
reprompt_at IvrStep.manage_booking env session = do
  booking ← read (λ db. managed_booking db session)
  read (λ db. manage_booking_response env db session booking)
reprompt_at IvrStep.reschedule_slot_selection env session =
    answer
      (reprompt_slots PromptKey.select_new_time env session (candidates_of session.slot_candidates))
reprompt_at step env session = answer (please_select session)

unfoldable pub reprompt_for_no_input : Env → VoiceSession → Action IvrResponse
reprompt_for_no_input env session = reprompt_at session.step env session

abbrev pub one_more_silent : VoiceSession → VoiceSession
one_more_silent session = record session { no_input_count = session.no_input_count + 1 }

unfoldable pub handle_no_input : Env → VoiceSession → Action IvrResponse
unfolding reprompt_for_no_input ends_in
handle_no_input env session =
    if leb no_input_max (session.no_input_count + 1)
    then ends_in IvrStep.expired (one_more_silent session)
        (goodbye PromptKey.too_many_no_input (session_locale session) none)
    else do
      save (one_more_silent session)
      commit
      reprompt ← reprompt_for_no_input env (one_more_silent session)
      prefix ← answer (resolve_prompt PromptKey.no_input_prefix (session_locale session) [])
      pure (record reprompt { prompt = prefix ++ reprompt.prompt })
