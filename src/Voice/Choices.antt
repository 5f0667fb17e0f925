-- ===== src/Voice/Choices.antt =====
-- app/services/ivr_service.py: the handlers that book, cancel and move a booking.
use Prim.Native.String.{◌++◌}
use appointment_voice_saas.Common.{
  ℕ, ◌==◌, ◌&&◌, find_by, String, Option, none, some, List, [], ◌∷◌, false, same_text,
  if◌then◌else◌,
}
use appointment_voice_saas.Common.Decimal.{decimal}
use appointment_voice_saas.Tables.{Db, Booking, IvrStep, VoiceSession}
use appointment_voice_saas.Errors.{ok, not_found}
use appointment_voice_saas.Session.{Action, raise, read, ◌>>=◌, ◌>>◌}
use appointment_voice_saas.Env.{Env}
use appointment_voice_saas.Customers.{get_or_create_customer}
use appointment_voice_saas.Booking.Create.{BookingRequest, create_booking}
use appointment_voice_saas.Booking.Cancel.{cancel_booking}
use appointment_voice_saas.Booking.Reschedule.{reschedule_booking}
use appointment_voice_saas.Voice.Prompts.{PromptKey}
use appointment_voice_saas.Voice.Responses.{
  IvrResponse, session_locale, goodbye, goodbye_with, menu_of, slot_options, format_slot,
}
use appointment_voice_saas.Voice.Queries.{find_slots}
use appointment_voice_saas.Voice.Steps.{
  answer, goes_to, ends_in, handle_invalid_key, chosen, manage_booking_response, managed_booking,
}
use appointment_voice_saas.Voice.Menus.{back_to_menu}

-- A key that names no slot.
abbrev pub invalid_slot : PromptKey → Env → VoiceSession → List (ℕ × ℕ) → Action IvrResponse
invalid_slot key env session candidates =
    handle_invalid_key session
      (menu_of key (session_locale session) (slot_options env candidates) [] session.id)

-- The booking that a caller's choice has led to.
abbrev pub booked : VoiceSession → Booking → ℕ → ℕ → VoiceSession
booked session booking starts_at ends_at = record session {
  booking_id = some booking.id;
  selected_slot_start = some starts_at;
  selected_slot_end = some ends_at;
}

-- The last words of a call that has booked.
abbrev pub says_when : PromptKey → Env → VoiceSession → ℕ → ℕ → Action IvrResponse
says_when key env session starts_at ends_at = answer (
    goodbye_with key (session_locale session) (("when", format_slot env starts_at ends_at) ∷ [])
      (some session.id))

abbrev pub ivr_request : VoiceSession → ℕ → ℕ → ℕ → BookingRequest
ivr_request session customer_id service_id starts_at = record {
  tenant_id = session.tenant_id;
  business_id = session.business_id;
  customer_id = customer_id;
  service_id = service_id;
  staff_id = session.selected_staff_id;
  starts_at = starts_at;
  source = "ivr";
}

-- create_booking(..., service_id=session.selected_service_id). The customer is of this business, so
-- that a NULL service is the first thing that is not found.
abbrev pub book : Env → VoiceSession → ℕ → Option ℕ → ℕ → Action Booking
book env session customer_id none starts_at = raise (not_found "Service not found")
book env session customer_id (some service_id) starts_at =
    create_booking env (ivr_request session customer_id service_id starts_at) none false none

abbrev pub with_count_of : VoiceSession → Option VoiceSession → VoiceSession
with_count_of session none = session
with_count_of session (some row) = record session { no_input_count = row.no_input_count }

-- The attributes after `get_or_create_customer`. A lost race to add the customer rolls the session
-- back, so that the row is loaded again; the reset of its counter of silences is all that was not
-- committed by then.
abbrev pub reloaded : VoiceSession → Db → VoiceSession
reloaded session db = with_count_of session (
    find_by (λ (c : VoiceSession). c.id == session.id && c.tenant_id == session.tenant_id)
      db.voice_sessions)

unfoldable pub book_slot : Env → VoiceSession → ℕ × ℕ → Action IvrResponse
unfolding goes_to
book_slot env session (starts_at, ends_at) = do
  customer ←
      get_or_create_customer env session.tenant_id session.business_id session.caller_phone none
  current ← read (λ db. ok (reloaded session db))
  booking ← book env session customer.id session.selected_service_id starts_at
  goes_to IvrStep.booking_confirmed (booked current booking starts_at ends_at)
  says_when PromptKey.booking_confirmed env session starts_at ends_at

abbrev pub choose_slot : Env → VoiceSession → List (ℕ × ℕ) → Option (ℕ × ℕ) → Action IvrResponse
choose_slot env session candidates none =
    invalid_slot PromptKey.invalid_select_slot env session candidates
choose_slot env session candidates (some slot) = book_slot env session slot

abbrev pub select_slot : Env → VoiceSession → String → Option (List (ℕ × ℕ)) → Action IvrResponse
select_slot env session key none =
    ends_in IvrStep.no_slots session (goodbye PromptKey.no_slots (session_locale session) none)
select_slot env session key (some candidates) =
    choose_slot env session candidates (chosen env key candidates)

unfoldable pub handle_slot_selection : Env → VoiceSession → String → Action IvrResponse
unfolding book_slot ends_in handle_invalid_key
handle_slot_selection env session key = select_slot env session key session.slot_candidates

-- f"rescheduled_from_booking_{id}"
abbrev pub lineage : ℕ → String
lineage booking_id = "rescheduled_from_booking_" ++ decimal booking_id

abbrev pub reschedule_managed : Env → VoiceSession → Option ℕ → ℕ → Action Booking
reschedule_managed env session none starts_at = raise (not_found "Booking not found")
reschedule_managed env session (some booking_id) starts_at =
    reschedule_booking env lineage booking_id session.business_id session.tenant_id starts_at
      (some "customer_rescheduled_via_ivr") none "ivr"

unfoldable pub move_to_slot : Env → VoiceSession → ℕ × ℕ → Action IvrResponse
unfolding goes_to
move_to_slot env session (starts_at, ends_at) = do
  new_booking ← reschedule_managed env session session.managed_booking_id starts_at
  goes_to IvrStep.booking_confirmed (booked session new_booking starts_at ends_at)
  says_when PromptKey.booking_rescheduled env session starts_at ends_at

abbrev pub choose_new_slot : Env → VoiceSession → List (ℕ × ℕ) → Option (ℕ × ℕ) → Action IvrResponse
choose_new_slot env session candidates none =
    invalid_slot PromptKey.invalid_select_new_time env session candidates
choose_new_slot env session candidates (some slot) = move_to_slot env session slot

abbrev pub select_new_slot :
    Env → VoiceSession → String → Option (List (ℕ × ℕ)) → Action IvrResponse
select_new_slot env session key none =
    ends_in IvrStep.no_slots session (goodbye PromptKey.no_slots (session_locale session) none)
select_new_slot env session key (some candidates) =
    choose_new_slot env session candidates (chosen env key candidates)

unfoldable pub handle_reschedule_slot_selection : Env → VoiceSession → String → Action IvrResponse
unfolding move_to_slot ends_in handle_invalid_key
handle_reschedule_slot_selection env session key =
    select_new_slot env session key session.slot_candidates

unfoldable pub cancel_managed : Env → VoiceSession → Booking → Action IvrResponse
unfolding ends_in
cancel_managed env session booking = do
  cancel_booking env booking.id session.business_id session.tenant_id (some "customer_ivr_cancel")
      none false
  ends_in IvrStep.booking_cancelled session
      (goodbye PromptKey.booking_cancelled (session_locale session) (some session.id))

abbrev pub offer_new_slots : Env → VoiceSession → List (ℕ × ℕ) → Action IvrResponse
offer_new_slots env session [] =
    ends_in IvrStep.no_slots session
      (goodbye PromptKey.no_slots_to_reschedule (session_locale session) none)
offer_new_slots env session (slot ∷ slots) = do
  goes_to IvrStep.reschedule_slot_selection
      (record session { slot_candidates = some (slot ∷ slots) })
  answer (
      menu_of PromptKey.select_new_time (session_locale session) (slot_options env (slot ∷ slots))
        [] session.id)

unfoldable pub start_reschedule : Env → VoiceSession → Booking → Action IvrResponse
unfolding ends_in goes_to
start_reschedule env session booking = do
  slots ← read (λ db. find_slots env db session booking.service_id none)
  offer_new_slots env session slots

-- A key that manages nothing: the menu of the booking is made first.
abbrev pub invalid_in_manage : Env → VoiceSession → Booking → Action IvrResponse
invalid_in_manage env session booking = do
  reprompt ← read (λ db. manage_booking_response env db session booking)
  handle_invalid_key session (ok reprompt)

abbrev pub manage_by_key : Env → VoiceSession → String → Booking → Action IvrResponse
manage_by_key env session key booking =
    if same_text key "1"
    then cancel_managed env session booking
    else if same_text key "2"
    then start_reschedule env session booking
    else if same_text key "3"
    then back_to_menu session
    else invalid_in_manage env session booking

unfoldable pub handle_manage_booking : Env → VoiceSession → String → Action IvrResponse
unfolding cancel_managed start_reschedule back_to_menu handle_invalid_key
handle_manage_booking env session key = do
  booking ← read (λ db. managed_booking db session)
  manage_by_key env session key booking
