-- ===== src/Voice/Menus.antt =====
-- app/services/ivr_service.py: the handlers of the main menu, of the transfer to staff, of the
-- services and of the staff members, up to the search for slots.
use appointment_voice_saas.Common.{
  ℕ, String, Option, none, some, List, [], ◌∷◌, false, take, same_text, if◌then◌else◌,
}
use appointment_voice_saas.Tables.{
  Db, Business, Customer, Service, Staff, Booking, IvrStep, VoiceSession,
}
use appointment_voice_saas.Errors.{Result, ok, err}
use appointment_voice_saas.Errors as Errors
use appointment_voice_saas.Session.{Action, pure, read, query, ◌>>=◌, ◌>>◌}
use appointment_voice_saas.Lookups.{require_business, list_services}
use appointment_voice_saas.Env.{Env}
use appointment_voice_saas.Outbox.{enqueue_send_notification_job}
use appointment_voice_saas.Outbox.Reminders.{enqueue_external_booking_link_sms}
use appointment_voice_saas.Customers.{get_customer_by_phone}
use appointment_voice_saas.Booking.Lists.{get_next_confirmed_booking}
use appointment_voice_saas.Voice.Prompts.{PromptKey, resolve_prompt}
use appointment_voice_saas.Voice.Responses.{
  transfer, IvrResponse, is_external, session_locale, goodbye, goodbye_with, menu_of, one_option,
  service_options, slot_options,
}
use appointment_voice_saas.Voice.Queries.{
  schedulable_staff, reorder_preferred_staff, resolve_transfer_destination, find_slots,
}
use appointment_voice_saas.Voice.Steps.{
  save, answer, goes_to, ends_in, handle_invalid_key, chosen, main_menu, staff_menu,
  manage_booking_response, selected_service, press_1_menu,
}
use Prim.Native.String as Text

-- `business.external_booking_url or ""`
abbrev pub url_of : Option String → String
url_of none = ""
url_of (some url) = url

unfoldable pub handle_press1_external : Env → VoiceSession → Business → Action IvrResponse
unfolding goes_to
handle_press1_external env session business = do
  intent ←
      enqueue_external_booking_link_sms env business session.caller_phone
        (url_of business.external_booking_url) business.external_booking_label
  goes_to IvrStep.external_link_sent session
  enqueue_send_notification_job intent.id
  answer (goodbye PromptKey.external_link_sent (session_locale session) (some session.id))

abbrev pub offer_services : VoiceSession → List Service → Action IvrResponse
offer_services session [] =
    ends_in IvrStep.no_slots session (goodbye PromptKey.no_services (session_locale session) none)
offer_services session (s ∷ services) = do
  goes_to IvrStep.service_selection session
  answer (
      menu_of PromptKey.select_service (session_locale session) (service_options (s ∷ services)) []
        session.id)

unfoldable pub handle_press1_internal : VoiceSession → Action IvrResponse
unfolding goes_to ends_in
handle_press1_internal session = do
  services ← query (λ db. list_services db session.business_id session.tenant_id false 0 100)
  offer_services session services

abbrev pub transferring : VoiceSession → String → Result IvrResponse
transferring session destination =
    Errors.◌>>=◌ (resolve_prompt PromptKey.transferring (session_locale session) []) λ prompt.
      ok (record {
        prompt = prompt;
        options = [];
        action = transfer;
        session_id = some session.id;
        transfer_destination = some destination;
      })

abbrev pub no_transfer : VoiceSession → PromptKey → Action IvrResponse
no_transfer session key = do
  goes_to IvrStep.transfer_unavailable session
  answer (one_option key PromptKey.label_book_appointment (session_locale session) session.id)

abbrev pub transfer_to : VoiceSession → Option String → Action IvrResponse
transfer_to session none = no_transfer session PromptKey.transfer_no_staff
transfer_to session (some destination) = do
  goes_to IvrStep.abandoned (record session { transfer_destination = some destination })
  answer (transferring session destination)

unfoldable pub handle_transfer_request : VoiceSession → Action IvrResponse
unfolding goes_to
handle_transfer_request session = do
  business ← read (λ db. require_business db session.business_id session.tenant_id)
  destination ← query (λ db. resolve_transfer_destination db business session.tenant_id)
  if business.transfer_enabled
      then transfer_to session destination
      else no_transfer session PromptKey.transfer_disabled

abbrev pub next_booking_of : Env → Db → VoiceSession → Option Customer → Option Booking
next_booking_of env db session none = none
next_booking_of env db session (some customer) =
    get_next_confirmed_booking env db session.business_id session.tenant_id customer.id

abbrev pub manage : Env → VoiceSession → Option Booking → Action IvrResponse
manage env session none = do
  business ← read (λ db. require_business db session.business_id session.tenant_id)
  reprompt ← answer (main_menu session business)
  prefix ← answer (resolve_prompt PromptKey.no_upcoming_booking_prefix (session_locale session) [])
  pure (record reprompt { prompt = Text.◌++◌ prefix reprompt.prompt; transfer_destination = none })
manage env session (some booking) = do
  goes_to IvrStep.manage_booking (record session { managed_booking_id = some booking.id })
  read (λ db. manage_booking_response env db session booking)

unfoldable pub handle_manage_booking_request : Env → VoiceSession → Action IvrResponse
unfolding goes_to
handle_manage_booking_request env session = do
  booking ← query (λ db.
      next_booking_of env db session
        (get_customer_by_phone env db session.business_id session.tenant_id session.caller_phone))
  manage env session booking

abbrev pub press1 : Env → VoiceSession → Action IvrResponse
press1 env session = do
  business ← read (λ db. require_business db session.business_id session.tenant_id)
  if is_external business.booking_mode
      then handle_press1_external env session business
      else handle_press1_internal session

abbrev pub invalid_in_menu : VoiceSession → Action IvrResponse
invalid_in_menu session = do
  business ← read (λ db. require_business db session.business_id session.tenant_id)
  handle_invalid_key session (main_menu session business)

unfoldable pub handle_incoming : Env → VoiceSession → String → Action IvrResponse
unfolding handle_press1_external handle_press1_internal handle_transfer_request
    handle_manage_booking_request handle_invalid_key
handle_incoming env session key =
    if same_text key "1"
    then press1 env session
    else if same_text key "2"
    then handle_transfer_request session
    else if same_text key "3"
    then handle_manage_booking_request env session
    else invalid_in_menu session

-- Back to the main menu.
unfoldable pub back_to_menu : VoiceSession → Action IvrResponse
unfolding goes_to
back_to_menu session = do
  business ← read (λ db. require_business db session.business_id session.tenant_id)
  goes_to IvrStep.incoming session
  answer (main_menu session business)

unfoldable pub handle_transfer_unavailable : VoiceSession → String → Action IvrResponse
unfolding back_to_menu handle_invalid_key
handle_transfer_unavailable session key =
    if same_text key "1"
    then back_to_menu session
    else handle_invalid_key session (press_1_menu session)

abbrev pub offer_slots : Env → VoiceSession → Service → List (ℕ × ℕ) → Action IvrResponse
offer_slots env session service [] = ends_in IvrStep.no_slots session (
    goodbye_with PromptKey.no_slots_for_service (session_locale session)
      (("service_name", service.name) ∷ []) none)
offer_slots env session service (slot ∷ slots) = do
  goes_to IvrStep.slot_selection (record session { slot_candidates = some (slot ∷ slots) })
  answer (
      menu_of PromptKey.available_slots_for_service (session_locale session)
        (slot_options env (slot ∷ slots)) (("service_name", service.name) ∷ []) session.id)

-- From the selection of the staff member on.
unfoldable pub proceed_to_slot_search : Env → VoiceSession → Service → Action IvrResponse
unfolding goes_to ends_in
proceed_to_slot_search env session service = do
  save session
  slots ← read (λ db. find_slots env db session service.id session.selected_staff_id)
  offer_slots env session service slots

abbrev pub with_staff : Option ℕ → VoiceSession → VoiceSession
with_staff staff_id session = record session { selected_staff_id = staff_id }

abbrev pub with_service : ℕ → VoiceSession → VoiceSession
with_service service_id session = record session { selected_service_id = some service_id }

-- `len(staff_members) <= 1`, or a menu of them
abbrev pub offer_staff : Env → VoiceSession → Service → List Staff → Action IvrResponse
offer_staff env session service [] = proceed_to_slot_search env (with_staff none session) service
offer_staff env session service (m ∷ []) =
    proceed_to_slot_search env (with_staff (some m.id) session) service
offer_staff env session service (m ∷ (n ∷ more)) = do
  staff_members ← query (λ db. reorder_preferred_staff env db session (m ∷ n ∷ more))
  goes_to IvrStep.staff_selection session
  answer (staff_menu env session service.name staff_members)

abbrev pub choose_service : Env → VoiceSession → List Service → Option Service → Action IvrResponse
choose_service env session services none = handle_invalid_key session (
    menu_of PromptKey.invalid_select_service (session_locale session) (service_options services) []
      session.id)
choose_service env session services (some service) = do
  staff_members ← query (λ db. schedulable_staff db session.business_id session.tenant_id)
  offer_staff env (with_service service.id session) service staff_members

abbrev pub select_service : Env → VoiceSession → String → List Service → Action IvrResponse
select_service env session key [] =
    ends_in IvrStep.no_slots session (goodbye PromptKey.no_services (session_locale session) none)
select_service env session key (s ∷ services) =
    choose_service env session (s ∷ services) (chosen env key (take 9 (s ∷ services)))

unfoldable pub handle_service_selection : Env → VoiceSession → String → Action IvrResponse
unfolding ends_in handle_invalid_key proceed_to_slot_search goes_to
handle_service_selection env session key = do
  services ← query (λ db. list_services db session.business_id session.tenant_id false 0 100)
  select_service env session key services

abbrev pub choose_staff :
    Env → VoiceSession → Service → List Staff × Option ℕ → Option Staff → Action IvrResponse
choose_staff env session service members none =
    handle_invalid_key session (staff_menu env session service.name members)
choose_staff env session service members (some m) =
    proceed_to_slot_search env (with_staff (some m.id) session) service

unfoldable pub handle_staff_selection : Env → VoiceSession → String → Action IvrResponse
unfolding proceed_to_slot_search handle_invalid_key
handle_staff_selection env session key = do
  service ← read (λ db. selected_service db session)
  members ← query (λ db.
      reorder_preferred_staff env db session
        (schedulable_staff db session.business_id session.tenant_id))
  if same_text key "0"
      then proceed_to_slot_search env (with_staff none session) service
      else choose_staff env session service members (chosen env key (take 9 members.0))
