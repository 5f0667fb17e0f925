-- ===== src/Voice/Prompts.antt =====
-- app/core/ivr_prompts.py: the prompts of a call in English and in Polish, and how a locale's is
-- looked up and filled in.
pub mod Fields
use appointment_voice_saas.Common.{
  String, Option, none, some, List, [], ◌∷◌, true, false, ◌≡◌, refl, same_text, if◌then◌else◌, ◌==◌,
}
use Prim.Native.Char.{code}
use Prim.Native.String.{◌++◌}
use appointment_voice_saas.Errors.{Result, ok, err, key_error, value_error, or_raise, ◌>>=◌}

pub data PromptKey : Type 0 where
  session_expired session_already_complete unexpected_state : PromptKey
  too_many_invalid_keys too_many_no_input no_input_prefix : PromptKey
  no_input_goodbye no_slots no_services : PromptKey
  please_make_a_selection main_menu_internal main_menu_external : PromptKey
  greeting_prefix select_service invalid_select_service : PromptKey
  no_slots_for_service available_slots_for_service select_slot : PromptKey
  invalid_select_slot booking_confirmed staff_selection_prompt : PromptKey
  external_link_sent transfer_disabled transfer_no_staff : PromptKey
  transferring press_1_main_menu no_upcoming_booking_prefix : PromptKey
  manage_booking_found booking_cancelled no_slots_to_reschedule : PromptKey
  select_new_time invalid_select_new_time booking_rescheduled : PromptKey
  option_item staff_option_preferred staff_option_any : PromptKey
  label_main_menu label_book_appointment label_booking_link_sms : PromptKey
  label_speak_with_staff label_manage_booking label_cancel_appointment : PromptKey
  label_reschedule_appointment label_any_available_staff : PromptKey

-- _PROMPTS["en"]
unfoldable pub english : PromptKey → String
english PromptKey.session_expired =
    "Your session has expired. Please call again to book an appointment."
english PromptKey.session_already_complete = "This session is already complete. Please call again."
english PromptKey.unexpected_state = "Unexpected session state."
english PromptKey.too_many_invalid_keys =
    "Too many invalid inputs. Your session has ended. Please call again to book an appointment."
english PromptKey.too_many_no_input =
    "We didn't receive any input. Your session has ended. Please call again to book an appointment."
english PromptKey.no_input_prefix = "We didn't hear a response. "
english PromptKey.no_input_goodbye = "We didn't receive your input. Goodbye."
english PromptKey.no_slots = "No slots are available. Please call back later."
english PromptKey.no_services =
    "Sorry, no services are currently available. Please call back later."
english PromptKey.please_make_a_selection = "Please make a selection."
english PromptKey.main_menu_internal =
    "Welcome! Press 1 to book an appointment, press 2 to speak with a staff member, or press 3 to manage an existing appointment."
english PromptKey.main_menu_external =
    "Welcome! Press 1 to receive a booking link by SMS, press 2 to speak with a staff member, or press 3 to manage an existing appointment."
english PromptKey.greeting_prefix = "Welcome back, {name}! "
english PromptKey.select_service = "Please select a service: {options}."
english PromptKey.invalid_select_service = "Invalid choice. Please select a service: {options}."
english PromptKey.no_slots_for_service =
    "Sorry, there are no available slots for {service_name} in the next week. Please call back later."
english PromptKey.available_slots_for_service =
    "Available slots for {service_name}: {options}. Press your choice."
english PromptKey.select_slot = "Please select a slot: {options}."
english PromptKey.invalid_select_slot = "Invalid choice. Please select a slot: {options}."
english PromptKey.booking_confirmed =
    "Your appointment has been booked for {when}. You will receive an SMS confirmation. Thank you, goodbye!"
english PromptKey.staff_selection_prompt =
    "Who would you like to book your {service_name} with? {options}."
english PromptKey.external_link_sent =
    "We have sent you an SMS with a link to book your appointment online. Thank you, goodbye!"
english PromptKey.transfer_disabled =
    "Transfer to staff is not available for this business. Press 1 to book an appointment."
english PromptKey.transfer_no_staff =
    "Sorry, no staff members are available to take your call right now. Press 1 to book an appointment."
english PromptKey.transferring = "Transferring you to a staff member. Please hold."
english PromptKey.press_1_main_menu = "Press 1 to go back to the main menu."
english PromptKey.no_upcoming_booking_prefix =
    "We couldn't find an upcoming appointment for this number. "
english PromptKey.manage_booking_found =
    "We found your {service_name} appointment for {when}. Press 1 to cancel it, press 2 to reschedule it, or press 3 to go back to the main menu."
english PromptKey.booking_cancelled = "Your appointment has been cancelled. Thank you, goodbye!"
english PromptKey.no_slots_to_reschedule =
    "Sorry, there are no available slots to reschedule into right now. Please call back later."
english PromptKey.select_new_time = "Please select a new time: {options}."
english PromptKey.invalid_select_new_time = "Invalid choice. Please select a new time: {options}."
english PromptKey.booking_rescheduled =
    "Your appointment has been rescheduled to {when}. You will receive an SMS confirmation. Thank you, goodbye!"
english PromptKey.option_item = "press {key} for {label}"
english PromptKey.staff_option_preferred = "press {key} for {label}, who you saw last time"
english PromptKey.staff_option_any = "press 0 for any available staff member"
english PromptKey.label_main_menu = "Main menu"
english PromptKey.label_book_appointment = "Book an appointment"
english PromptKey.label_booking_link_sms = "Receive a booking link by SMS"
english PromptKey.label_speak_with_staff = "Speak with staff"
english PromptKey.label_manage_booking = "Manage an existing appointment"
english PromptKey.label_cancel_appointment = "Cancel appointment"
english PromptKey.label_reschedule_appointment = "Reschedule appointment"
english PromptKey.label_any_available_staff = "Any available staff member"

-- _PROMPTS["pl"]
unfoldable pub polish : PromptKey → String
polish PromptKey.session_expired = "Twoja sesja wygasła. Zadzwoń ponownie, aby zarezerwować wizytę."
polish PromptKey.session_already_complete = "Ta sesja została już zakończona. Zadzwoń ponownie."
polish PromptKey.unexpected_state = "Nieoczekiwany stan sesji."
polish PromptKey.too_many_invalid_keys =
    "Za dużo nieprawidłowych wyborów. Sesja została zakończona. Zadzwoń ponownie, aby zarezerwować wizytę."
polish PromptKey.too_many_no_input =
    "Nie otrzymaliśmy żadnej odpowiedzi. Sesja została zakończona. Zadzwoń ponownie, aby zarezerwować wizytę."
polish PromptKey.no_input_prefix = "Nie usłyszeliśmy odpowiedzi. "
polish PromptKey.no_input_goodbye = "Nie otrzymaliśmy żadnej odpowiedzi. Do usłyszenia."
polish PromptKey.no_slots = "Nie ma dostępnych terminów. Zadzwoń ponownie później."
polish PromptKey.no_services =
    "Przepraszamy, obecnie nie ma dostępnych usług. Zadzwoń ponownie później."
polish PromptKey.please_make_a_selection = "Proszę wybrać jedną z opcji."
polish PromptKey.main_menu_internal =
    "Witamy! Naciśnij 1, aby zarezerwować wizytę, naciśnij 2, aby połączyć się z pracownikiem, lub naciśnij 3, aby zarządzać istniejącą wizytą."
polish PromptKey.main_menu_external =
    "Witamy! Naciśnij 1, aby otrzymać link do rezerwacji SMS-em, naciśnij 2, aby połączyć się z pracownikiem, lub naciśnij 3, aby zarządzać istniejącą wizytą."
polish PromptKey.greeting_prefix = "Witamy ponownie, {name}! "
polish PromptKey.select_service = "Proszę wybrać usługę: {options}."
polish PromptKey.invalid_select_service = "Nieprawidłowy wybór. Proszę wybrać usługę: {options}."
polish PromptKey.no_slots_for_service =
    "Przepraszamy, nie ma dostępnych terminów dla usługi {service_name} w najbliższym tygodniu. Zadzwoń ponownie później."
polish PromptKey.available_slots_for_service =
    "Dostępne terminy dla usługi {service_name}: {options}. Naciśnij wybraną opcję."
polish PromptKey.select_slot = "Proszę wybrać termin: {options}."
polish PromptKey.invalid_select_slot = "Nieprawidłowy wybór. Proszę wybrać termin: {options}."
polish PromptKey.booking_confirmed =
    "Twoja wizyta została zarezerwowana na {when}. Otrzymasz potwierdzenie SMS-em. Dziękujemy, do usłyszenia!"
polish PromptKey.staff_selection_prompt =
    "Z kim chcesz zarezerwować usługę {service_name}? {options}."
polish PromptKey.external_link_sent =
    "Wysłaliśmy Ci SMS z linkiem do rezerwacji wizyty online. Dziękujemy, do usłyszenia!"
polish PromptKey.transfer_disabled =
    "Połączenie z pracownikiem nie jest dostępne dla tej firmy. Naciśnij 1, aby zarezerwować wizytę."
polish PromptKey.transfer_no_staff =
    "Przepraszamy, żaden pracownik nie jest obecnie dostępny, aby odebrać połączenie. Naciśnij 1, aby zarezerwować wizytę."
polish PromptKey.transferring = "Łączymy Cię z pracownikiem. Proszę czekać."
polish PromptKey.press_1_main_menu = "Naciśnij 1, aby wrócić do menu głównego."
polish PromptKey.no_upcoming_booking_prefix =
    "Nie znaleźliśmy nadchodzącej wizyty dla tego numeru. "
polish PromptKey.manage_booking_found =
    "Znaleźliśmy Twoją wizytę na usługę {service_name} w terminie {when}. Naciśnij 1, aby ją odwołać, naciśnij 2, aby zmienić termin, lub naciśnij 3, aby wrócić do menu głównego."
polish PromptKey.booking_cancelled = "Twoja wizyta została odwołana. Dziękujemy, do usłyszenia!"
polish PromptKey.no_slots_to_reschedule =
    "Przepraszamy, obecnie nie ma dostępnych terminów do zmiany. Zadzwoń ponownie później."
polish PromptKey.select_new_time = "Proszę wybrać nowy termin: {options}."
polish PromptKey.invalid_select_new_time =
    "Nieprawidłowy wybór. Proszę wybrać nowy termin: {options}."
polish PromptKey.booking_rescheduled =
    "Twoja wizyta została przełożona na {when}. Otrzymasz potwierdzenie SMS-em. Dziękujemy, do usłyszenia!"
polish PromptKey.option_item = "naciśnij {key} dla {label}"
polish PromptKey.staff_option_preferred = "naciśnij {key} dla {label} — Twojego ostatniego wyboru"
polish PromptKey.staff_option_any = "naciśnij 0, aby wybrać dowolnego dostępnego pracownika"
polish PromptKey.label_main_menu = "Menu główne"
polish PromptKey.label_book_appointment = "Zarezerwuj wizytę"
polish PromptKey.label_booking_link_sms = "Otrzymaj link do rezerwacji SMS-em"
polish PromptKey.label_speak_with_staff = "Połącz z pracownikiem"
polish PromptKey.label_manage_booking = "Zarządzaj istniejącą wizytą"
polish PromptKey.label_cancel_appointment = "Odwołaj wizytę"
polish PromptKey.label_reschedule_appointment = "Zmień termin wizyty"
polish PromptKey.label_any_available_staff = "Dowolny dostępny pracownik"

-- _PROMPTS.get(locale, _PROMPTS[IVR_DEFAULT_LOCALE])
abbrev pub locale_table : String → PromptKey → String
locale_table locale = if same_text locale "pl" then polish else english

-- `text or default`
abbrev pub or_text : String → String → String
or_text String.[] default = default
or_text (String.◌∷◌ c text) default = String.◌∷◌ c text

abbrev pub Fields : Type 0
Fields = List (String × String)

abbrev pub field : String → Fields → Option String
field name [] = none
field name ((key, value) ∷ rest) =
    let later = field name rest in if same_text key name then some value else later

-- template.format(**kwargs), of a template whose braces stand around plain names. The argument
-- `open` is the name that has been read behind an open brace.
unfoldable pub fill : Fields → Option String → String → Result String
fill kwargs none String.[] = ok ""
fill kwargs (some name) String.[] = err (value_error "expected '}' before end of string")
fill kwargs none (String.◌∷◌ c text) = elim (code c == 123) [
  | true ↦ fill kwargs (some "") text
  | false ↦ fill kwargs none text >>= λ rest. ok (String.◌∷◌ c rest)
]
fill kwargs (some name) (String.◌∷◌ c text) = elim (code c == 125) [
  | true ↦ or_raise (field name kwargs) (key_error name) >>= λ value.
      fill kwargs none text >>= λ rest. ok (value ++ rest)
  | false ↦ fill kwargs (some (name ++ String.◌∷◌ c String.[])) text
]

unfoldable pub resolve_prompt : PromptKey → String → Fields → Result String
unfolding english polish fill
resolve_prompt prompt_key locale kwargs =
    fill kwargs none (or_text (locale_table locale prompt_key) (english prompt_key))
