-- ===== src/Voice/Responses.antt =====
-- app/core/ivr.py, and the responses of app/services/ivr_service.py: what the caller hears next and
-- which keys are on offer.
use Prim.Native.String.{◌++◌}
use appointment_voice_saas.Common.{
  ℕ, ◌+◌, ◌==◌, String, Option, none, some, List, [], ◌∷◌, Bool, true, false, map, take, same_text,
  is_id, if◌then◌else◌,
}
use appointment_voice_saas.Common as Common
use appointment_voice_saas.Common.Decimal.{decimal}
use appointment_voice_saas.Tables.{Service, Staff, Booking, VoiceSession}
use appointment_voice_saas.Errors.{Result, ok, ◌>>=◌}
use appointment_voice_saas.Env.{Env}
use appointment_voice_saas.Voice.Prompts.{PromptKey, Fields, or_text, resolve_prompt}

pub data IvrAction : Type 0 where
  continue end transfer : IvrAction

pub record IvrOption : Type 0 where
  pub key : String
  pub label : String

pub record IvrResponse : Type 0 where
  pub prompt : String
  pub options : List IvrOption
  pub action : IvrAction
  pub session_id : Option ℕ
  pub transfer_destination : Option String

-- IVR_DEFAULT_LOCALE
abbrev pub ivr_default_locale : String
ivr_default_locale = "en"

abbrev pub session_locale : VoiceSession → String
session_locale session = or_text session.locale ivr_default_locale

abbrev pub join : String → List String → String
join sep [] = ""
join sep (text ∷ []) = text
join sep (text ∷ (next ∷ rest)) = text ++ (sep ++ join sep (next ∷ rest))

abbrev pub item_fields : IvrOption → Fields
item_fields o = ("key", o.key) ∷ ("label", o.label) ∷ []

abbrev pub option_items : String → List IvrOption → Result (List String)
option_items locale [] = ok []
option_items locale (o ∷ rest) = do
  item ← resolve_prompt PromptKey.option_item locale (item_fields o)
  items ← option_items locale rest
  ok (item ∷ items)

unfoldable pub format_option_list : List IvrOption → String → Result String
format_option_list options locale = do items ← option_items locale options; ok (join ", " items)

-- IvrOption(key=str(i + 1), label=...) for i, ... in enumerate(...)
abbrev pub numbered : ℕ → List String → List IvrOption
numbered i [] = []
numbered i (label ∷ labels) =
    record { key = decimal (i + 1); label = label } ∷ numbered (i + 1) labels

-- IvrResponse(prompt=..., options=..., session_id=...)
abbrev pub menu : String → List IvrOption → ℕ → IvrResponse
menu prompt options session_id = record {
  prompt = prompt;
  options = options;
  action = continue;
  session_id = some session_id;
  transfer_destination = none;
}

-- IvrResponse(prompt=..., action=IvrAction.END, session_id=...)
abbrev pub ending : String → Option ℕ → IvrResponse
ending prompt session_id = record {
  prompt = prompt;
  options = [];
  action = end;
  session_id = session_id;
  transfer_destination = none;
}

-- The last response of a call, with the fields that its prompt takes.
unfoldable pub goodbye_with : PromptKey → String → Fields → Option ℕ → Result IvrResponse
goodbye_with key locale kwargs session_id = do
  prompt ← resolve_prompt key locale kwargs
  ok (ending prompt session_id)

abbrev pub goodbye : PromptKey → String → Option ℕ → Result IvrResponse
goodbye key locale session_id = goodbye_with key locale [] session_id

-- A prompt that reads its options out.
unfoldable pub menu_of : PromptKey → String → List IvrOption → Fields → ℕ → Result IvrResponse
unfolding format_option_list
menu_of key locale options kwargs session_id = do
  listed ← format_option_list options locale
  prompt ← resolve_prompt key locale (("options", listed) ∷ kwargs)
  ok (menu prompt options session_id)

-- A prompt with one option, key 1.
unfoldable pub one_option : PromptKey → PromptKey → String → ℕ → Result IvrResponse
one_option key label_key locale session_id = do
  prompt ← resolve_prompt key locale []
  label ← resolve_prompt label_key locale []
  ok (menu prompt (record { key = "1"; label = label } ∷ []) session_id)

abbrev pub is_external : String → Bool
is_external booking_mode = same_text booking_mode "external_booking_link"

-- `if greeting_name: ...`
abbrev pub greeted : Option String → String → String → Result String
greeted none locale prompt = ok prompt
greeted (some String.[]) locale prompt = ok prompt
greeted (some (String.◌∷◌ c name)) locale prompt = do
  greeting ← resolve_prompt PromptKey.greeting_prefix locale (("name", String.◌∷◌ c name) ∷ [])
  ok (greeting ++ prompt)

unfoldable pub main_menu_response : ℕ → String → Option String → String → Result IvrResponse
main_menu_response session_id booking_mode greeting_name locale = do
  press1_label ←
      resolve_prompt
        (if is_external booking_mode
          then PromptKey.label_booking_link_sms
          else PromptKey.label_book_appointment)
        locale []
  plain ←
      resolve_prompt
        (if is_external booking_mode
          then PromptKey.main_menu_external
          else PromptKey.main_menu_internal)
        locale []
  prompt ← greeted greeting_name locale plain
  press2_label ← resolve_prompt PromptKey.label_speak_with_staff locale []
  press3_label ← resolve_prompt PromptKey.label_manage_booking locale []
  ok (
      menu prompt
        (record { key = "1"; label = press1_label }
          ∷ record { key = "2"; label = press2_label }
          ∷ record { key = "3"; label = press3_label }
          ∷ [])
        session_id)

abbrev pub service_options : List Service → List IvrOption
service_options services = numbered 0 (map (λ (s : Service). s.name) (take 9 services))

-- _format_slot
unfoldable pub format_slot : Env → ℕ → ℕ → String
format_slot env starts_at ends_at =
    env.strftime "%A %B %-d at %-I:%M %p" starts_at
    ++ (" to " ++ (env.strftime "%-I:%M %p" ends_at ++ " UTC"))

abbrev pub slot_options : Env → List (ℕ × ℕ) → List IvrOption
slot_options env candidates = numbered 0 (map (λ (c : ℕ × ℕ). format_slot env c.0 c.1) candidates)

abbrev pub staff_labels : List Staff → List String
staff_labels staff_members = map (λ (m : Staff). m.name) (take 9 staff_members)

-- The key is that of the option, i + 1.
abbrev pub staff_parts : ℕ → List Staff → Option ℕ → String → Result (List String)
staff_parts i [] preferred_staff_id locale = ok []
staff_parts i (member ∷ members) preferred_staff_id locale = do
  part ←
      resolve_prompt
        (if is_id preferred_staff_id member.id
          then PromptKey.staff_option_preferred
          else PromptKey.option_item)
        locale (item_fields (record { key = decimal (i + 1); label = member.name }))
  parts ← staff_parts (i + 1) members preferred_staff_id locale
  ok (part ∷ parts)

unfoldable pub staff_selection_response :
    ℕ → List Staff → String → Option ℕ → String → Result IvrResponse
staff_selection_response session_id staff_members service_name preferred_staff_id locale = do
  any_label ← resolve_prompt PromptKey.label_any_available_staff locale []
  parts ← staff_parts 0 (take 9 staff_members) preferred_staff_id locale
  any_part ← resolve_prompt PromptKey.staff_option_any locale []
  prompt ← resolve_prompt PromptKey.staff_selection_prompt locale (
      ("service_name", service_name)
      ∷ ("options", join ", " (Common.◌++◌ parts (any_part ∷ [])))
      ∷ [])
  ok (
      menu prompt
        (Common.◌++◌ (numbered 0 (staff_labels staff_members))
          (record { key = "0"; label = any_label } ∷ []))
        session_id)

-- The response of `_manage_booking_response` for a booking of this service.
unfoldable pub manage_menu : Env → VoiceSession → Booking → Service → Result IvrResponse
manage_menu env session booking service = do
  prompt ← resolve_prompt PromptKey.manage_booking_found (session_locale session) (
      ("service_name", service.name)
      ∷ ("when", format_slot env booking.starts_at booking.ends_at)
      ∷ [])
  cancel_label ← resolve_prompt PromptKey.label_cancel_appointment (session_locale session) []
  reschedule_label ←
      resolve_prompt PromptKey.label_reschedule_appointment (session_locale session) []
  menu_label ← resolve_prompt PromptKey.label_main_menu (session_locale session) []
  ok (
      menu prompt
        (record { key = "1"; label = cancel_label }
          ∷ record { key = "2"; label = reschedule_label }
          ∷ record { key = "3"; label = menu_label }
          ∷ [])
        session.id)
