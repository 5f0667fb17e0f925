-- ===== src/Voice/Prompts/Fields.antt =====
-- The fields that a template of app/core/ivr_prompts.py names, and filling them in.
use Prim.Native.Char.{Char, code}
use Prim.Native.String.{◌++◌}
use appointment_voice_saas.Common.{
  String, Option, none, some, List, [], ◌∷◌, Bool, true, false, ◌&&◌, ◌==◌, ◌≡◌, refl, ◌∙◌,
  same_text, is_some, arith, Bool-cases, inl, inr,
}
use appointment_voice_saas.Errors.{ok}
use appointment_voice_saas.Voice.Prompts.{
  PromptKey, english, polish, locale_table, or_text, Fields, field, fill, resolve_prompt,
}

abbrev pub with_field : String → Option (List String) → Option (List String)
with_field name none = none
with_field name (some names) = some (name ∷ names)

-- The names between braces, unless a brace is left open.
unfoldable pub fields_of : Option String → String → Option (List String)
fields_of none String.[] = some []
fields_of (some name) String.[] = none
fields_of none (String.◌∷◌ c text) = elim (code c == 123) [
  | true ↦ fields_of (some "") text
  | false ↦ fields_of none text
]
fields_of (some name) (String.◌∷◌ c text) = elim (code c == 125) [
  | true ↦ with_field name (fields_of none text)
  | false ↦ fields_of (some (name ++ String.◌∷◌ c String.[])) text
]

abbrev pub covers : Fields → List String → Bool
covers kwargs [] = true
covers kwargs (name ∷ names) = is_some (field name kwargs) && covers kwargs names

-- Both tables name the same fields, in the same order.
same_fields : (key : PromptKey) → fields_of none (polish key) ≡ fields_of none (english key)
unfolding fields_of english polish
same_fields PromptKey.session_expired = refl
same_fields PromptKey.session_already_complete = refl
same_fields PromptKey.unexpected_state = refl
same_fields PromptKey.too_many_invalid_keys = refl
same_fields PromptKey.too_many_no_input = refl
same_fields PromptKey.no_input_prefix = refl
same_fields PromptKey.no_input_goodbye = refl
same_fields PromptKey.no_slots = refl
same_fields PromptKey.no_services = refl
same_fields PromptKey.please_make_a_selection = refl
same_fields PromptKey.main_menu_internal = refl
same_fields PromptKey.main_menu_external = refl
same_fields PromptKey.greeting_prefix = refl
same_fields PromptKey.select_service = refl
same_fields PromptKey.invalid_select_service = refl
same_fields PromptKey.no_slots_for_service = refl
same_fields PromptKey.available_slots_for_service = refl
same_fields PromptKey.select_slot = refl
same_fields PromptKey.invalid_select_slot = refl
same_fields PromptKey.booking_confirmed = refl
same_fields PromptKey.staff_selection_prompt = refl
same_fields PromptKey.external_link_sent = refl
same_fields PromptKey.transfer_disabled = refl
same_fields PromptKey.transfer_no_staff = refl
same_fields PromptKey.transferring = refl
same_fields PromptKey.press_1_main_menu = refl
same_fields PromptKey.no_upcoming_booking_prefix = refl
same_fields PromptKey.manage_booking_found = refl
same_fields PromptKey.booking_cancelled = refl
same_fields PromptKey.no_slots_to_reschedule = refl
same_fields PromptKey.select_new_time = refl
same_fields PromptKey.invalid_select_new_time = refl
same_fields PromptKey.booking_rescheduled = refl
same_fields PromptKey.option_item = refl
same_fields PromptKey.staff_option_preferred = refl
same_fields PromptKey.staff_option_any = refl
same_fields PromptKey.label_main_menu = refl
same_fields PromptKey.label_book_appointment = refl
same_fields PromptKey.label_booking_link_sms = refl
same_fields PromptKey.label_speak_with_staff = refl
same_fields PromptKey.label_manage_booking = refl
same_fields PromptKey.label_cancel_appointment = refl
same_fields PromptKey.label_reschedule_appointment = refl
same_fields PromptKey.label_any_available_staff = refl

fields_of-or_text :
    (text default : String)
    → fields_of none text ≡ fields_of none default
    → fields_of none (or_text text default) ≡ fields_of none default
fields_of-or_text String.[] default same = refl
fields_of-or_text (String.◌∷◌ c text) default same = same

fields_of-locale :
    (locale : String) (key : PromptKey)
    → fields_of none (or_text (locale_table locale key) (english key))
      ≡ fields_of none (english key)
fields_of-locale locale key = elim (Bool-cases (same_text locale "pl")) [
  | inl pl ↦ rw pl (fields_of-or_text (polish key) (english key) (same_fields key))
  | inr other ↦ rw other (fields_of-or_text (english key) (english key) refl)
]

with_field-some :
    (name : String) (o : Option (List String)) (names : List String)
    → with_field name o ≡ some names
    → (rest : List String) × (o ≡ some rest) × (names ≡ name ∷ rest)
with_field-some name none names h = cc
with_field-some name (some rest) names h = (rest, refl, cc)

is_some_value : (o : Option String) → is_some o ≡ true → (value : String) × (o ≡ some value)
is_some_value none h = cc
is_some_value (some value) h = (value, refl)

fill-field :
    (kwargs : Fields) (name value filled : String) (c : Char) (text : String)
    → (code c == 125) ≡ true
    → field name kwargs ≡ some value
    → fill kwargs none text ≡ ok filled
    → fill kwargs (some name) (String.◌∷◌ c text) ≡ ok (value ++ filled)
unfolding fill
fill-field kwargs name value filled c text brace given rest = rw (brace, fill) (rw (given, rest))

fill_returns :
    (kwargs : Fields) (open_name : Option String) (text : String) (names : List String)
    → fields_of open_name text ≡ some names
    → covers kwargs names ≡ true
    → (filled : String) × (fill kwargs open_name text ≡ ok filled)
unfolding fields_of fill
fill_returns kwargs none String.[] names h all = ("", refl)
fill_returns kwargs (some name) String.[] names h all = cc
fill_returns kwargs none (String.◌∷◌ c text) names h all = elim (Bool-cases (code c == 123)) [
  | inl brace ↦
      let inside : fields_of (some "") text ≡ some names = rw (brace, fields_of) at h in
      rw (brace, fill) (fill_returns kwargs (some "") text names inside all)
  | inr plain ↦
      let later : fields_of none text ≡ some names = rw (plain, fields_of) at h in
      let (filled, e) = fill_returns kwargs none text names later all in
      (String.◌∷◌ c filled, rw (plain, fill) (rw e))
]
fill_returns kwargs (some name) (String.◌∷◌ c text) names h all =
    elim (Bool-cases (code c == 125)) [
      | inl brace ↦
          let closed : with_field name (fields_of none text) ≡ some names =
            rw (brace, fields_of) at h in
          let (rest, later, split) = with_field-some name (fields_of none text) names closed in
          let both : (is_some (field name kwargs) && covers kwargs rest) ≡ true = rw split at all in
          let here : is_some (field name kwargs) ≡ true = ground arith in
          let others : covers kwargs rest ≡ true = ground arith in
          let (value, given) = is_some_value (field name kwargs) here in
          let (filled, e) = fill_returns kwargs none text rest later others in
          (value ++ filled, fill-field kwargs name value filled c text brace given e)
      | inr plain ↦
          let next : String = name ++ String.◌∷◌ c String.[] in
          let inside : fields_of (some next) text ≡ some names = rw (plain, fields_of) at h in
          rw (plain, fill) (fill_returns kwargs (some next) text names inside all)
    ]

-- A prompt is a text, in every locale, if it is given the fields that its English template names.
pub resolve_prompt_returns :
    (key : PromptKey) (locale : String) (kwargs : Fields) (names : List String)
    → fields_of none (english key) ≡ some names
    → covers kwargs names ≡ true
    → (prompt : String) × (resolve_prompt key locale kwargs ≡ ok prompt)
unfolding resolve_prompt
resolve_prompt_returns key locale kwargs names h all =
    fill_returns kwargs none (or_text (locale_table locale key) (english key)) names
      (fields_of-locale locale key ∙ h) all
