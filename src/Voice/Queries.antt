-- ===== src/Voice/Queries.antt =====
-- The helpers of app/services/ivr_service.py that only read: who calls, whom to offer, which slots.
use appointment_voice_saas.Common.{
  ℕ, zero, suc, ◌+◌, String, Option, none, some, List, [], ◌∷◌, ◌++◌, Bool, true, false, not, ◌&&◌,
  ◌==◌, leb, length, take, filter_by, any_of, is_none, is_id, same_text, if◌then◌else◌,
}
use appointment_voice_saas.Tables.{
  Db, Business, Customer, Client, Staff, WorkingHours, Booking, VoiceSession,
}
use appointment_voice_saas.Errors.{Result, ok, err, not_found, never_ends, or_raise, ◌>>=◌}
use appointment_voice_saas.Lookups.{list_staff, get_eligible_transfer_staff}
use appointment_voice_saas.Env.{Env, is_missing}
use appointment_voice_saas.Customers.{get_customer_by_phone, get_client_by_customer_id}
use appointment_voice_saas.Availability.Search.{get_available_slots}
use appointment_voice_saas.Booking.Lists.{get_last_staff_booking}

abbrev pub text_or : String → Option String → Option String
text_or String.[] other = other
text_or (String.◌∷◌ c text) other = some (String.◌∷◌ c text)

-- `if client is not None and client.name: return client.name`, or else the customer's name
abbrev pub name_of : Option Client → Option String → Option String
name_of none name = name
name_of (some client) name = text_or client.name name

abbrev pub caller_name : Db → ℕ → ℕ → Option Customer → Option String
caller_name db business_id tenant_id none = none
caller_name db business_id tenant_id (some customer) =
    name_of (get_client_by_customer_id db business_id tenant_id customer.id) customer.name

unfoldable pub lookup_returning_caller_name : Env → Db → ℕ → ℕ → String → Option String
lookup_returning_caller_name env db business_id tenant_id caller_phone =
    caller_name db business_id tenant_id
      (get_customer_by_phone env db business_id tenant_id caller_phone)

abbrev pub hours_of : ℕ → ℕ → WorkingHours → Bool
hours_of business_id tenant_id wh = wh.business_id == business_id && wh.tenant_id == tenant_id

unfoldable pub schedulable_staff : Db → ℕ → ℕ → List Staff
schedulable_staff db business_id tenant_id =
    let staff_members = list_staff db business_id tenant_id false 0 100 in
    let hours = filter_by (hours_of business_id tenant_id) db.working_hours in
    if any_of (λ (wh : WorkingHours). is_none wh.staff_id) hours
    then staff_members
    else filter_by (λ (m : Staff). any_of (λ (wh : WorkingHours). is_id wh.staff_id m.id) hours)
        staff_members

abbrev pub staff_of_last : Option Booking → Option ℕ
staff_of_last none = none
staff_of_last (some booking) = booking.staff_id

abbrev pub last_staff_of : Db → ℕ → ℕ → Option Customer → Option ℕ
last_staff_of db business_id tenant_id none = none
last_staff_of db business_id tenant_id (some customer) =
    staff_of_last (get_last_staff_booking db business_id tenant_id customer.id)

unfoldable pub last_used_staff_id : Env → Db → VoiceSession → Option ℕ
last_used_staff_id env db session =
    last_staff_of db session.business_id session.tenant_id
      (get_customer_by_phone env db session.business_id session.tenant_id session.caller_phone)

-- `preferred`, and then the `others`
abbrev pub preferred_first : List Staff → List Staff → ℕ → List Staff × Option ℕ
preferred_first [] staff_members preferred_id = (staff_members, none)
preferred_first (m ∷ more) staff_members preferred_id = (
  m ∷ more ++ filter_by (λ (s : Staff). not (s.id == preferred_id)) staff_members,
  some preferred_id,
)

unfoldable pub reorder_by : Option ℕ → List Staff → List Staff × Option ℕ
reorder_by none staff_members = (staff_members, none)
reorder_by (some preferred_id) staff_members =
    preferred_first (filter_by (λ (s : Staff). s.id == preferred_id) staff_members) staff_members
      preferred_id

unfoldable pub reorder_preferred_staff :
    Env → Db → VoiceSession → List Staff → List Staff × Option ℕ
unfolding reorder_by
reorder_preferred_staff env db session staff_members =
    reorder_by (last_used_staff_id env db session) staff_members

abbrev pub business_phone_of : Option String → Option String
business_phone_of phone = if is_missing phone then none else phone

abbrev pub first_phone : List Staff → Option String
first_phone [] = none
first_phone (m ∷ more) = m.phone

unfoldable pub resolve_transfer_destination : Db → Business → ℕ → Option String
resolve_transfer_destination db business tenant_id =
    if same_text business.transfer_destination_policy "business_phone"
    then business_phone_of business.transfer_phone_number
    else if same_text business.transfer_destination_policy "staff"
    then first_phone (get_eligible_transfer_staff db business.id tenant_id 50)
    else none

-- The search of one day. A slot loop that never ends keeps the call from going on.
unfoldable pub slots_on : Env → Db → VoiceSession → ℕ → Option ℕ → ℕ → Result (List (ℕ × ℕ))
slots_on env db session service_id staff_id day = do
  day_slots ←
      get_available_slots env.now env.to_utc db session.tenant_id session.business_id service_id
        staff_id day
  or_raise day_slots never_ends

-- The days left, from `day` on, with what has been collected before.
unfoldable pub collect_slots :
    Env → Db → VoiceSession → ℕ → Option ℕ → ℕ → ℕ → List (ℕ × ℕ) → Result (List (ℕ × ℕ))
collect_slots env db session service_id staff_id zero day collected = ok collected
collect_slots env db session service_id staff_id (suc days) day collected =
    slots_on env db session service_id staff_id day >>= λ day_slots.
    elim (leb env.ivr_max_slots (length (collected ++ day_slots))) [
      | true ↦ ok (collected ++ day_slots)
      | false ↦
          collect_slots env db session service_id staff_id days (day + 1) (collected ++ day_slots)
    ]

unfoldable pub find_slots : Env → Db → VoiceSession → ℕ → Option ℕ → Result (List (ℕ × ℕ))
unfolding collect_slots slots_on
find_slots env db session service_id staff_id = do
  collected ← collect_slots env db session service_id staff_id env.ivr_slot_search_days env.today []
  ok (take env.ivr_max_slots collected)

-- A lookup by a column that may be NULL: no row has that id.
abbrev pub by_id {ℓ} : {A : Type ℓ} → Option ℕ → String → (ℕ → Result A) → Result A
by_id none message lookup = err (not_found message)
by_id (some id) message lookup = lookup id
