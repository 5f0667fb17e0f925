-- ===== src/Waitlist/Entries.antt =====
-- app/services/waitlist_service.py: the entries that the routes create, read and change.
use appointment_voice_saas.Common.{
  ℕ, Option, none, some, List, ◌∷◌, Bool, true, false, ◌&&◌, ◌==◌, leb, find_by, filter_by,
  order_by, page, update_where,
}
use appointment_voice_saas.Tables.{Db, WaitlistEntry, WaitlistEntryStatus, is_waiting, is_offered}
use appointment_voice_saas.Errors.{Result, not_found, or_raise, require_that}
use appointment_voice_saas.Lookups.{
  require_business, require_customer, require_service, require_staff,
}
use appointment_voice_saas.Session.{Action, pure, read, modify, fresh_id, commit, ◌>>=◌, ◌>>◌}
use appointment_voice_saas.Env.{Env}

abbrev pub add_entry : WaitlistEntry → Db → Db
add_entry row db = record db { waitlist = row ∷ db.waitlist }

abbrev pub staff_of_business : Option ℕ → ℕ → ℕ → Action (Unit {0})
staff_of_business none business_id tenant_id = pure tt
staff_of_business (some staff_id) business_id tenant_id = do
  staff ← read (λ db. require_staff db staff_id tenant_id)
  read (λ _. require_that (staff.business_id == business_id) (not_found "Staff member not found"))

unfoldable pub create_waitlist_entry : Env → ℕ → ℕ → ℕ → ℕ → ℕ → Option ℕ → Action WaitlistEntry
create_waitlist_entry env tenant_id business_id customer_id service_id desired_date staff_id = do
  business ← read (λ db. require_business db business_id tenant_id)
  customer ← read (λ db. require_customer db customer_id tenant_id)
  read (λ _. require_that (customer.business_id == business_id) (not_found "Customer not found"))
  svc ← read (λ db. require_service db service_id tenant_id)
  read (λ _. require_that (svc.business_id == business_id) (not_found "Service not found"))
  staff_of_business staff_id business_id tenant_id
  id ← fresh_id
  let entry : WaitlistEntry = record {
    id = id;
    tenant_id = tenant_id;
    business_id = business_id;
    customer_id = customer_id;
    service_id = service_id;
    staff_id = staff_id;
    offered_for_staff_id = none;
    desired_date = desired_date;
    status = WaitlistEntryStatus.waiting;
    created_at = env.now;
    updated_at = env.now;
  }
  modify (add_entry entry)
  commit
  pure entry

unfoldable pub get_waitlist_entry : Db → ℕ → ℕ → Option WaitlistEntry
get_waitlist_entry db entry_id tenant_id =
    find_by (λ (e : WaitlistEntry). e.id == entry_id && e.tenant_id == tenant_id) db.waitlist

unfoldable pub require_waitlist_entry : Db → ℕ → ℕ → Result WaitlistEntry
unfolding get_waitlist_entry
require_waitlist_entry db entry_id tenant_id =
    or_raise (get_waitlist_entry db entry_id tenant_id) (not_found "Waitlist entry not found")

abbrev pub same_entry_status : WaitlistEntryStatus → WaitlistEntryStatus → Bool
same_entry_status WaitlistEntryStatus.waiting status = is_waiting status
same_entry_status WaitlistEntryStatus.offered status = is_offered status
same_entry_status WaitlistEntryStatus.confirmed WaitlistEntryStatus.confirmed = true
same_entry_status WaitlistEntryStatus.confirmed status = false
same_entry_status WaitlistEntryStatus.expired WaitlistEntryStatus.expired = true
same_entry_status WaitlistEntryStatus.expired status = false
same_entry_status WaitlistEntryStatus.cancelled WaitlistEntryStatus.cancelled = true
same_entry_status WaitlistEntryStatus.cancelled status = false

abbrev pub if_entry_status : Option WaitlistEntryStatus → WaitlistEntry → Bool
if_entry_status none e = true
if_entry_status (some status) e = same_entry_status status e.status

abbrev pub if_service : Option ℕ → WaitlistEntry → Bool
if_service none e = true
if_service (some service_id) e = e.service_id == service_id

unfoldable pub list_waitlist_entries :
    Db → ℕ → ℕ → Option WaitlistEntryStatus → Option ℕ → ℕ → ℕ → List WaitlistEntry
list_waitlist_entries db business_id tenant_id status service_id skip limit = page skip limit (
    order_by (λ (a b : WaitlistEntry). leb a.created_at b.created_at)
      (filter_by
        (λ (e : WaitlistEntry).
          e.business_id == business_id
          && e.tenant_id == tenant_id
          && if_entry_status status e
          && if_service service_id e)
        db.waitlist))

-- UPDATE waitlist_entries SET status = ..., and updated_at by its onupdate
abbrev pub with_status : Env → WaitlistEntryStatus → WaitlistEntry → WaitlistEntry
with_status env status e = record e { status = status; updated_at = env.now }

abbrev pub update_entry : ℕ → (WaitlistEntry → WaitlistEntry) → Db → Db
update_entry entry_id change db = record db {
  waitlist = update_where (λ (e : WaitlistEntry). e.id == entry_id) change db.waitlist;
}

unfoldable pub update_waitlist_entry_status :
    Env → ℕ → ℕ → WaitlistEntryStatus → Action WaitlistEntry
update_waitlist_entry_status env entry_id tenant_id status = do
  entry ← read (λ db. require_waitlist_entry db entry_id tenant_id)
  modify (update_entry entry.id (with_status env status))
  commit
  pure (with_status env status entry)
