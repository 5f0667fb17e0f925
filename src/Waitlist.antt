-- ===== src/Waitlist.antt =====
-- app/services/waitlist_service.py: who is offered a slot that has become free.
pub mod Entries
pub mod Expiry
use appointment_voice_saas.Common.{
  ℕ, Option, none, some, List, [], ◌∷◌, Bool, not, ◌&&◌, ◌||◌, ◌==◌, leb, is_id, is_none, filter_by,
  update_where, if◌then◌else◌,
}
use appointment_voice_saas.Tables.{Db, WaitlistEntry, WaitlistEntryStatus, is_waiting}
use appointment_voice_saas.Env.{Env}

-- Who takes a slot of this staff member: those with no preference, and those who asked for them.
abbrev pub wants_slot_of : Option ℕ → Option ℕ → Bool
wants_slot_of none preference = is_none preference
wants_slot_of (some staff_id) preference = is_none preference || is_id preference staff_id

-- The filter of `find_matching_waitlist_entries`.
unfoldable pub matches_slot : ℕ → ℕ → ℕ → ℕ → Option ℕ → WaitlistEntry → Bool
matches_slot business_id tenant_id service_id desired_date staff_id e =
    e.business_id == business_id
    && e.tenant_id == tenant_id
    && e.service_id == service_id
    && e.desired_date == desired_date
    && is_waiting e.status
    && wants_slot_of staff_id e.staff_id

unfoldable pub insert_by_age : WaitlistEntry → List WaitlistEntry → List WaitlistEntry
insert_by_age e [] = e ∷ []
insert_by_age e (x ∷ xs) =
    let later = insert_by_age e xs in
    if leb e.created_at x.created_at then e ∷ x ∷ xs else x ∷ later

-- ORDER BY created_at ASC
unfoldable pub order_by_created_at : List WaitlistEntry → List WaitlistEntry
unfolding insert_by_age
order_by_created_at [] = []
order_by_created_at (e ∷ rest) = insert_by_age e (order_by_created_at rest)

abbrev pub limit_one : List WaitlistEntry → List WaitlistEntry
limit_one [] = []
limit_one (e ∷ rest) = e ∷ []

-- With `for_update`, rows that another transaction has locked are skipped and at most one row is
-- taken.
unfoldable pub find_matching_waitlist_entries :
    Env → Db → ℕ → ℕ → ℕ → ℕ → Option ℕ → Bool → List WaitlistEntry
unfolding order_by_created_at matches_slot
find_matching_waitlist_entries env db business_id tenant_id service_id desired_date staff_id
      for_update =
    let rows =
      filter_by (matches_slot business_id tenant_id service_id desired_date staff_id) db.waitlist in
    if for_update
    then limit_one
        (order_by_created_at (filter_by (λ (e : WaitlistEntry). not (env.is_locked e.id)) rows))
    else order_by_created_at rows

-- entry.status = OFFERED; entry.offered_for_staff_id = ... (updated_at follows by onupdate)
abbrev pub offer_entry : Env → ℕ → Option ℕ → Db → Db
offer_entry env entry_id staff_id db = record db {
  waitlist =
      update_where (λ (e : WaitlistEntry). e.id == entry_id)
        (λ (e : WaitlistEntry). record e {
          status = WaitlistEntryStatus.offered;
          offered_for_staff_id = staff_id;
          updated_at = env.now;
        })
        db.waitlist;
}
