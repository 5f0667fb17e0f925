-- ===== src/Lookups.antt =====
-- The tenant-scoped reads of app/services/{business,customer,service,staff,client}_service.py.
use appointment_voice_saas.Common.{
  ℕ, String, Option, none, some, List, Bool, false, not, ◌&&◌, ◌||◌, ◌==◌, leb, find_by, filter_by,
  order_by, page, all_chars,
}
use appointment_voice_saas.Tables.{Db, Business, Customer, Service, Staff}
use appointment_voice_saas.Errors.{Result, ok, not_found, or_raise, require_that, ◌>>=◌, ◌>>◌}

unfoldable pub get_business : Db → ℕ → ℕ → Option Business
get_business db business_id tenant_id =
    find_by (λ (b : Business). b.id == business_id && b.tenant_id == tenant_id) db.businesses

unfoldable pub require_business : Db → ℕ → ℕ → Result Business
unfolding get_business
require_business db business_id tenant_id =
    or_raise (get_business db business_id tenant_id) (not_found "Business not found")

unfoldable pub get_customer : Db → ℕ → ℕ → Option Customer
get_customer db customer_id tenant_id =
    find_by (λ (c : Customer). c.id == customer_id && c.tenant_id == tenant_id) db.customers

unfoldable pub require_customer : Db → ℕ → ℕ → Result Customer
unfolding get_customer
require_customer db customer_id tenant_id =
    or_raise (get_customer db customer_id tenant_id) (not_found "Customer not found")

unfoldable pub require_customer_in_business : Db → ℕ → ℕ → ℕ → Result Customer
unfolding require_customer
require_customer_in_business db customer_id business_id tenant_id = do
  customer ← require_customer db customer_id tenant_id
  require_that (customer.business_id == business_id) (not_found "Customer not found")
  ok customer

unfoldable pub get_service : Db → ℕ → ℕ → Option Service
get_service db service_id tenant_id =
    find_by (λ (s : Service). s.id == service_id && s.tenant_id == tenant_id) db.services

unfoldable pub require_service : Db → ℕ → ℕ → Result Service
unfolding get_service
require_service db service_id tenant_id =
    or_raise (get_service db service_id tenant_id) (not_found "Service not found")

unfoldable pub require_service_in_business : Db → ℕ → ℕ → ℕ → Result Service
unfolding require_service
require_service_in_business db service_id business_id tenant_id = do
  svc ← require_service db service_id tenant_id
  require_that (svc.business_id == business_id) (not_found "Service not found")
  ok svc

unfoldable pub get_staff : Db → ℕ → ℕ → Option Staff
get_staff db staff_id tenant_id =
    find_by (λ (m : Staff). m.id == staff_id && m.tenant_id == tenant_id) db.staff

unfoldable pub require_staff : Db → ℕ → ℕ → Result Staff
unfolding get_staff
require_staff db staff_id tenant_id =
    or_raise (get_staff db staff_id tenant_id) (not_found "Staff member not found")

unfoldable pub require_staff_in_business : Db → ℕ → ℕ → ℕ → Result Staff
unfolding require_staff
require_staff_in_business db staff_id business_id tenant_id = do
  member ← require_staff db staff_id tenant_id
  require_that (member.business_id == business_id) (not_found "Staff member not found")
  ok member

unfoldable pub list_services : Db → ℕ → ℕ → Bool → ℕ → ℕ → List Service
list_services db business_id tenant_id include_inactive skip limit = page skip limit (
    order_by (λ (s t : Service). leb s.id t.id)
      (filter_by
        (λ (s : Service).
          s.business_id == business_id
          && s.tenant_id == tenant_id
          && (include_inactive || s.is_active))
        db.services))

unfoldable pub list_staff : Db → ℕ → ℕ → Bool → ℕ → ℕ → List Staff
list_staff db business_id tenant_id include_inactive skip limit = page skip limit (
    order_by (λ (m n : Staff). leb m.id n.id)
      (filter_by
        (λ (m : Staff).
          m.business_id == business_id
          && m.tenant_id == tenant_id
          && (include_inactive || m.is_active))
        db.staff))

-- `phone IS NOT NULL AND trim(phone) != ''`: SQL's trim removes blanks only.
abbrev pub has_phone : Option String → Bool
has_phone none = false
has_phone (some phone) = not (all_chars (λ c. c == 32) phone)

unfoldable pub get_eligible_transfer_staff : Db → ℕ → ℕ → ℕ → List Staff
get_eligible_transfer_staff db business_id tenant_id limit = page 0 limit (
    order_by (λ (m n : Staff). leb m.id n.id)
      (filter_by
        (λ (m : Staff).
          m.business_id == business_id
          && m.tenant_id == tenant_id
          && m.is_active
          && has_phone m.phone)
        db.staff))
