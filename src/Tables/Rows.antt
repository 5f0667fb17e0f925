-- ===== src/Tables/Rows.antt =====
-- app/models: businesses, customers, services, staff and their schedules.
use appointment_voice_saas.Common.{ℕ, String, Bool, Option}

pub record Business : Type 0 where
  pub id : ℕ
  pub tenant_id : ℕ
  pub name : String
  pub timezone : String
  pub owner_notification_phone : Option String
  pub language : String
  pub transfer_phone_number : Option String
  pub transfer_enabled : Bool
  pub transfer_destination_policy : String
  pub booking_mode : String
  pub external_booking_url : Option String
  pub external_booking_label : Option String

pub record Customer : Type 0 where
  pub id : ℕ
  pub tenant_id : ℕ
  pub business_id : ℕ
  pub phone : String
  pub phone_normalized : String
  pub name : Option String

pub record Client : Type 0 where
  pub id : ℕ
  pub tenant_id : ℕ
  pub business_id : ℕ
  pub customer_id : Option ℕ
  pub name : String
  pub email : Option String
  pub phone : Option String
  pub notes : Option String

pub record Service : Type 0 where
  pub id : ℕ
  pub tenant_id : ℕ
  pub business_id : ℕ
  pub name : String
  pub duration_minutes : ℕ
  pub currency : Option String
  pub deposit_required : Bool
  pub deposit_minor_units : Option ℕ
  pub is_active : Bool

pub record Staff : Type 0 where
  pub id : ℕ
  pub tenant_id : ℕ
  pub business_id : ℕ
  pub name : String
  pub phone : Option String
  pub is_active : Bool

pub record WorkingHours : Type 0 where
  pub id : ℕ
  pub tenant_id : ℕ
  pub business_id : ℕ
  pub staff_id : Option ℕ
  pub day_of_week : ℕ
  pub start_time : ℕ
  pub end_time : ℕ

pub record AvailabilityException : Type 0 where
  pub id : ℕ
  pub tenant_id : ℕ
  pub business_id : ℕ
  pub staff_id : Option ℕ
  pub date : ℕ
  pub is_closed : Bool
  pub start_time : Option ℕ
  pub end_time : Option ℕ

pub record RecurringStaffBlock : Type 0 where
  pub id : ℕ
  pub tenant_id : ℕ
  pub business_id : ℕ
  pub staff_id : Option ℕ
  pub day_of_week : ℕ
  pub start_time : ℕ
  pub end_time : ℕ
