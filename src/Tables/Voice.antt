-- ===== src/Tables/Voice.antt =====
-- app/models/voice_session.py: a phone call and where it stands in its menus.
use appointment_voice_saas.Common.{ℕ, String, Option, List}

pub data IvrStep : Type 0 where
  incoming service_selection staff_selection slot_selection : IvrStep
  booking_confirmed no_slots expired abandoned transfer_unavailable external_link_sent : IvrStep
  manage_booking reschedule_slot_selection booking_cancelled : IvrStep

-- `slot_candidates` is the list that its JSON text encodes: the start and the end of each slot.
pub record VoiceSession : Type 0 where
  pub id : ℕ
  pub tenant_id : ℕ
  pub business_id : ℕ
  pub caller_phone : String
  pub step : IvrStep
  pub locale : String
  pub selected_service_id : Option ℕ
  pub selected_staff_id : Option ℕ
  pub selected_slot_start : Option ℕ
  pub selected_slot_end : Option ℕ
  pub booking_id : Option ℕ
  pub managed_booking_id : Option ℕ
  pub slot_candidates : Option (List (ℕ × ℕ))
  pub no_input_count : ℕ
  pub invalid_key_count : ℕ
  pub transfer_destination : Option String
  pub expires_at : ℕ
