-- ===== src/Voice/Moves/Selections.antt =====
-- The handlers of the services and of the staff members, against the moves of a call.
use appointment_voice_saas.Common.{
  ℕ, ◌<◌, ◌≡◌, String, Option, none, some, Bool, true, false, List, [], ◌∷◌, take, if◌then◌else◌,
  same_text,
}
use appointment_voice_saas.Tables.{Service, Staff, VoiceSession, IvrStep}
use appointment_voice_saas.Session.Keeps.{Keeps, keeps_rules, Keeps-bind}
use appointment_voice_saas.Env.{Env}
use appointment_voice_saas.Voice.Steps.{is_terminal, chosen}
use appointment_voice_saas.Voice.Menus.{
  offer_slots, proceed_to_slot_search, with_staff, offer_staff, choose_service, select_service,
  handle_service_selection, choose_staff, handle_staff_selection,
}
use appointment_voice_saas.Voice.Moves.{Edge, Heard}
use appointment_voice_saas.Voice.Moves.Handlers.{
  P, Keeps-Heard, Keeps-goes_to, Keeps-ends_in, Keeps-handle_invalid_key,
}
use appointment_voice_saas.Voice.Moves.Menus.{from_step}

module _ (env : Env) (v : VoiceSession) (rows : List VoiceSession)
    (in_time : env.now < v.expires_at) (live : is_terminal v.step ≡ false) where
  module _ (to_none : Edge v.step IvrStep.no_slots)
      (to_slots : Edge v.step IvrStep.slot_selection) where
    Keeps-offer_slots :
        (u : VoiceSession) (service : Service) (slots : List (ℕ × ℕ))
        → Heard v u
        → Keeps (P env v rows) (offer_slots env u service slots)
    Keeps-offer_slots u service [] h = search (Keeps-ends_in)
    Keeps-offer_slots u service (slot ∷ slots) h = search (keeps_rules, Keeps-goes_to)

    Keeps-proceed :
        (u : VoiceSession) (service : Service)
        → Heard v u
        → Keeps (P env v rows) (proceed_to_slot_search env u service)
    unfolding proceed_to_slot_search
    Keeps-proceed u service h =
        Keeps-bind _ _ (Keeps-Heard env v rows in_time live u h)
          λ _. Keeps-bind _ _ (search keeps_rules) λ slots. Keeps-offer_slots u service slots h

  Keeps-offer_staff :
      (u : VoiceSession) (service : Service) (members : List Staff)
      → Heard v u
      → v.step ≡ IvrStep.service_selection
      → Keeps (P env v rows) (offer_staff env u service members)
  Keeps-offer_staff u service [] h at_step =
      Keeps-proceed (from_step at_step Edge.services_gone) (from_step at_step Edge.offers_slots) _
        service h
  Keeps-offer_staff u service (m ∷ []) h at_step =
      Keeps-proceed (from_step at_step Edge.services_gone) (from_step at_step Edge.offers_slots) _
        service h
  Keeps-offer_staff u service (m ∷ (n ∷ more)) h at_step =
      let e : Edge v.step IvrStep.staff_selection = from_step at_step Edge.asks_for_staff in
      search (keeps_rules, Keeps-goes_to)

  Keeps-choose_service :
      (u : VoiceSession) (services : List Service) (choice : Option Service)
      → Heard v u
      → v.step ≡ IvrStep.service_selection
      → Keeps (P env v rows) (choose_service env u services choice)
  Keeps-choose_service u services none h at_step =
      Keeps-handle_invalid_key env v rows in_time live u _ h
  Keeps-choose_service u services (some service) h at_step =
      Keeps-bind _ _ (search keeps_rules) λ members. Keeps-offer_staff _ service members h at_step

  Keeps-select_service :
      (u : VoiceSession) (key : String) (services : List Service)
      → Heard v u
      → v.step ≡ IvrStep.service_selection
      → Keeps (P env v rows) (select_service env u key services)
  Keeps-select_service u key [] h at_step =
      Keeps-ends_in env v rows in_time live _ u _ h (from_step at_step Edge.services_gone)
  Keeps-select_service u key (s ∷ services) h at_step =
      Keeps-choose_service u (s ∷ services) (chosen env key (take 9 (s ∷ services))) h at_step

  pub Keeps-handle_service_selection :
      (u : VoiceSession) (key : String)
      → Heard v u
      → v.step ≡ IvrStep.service_selection
      → Keeps (P env v rows) (handle_service_selection env u key)
  unfolding handle_service_selection
  Keeps-handle_service_selection u key h at_step =
      Keeps-bind _ _ (search keeps_rules) λ services. Keeps-select_service u key services h at_step

  pub Keeps-handle_staff_selection :
      (u : VoiceSession) (key : String)
      → Heard v u
      → v.step ≡ IvrStep.staff_selection
      → Keeps (P env v rows) (handle_staff_selection env u key)
  unfolding handle_staff_selection
  Keeps-handle_staff_selection u key h at_step = Keeps-bind _ _ (search keeps_rules) λ service.
      Keeps-bind _ _ (search keeps_rules)
        λ members. by_key service members (same_text key "0") (chosen env key (take 9 members.0))
    where
      proceed :
          (staff_id : Option ℕ) (service : Service)
          → Keeps (P env v rows) (proceed_to_slot_search env (with_staff staff_id u) service)
      proceed staff_id service =
          Keeps-proceed (from_step at_step Edge.staff_has_none)
            (from_step at_step Edge.staff_has_slots) _ service h

      by_key :
          (service : Service) (members : List Staff × Option ℕ) (any : Bool) (choice : Option Staff)
          → Keeps (P env v rows) (
              if any
              then proceed_to_slot_search env (with_staff none u) service
              else choose_staff env u service members choice)
      by_key service members true choice = proceed none service
      by_key service members false none = Keeps-handle_invalid_key env v rows in_time live u _ h
      by_key service members false (some m) = proceed (some m.id) service
