-- ===== src/Voice/Moves/Menus.antt =====
-- The handlers of the main menu, and the way back to it, against the moves of a call.
use mathlib.Core.Path.{subst}
use appointment_voice_saas.Common.{
  ℕ, ◌<◌, ◌≡◌, sym, String, Option, none, some, Bool, true, false, List, [], ◌∷◌, if◌then◌else◌,
  same_text,
}
use appointment_voice_saas.Tables.{Business, Service, Booking, VoiceSession, IvrStep}
use appointment_voice_saas.Session.Keeps.{Keeps, keeps_rules, Keeps-bind, Keeps-modify}
use appointment_voice_saas.Env.{Env}
use appointment_voice_saas.Outbox.{insert_intent, enqueue_send_notification_job}
use appointment_voice_saas.Outbox.Reminders.{enqueue_external_booking_link_sms}
use appointment_voice_saas.Voice.Responses.{is_external}
use appointment_voice_saas.Voice.Prompts.{PromptKey}
use appointment_voice_saas.Voice.Steps.{is_terminal, handle_invalid_key, press_1_menu}
use appointment_voice_saas.Voice.Menus.{
  handle_press1_external, offer_services, handle_press1_internal, no_transfer, transfer_to,
  handle_transfer_request, manage, handle_manage_booking_request, press1, invalid_in_menu,
  handle_incoming, back_to_menu, handle_transfer_unavailable,
}
use appointment_voice_saas.Voice.Moves.{Edge, Heard}
use appointment_voice_saas.Voice.Moves.Handlers.{
  P, Keeps-goes_to, Keeps-ends_in, Keeps-handle_invalid_key,
}

pub from_step : {a b c : IvrStep} → a ≡ b → Edge b c → Edge a c
from_step {c} same e = subst (λ step. Edge step c) (sym same) e

module _ (env : Env) (v : VoiceSession) (rows : List VoiceSession) where
  Keeps-external_link :
      (business : Business) (phone url : String) (label : Option String)
      → Keeps (P env v rows) (enqueue_external_booking_link_sms env business phone url label)
  unfolding enqueue_external_booking_link_sms insert_intent
  Keeps-external_link business phone url label = search (keeps_rules, Keeps-modify) depth 12

  Keeps-send : (id : ℕ) → Keeps (P env v rows) (enqueue_send_notification_job id)
  unfolding enqueue_send_notification_job
  Keeps-send id = search keeps_rules

module _ (env : Env) (v : VoiceSession) (rows : List VoiceSession)
    (in_time : env.now < v.expires_at) (live : is_terminal v.step ≡ false) where
  Keeps-handle_press1_external :
      (u : VoiceSession) (business : Business)
      → Heard v u
      → v.step ≡ IvrStep.incoming
      → Keeps (P env v rows) (handle_press1_external env u business)
  unfolding handle_press1_external
  Keeps-handle_press1_external u business h at_menu =
      let e : Edge v.step IvrStep.external_link_sent = from_step at_menu Edge.sends_link in
      search (keeps_rules, Keeps-external_link, Keeps-send, Keeps-goes_to) depth 10

  Keeps-offer_services :
      (u : VoiceSession) (services : List Service)
      → Heard v u
      → v.step ≡ IvrStep.incoming
      → Keeps (P env v rows) (offer_services u services)
  Keeps-offer_services u [] h at_menu =
      let e : Edge v.step IvrStep.no_slots = from_step at_menu Edge.no_services in
      search (Keeps-ends_in)
  Keeps-offer_services u (s ∷ services) h at_menu =
      let e : Edge v.step IvrStep.service_selection = from_step at_menu Edge.books in
      search (keeps_rules, Keeps-goes_to)

  Keeps-no_transfer :
      (u : VoiceSession) (key : PromptKey)
      → Heard v u
      → v.step ≡ IvrStep.incoming
      → Keeps (P env v rows) (no_transfer u key)
  Keeps-no_transfer u key h at_menu =
      let e : Edge v.step IvrStep.transfer_unavailable = from_step at_menu Edge.cannot_transfer in
      search (keeps_rules, Keeps-goes_to)

  Keeps-transfer_to :
      (u : VoiceSession) (destination : Option String)
      → Heard v u
      → v.step ≡ IvrStep.incoming
      → Keeps (P env v rows) (transfer_to u destination)
  Keeps-transfer_to u none h at_menu = Keeps-no_transfer u _ h at_menu
  Keeps-transfer_to u (some destination) h at_menu =
      let e : Edge v.step IvrStep.abandoned = from_step at_menu Edge.transfers in
      search (keeps_rules, Keeps-goes_to)

  Keeps-handle_transfer_request :
      (u : VoiceSession)
      → Heard v u
      → v.step ≡ IvrStep.incoming
      → Keeps (P env v rows) (handle_transfer_request u)
  unfolding handle_transfer_request
  Keeps-handle_transfer_request u h at_menu = Keeps-bind _ _ (search keeps_rules) λ business.
      Keeps-bind _ _ (search keeps_rules)
        λ destination. by_flag business.transfer_enabled destination
    where
      by_flag :
          (enabled : Bool) (destination : Option String)
          → Keeps (P env v rows) (
              if enabled
              then transfer_to u destination
              else no_transfer u PromptKey.transfer_disabled)
      by_flag true destination = Keeps-transfer_to u destination h at_menu
      by_flag false destination = Keeps-no_transfer u _ h at_menu

  Keeps-manage :
      (u : VoiceSession) (booking : Option Booking)
      → Heard v u
      → v.step ≡ IvrStep.incoming
      → Keeps (P env v rows) (manage env u booking)
  Keeps-manage u none h at_menu = search keeps_rules depth 10
  Keeps-manage u (some booking) h at_menu =
      let e : Edge v.step IvrStep.manage_booking = from_step at_menu Edge.manages in
      search (keeps_rules, Keeps-goes_to)

  Keeps-press1 :
      (u : VoiceSession)
      → Heard v u
      → v.step ≡ IvrStep.incoming
      → Keeps (P env v rows) (press1 env u)
  unfolding handle_press1_internal
  Keeps-press1 u h at_menu =
      Keeps-bind _ _ (search keeps_rules)
        λ business. by_mode business (is_external business.booking_mode)
    where
      internal : Keeps (P env v rows) (handle_press1_internal u)
      internal =
          Keeps-bind _ _ (search keeps_rules) λ services. Keeps-offer_services u services h at_menu

      by_mode :
          (business : Business) (external : Bool)
          → Keeps
              (P env v rows)
              (if external then handle_press1_external env u business else handle_press1_internal u)
      by_mode business true = Keeps-handle_press1_external u business h at_menu
      by_mode business false = internal

  Keeps-manage_request :
      (u : VoiceSession)
      → Heard v u
      → v.step ≡ IvrStep.incoming
      → Keeps (P env v rows) (handle_manage_booking_request env u)
  unfolding handle_manage_booking_request
  Keeps-manage_request u h at_menu =
      Keeps-bind _ _ (search keeps_rules) λ booking. Keeps-manage u booking h at_menu

  Keeps-invalid_in_menu : (u : VoiceSession) → Heard v u → Keeps (P env v rows) (invalid_in_menu u)
  Keeps-invalid_in_menu u h = search (keeps_rules, Keeps-handle_invalid_key)

  pub Keeps-handle_incoming :
      (u : VoiceSession) (key : String)
      → Heard v u
      → v.step ≡ IvrStep.incoming
      → Keeps (P env v rows) (handle_incoming env u key)
  unfolding handle_incoming
  Keeps-handle_incoming u key h at_menu =
      by_key (same_text key "1") (same_text key "2") (same_text key "3")
    where
      by_key :
          (one two three : Bool)
          → Keeps (P env v rows) (
              if one
              then press1 env u
              else if two
              then handle_transfer_request u
              else if three
              then handle_manage_booking_request env u
              else invalid_in_menu u)
      by_key true two three = Keeps-press1 u h at_menu
      by_key false true three = Keeps-handle_transfer_request u h at_menu
      by_key false false true = Keeps-manage_request u h at_menu
      by_key false false false = Keeps-invalid_in_menu u h

  pub Keeps-back_to_menu :
      (u : VoiceSession)
      → Heard v u
      → Edge v.step IvrStep.incoming
      → Keeps (P env v rows) (back_to_menu u)
  unfolding back_to_menu
  Keeps-back_to_menu u h e = search (keeps_rules, Keeps-goes_to)

  pub Keeps-handle_transfer_unavailable :
      (u : VoiceSession) (key : String)
      → Heard v u
      → v.step ≡ IvrStep.transfer_unavailable
      → Keeps (P env v rows) (handle_transfer_unavailable u key)
  unfolding handle_transfer_unavailable
  Keeps-handle_transfer_unavailable u key h at_step = by_key (same_text key "1")
    where
      by_key :
          (one : Bool)
          → Keeps
              (P env v rows)
              (if one then back_to_menu u else handle_invalid_key u (press_1_menu u))
      by_key true = Keeps-back_to_menu u h (from_step at_step Edge.returns)
      by_key false = Keeps-handle_invalid_key env v rows in_time live u _ h
