-- ===== src/Voice/Moves/Choices.antt =====
-- The handlers that book, cancel and move a booking, against the moves of a call.
use mathlib.Core.Path.{subst}
use appointment_voice_saas.Common.{
  ℕ, ◌<◌, ◌≡◌, refl, inl, inr, ◌==◌, ◌&&◌, find_by, String, Option, none, some, Bool, true, false,
  List, [], ◌∷◌, if◌then◌else◌, same_text,
}
use appointment_voice_saas.Tables.{Db, Booking, VoiceSession, IvrStep}
use appointment_voice_saas.Session.Keeps.{
  Keeps, keeps_rules, Keeps-bind, Keeps-raise, Keeps-read-bind, Keeps-commit,
}
use appointment_voice_saas.Env.{Env}
use appointment_voice_saas.Customers.{get_or_create_customer}
use appointment_voice_saas.Customers.Keeps.{Keeps-get_or_create_customer}
use appointment_voice_saas.Booking.Cancel.{cancel_booking}
use appointment_voice_saas.Booking.Invariance.{
  Keeps-create_booking, Keeps-cancel_booking, Keeps-reschedule_booking,
}
use appointment_voice_saas.Errors.{ok}
use appointment_voice_saas.Voice.Steps.{is_terminal, chosen, goes_to}
use appointment_voice_saas.Voice.Menus.{back_to_menu}
use appointment_voice_saas.Voice.Choices.{
  with_count_of, reloaded, booked, book, book_slot, choose_slot, select_slot, handle_slot_selection,
  lineage, reschedule_managed, move_to_slot, choose_new_slot, select_new_slot,
  handle_reschedule_slot_selection, cancel_managed, offer_new_slots, start_reschedule,
  invalid_in_manage, handle_manage_booking,
}
use appointment_voice_saas.Voice.Moves.{Edge, Heard, Press, walks, books_late, Count, Counted}
use appointment_voice_saas.Voice.Moves.Handlers.{
  P, Q-StableBeside, Keeps-save, Keeps-answer, Keeps-goes_to, Keeps-ends_in,
  Keeps-handle_invalid_key,
}
use appointment_voice_saas.Voice.Moves.Menus.{from_step, Keeps-back_to_menu}

module _ (env : Env) (v : VoiceSession) (rows : List VoiceSession) where
  Keeps-caller :
      (t b : ℕ) (phone : String) (name : Option String)
      → Keeps (P env v rows) (get_or_create_customer env t b phone name)
  Keeps-caller t b phone name =
      Keeps-get_or_create_customer (record { free = λ customers db h. h }) env t b phone name

  Keeps-book :
      (u : VoiceSession) (customer_id : ℕ) (service_id : Option ℕ) (starts_at : ℕ)
      → Keeps (P env v rows) (book env u customer_id service_id starts_at)
  Keeps-book u customer_id none starts_at = Keeps-raise _
  Keeps-book u customer_id (some service_id) starts_at =
      Keeps-create_booking (Q-StableBeside env v rows) _ none false none

  Keeps-reschedule_managed :
      (u : VoiceSession) (booking_id : Option ℕ) (starts_at : ℕ)
      → Keeps (P env v rows) (reschedule_managed env u booking_id starts_at)
  Keeps-reschedule_managed u none starts_at = Keeps-raise _
  Keeps-reschedule_managed u (some booking_id) starts_at =
      Keeps-reschedule_booking (Q-StableBeside env v rows) lineage booking_id u.business_id
        u.tenant_id starts_at _ none "ivr"

  Keeps-cancel :
      (i b t : ℕ) (reason : Option String)
      → Keeps (P env v rows) (cancel_booking env i b t reason none false)
  Keeps-cancel i b t reason =
      Keeps-cancel_booking (Q-StableBeside env v rows) i b t reason none false

-- The row of a call that a caller has booked in, as it was loaded again.
reloaded_lem :
    (v u : VoiceSession) (db : Db)
    → Heard v u
    → Counted v db.voice_sessions
    → Count v (reloaded u db).no_input_count
      × (reloaded u db ≡ record u { no_input_count = (reloaded u db).no_input_count })
reloaded_lem v u db h counted = by_row _ refl
  where
    by_row :
        (o : Option VoiceSession)
        → find_by
            (λ (c : VoiceSession). c.id == u.id && c.tenant_id == u.tenant_id)
            db.voice_sessions
          ≡ o
        → Count v (with_count_of u o).no_input_count
          × (with_count_of u o ≡ record u { no_input_count = (with_count_of u o).no_input_count })
    by_row none e = (inl h.2, refl)
    by_row (some row) e =
        let id_too : u.id ≡ v.id = h.0.0 in
        let tenant_too : u.tenant_id ≡ v.tenant_id = h.0.1 in
        (counted row (rw (id_too, tenant_too) at e), refl)

module _ (env : Env) (v : VoiceSession) (rows : List VoiceSession)
    (in_time : env.now < v.expires_at) (live : is_terminal v.step ≡ false) where
  Keeps-confirmed :
      (u : VoiceSession) (db : Db) (b : Booking) (starts_at ends_at : ℕ)
      → Heard v u
      → v.step ≡ IvrStep.slot_selection
      → Counted v db.voice_sessions
      → Keeps
          (P env v rows)
          (goes_to IvrStep.booking_confirmed (booked (reloaded u db) b starts_at ends_at))
  unfolding goes_to
  Keeps-confirmed u db b starts_at ends_at h at_step counted =
      let (count, same) = reloaded_lem v u db h counted in
      rw same (
        Keeps-bind _ _
          (Keeps-save env v rows _
            (record { was_live = live; same_call = h.0; by_press = by_count count }) count)
          (λ _. Keeps-commit))
    where
      now_confirmed : ℕ → VoiceSession
      now_confirmed n = record (booked (record u { no_input_count = n }) b starts_at ends_at) {
        step = IvrStep.booking_confirmed;
      }

      by_count : {n : ℕ} → Count v n → Press env.now v (now_confirmed n)
      by_count (inl zero_now) = walks in_time (from_step at_step Edge.confirms) zero_now h.3
      by_count (inr as_before) = books_late in_time at_step refl as_before h.3

  Keeps-book_slot :
      (u : VoiceSession) (slot : ℕ × ℕ)
      → Heard v u
      → v.step ≡ IvrStep.slot_selection
      → Keeps (P env v rows) (book_slot env u slot)
  unfolding book_slot
  Keeps-book_slot u (starts_at, ends_at) h at_step =
      Keeps-bind _ _ (Keeps-caller env v rows _ _ _ _) λ customer.
        Keeps-read-bind _ _ λ db current kept found.
          Keeps-bind _ _ (Keeps-book env v rows u customer.id _ starts_at) λ b.
            Keeps-bind _ _
              (subst
                (λ (c : VoiceSession).
                  Keeps (P env v rows)
                    (goes_to IvrStep.booking_confirmed (booked c b starts_at ends_at)))
                (same_row _ _ found) (Keeps-confirmed u db b starts_at ends_at h at_step kept.1))
              (λ _. Keeps-answer _)
    where
      same_row : (a c : VoiceSession) → ok a ≡ ok c → a ≡ c
      same_row a c e = cc

  Keeps-select_slot :
      (u : VoiceSession) (key : String) (candidates : Option (List (ℕ × ℕ)))
      → Heard v u
      → v.step ≡ IvrStep.slot_selection
      → Keeps (P env v rows) (select_slot env u key candidates)
  Keeps-select_slot u key none h at_step =
      Keeps-ends_in env v rows in_time live _ u _ h (from_step at_step Edge.slots_gone)
  Keeps-select_slot u key (some candidates) h at_step = by_choice (chosen env key candidates)
    where
      by_choice :
          (choice : Option (ℕ × ℕ)) → Keeps (P env v rows) (choose_slot env u candidates choice)
      by_choice none = Keeps-handle_invalid_key env v rows in_time live u _ h
      by_choice (some slot) = Keeps-book_slot u slot h at_step

  pub Keeps-handle_slot_selection :
      (u : VoiceSession) (key : String)
      → Heard v u
      → v.step ≡ IvrStep.slot_selection
      → Keeps (P env v rows) (handle_slot_selection env u key)
  unfolding handle_slot_selection
  Keeps-handle_slot_selection u key h at_step = Keeps-select_slot u key u.slot_candidates h at_step

  Keeps-move_to_slot :
      (u : VoiceSession) (slot : ℕ × ℕ)
      → Heard v u
      → v.step ≡ IvrStep.reschedule_slot_selection
      → Keeps (P env v rows) (move_to_slot env u slot)
  unfolding move_to_slot
  Keeps-move_to_slot u (starts_at, ends_at) h at_step =
      let e : Edge v.step IvrStep.booking_confirmed = from_step at_step Edge.moves in
      search (keeps_rules, Keeps-reschedule_managed, Keeps-goes_to)

  Keeps-select_new_slot :
      (u : VoiceSession) (key : String) (candidates : Option (List (ℕ × ℕ)))
      → Heard v u
      → v.step ≡ IvrStep.reschedule_slot_selection
      → Keeps (P env v rows) (select_new_slot env u key candidates)
  Keeps-select_new_slot u key none h at_step =
      Keeps-ends_in env v rows in_time live _ u _ h (from_step at_step Edge.new_slots_gone)
  Keeps-select_new_slot u key (some candidates) h at_step = by_choice (chosen env key candidates)
    where
      by_choice :
          (choice : Option (ℕ × ℕ)) → Keeps (P env v rows) (choose_new_slot env u candidates choice)
      by_choice none = Keeps-handle_invalid_key env v rows in_time live u _ h
      by_choice (some slot) = Keeps-move_to_slot u slot h at_step

  pub Keeps-handle_reschedule_slot_selection :
      (u : VoiceSession) (key : String)
      → Heard v u
      → v.step ≡ IvrStep.reschedule_slot_selection
      → Keeps (P env v rows) (handle_reschedule_slot_selection env u key)
  unfolding handle_reschedule_slot_selection
  Keeps-handle_reschedule_slot_selection u key h at_step =
      Keeps-select_new_slot u key u.slot_candidates h at_step

  Keeps-cancel_managed :
      (u : VoiceSession) (booking : Booking)
      → Heard v u
      → v.step ≡ IvrStep.manage_booking
      → Keeps (P env v rows) (cancel_managed env u booking)
  unfolding cancel_managed
  Keeps-cancel_managed u booking h at_step =
      let e : Edge v.step IvrStep.booking_cancelled = from_step at_step Edge.cancels in
      search (keeps_rules, Keeps-cancel, Keeps-ends_in)

  Keeps-offer_new_slots :
      (u : VoiceSession) (slots : List (ℕ × ℕ))
      → Heard v u
      → v.step ≡ IvrStep.manage_booking
      → Keeps (P env v rows) (offer_new_slots env u slots)
  Keeps-offer_new_slots u [] h at_step =
      Keeps-ends_in env v rows in_time live _ u _ h (from_step at_step Edge.none_to_move_to)
  Keeps-offer_new_slots u (slot ∷ slots) h at_step =
      let e : Edge v.step IvrStep.reschedule_slot_selection =
        from_step at_step Edge.offers_new_slots in
      search (keeps_rules, Keeps-goes_to)

  Keeps-start_reschedule :
      (u : VoiceSession) (booking : Booking)
      → Heard v u
      → v.step ≡ IvrStep.manage_booking
      → Keeps (P env v rows) (start_reschedule env u booking)
  unfolding start_reschedule
  Keeps-start_reschedule u booking h at_step =
      Keeps-bind _ _ (search keeps_rules) λ slots. Keeps-offer_new_slots u slots h at_step

  Keeps-invalid_in_manage :
      (u : VoiceSession) (booking : Booking)
      → Heard v u
      → Keeps (P env v rows) (invalid_in_manage env u booking)
  Keeps-invalid_in_manage u booking h = search (keeps_rules, Keeps-handle_invalid_key)

  pub Keeps-handle_manage_booking :
      (u : VoiceSession) (key : String)
      → Heard v u
      → v.step ≡ IvrStep.manage_booking
      → Keeps (P env v rows) (handle_manage_booking env u key)
  unfolding handle_manage_booking
  Keeps-handle_manage_booking u key h at_step =
      Keeps-bind _ _ (search keeps_rules)
        λ booking. by_key booking (same_text key "1") (same_text key "2") (same_text key "3")
    where
      by_key :
          (booking : Booking) (one two three : Bool)
          → Keeps (P env v rows) (
              if one
              then cancel_managed env u booking
              else if two
              then start_reschedule env u booking
              else if three
              then back_to_menu u
              else invalid_in_manage env u booking)
      by_key booking true two three = Keeps-cancel_managed u booking h at_step
      by_key booking false true three = Keeps-start_reschedule u booking h at_step
      by_key booking false false true =
          Keeps-back_to_menu env v rows in_time live u h (from_step at_step Edge.leaves)
      by_key booking false false false = Keeps-invalid_in_manage u booking h
